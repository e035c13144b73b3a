-- ===== src/Tests/Certificates.antt =====
-- A certificate that cannot be signed. The world is the number of keys and certificates.
use r_exasol.Base.{Option, err, false, none, pos, refl, some, true, ℕ, ◌+◌, ◌-◌, ◌≡◌}
use r_exasol.Certificate.{
  CryptoLibrary, certificate_exception, unmade, is_valid, get_certificate, mkcert, after_mkcert,
  fill_certificate, make_key, set_fields, set_names, set_extensions, add_name, add_ext, destroy,
}
use r_exasol.Certificate.Leak.{Ledger, get_certificate-leaks}

abbrev one_less : Option ℕ → ℕ → ℕ
one_less none w = w
one_less (some x) w = w - 1

abbrev unsigning : CryptoLibrary ℕ
unsigning = record {
  pkey_new = λ w. (some 1, w + 1);
  x509_new = λ w. (some 2, w + 1);
  rsa_new = λ w. (some 3, w);
  bn_new = λ w. (some 4, w);
  bn_set_rsa_f4 = λ bn w. w;
  bn_free = λ bn w. w;
  rsa_generate_key = λ rsa bits bn w. (true, w);
  assign_rsa = λ pk rsa w. (true, w);
  set_version = λ x n w. w;
  set_serial = λ x n w. w;
  set_not_before = λ x n w. w;
  set_not_after = λ x n w. w;
  set_pubkey = λ x pk w. w;
  add_name_entry = λ x field kind bytes w. (pos 1, w);
  set_issuer_to_subject = λ x w. w;
  make_extension = λ x nid value w. (some 5, w);
  add_extension = λ x ex w. w;
  free_extension = λ ex w. w;
  sign_md5 = λ x pk w. (false, w);
  x509_free = λ x w. one_less x w;
  pkey_free = λ pk w. one_less pk w;
  use_certificate = λ ctx x w. (pos 1, w);
  use_private_key = λ ctx pk w. (pos 1, w);
}

abbrev unsigning-Ledger : Ledger unsigning
unsigning-Ledger = record {
  live = λ w. w;
  pkey_made = λ w. refl;
  x509_made = λ w. refl;
  rsa_made = λ w. refl;
  bn_made = λ w. refl;
  bn_set = λ bn w. refl;
  bn_freed = λ bn w. refl;
  key_generated = λ rsa bn bits w. refl;
  rsa_assigned = λ pk rsa w. refl;
  version_set = λ x n w. refl;
  serial_set = λ x n w. refl;
  not_before_set = λ x n w. refl;
  not_after_set = λ x n w. refl;
  pubkey_set = λ x pk w. refl;
  name_added = λ x field kind bytes w. refl;
  issuer_set = λ x w. refl;
  extension_made = λ x nid value w. refl;
  extension_added = λ x ex w. refl;
  extension_freed = λ ex w. refl;
  signed = λ x pk w. refl;
  null_x509_freed = λ w. refl;
  null_pkey_freed = λ w. refl;
}

fails_now :
    get_certificate unsigning unmade 0
    ≡ (err (certificate_exception "Cannot create X509 signature."), unmade, 2)
unfolding get_certificate is_valid mkcert after_mkcert fill_certificate make_key set_fields
    set_names set_extensions add_name add_ext
fails_now = refl

get_certificate-leaks_example :
    (unmade ≡ unmade) × (◌≡◌ {A = ℕ} 2 2) × (destroy unsigning unmade 2 ≡ 2)
get_certificate-leaks_example =
    get_certificate-leaks unsigning unsigning-Ledger
      (certificate_exception "Cannot create X509 signature.") unmade 0 2 fails_now
