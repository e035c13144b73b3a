-- ===== src/Certificate/Leak.antt =====
-- What a failed `getCertificate` leaves allocated.
use r_exasol.Base.{
  Bool, Option, Result, String, Try, ap, arith, ensure, err, false, none, ok, or_throw, some, sym,
  then_run, then_run-holds, true, ℕ, ◌*◌, ◌+◌, ◌>>=◌, ◌>>◌, ◌∙◌, ◌≡◌,
}
use r_exasol.Certificate.{
  CryptoLibrary, CertificateException, CertName, CertExtension, Nid, StringType, Certificate,
  unmade, is_valid, is_one, call, certificate_exception, certificate_field, add_name, add_ext,
  make_key, set_fields, set_names, set_extensions, fill_certificate, mkcert, after_mkcert,
  get_certificate, destroy,
}

module _ {W : Type 0} (lib : CryptoLibrary W) where
  -- A count of the keys and certificates that are allocated, where the memory suffices. The names and
  -- extensions of a certificate are part of it, and freeing the null pointer does nothing.
  pub record Ledger : Type 0 where
    pub live : W → ℕ
    pub pkey_made : (w : W) → live (lib.pkey_new w).1 ≡ live w + 1
    pub x509_made : (w : W) → live (lib.x509_new w).1 ≡ live w + 1
    pub rsa_made : (w : W) → live (lib.rsa_new w).1 ≡ live w
    pub bn_made : (w : W) → live (lib.bn_new w).1 ≡ live w
    pub bn_set : (bn : Option ℕ) (w : W) → live (lib.bn_set_rsa_f4 bn w) ≡ live w
    pub bn_freed : (bn : Option ℕ) (w : W) → live (lib.bn_free bn w) ≡ live w
    pub key_generated :
        (rsa bn : Option ℕ) (bits : ℕ) (w : W)
        → live (lib.rsa_generate_key rsa bits bn w).1 ≡ live w
    pub rsa_assigned : (pk rsa : Option ℕ) (w : W) → live (lib.assign_rsa pk rsa w).1 ≡ live w
    pub version_set : (x : Option ℕ) (n : ℕ) (w : W) → live (lib.set_version x n w) ≡ live w
    pub serial_set : (x : Option ℕ) (n : ℕ) (w : W) → live (lib.set_serial x n w) ≡ live w
    pub not_before_set : (x : Option ℕ) (n : ℕ) (w : W) → live (lib.set_not_before x n w) ≡ live w
    pub not_after_set : (x : Option ℕ) (n : ℕ) (w : W) → live (lib.set_not_after x n w) ≡ live w
    pub pubkey_set : (x pk : Option ℕ) (w : W) → live (lib.set_pubkey x pk w) ≡ live w
    pub name_added :
        (x : Option ℕ) (field : String) (kind : StringType) (bytes : String) (w : W)
        → live (lib.add_name_entry x field kind bytes w).1 ≡ live w
    pub issuer_set : (x : Option ℕ) (w : W) → live (lib.set_issuer_to_subject x w) ≡ live w
    pub extension_made :
        (x : Option ℕ) (nid : Nid) (value : String) (w : W)
        → live (lib.make_extension x nid value w).1 ≡ live w
    pub extension_added : (x : Option ℕ) (ex : ℕ) (w : W) → live (lib.add_extension x ex w) ≡ live w
    pub extension_freed : (ex : ℕ) (w : W) → live (lib.free_extension ex w) ≡ live w
    pub signed : (x pk : Option ℕ) (w : W) → live (lib.sign_md5 x pk w).1 ≡ live w
    pub null_x509_freed : (w : W) → live (lib.x509_free none w) ≡ live w
    pub null_pkey_freed : (w : W) → live (lib.pkey_free none w) ≡ live w

  -- The last steps of `fill_certificate`.
  abbrev sign_step : Option ℕ → Option ℕ → Try W CertificateException (Unit {0})
  sign_step x pk = call (lib.sign_md5 x pk) >>= λ signed.
      ensure signed (certificate_exception "Cannot create X509 signature.")

  abbrev extend_and_sign : Option ℕ → Option ℕ → Try W CertificateException (Unit {0})
  extend_and_sign x pk = set_extensions lib x >> sign_step x pk

  module _ (k : Ledger) (n : ℕ) where
    abbrev Live : W → Type 0
    Live w = k.live w ≡ n

    ensure-Live : (b : Bool) (e : CertificateException) (w : W) → Live w → Live (ensure b e w).1
    ensure-Live true e w h = h
    ensure-Live false e w h = h

    or_throw-Live :
        (o : Option ℕ) (e : CertificateException) (w : W) → Live w → Live (or_throw o e w).1
    or_throw-Live none e w h = h
    or_throw-Live (some a) e w h = h

    -- A sequence of two parts.
    then_run-Live :
        {A B : Type 0} (m : Try W CertificateException A) (f : A → Try W CertificateException B)
        → ((w : W) → Live w → Live (m w).1)
        → ((a : A) (w : W) → Live w → Live (f a w).1)
        → (w : W) → Live w
        → Live (then_run (m w) f).1
    then_run-Live m f first second w h = then_run-holds Live (m w) f (first w h) second

    add_name-Live :
        (x : Option ℕ) (name : CertName) (w : W) → Live w → Live (add_name lib x name w).1
    unfolding add_name
    add_name-Live x name w h =
        ensure-Live (is_one (lib.add_name_entry x name.field name.kind name.bytes w).0)
          (certificate_field "cannot set name of certificate for field:" name.field)
          (lib.add_name_entry x name.field name.kind name.bytes w).1
          (k.name_added x name.field name.kind name.bytes w ∙ h)

    add_ext-Live :
        (x : Option ℕ) (ex : CertExtension) (w : W) → Live w → Live (add_ext lib x ex w).1
    unfolding add_ext
    add_ext-Live x ex w h =
        let made = lib.make_extension x ex.nid ex.value w in
        then_run-Live
          (or_throw made.0 (certificate_exception "Cannot add extension to certificate.")) _
          (or_throw-Live made.0 (certificate_exception "Cannot add extension to certificate."))
          (λ a v e. k.extension_freed a (lib.add_extension x a v) ∙ k.extension_added x a v ∙ e)
          made.1 (k.extension_made x ex.nid ex.value w ∙ h)

    make_key-Live : (bits : ℕ) (pk : Option ℕ) (w : W) → Live w → Live (make_key lib bits pk w).1
    unfolding make_key
    make_key-Live bits pk w h =
        let (rsa, w1) = lib.rsa_new w in
        let (bn, w2) = lib.bn_new w1 in
        let w3 = lib.bn_set_rsa_f4 bn w2 in
        let (ret, w4) = lib.rsa_generate_key rsa bits bn w3 in
        then_run-Live (ensure ret (certificate_exception "Error generating RSA key.")) _
          (ensure-Live ret (certificate_exception "Error generating RSA key."))
          (λ _ v e.
            ensure-Live (lib.assign_rsa pk rsa v).0
              (certificate_exception "Error assigning RSA key.") (lib.assign_rsa pk rsa v).1
              (k.rsa_assigned pk rsa v ∙ e))
          (lib.bn_free bn w4)
          (k.bn_freed bn w4
            ∙ k.key_generated rsa bn bits w3
            ∙ k.bn_set bn w2
            ∙ k.bn_made w1
            ∙ k.rsa_made w
            ∙ h)

    set_fields-Live :
        (x pk : Option ℕ) (serial days : ℕ) (w : W)
        → Live w
        → Live (set_fields lib x pk serial days w).1
    unfolding set_fields
    set_fields-Live x pk serial days w h =
        let w1 = lib.set_version x 2 w in
        let w2 = lib.set_serial x serial w1 in
        let w3 = lib.set_not_before x 0 w2 in
        let w4 = lib.set_not_after x (60 * 60 * 24 * days) w3 in
        k.pubkey_set x pk w4
        ∙ k.not_after_set x (60 * 60 * 24 * days) w3
        ∙ k.not_before_set x 0 w2
        ∙ k.serial_set x serial w1
        ∙ k.version_set x 2 w
        ∙ h

    set_names-Live : (x : Option ℕ) (w : W) → Live w → Live (set_names lib x w).1
    unfolding set_names
    set_names-Live x = then_run-Live (add_name lib x _) _ (add_name-Live x _) (λ _.
        then_run-Live (add_name lib x _) _ (add_name-Live x _) (λ _ v e. k.issuer_set x v ∙ e))

    set_extensions-Live : (x : Option ℕ) (w : W) → Live w → Live (set_extensions lib x w).1
    unfolding set_extensions
    set_extensions-Live x = then_run-Live (add_ext lib x _) _ (add_ext-Live x _) (λ _.
        then_run-Live (add_ext lib x _) _ (add_ext-Live x _) (λ _.
          then_run-Live (add_ext lib x _) _ (add_ext-Live x _)
            (λ _. then_run-Live (add_ext lib x _) _ (add_ext-Live x _) (λ _. add_ext-Live x _))))

    sign_step-Live : (x pk : Option ℕ) (w : W) → Live w → Live (sign_step x pk w).1
    sign_step-Live x pk w h =
        ensure-Live (lib.sign_md5 x pk w).0 (certificate_exception "Cannot create X509 signature.")
          (lib.sign_md5 x pk w).1 (k.signed x pk w ∙ h)

    extend_and_sign-Live : (x pk : Option ℕ) (w : W) → Live w → Live (extend_and_sign x pk w).1
    extend_and_sign-Live x pk =
        then_run-Live (set_extensions lib x) (λ _. sign_step x pk) (set_extensions-Live x)
          (λ _. sign_step-Live x pk)

    fill_certificate-Live :
        (x pk : Option ℕ) (bits serial days : ℕ) (w : W)
        → Live w
        → Live (fill_certificate lib x pk bits serial days w).1
    unfolding fill_certificate
    fill_certificate-Live x pk bits serial days =
        then_run-Live (make_key lib bits pk)
          (λ _. set_fields lib x pk serial days >> (set_names lib x >> extend_and_sign x pk))
          (make_key-Live bits pk)
          (λ _.
            then_run-Live (set_fields lib x pk serial days)
              (λ _. set_names lib x >> extend_and_sign x pk) (set_fields-Live x pk serial days)
              (λ _.
                then_run-Live (set_names lib x) (λ _. extend_and_sign x pk) (set_names-Live x)
                  (λ _. extend_and_sign-Live x pk)))

  module _ (k : Ledger) where
    mkcert-live :
        (bits serial days : ℕ) (w : W) → k.live (mkcert lib bits serial days w).1 ≡ k.live w + 2
    unfolding mkcert
    mkcert-live bits serial days w =
        let (pk, w1) = lib.pkey_new w in
        let (x, w2) = lib.x509_new w1 in
        let two : k.live w2 ≡ k.live w + 2 = omega (arith, k.x509_made w1, k.pkey_made w) in
        then_run-Live k (k.live w + 2) (fill_certificate lib x pk bits serial days) _
          (fill_certificate-Live k (k.live w + 2) x pk bits serial days) (λ _ v e. e) w2 two

    after_mkcert-leaks :
        (n : ℕ) (e : CertificateException) (stored : Certificate) (w' : W)
        (r : Result CertificateException Certificate × W)
        → k.live r.1 ≡ n
        → after_mkcert lib unmade r ≡ (err e, stored, w')
        → (stored ≡ unmade) × (k.live w' ≡ n)
    unfolding after_mkcert
    after_mkcert-leaks n e stored w' (ok made, v) l h = absurd (cc (ap (λ p. p.0) h))
    after_mkcert-leaks n e stored w' (err f, v) l h =
        (sym (ap (λ p. p.1) h), ap (λ p. k.live p.2) (sym h) ∙ l)

    -- Where OpenSSL has the memory for its objects and the first `getCertificate` throws, nothing is
    -- stored, so that a next one would begin again, and a key and a certificate more are allocated
    -- than before, which the destructor of what is stored does not free.
    pub get_certificate-leaks :
        (e : CertificateException) (stored : Certificate) (w w' : W)
        → get_certificate lib unmade w ≡ (err e, stored, w')
        → (stored ≡ unmade)
          × (k.live w' ≡ k.live w + 2)
          × (k.live (destroy lib stored w') ≡ k.live w + 2)
    unfolding get_certificate is_valid destroy
    get_certificate-leaks e stored w w' h =
        let (same, lost) =
          after_mkcert-leaks (k.live w + 2) e stored w' (mkcert lib 2048 0 365 w)
            (mkcert-live 2048 0 365 w) h in
        (
          same,
          lost,
          ap (λ c. k.live (destroy lib c w')) same
              ∙ k.null_pkey_freed (lib.x509_free none w')
              ∙ k.null_x509_freed w'
              ∙ lost,
        )
