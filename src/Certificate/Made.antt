-- ===== src/Certificate/Made.antt =====
-- The library's certificate is made once, and used from then on.
use r_exasol.Base.{
  Bool-cases, Result, ap, err, inl, inr, ok, ok-inj, pure, refl, sym, then_run-ensures, true, ℕ,
  ◌∙◌, ◌≡◌,
}
use r_exasol.Certificate.{
  CryptoLibrary, CertificateException, Certificate, is_there, is_valid, fill_certificate, mkcert,
  after_mkcert, get_certificate,
}

module _ {W : Type 0} (lib : CryptoLibrary W) where
  -- OpenSSL's constructors return the null pointer only where there is no memory left.
  pub record Allocates : Type 0 where
    pub pkey_there : (w : W) → is_there (lib.pkey_new w).0 ≡ true
    pub x509_there : (w : W) → is_there (lib.x509_new w).0 ≡ true

  module _ (mem : Allocates) where
    mkcert-valid :
        (bits serial days : ℕ) (w w' : W) (made : Certificate)
        → mkcert lib bits serial days w ≡ (ok made, w')
        → is_valid made ≡ true
    unfolding mkcert is_valid
    mkcert-valid bits serial days w w' made h =
        let P : Certificate → Type 0 = λ c. is_valid c ≡ true in
        let (pk, w1) = lib.pkey_new w in
        let (x, w2) = lib.x509_new w1 in
        let there : is_valid (record { x509p = x; pkeyp = pk }) ≡ true =
          rw (mem.x509_there w1, mem.pkey_there w) refl in
        let cert : Certificate = record { x509p = x; pkeyp = pk } in
        then_run-ensures P (fill_certificate lib x pk bits serial days w2) (λ _. pure cert) made w'
          h (λ _ w3 h3. ap is_valid (sym (ok-inj cert made w3 w' h3)) ∙ there)

    after_mkcert-stays :
        (c made stored : Certificate) (r : Result CertificateException Certificate × W) (w' : W)
        → ((x : Certificate) (v : W) → r ≡ (ok x, v) → is_valid x ≡ true)
        → after_mkcert lib c r ≡ (ok made, stored, w')
        → (stored ≡ made) × (is_valid made ≡ true)
    unfolding after_mkcert
    after_mkcert-stays c made stored (ok x, v) w' k h =
        let e : x ≡ made = cc (ap (λ p. p.0) h) in
        (sym (ap (λ p. p.1) h) ∙ e, ap is_valid (sym e) ∙ k x v refl)
    after_mkcert-stays c made stored (err e, v) w' k h = absurd (cc (ap (λ p. p.0) h))

    -- Where OpenSSL has the memory for its objects, a certificate that `getCertificate` returned is
    -- valid and is the one that is stored: each later call returns it again, and calls nothing.
    pub get_certificate-once :
        (c made stored : Certificate) (w w' : W)
        → get_certificate lib c w ≡ (ok made, stored, w')
        → (stored ≡ made)
          × (is_valid made ≡ true)
          × ((v : W) → get_certificate lib stored v ≡ (ok made, stored, v))
    unfolding get_certificate
    get_certificate-once c made stored w w' h =
        let now : (stored ≡ made) × (is_valid made ≡ true) = elim (Bool-cases (is_valid c)) [
          | inl t ↦
              let same : get_certificate lib c w ≡ (ok c, c, w) = rw (t, get_certificate) refl in
              let h1 = sym same ∙ h in
              let e : c ≡ made = cc (ap (λ p. p.0) h1) in
              (sym (ap (λ p. p.1) h1) ∙ e, ap is_valid (sym e) ∙ t)
          | inr t ↦
              let made_now : get_certificate lib c w
                  ≡ after_mkcert lib c (mkcert lib 2048 0 365 w) =
                rw (t, get_certificate) refl in
              after_mkcert-stays c made stored (mkcert lib 2048 0 365 w) w'
                (λ x v. mkcert-valid 2048 0 365 w v x) (sym made_now ∙ h)
        ] in
        let valid : is_valid stored ≡ true = ap is_valid now.0 ∙ now.1 in
        (now.0, now.1, λ v. rw (valid, get_certificate) (ap (λ x. (ok x, stored, v)) now.0))
