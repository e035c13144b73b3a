-- ===== src/Certificate.antt =====
-- `exa::ssl::Certificate` (src/r_exasol/ssl/certificate.cpp). OpenSSL's calls are parameters; an
-- object of its own is a number, the null pointer `none`.
pub mod Leak
pub mod Made
use r_exasol.Base.{
  Bool, Option, Result, String, Try, ensure, err, false, modify, negsuc, none, ok, or_throw, pos,
  pure, some, true, ℕ, ℤ, ◌&&◌, ◌*◌, ◌==◌, ◌>>=◌, ◌>>◌,
}

pub data CertificateException : Type 0 where
  certificate_exception : String → CertificateException
  -- With the field's name behind the text.
  certificate_field : String → String → CertificateException

-- The kinds of extensions, by the library's names.
pub data Nid : Type 0 where
  basic_constraints : Nid
  key_usage : Nid
  subject_key_identifier : Nid
  netscape_cert_type : Nid
  netscape_comment : Nid

-- The encodings of a name's text, by the library's names.
pub data StringType : Type 0 where
  mbstring_asc : StringType

pub record CertExtension : Type 0 where
  pub nid : Nid
  pub value : String

pub record CertName : Type 0 where
  pub field : String
  pub kind : StringType
  pub bytes : String

-- The calls on keys, certificates and contexts.
pub record CryptoLibrary (W : Type 0) : Type 0 where
  pub pkey_new : W → Option ℕ × W
  pub x509_new : W → Option ℕ × W
  pub rsa_new : W → Option ℕ × W
  pub bn_new : W → Option ℕ × W
  pub bn_set_rsa_f4 : Option ℕ → W → W
  pub bn_free : Option ℕ → W → W
  pub rsa_generate_key : Option ℕ → ℕ → Option ℕ → W → Bool × W
  pub assign_rsa : Option ℕ → Option ℕ → W → Bool × W
  pub set_version : Option ℕ → ℕ → W → W
  pub set_serial : Option ℕ → ℕ → W → W
  pub set_not_before : Option ℕ → ℕ → W → W
  pub set_not_after : Option ℕ → ℕ → W → W
  pub set_pubkey : Option ℕ → Option ℕ → W → W
  pub add_name_entry : Option ℕ → String → StringType → String → W → ℤ × W
  pub set_issuer_to_subject : Option ℕ → W → W
  pub make_extension : Option ℕ → Nid → String → W → Option ℕ × W
  pub add_extension : Option ℕ → ℕ → W → W
  pub free_extension : ℕ → W → W
  pub sign_md5 : Option ℕ → Option ℕ → W → Bool × W
  pub x509_free : Option ℕ → W → W
  pub pkey_free : Option ℕ → W → W
  pub use_certificate : ℕ → Option ℕ → W → ℤ × W
  pub use_private_key : ℕ → Option ℕ → W → ℤ × W

pub record Certificate : Type 0 where
  pub x509p : Option ℕ
  pub pkeyp : Option ℕ

-- The default constructor
abbrev pub unmade : Certificate
unmade = record { x509p = none; pkeyp = none }

abbrev pub is_there : Option ℕ → Bool
is_there none = false
is_there (some _) = true

unfoldable pub is_valid : Certificate → Bool
is_valid c = is_there c.x509p && is_there c.pkeyp

abbrev pub is_one : ℤ → Bool
is_one (pos n) = n == 1
is_one (negsuc n) = false

abbrev pub call : {W E A : Type 0} → (W → A × W) → Try W E A
call f w = (ok (f w).0, (f w).1)

module _ {W : Type 0} (lib : CryptoLibrary W) where
  -- `CertNameBuilder::operator <<`
  unfoldable pub add_name : Option ℕ → CertName → Try W CertificateException (Unit {0})
  add_name x name = do
    ret ← call (lib.add_name_entry x name.field name.kind name.bytes)
    ensure (is_one ret) (certificate_field "cannot set name of certificate for field:" name.field)

  -- `CertExtensionBuilder::operator <<`
  unfoldable pub add_ext : Option ℕ → CertExtension → Try W CertificateException (Unit {0})
  add_ext x extension = do
    made ← call (lib.make_extension x extension.nid extension.value)
    ex ← or_throw made (certificate_exception "Cannot add extension to certificate.")
    modify (lib.add_extension x ex)
    modify (lib.free_extension ex)

  -- The key pair, generated and assigned to `pk`.
  unfoldable pub make_key : ℕ → Option ℕ → Try W CertificateException (Unit {0})
  make_key bits pk = do
    rsa ← call lib.rsa_new
    bn ← call lib.bn_new
    modify (lib.bn_set_rsa_f4 bn)
    ret ← call (lib.rsa_generate_key rsa bits bn)
    modify (lib.bn_free bn)
    ensure ret (certificate_exception "Error generating RSA key.")
    assigned ← call (lib.assign_rsa pk rsa)
    ensure assigned (certificate_exception "Error assigning RSA key.")

  -- The certificate's version, number, days and key.
  unfoldable pub set_fields : Option ℕ → Option ℕ → ℕ → ℕ → Try W CertificateException (Unit {0})
  set_fields x pk serial days = do
    modify (lib.set_version x 2)
    modify (lib.set_serial x serial)
    modify (lib.set_not_before x 0)
    modify (lib.set_not_after x (60 * 60 * 24 * days))
    modify (lib.set_pubkey x pk)

  unfoldable pub set_names : Option ℕ → Try W CertificateException (Unit {0})
  unfolding add_name
  set_names x = do
    add_name x (record { field = "C"; kind = mbstring_asc; bytes = "DE" })
    add_name x (record { field = "CN"; kind = mbstring_asc; bytes = "Exasol Ag" })
    modify (lib.set_issuer_to_subject x)

  unfoldable pub set_extensions : Option ℕ → Try W CertificateException (Unit {0})
  unfolding add_ext
  set_extensions x = do
    add_ext x (record { nid = basic_constraints; value = "critical,CA:TRUE" })
    add_ext x (record { nid = key_usage; value = "critical,keyCertSign,cRLSign" })
    add_ext x (record { nid = subject_key_identifier; value = "hash" })
    add_ext x (record { nid = netscape_cert_type; value = "sslCA" })
    add_ext x (record { nid = netscape_comment; value = "Temporary certificate for r-exasol." })

  -- The key and the certificate, filled and signed.
  unfoldable pub fill_certificate :
      Option ℕ → Option ℕ → ℕ → ℕ → ℕ → Try W CertificateException (Unit {0})
  unfolding make_key set_fields set_names set_extensions
  fill_certificate x pk bits serial days = do
    make_key bits pk
    set_fields x pk serial days
    set_names x
    set_extensions x
    signed ← call (lib.sign_md5 x pk)
    ensure signed (certificate_exception "Cannot create X509 signature.")

  -- The object's pointers after `mkcert`: an exception leaves them as they were, and then frees
  -- nothing of what was allocated.
  unfoldable pub mkcert : ℕ → ℕ → ℕ → Try W CertificateException Certificate
  unfolding fill_certificate
  mkcert bits serial days = do
    pk ← call lib.pkey_new
    x ← call lib.x509_new
    fill_certificate x pk bits serial days
    pure (record { x509p = x; pkeyp = pk })

  -- `apply`
  unfoldable pub apply : Certificate → ℕ → Try W CertificateException (Unit {0})
  apply c ctx = do
    assigned ← call (lib.use_certificate ctx c.x509p)
    ensure (is_one assigned) (certificate_exception "Error assigning certificate.")
    key ← call (lib.use_private_key ctx c.pkeyp)
    ensure (is_one key) (certificate_exception "Error assigning private key.")

  -- The destructor
  unfoldable pub destroy : Certificate → W → W
  destroy c w = lib.pkey_free c.pkeyp (lib.x509_free c.x509p w)

  -- What the static certificate is after an attempt to make it.
  unfoldable pub after_mkcert :
      Certificate
      → Result CertificateException Certificate × W
      → Result CertificateException Certificate × Certificate × W
  after_mkcert c (ok made, w) = (ok made, made, w)
  after_mkcert c (err e, w) = (err e, c, w)

  -- `ConnectionFactoryImpl::getCertificate` on its static certificate, which is made when it is not
  -- valid yet. The defaults of `mkcert` are in certificate.h.
  unfoldable pub get_certificate :
      Certificate → W → Result CertificateException Certificate × Certificate × W
  unfolding is_valid mkcert after_mkcert
  get_certificate c w = elim (is_valid c) [
    | true ↦ (ok c, c, w)
    | false ↦ after_mkcert c (mkcert 2048 0 365 w)
  ]
