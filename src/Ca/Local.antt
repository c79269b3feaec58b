-- ===== src/Ca/Local.antt =====
-- `LocalCA` of internal/ca/local.go.
pub mod Laws
pub mod Validity
pub mod Served
use est.Common.{
  ℕ, ◌+◌, ◌*◌, ◌^◌, ℤ, pos, ◌+ℤ◌, negate, int_eq, Bool, true, false, List, [], ◌∷◌, Option, none,
  some, Bytes, ascii, Error, invalid_csr_signature, new, Result, ok, err, context, require, ◌>>=◌,
  if◌then◌else◌,
}
use est.X509.{Certificate, CertificateRequest, PublicKey, PublicKeyAlgorithm}
use est.Ca.Serial.{SerialSource}

-- What the backend calls of `crypto/x509`, `encoding/asn1`, `crypto/sha1` and `encoding/pem`.
-- A private key is opaque; the number is the count of calls that drew randomness.
pub record Crypto : Type 1 where
  pub PrivateKey : Type 0
  pub check_signature : CertificateRequest → Option Error
  pub marshal_pkix_public_key : PublicKey → Result Bytes
  -- `asn1.Unmarshal` into the key's structure, and of that the bytes of the BIT STRING
  pub unmarshal_public_key : Bytes → Result Bytes
  pub sha1 : Bytes → Bytes
  pub create_certificate : ℕ → Certificate → Certificate → PublicKey → PrivateKey → Result Bytes
  pub parse_certificate : Bytes → Result Certificate
  pub pem_decode : Bytes → Option Bytes
  -- `ok none`: a key of a type that cannot sign
  pub parse_pkcs8_private_key : Bytes → Result (Option PrivateKey)
  pub parse_pkcs1_private_key : Bytes → Result PrivateKey
  pub parse_ec_private_key : Bytes → Result PrivateKey

-- `x509.ExtKeyUsageClientAuth`, and the two bits of `x509.KeyUsage`.
abbrev pub ext_key_usage_client_auth : ℕ
ext_key_usage_client_auth = 2

abbrev pub key_usage_digital_signature : ℕ
key_usage_digital_signature = 1

abbrev pub key_usage_key_encipherment : ℕ
key_usage_key_encipherment = 4

-- 5 minutes in nanoseconds
abbrev pub default_skew : ℤ
default_skew = pos 300000000000

-- The two bits are different, so their union is their sum.
unfoldable pub key_usage_for : PublicKeyAlgorithm → ℕ
key_usage_for PublicKeyAlgorithm.rsa = key_usage_digital_signature + key_usage_key_encipherment
key_usage_for _ = key_usage_digital_signature

module _ (X : Crypto) where
  -- `LocalCA`, but for its serials.
  pub record LocalCa : Type 0 where
    pub cert : Certificate
    pub key : X.PrivateKey
    pub validity : ℤ
    pub ext_key_usage : List ℕ
    pub not_before_skew : ℤ

  unfoldable pub new_local_ca : Certificate → X.PrivateKey → ℤ → LocalCa
  new_local_ca cert key validity = record {
    cert = cert;
    key = key;
    validity = validity;
    ext_key_usage = ext_key_usage_client_auth ∷ [];
    not_before_skew = pos 0;
  }

  unfoldable pub subject_key_id : PublicKey → Result Bytes
  subject_key_id public_key = do
    spki_der ← X.marshal_pkix_public_key public_key
    public_key_bits ← X.unmarshal_public_key spki_der
    ok (X.sha1 public_key_bits)

  unfoldable pub parse_private_key : Bytes → Result X.PrivateKey
  parse_private_key der = elim (X.parse_pkcs8_private_key der) [
    | ok key ↦ require key (new (ascii "PKCS#8 key does not implement crypto.Signer"))
    | err e ↦ elim (X.parse_pkcs1_private_key der) [
      | ok key ↦ ok key
      | err e ↦ elim (X.parse_ec_private_key der) [
        | ok key ↦ ok key
        | err e ↦
            err (new (ascii "unrecognized private key format (tried PKCS#8, PKCS#1, SEC1 EC)"))
      ]
    ]
  ]

  -- `cert_pem` and `key_pem` are what `os.ReadFile` returns for the two paths.
  unfoldable pub load_ca_key_pair :
      Result Bytes → Result Bytes → Result (Certificate × X.PrivateKey)
  load_ca_key_pair cert_pem key_pem = do
    cert_text ← context (ascii "ca: read CA certificate") cert_pem
    cert_block ← require (X.pem_decode cert_text) (new (ascii "ca: no PEM block found"))
    cert ← context (ascii "ca: parse CA certificate") (X.parse_certificate cert_block)
    key_text ← context (ascii "ca: read CA key") key_pem
    key_block ← require (X.pem_decode key_text) (new (ascii "ca: no PEM block found"))
    signer ← context (ascii "ca: parse CA key") (parse_private_key key_block)
    ok (cert, signer)

  -- The literal `template`, with what `time.Now` returned.
  unfoldable pub certificate_template : LocalCa → CertificateRequest → ℤ → Bytes → ℤ → Certificate
  certificate_template l csr serial skid now =
      let skew = if int_eq l.not_before_skew (pos 0) then default_skew else l.not_before_skew in
      record {
        raw = [];
        serial_number = serial;
        subject = csr.subject;
        dns_names = csr.dns_names;
        email_addresses = csr.email_addresses;
        ip_addresses = csr.ip_addresses;
        uris = csr.uris;
        not_before = now +ℤ negate skew;
        not_after = now +ℤ l.validity;
        key_usage = key_usage_for csr.public_key_algorithm;
        ext_key_usage = l.ext_key_usage;
        basic_constraints_valid = true;
        is_ca = false;
        subject_key_id = skid;
        authority_key_id = l.cert.subject_key_id;
      }

  -- From `subjectKeyID`, with the serial number and the time.
  unfoldable pub sign : LocalCa → CertificateRequest → ℤ → ℤ → ℕ → Result Certificate
  sign l csr serial now drawn = do
    skid ← context (ascii "ca: compute subject key id") (subject_key_id csr.public_key)
    der ← context (ascii "ca: create certificate") (
        X.create_certificate drawn (certificate_template l csr serial skid now) l.cert
          csr.public_key l.key)
    context (ascii "ca: parse issued certificate") (X.parse_certificate der)

  module _ (N : SerialSource) where
    -- What a call depends on: the serials, the clock, and the randomness of signatures.
    pub record LocalState : Type 0 where
      pub serials : N.State
      pub clock : ℕ → ℤ
      pub calls : ℕ

    unfoldable pub issue_certificate :
        LocalCa → CertificateRequest → LocalState → Result Certificate × LocalState
    issue_certificate l csr s = elim (X.check_signature csr) [
      | some e ↦ (err invalid_csr_signature, s)
      | none ↦
          let (serial, serials) = N.next s.serials in
          let s = record s { serials = serials; calls = s.calls + 1 } in
          elim serial [
            | err e ↦ (context (ascii "ca: allocate serial") (err e), s)
            | ok serial ↦ (sign l csr serial (s.clock s.calls) s.calls, s)
          ]
    ]

    unfoldable pub ca_certificates :
        LocalCa → LocalState → Result (List (Option Certificate)) × LocalState
    ca_certificates l s = (ok (some l.cert ∷ []), s)
