-- ===== src/X509.antt =====
-- The fields of `crypto/x509` and `crypto/x509/pkix` values that the server reads or sets. Parsing,
-- signing and rendering are the standard library's and enter as parameters where they are used.
use est.Common.{ℕ, ℤ, Bytes, Bool, List}

-- `pkix.Name`: the common name, and all other attributes as one opaque value.
pub record Name : Type 0 where
  pub common_name : Bytes
  pub other : Bytes

-- `url.URL`
pub record Url : Type 0 where
  pub scheme : Bytes
  pub opaque : Bytes
  pub host : Bytes
  pub path : Bytes
  pub raw_query : Bytes
  pub fragment : Bytes

pub data PublicKeyAlgorithm : Type 0 where
  unknown rsa dsa ecdsa ed25519 : PublicKeyAlgorithm

-- A public key, opaque to this program.
abbrev pub PublicKey : Type 0
PublicKey = Bytes

-- `net.IP` is a byte slice.
abbrev pub Ip : Type 0
Ip = Bytes

pub record Certificate : Type 0 where
  pub raw : Bytes
  pub serial_number : ℤ
  pub subject : Name
  pub dns_names : List Bytes
  pub email_addresses : List Bytes
  pub ip_addresses : List Ip
  pub uris : List Url
  -- in nanoseconds since some epoch
  pub not_before : ℤ
  pub not_after : ℤ
  -- the bit set `x509.KeyUsage`, and the codes of `x509.ExtKeyUsage`
  pub key_usage : ℕ
  pub ext_key_usage : List ℕ
  pub basic_constraints_valid : Bool
  pub is_ca : Bool
  pub subject_key_id : Bytes
  pub authority_key_id : Bytes

pub record CertificateRequest : Type 0 where
  pub raw : Bytes
  pub subject : Name
  pub dns_names : List Bytes
  pub email_addresses : List Bytes
  pub ip_addresses : List Ip
  pub uris : List Url
  pub public_key_algorithm : PublicKeyAlgorithm
  pub public_key : PublicKey
