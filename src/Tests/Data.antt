-- ===== src/Tests/Data.antt =====
-- A client, its CSR and its certificate, a backend that issues it, and an empty store on disk.
use est.Common.{ℕ, ◌+◌, pos, true, false, [], ◌∷◌, none, some, Bytes, ascii, Result, ok, err, new}
use est.X509.{Name, PublicKeyAlgorithm, Certificate, CertificateRequest}
use est.Fs.{Files, Disk, Faults}
use est.Ca.{CaBackend}
use est.Store.{Store, Metadata, IsLawful}
use est.Store.FileStore.{FileStore}
use est.Store.FileStore.Lawful.{file_store, file_store-IsLawful}
use est.Estapi.Server.{Platform, Request, World}
use est.Tests.Der.{der_cryptobyte}

abbrev pub name : Name
name = record { common_name = b'd' ∷ b'1' ∷ []; other = [] }

-- A certificate whose only content is one serial number.
abbrev pub certificate : Bytes → ℕ → Certificate
certificate raw serial = record {
  raw = raw;
  serial_number = pos serial;
  subject = name;
  dns_names = (b'd' ∷ []) ∷ [];
  email_addresses = [];
  ip_addresses = [];
  uris = [];
  not_before = pos 0;
  not_after = pos 1;
  key_usage = 1;
  ext_key_usage = 2 ∷ [];
  basic_constraints_valid = true;
  is_ca = false;
  subject_key_id = [];
  authority_key_id = [];
}

-- SEQUENCE { INTEGER n }
abbrev pub cert_der : ℕ → Bytes
cert_der n = 0x30 ∷ 3 ∷ 2 ∷ 1 ∷ n ∷ []

abbrev pub cert : ℕ → Certificate
cert n = certificate (cert_der n) n

-- Parses the bytes of `cert n`, for any byte in the last place.
abbrev pub parse_certificate : Bytes → Result Certificate
parse_certificate (a ∷ b ∷ c ∷ d ∷ n ∷ []) = ok (certificate (a ∷ b ∷ c ∷ d ∷ n ∷ []) n)
parse_certificate _ = err (new [])

abbrev pub request_of : Bytes → CertificateRequest
request_of raw = record {
  raw = raw;
  subject = name;
  dns_names = (b'd' ∷ []) ∷ [];
  email_addresses = [];
  ip_addresses = [];
  uris = [];
  public_key_algorithm = PublicKeyAlgorithm.rsa;
  public_key = 1 ∷ 2 ∷ [];
}

abbrev pub csr_der : Bytes
csr_der = 0x30 ∷ 0x03 ∷ 1 ∷ 2 ∷ 3 ∷ []

-- The base64 text of `csr_der`, in two lines.
abbrev pub csr_body : Bytes
csr_body =
    b'M' ∷ b'A' ∷ b'M' ∷ b'B' ∷ b'\r' ∷ b'\n' ∷ b'A' ∷ b'g' ∷ b'M' ∷ b'=' ∷ b'\r' ∷ b'\n' ∷ []

abbrev pub platform : Platform
platform = record {
  cryptobyte = der_cryptobyte;
  parse_certificate_request = λ der. ok (request_of der);
  ip_string = λ ip. ip;
  url_string = λ u. u.host;
}

-- Issues certificates 7, 8, …
abbrev pub backend : CaBackend
backend = record {
  State = ℕ;
  ca_certificates = λ n. (ok (some (cert 1) ∷ []), n);
  issue_certificate = λ csr n. (ok (cert n), n + 1);
}

abbrev pub no_faults : Faults
no_faults = record {
  suffix = b'1' ∷ [];
  mkdir_all = none;
  create_temp = none;
  write = none;
  close = none;
  chmod = none;
  rename = none;
  remove = none;
}

abbrev pub marshal_indent : Metadata → Result Bytes
marshal_indent meta = ok (b'{' ∷ b'}' ∷ [])

abbrev pub directory : FileStore
directory = record { dir = b's' ∷ [] }

abbrev pub no_files : Files
no_files path = none

abbrev pub empty_disk : Disk
empty_disk = record { now = no_files; past = [] }

abbrev pub store : Store
store = file_store parse_certificate marshal_indent directory

abbrev pub store-IsLawful : IsLawful store
store-IsLawful = file_store-IsLawful parse_certificate marshal_indent directory

abbrev pub world : World backend store
world = record {
  ca = 7;
  store = record { disk = empty_disk; faults = λ n. no_faults; used = 0 };
  log = [];
}

abbrev pub enroll_request : Request
enroll_request = record {
  method = ascii "POST";
  path = ascii "/.well-known/est/simpleenroll";
  tls = some (cert 5 ∷ []);
  remote_addr = b'h' ∷ [];
  body = record { content = csr_body; failure = none };
  received_at = pos 9;
}

abbrev pub anonymous_request : Request
anonymous_request = record enroll_request { tls = some [] }
