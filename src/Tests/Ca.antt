-- ===== src/Tests/Ca.antt =====
-- A local CA over a small encoding of certificates, with serials from fixed bytes.
mod Served
use est.Common.{
  ◌≡◌, refl, arith, ℕ, ℤ, pos, negsuc, Bool, true, false, List, [], ◌∷◌, none, some, Bytes, ascii,
  Result, ok, err, new, ◌<◌, ◌^◌, ◌*◌, ◌/◌, int_eq, ◌+ℤ◌, negate, sub_nat,
}
use est.X509.{Certificate, CertificateRequest}
use est.Ca.Serial.{
  IsFilled, big_endian, clear_top_bit, random_serial, random_serial_source, random_serial-bounded,
}
use est.Ca.Local.{
  Crypto, LocalCa, LocalState, key_usage_for, subject_key_id, certificate_template, sign,
  issue_certificate, new_local_ca,
}
use est.Ca.Local.Laws.{
  IsLawful, IsServerControlled, whole_seconds, issue_certificate-IsServerControlled, local_backend,
  handle_simple_enroll_bad_signature,
}
use est.Ca.Local.Validity.{IsValidAt, issue_certificate-IsValidAt}
use est.Estapi.Identity.{peer_certificate}
use est.Estapi.Server.{World, http_error, handle_simple_enroll}
use est.Tests.Data.{certificate, cert, csr_der, request_of, platform, store, world, enroll_request}
use est.Tests.Encoding.{decode_csr}

abbrev second : ℕ
second = 1000000000

-- The fields of a template for a certificate with one extended key usage and no SAN, from its times.
abbrev encode_fields :
    ℤ → ℤ → ℤ → Bytes → List Bytes → List Bytes → ℕ → List ℕ → Bool → Bool → Result Bytes
encode_fields (pos a) (pos b) (pos n) cn [] [] k (u ∷ []) true false =
    ok (n ∷ k ∷ u ∷ a / second ∷ b / second ∷ cn)
encode_fields _ _ _ _ _ _ _ _ _ _ = err (new [])

abbrev encode_template : Certificate → Result Bytes
encode_template t =
    encode_fields t.not_before t.not_after t.serial_number t.subject.common_name t.dns_names
      t.email_addresses t.key_usage t.ext_key_usage t.basic_constraints_valid t.is_ca

abbrev parse_fields : Bytes → Result Certificate
parse_fields (n ∷ k ∷ u ∷ a ∷ b ∷ cn) = ok (record (certificate (n ∷ k ∷ u ∷ a ∷ b ∷ cn) n) {
  subject = record { common_name = cn; other = [] };
  dns_names = [];
  not_before = pos (a * second);
  not_after = pos (b * second);
  key_usage = k;
  ext_key_usage = u ∷ [];
})
parse_fields _ = err (new [])

abbrev pub crypto : Crypto
crypto = record {
  PrivateKey = Unit {0};
  check_signature = λ csr. none;
  marshal_pkix_public_key = λ key. ok key;
  unmarshal_public_key = λ der. ok der;
  sha1 = λ bytes. bytes;
  create_certificate = λ drawn t parent public_key key. encode_template t;
  parse_certificate = parse_fields;
  pem_decode = λ text. some text;
  parse_pkcs8_private_key = λ der. ok (some tt);
  parse_pkcs1_private_key = λ der. err (new []);
  parse_ec_private_key = λ der. err (new []);
}

encode_fields-parse_fields :
    (nb na sn : ℤ) (cn : Bytes) (d e : List Bytes) (k : ℕ) (x : List ℕ) (b c : Bool) {der : Bytes}
    {made : Certificate}
    → encode_fields nb na sn cn d e k x b c ≡ ok der
    → parse_fields der ≡ ok made
    → (made.serial_number ≡ sn)
      × (made.subject.common_name ≡ cn)
      × (made.dns_names ≡ d)
      × (made.email_addresses ≡ e)
      × (made.key_usage ≡ k)
      × (made.ext_key_usage ≡ x)
      × (made.basic_constraints_valid ≡ b)
      × (made.is_ca ≡ c)
      × (made.not_before ≡ whole_seconds nb)
      × (made.not_after ≡ whole_seconds na)
encode_fields-parse_fields (negsuc a) v sn cn d e k x b c h p = cc
encode_fields-parse_fields (pos a) (negsuc v) sn cn d e k x b c h p = cc
encode_fields-parse_fields (pos a) (pos v) (negsuc n) cn d e k x b c h p = cc
encode_fields-parse_fields (pos a) (pos v) (pos n) cn (y ∷ d) e k x b c h p = cc
encode_fields-parse_fields (pos a) (pos v) (pos n) cn [] (y ∷ e) k x b c h p = cc
encode_fields-parse_fields (pos a) (pos v) (pos n) cn [] [] k [] b c h p = cc
encode_fields-parse_fields (pos a) (pos v) (pos n) cn [] [] k (u ∷ t ∷ x) b c h p = cc
encode_fields-parse_fields (pos a) (pos v) (pos n) cn [] [] k (u ∷ []) false c h p = cc
encode_fields-parse_fields (pos a) (pos v) (pos n) cn [] [] k (u ∷ []) true true h p = cc
encode_fields-parse_fields (pos a) (pos v) (pos n) cn [] [] k (u ∷ []) true false h p =
    ground (arith, h, p)

pub crypto-IsLawful : IsLawful crypto
crypto-IsLawful = record {
  created = λ drawn t parent public_key key valid bits e p.
      let (sn, cn, d, em, k, x, b, c, from, until) =
        encode_fields-parse_fields t.not_before t.not_after t.serial_number t.subject.common_name
          t.dns_names t.email_addresses t.key_usage t.ext_key_usage t.basic_constraints_valid
          t.is_ca e p in
      record {
        serial_number = sn;
        common_name = cn;
        dns_names = d;
        email_addresses = em;
        key_usage = k;
        ext_key_usage = x;
        basic_constraints_valid = b;
        is_ca = c;
        not_before = from;
        not_after = until;
      };
}

abbrev buffer : Bytes
buffer = 128 ∷ 0 ∷ 0 ∷ 0 ∷ 0 ∷ 0 ∷ 0 ∷ 0 ∷ 0 ∷ 0 ∷ 0 ∷ 0 ∷ 0 ∷ 0 ∷ 0 ∷ 0 ∷ 0 ∷ 0 ∷ 0 ∷ 9 ∷ []

buffer-IsFilled : IsFilled buffer
buffer-IsFilled = record { size = refl; bytes = ground arith }

random_serial-bounded_example : (n : ℕ) × (random_serial (ok buffer) ≡ ok (pos n)) × (n < 2 ^ 159)
random_serial-bounded_example = random_serial-bounded buffer buffer-IsFilled

abbrev pub local_ca : LocalCa crypto
local_ca = record {
  cert = cert 1;
  key = tt;
  validity = pos 10500000000;
  ext_key_usage = 2 ∷ [];
  not_before_skew = pos 0;
}

abbrev pub csr : CertificateRequest
csr = record (request_of csr_der) { dns_names = [] }

abbrev pub state : LocalState crypto random_serial_source
state = record {
  serials = record { read = λ n. ok buffer; used = 0 };
  clock = λ n. pos 600000000000;
  calls = 0;
}

abbrev issued : Certificate
issued = record (certificate (9 ∷ 5 ∷ 2 ∷ 300 ∷ 610 ∷ b'd' ∷ b'1' ∷ []) 9) {
  dns_names = [];
  not_before = pos 300000000000;
  not_after = pos 610000000000;
  key_usage = 5;
}

issue_csr : (issue_certificate crypto random_serial_source local_ca csr state).0 ≡ ok issued
unfolding issue_certificate sign random_serial clear_top_bit big_endian subject_key_id
    certificate_template key_usage_for int_eq ◌+ℤ◌ negate sub_nat
issue_csr = refl

issue_certificate-IsServerControlled_example :
    IsServerControlled crypto-IsLawful random_serial_source local_ca csr state issued
issue_certificate-IsServerControlled_example =
    issue_certificate-IsServerControlled crypto-IsLawful random_serial_source local_ca csr state
      issue_csr

issue_with_new_ca :
    (issue_certificate crypto random_serial_source
      (new_local_ca crypto (cert 1) tt (pos 10500000000))
      csr
      state).0
    ≡ ok issued
unfolding issue_certificate sign random_serial clear_top_bit big_endian subject_key_id
    certificate_template key_usage_for new_local_ca int_eq ◌+ℤ◌ negate sub_nat
issue_with_new_ca = refl

issue_certificate-IsValidAt_example : IsValidAt 600000000000 10500000000 issued
issue_certificate-IsValidAt_example =
    issue_certificate-IsValidAt crypto-IsLawful random_serial_source (cert 1) tt 10500000000 csr
      state 600000000000 refl (omega arith) (omega arith) issue_with_new_ca

abbrev forged : Crypto
forged = record crypto { check_signature = λ csr. some (new []) }

abbrev forged_ca : LocalCa forged
forged_ca = record {
  cert = cert 1;
  key = tt;
  validity = pos 10500000000;
  ext_key_usage = 2 ∷ [];
  not_before_skew = pos 0;
}

abbrev forged_world : World (local_backend forged random_serial_source forged_ca) store
forged_world = record {
  ca = record {
    serials = record { read = λ n. ok buffer; used = 0 };
    clock = λ n. pos 600000000000;
    calls = 0;
  };
  store = world.store;
  log = [];
}

peer : peer_certificate enroll_request.tls ≡ ok (cert 5)
unfolding peer_certificate
peer = refl

handle_simple_enroll_bad_signature_example :
    handle_simple_enroll platform
      (local_backend forged random_serial_source forged_ca)
      store
      enroll_request
      forged_world
    ≡ (http_error (ascii "CSR signature does not verify") 400, forged_world)
handle_simple_enroll_bad_signature_example =
    handle_simple_enroll_bad_signature forged random_serial_source forged_ca platform store
      enroll_request forged_world peer decode_csr refl
