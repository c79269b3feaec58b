-- ===== src/Estapi/Encoding.antt =====
-- internal/estapi/encoding.go: the base64 request body with the CSR, and the base64 response.
pub mod Wrapping
pub mod Decode
use mathlib.Core.Logic.{dite}
use mathlib.Core.WellFounded.{Acc}
use native.Mathlib.Decide.{dec_lt}
use est.Common.{ℕ, zero, suc, ◌+◌, ◌-◌, ◌*◌, ◌<◌, ◌||◌, Bool, not, List, [], ◌∷◌, ◌++◌, arith}
use est.Common.{Option, none, some, Bytes, ascii, length, take, drop, ltb, leb, ◌==◌, lt_wf}
use est.Common.{if◌then◌else◌, Error, new, wrap, Result, ok, err, ◌>>=◌, ◌>>◌, context, guard}
use est.X509.{CertificateRequest}
use est.Base64.{encode_to_string, decode_string}
use est.Utf8.{decode_rune, encode_rune}

unfoldable pub content_type_pkcs7_mime : Bytes
unfolding ascii
content_type_pkcs7_mime = ascii "application/pkcs7-mime; smime-type=certs-only"

unfoldable pub content_type_csr_attrs : Bytes
unfolding ascii
content_type_csr_attrs = ascii "application/csrattrs"

abbrev pub max_csr_body_bytes : ℕ
max_csr_body_bytes = 64 * 1024

abbrev pub mime_line_length : ℕ
mime_line_length = 76

-- What reading a request body yields: its bytes, and the error that then stands in place of its end.
pub record Body : Type 0 where
  pub content : Bytes
  pub failure : Option Error

-- `io.ReadAll(io.LimitReader(body, n))`
unfoldable pub read_all_limited : ℕ → Body → Result Bytes
read_all_limited n body =
    if leb n (length body.content)
    then ok (take n body.content)
    else elim body.failure [ none ↦ ok body.content | some e ↦ err e ]

unfoldable pub is_whitespace : ℕ → Bool
is_whitespace r = r == b' ' || r == b'\t' || r == b'\r' || r == b'\n'

-- The loop over the runes of `s`. The number counts the bytes that still belong to the last rune.
unfoldable pub strip_runes : ℕ → Bytes → Bytes
strip_runes skip [] = []
strip_runes (suc skip) (c ∷ s) = strip_runes skip s
strip_runes zero (c ∷ s) =
    let (r, width) = decode_rune (c ∷ s) in
    (if is_whitespace r then [] else encode_rune r) ++ strip_runes (width - 1) s

unfoldable pub strip_whitespace : Bytes → Bytes
strip_whitespace s = strip_runes 0 s

-- `parse_certificate_request` is `x509.ParseCertificateRequest`.
module _ (parse_certificate_request : Bytes → Result CertificateRequest) where
  unfoldable pub decode_csr_body : Body → Result CertificateRequest
  decode_csr_body r = do
    body ← context (ascii "read request body") (read_all_limited (max_csr_body_bytes + 1) r)
    guard (leb (length body) max_csr_body_bytes) (new (ascii "request body exceeds 65536 bytes"))
    der ← context (ascii "base64-decode request body") (decode_string (strip_whitespace body))
    context (ascii "parse CSR") (parse_certificate_request der)

abbrev pub crlf : Bytes
crlf = b'\r' ∷ b'\n' ∷ []

-- `s[i:end]`
abbrev pub slice : Bytes → ℕ → ℕ → Bytes
slice s i end = take (end - i) (drop i s)

pub line_shrinks : (n : ℕ) → 0 < n → n - mime_line_length < n
line_shrinks n h = omega arith

-- The loop of `writeBase64Response`. `n` is `len(encoded) - i`, the bytes that are left.
unfoldable pub write_lines : Bytes → (n : ℕ) → Acc ◌<◌ n → Bytes
write_lines encoded n (Acc.intro _ smaller) =
    dite (dec_lt 0 n)
      (λ more.
        let i = length encoded - n in
        let end =
          if ltb (length encoded) (i + mime_line_length)
          then length encoded
          else i + mime_line_length in
        let rest = write_lines encoded (n - mime_line_length) (smaller _ (line_shrinks n more)) in
        slice encoded i end ++ (crlf ++ rest))
      (λ _. [])

-- What a handler has answered.
pub record Response : Type 0 where
  pub status : ℕ
  pub content_type : Option Bytes
  pub body : Bytes

unfoldable pub write_base64_response : Bytes → Bytes → Response
write_base64_response content_type der =
    let encoded = encode_to_string der in
    record {
      status = 200;
      content_type = some content_type;
      body = write_lines encoded (length encoded) (lt_wf.apply (length encoded));
    }

unfoldable pub write_pkcs7_response : Bytes → Response
write_pkcs7_response der = write_base64_response content_type_pkcs7_mime der
