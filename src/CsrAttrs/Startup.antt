-- ===== src/CsrAttrs/Startup.antt =====
-- What the server answers to `GET /csrattrs` for the options that it was started with.
use est.Common.{
  ◌≡◌, ◌∙◌, sym, ap, arith, Bool-cases, Result-cases, inl, inr, List, [], ◌++◌, none, some, Bytes,
  length, is_empty, Result, ok, value, if◌then◌else◌, ◌<◌,
}
use est.Cryptobyte.{Cryptobyte, IsLawful}
use est.Cryptobyte.Writes.{then_encode-eq-some}
use est.CsrAttrs.{Options, validate_options, is_empty_options}
use est.CsrAttrs.Encode.{PkixExtension, encode_csr_attrs}
use est.CsrAttrs.Der.{value-encode_csr_attrs}
use est.Ca.{CaBackend}
use est.Store.{Store}
use est.Estapi.Encoding.{write_base64_response, content_type_csr_attrs}
use est.Estapi.Server.{Platform, World, handle_csr_attrs}

module _ {C : Cryptobyte} (L : IsLawful C) (marshal : List PkixExtension → Result Bytes) where
  element_nonempty : (t : C.Tag) (c : Bytes) {d : Bytes} → L.element t c ≡ some d → 0 < length d
  element_nonempty t c {d} e =
      (L.read_asn1_element_front (d ++ []) t (L.read_asn1_element-element t c d [] e)).1

  -- `Encode` succeeds on options that pass `Validate` alone.
  encode_csr_attrs-valid :
      (opts : Options) {der : Bytes}
      → encode_csr_attrs C marshal opts ≡ ok der
      → validate_options opts ≡ ok tt
  unfolding encode_csr_attrs
  encode_csr_attrs-valid opts h = elim (Result-cases (validate_options opts)) [
    | inl (u, e) ↦ e
    | inr (x, e) ↦ cc (rw e at h)
  ]

  -- What `Encode` returns is empty exactly for options that ask for nothing.
  pub is_empty-encode_csr_attrs :
      (opts : Options) {der : Bytes}
      → encode_csr_attrs C marshal opts ≡ ok der
      → is_empty der ≡ is_empty_options opts
  is_empty-encode_csr_attrs opts {der} h =
      let valid = encode_csr_attrs-valid opts h in
      let written = sym (value-encode_csr_attrs L marshal opts valid) ∙ ap value h in
      elim (Bool-cases (is_empty_options opts)) [
        | inl e ↦ ground (arith, e, written)
        | inr e ↦
            let (c, _, d) = then_encode-eq-some _ (λ x. L.element C.sequence x) (rw e at written) in
            ground (arith, e, element_nonempty C.sequence c d)
      ]

  -- A server that was started with what `Encode` returned answers 204 without a body if the options
  -- ask for nothing, else 200 with the base64 of it.
  pub handle_csr_attrs-encode_csr_attrs :
      (P : Platform) (B : CaBackend) (S : Store) (w : World B S) (opts : Options) {der : Bytes}
      → encode_csr_attrs C marshal opts ≡ ok der
      → (handle_csr_attrs P B S der w).0 ≡ (
          if is_empty_options opts
          then record { status = 204; content_type = none; body = [] }
          else write_base64_response content_type_csr_attrs der)
  unfolding handle_csr_attrs
  handle_csr_attrs-encode_csr_attrs P B S w opts {der} h =
      ground (arith, is_empty-encode_csr_attrs opts h)
