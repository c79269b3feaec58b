-- ===== src/Ca/Ejbca/Chain.antt =====
-- The loop of CACertificates over the PEM blocks of the downloaded chain ends.
use est.Common.{
  ℕ, zero, suc, ◌<◌, ◌≡◌, ◌≢◌, arith, List, [], ◌∷◌, ◌++◌, none, some, Bytes, length, Option-cases,
  Result-cases, inl, inr,
}
use est.X509.{Certificate}
use est.Ca.Ejbca.{
  EjbcaCa, RestTools, Remote, read_chain, read_ca_certificates, ejbca_ca_certificates,
}

-- A block that `pem.Decode` finds is taken off the text.
pub record IsLawful (T : RestTools) : Type 0 where
  pub pem_decode_shrinks :
      (s : Bytes) {block rest : Bytes}
      → T.pem_decode s ≡ some (block, rest)
      → length rest < length s

module _ {T : RestTools} (L : IsLawful T) where
  read_chain-ne-none :
      (fuel : ℕ) (s : Bytes) (certs : List Certificate)
      → length s < fuel
      → read_chain T fuel s certs ≢ none
  unfolding read_chain
  read_chain-ne-none zero s certs h e = absurd (omega arith)
  read_chain-ne-none (suc fuel) s certs h e = elim (Option-cases (T.pem_decode s)) [
    | inl last ↦ absurd (ground (arith, e, last))
    | inr ((block, rest), found) ↦ elim (Result-cases (T.parse_certificate block)) [
      | inr (x, bad) ↦ absurd (ground (arith, e, found, bad))
      | inl (cert, parsed) ↦
          read_chain-ne-none fuel rest (certs ++ (cert ∷ []))
            (omega (arith, L.pem_decode_shrinks s found)) (ground (arith, e, found, parsed))
    ]
  ]

  read_ca_certificates-ne-none : (body : Bytes) → read_ca_certificates T body ≢ none
  unfolding read_ca_certificates
  read_ca_certificates-ne-none body e =
      elim (Option-cases (read_chain T (suc (length body)) body [])) [
        | inl stuck ↦ read_chain-ne-none (suc (length body)) body [] (omega arith) stuck
        | inr (r, found) ↦ absurd (ground (arith, e, found))
      ]

  -- The download of the CA's certificates ends with any answer, given that a PEM block that is found is
  -- taken off the text: the fuel of its loop is enough.
  pub ejbca_ca_certificates-ne-none :
      (c : EjbcaCa) (s : Remote) → (ejbca_ca_certificates T c s).0 ≢ none
  unfolding ejbca_ca_certificates
  ejbca_ca_certificates-ne-none c s e = grind (arith, e, read_ca_certificates-ne-none)
