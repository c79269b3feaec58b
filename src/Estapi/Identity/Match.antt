-- ===== src/Estapi/Identity/Match.antt =====
-- What `identitiesMatch` compares: the common names, and the SAN items as a multiset.
use mathlib.Core.List.{Perm}
use mathlib.Core.List.Perm
use est.Common.{◌≡◌, ◌≢◌, ◌↔◌, sym, ◌∙◌, ap, subst, append-nil, arith, true, append_assoc}
use est.Common.{
  List, [], ◌∷◌, ◌++◌, Bytes, All, ascii, str_eq, str_eq_iff, length, Bool-cases, inl, inr,
}
use est.X509.{Certificate, CertificateRequest, Url, Ip}
use est.Strings.{sort_strings, str_le, insert_sorted}
use est.Strings.Sorting.{
  sort_strings-perm, sort_strings-eq_of_perm, All-sort_strings, total-sort_strings,
}
use est.Strings.Joining.{close_lines, close_lines-injective, Lacks, length-close_lines}
use est.Estapi.Identity.{append_lines, san_items, san_set, identities_match}

append_lines-close_lines :
    (out : Bytes) (l : List Bytes) → append_lines out l ≡ out ++ close_lines b'\n' l
unfolding append_lines
append_lines-close_lines out [] = sym (append-nil out)
append_lines-close_lines out (s ∷ l) =
    append_lines-close_lines (out ++ (s ++ (b'\n' ∷ []))) l ∙ simp append_assoc

module _ (ip_string : Ip → Bytes) (url_string : Url → Bytes) where
  -- The items of a certificate and of a CSR.
  abbrev pub peer_items : Certificate → List Bytes
  peer_items c = san_items ip_string url_string c.dns_names c.ip_addresses c.email_addresses c.uris

  abbrev pub csr_items : CertificateRequest → List Bytes
  csr_items c = san_items ip_string url_string c.dns_names c.ip_addresses c.email_addresses c.uris

  -- Equal common names, and the same items as often.
  abbrev pub SameIdentity : Certificate → CertificateRequest → Type 0
  SameIdentity peer csr =
      (peer.subject.common_name ≡ csr.subject.common_name) × Perm (peer_items peer) (csr_items csr)

  pub san_set-eq :
      (d : List Bytes) (i : List Ip) (e : List Bytes) (u : List Url)
      → san_set ip_string url_string d i e u
        ≡ close_lines b'\n' (sort_strings (san_items ip_string url_string d i e u))
  unfolding san_set
  san_set-eq d i e u = append_lines-close_lines [] _

  -- The match is on the common name and on the rendered SAN fields.
  identities_match_iff :
      (peer : Certificate) (csr : CertificateRequest)
      → (identities_match ip_string url_string peer csr ≡ true) ↔ (
          (peer.subject.common_name ≡ csr.subject.common_name)
          × (close_lines b'\n' (sort_strings (peer_items peer))
              ≡ close_lines b'\n' (sort_strings (csr_items csr))))
  unfolding identities_match
  identities_match_iff peer csr =
      let names = str_eq peer.subject.common_name csr.subject.common_name in
      let names_iff = str_eq_iff peer.subject.common_name csr.subject.common_name in
      rw (san_set-eq, san_set-eq)
        (elim (Bool-cases names) [
          | inl e ↦ rw e (λ h. (names_iff.0 e, (str_eq_iff _ _).0 h), λ h. (str_eq_iff _ _).1 h.1)
          | inr e ↦ rw e (λ h. cc, λ h. cc (names_iff.1 h.0, e))
        ])

  -- A CSR with the peer's identity matches, in whatever order its names stand.
  pub identities_match_of_SameIdentity :
      (peer : Certificate) (csr : CertificateRequest)
      → SameIdentity peer csr
      → identities_match ip_string url_string peer csr ≡ true
  identities_match_of_SameIdentity peer csr (name, items) =
      (identities_match_iff peer csr).1
        (name, ap (close_lines b'\n') (sort_strings-eq_of_perm items))

  -- Where no rendered name holds a line break, the identities match exactly if they are the same.
  pub identities_match-iff_SameIdentity :
      (peer : Certificate) (csr : CertificateRequest)
      → All (Lacks b'\n') (peer_items peer)
      → All (Lacks b'\n') (csr_items csr)
      → (identities_match ip_string url_string peer csr ≡ true) ↔ SameIdentity peer csr
  identities_match-iff_SameIdentity peer csr hp hc = (
    λ h.
        let (name, lines) = (identities_match_iff peer csr).0 h in
        let p = sort_strings-perm (peer_items peer) in
        let q = sort_strings-perm (csr_items csr) in
        let same =
          close_lines-injective b'\n' _ _ (All-sort_strings _ _ hp) (All-sort_strings _ _ hc)
            lines in
        (name, Perm.trans (Perm.symm p) (subst (λ l. Perm l (csr_items csr)) (sym same) q)),
    identities_match_of_SameIdentity peer csr,
  )

  -- A DNS name that is listed once more changes the identity, also a name that is listed already.
  pub san_set-ne-cons :
      (name : Bytes) (d : List Bytes) (i : List Ip) (e : List Bytes) (u : List Url)
      → san_set ip_string url_string (name ∷ d) i e u ≢ san_set ip_string url_string d i e u
  unfolding san_items
  san_set-ne-cons name d i e u h =
      let items = san_items ip_string url_string in
      let same = sym (san_set-eq (name ∷ d) i e u) ∙ h ∙ san_set-eq d i e u in
      omega (
        arith,
        ap length same,
        length-close_lines b'\n' (sort_strings (items (name ∷ d) i e u)),
        length-close_lines b'\n' (sort_strings (items d i e u)),
        total-sort_strings (items (name ∷ d) i e u),
        total-sort_strings (items d i e u),
      )

  -- A DNS name that holds a line break and a second item has the identity of two names.
  pub san_set_line_break :
      (a b : Bytes)
      → str_le (ascii "dns:" ++ a) (ascii "dns:" ++ b) ≡ true
      → san_set ip_string url_string ((a ++ (b'\n' ∷ (ascii "dns:" ++ b))) ∷ []) [] [] []
        ≡ san_set ip_string url_string (a ∷ b ∷ []) [] [] []
  unfolding san_items sort_strings insert_sorted
  san_set_line_break a b h = rw (san_set-eq, san_set-eq, h) (simp append_assoc)
