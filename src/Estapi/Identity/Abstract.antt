-- ===== src/Estapi/Identity/Abstract.antt =====
-- The identity that `identitiesMatch` compares, without the order in which its names stand: the
-- common name and the multiset of the SAN items.
use mathlib.Core.Quot.{lift}
use native.Mathlib.Decide.{ℕ_discrete}
use mathlib.Mathlib.Data.Multiset.Defs.{Multiset, of_list, coe-eq-coe}
use est.Common.{◌≡◌, ap, true, List, Bytes}
use est.X509.{Certificate, CertificateRequest, Url, Ip}
use est.Strings.{sort_strings}
use est.Strings.Sorting.{sort_strings-eq_of_perm}
use est.Strings.Joining.{close_lines}
use est.Estapi.Identity.{san_items, san_set, identities_match}
use est.Estapi.Identity.Match.{peer_items, csr_items, san_set-eq, identities_match_of_SameIdentity}

-- The text of a multiset of items: `sort.Strings` makes it a function of the multiset.
pub san_text : Multiset Bytes → Bytes
san_text =
    lift (hlevel ℕ_discrete) (λ items. close_lines b'\n' (sort_strings items))
      (λ a b p. ap (close_lines b'\n') (sort_strings-eq_of_perm p))

pub record Identity : Type 0 where
  pub common_name : Bytes
  pub names : Multiset Bytes

module _ (ip_string : Ip → Bytes) (url_string : Url → Bytes) where
  abbrev pub peer_identity : Certificate → Identity
  peer_identity c = record {
    common_name = c.subject.common_name;
    names = of_list (peer_items ip_string url_string c);
  }

  abbrev pub csr_identity : CertificateRequest → Identity
  csr_identity c = record {
    common_name = c.subject.common_name;
    names = of_list (csr_items ip_string url_string c);
  }

  san_set-eq-san_text :
      (d : List Bytes) (i : List Ip) (e : List Bytes) (u : List Url)
      → san_set ip_string url_string d i e u
        ≡ san_text (of_list (san_items ip_string url_string d i e u))
  unfolding san_text
  san_set-eq-san_text d i e u = san_set-eq ip_string url_string d i e u

  -- The match does not depend on the order of the names.
  pub identities_match_of_eq :
      (peer : Certificate) (csr : CertificateRequest)
      → peer_identity peer ≡ csr_identity csr
      → identities_match ip_string url_string peer csr ≡ true
  identities_match_of_eq peer csr e =
      identities_match_of_SameIdentity ip_string url_string peer csr
        (ap Identity.common_name e, coe-eq-coe.0 (ap Identity.names e))
