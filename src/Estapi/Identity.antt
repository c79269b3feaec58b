-- ===== src/Estapi/Identity.antt =====
-- internal/estapi/identity.go: the client certificate of a request, and whether a CSR asks for the
-- same identity.
pub mod Match
pub mod Abstract
use est.Common.{
  Bool, false, List, [], ◌∷◌, ◌++◌, map, Bytes, ascii, str_eq, if◌then◌else◌, Option, none, some,
  not,
}
use est.Common.{Error, new, Result, ok, err}
use est.X509.{Certificate, CertificateRequest, Url, Ip}
use est.Strings.{sort_strings}

unfoldable pub no_peer_certificate : Error
unfolding ascii
no_peer_certificate = new (ascii "estapi: no client certificate presented")

-- `peerCertificate`, on `r.TLS` with its `PeerCertificates`.
unfoldable pub peer_certificate : Option (List Certificate) → Result Certificate
peer_certificate none = err no_peer_certificate
peer_certificate (some []) = err no_peer_certificate
peer_certificate (some (c ∷ cs)) = ok c

-- The loop that appends `it + "\n"` for each item.
unfoldable pub append_lines : Bytes → List Bytes → Bytes
append_lines out [] = out
append_lines out (it ∷ items) = append_lines (out ++ (it ++ (b'\n' ∷ []))) items

-- `ip_string` and `url_string` are the `String` methods of `net.IP` and `url.URL`.
module _ (ip_string : Ip → Bytes) (url_string : Url → Bytes) where
  -- The four loops that fill `items`.
  unfoldable pub san_items : List Bytes → List Ip → List Bytes → List Url → List Bytes
  san_items dns_names ips emails uris =
      map (λ d. ascii "dns:" ++ d) dns_names
      ++ map (λ ip. ascii "ip:" ++ ip_string ip) ips
      ++ map (λ e. ascii "email:" ++ e) emails
      ++ map (λ u. ascii "uri:" ++ url_string u) uris

  unfoldable pub san_set : List Bytes → List Ip → List Bytes → List Url → Bytes
  san_set dns_names ips emails uris =
      append_lines [] (sort_strings (san_items dns_names ips emails uris))

  unfoldable pub identities_match : Certificate → CertificateRequest → Bool
  identities_match peer csr =
      if not (str_eq peer.subject.common_name csr.subject.common_name)
      then false
      else str_eq (san_set peer.dns_names peer.ip_addresses peer.email_addresses peer.uris)
          (san_set csr.dns_names csr.ip_addresses csr.email_addresses csr.uris)
