-- ===== src/Ca/Ejbca/Backend.antt =====
-- `CA` of internal/ca/ejbca as a `CABackend`.
use est.Common.{List, map, Option, none, some, Result, ok, err, new, ascii}
use est.X509.{Certificate}
use est.Ca.{CaBackend}
use est.Ca.Ejbca.{RestTools, Remote, EjbcaCa, ejbca_ca_certificates, ejbca_issue_certificate}

-- Pointers to certificates that are there. The first clause is the fuel that does not run out.
unfoldable pub to_pointers : Option (Result (List Certificate)) → Result (List (Option Certificate))
to_pointers none = err (new (ascii "out of fuel"))
to_pointers (some (err e)) = err e
to_pointers (some (ok certs)) = ok (map some certs)

abbrev pub ejbca_backend : RestTools → EjbcaCa → CaBackend
ejbca_backend T c = record {
  State = Remote;
  ca_certificates = λ s. let (certs, s) = ejbca_ca_certificates T c s in (to_pointers certs, s);
  issue_certificate = ejbca_issue_certificate T c;
}
