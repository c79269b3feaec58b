-- ===== src/Tests/Available.antt =====
-- A renewal over a backend that issues and an empty store on disk.
use est.Common.{◌≡◌, refl, inr, [], ◌∷◌, ok, ascii, str_eq, pos}
use est.Estapi.Identity.{peer_certificate, san_items}
use est.Estapi.Identity.Abstract.{peer_identity, csr_identity}
use est.Store.FileStore.Healthy.{IsHealthy}
use est.Store.Atomic.Laws.{NoFaults}
use est.Estapi.Server.{Request, Route, route, serve}
use est.Estapi.Server.Available.{CanIssue, IsAnsweredBy, serve-IsAnsweredBy}
use est.Tests.Data.{
  platform, backend, store, world, enroll_request, cert, request_of, csr_der, parse_certificate,
  marshal_indent, directory, no_faults,
}
use est.Tests.Delivered.{cert_message, encode_cert}
use est.Tests.Encoding.{decode_csr}

abbrev renewal : Request
renewal = record enroll_request { path = ascii "/.well-known/est/simplereenroll" }

authenticated : peer_certificate renewal.tls ≡ ok (cert 5)
unfolding peer_certificate
authenticated = refl

routed_to : route renewal.method renewal.path ≡ Route.simple_reenroll
unfolding route ascii str_eq
routed_to = refl

same_identity :
    peer_identity platform.ip_string platform.url_string (cert 5)
    ≡ csr_identity platform.ip_string platform.url_string (request_of csr_der)
unfolding san_items
same_identity = refl

without_faults : NoFaults no_faults
without_faults = record {
  mkdir_all = refl;
  create_temp = refl;
  write = refl;
  close = refl;
  chmod = refl;
  rename = refl;
  remove = refl;
}

healthy : IsHealthy directory (pos 7) world.store
healthy = record {
  csr = without_faults;
  cert = without_faults;
  meta = without_faults;
  csr_free = refl;
  cert_free = refl;
  meta_free = refl;
}

can_issue :
    CanIssue platform backend parse_certificate marshal_indent directory renewal
      (cert 5)
      (request_of csr_der)
      (cert 7)
      cert_message
      world
can_issue = record {
  issued = refl;
  json = b'{' ∷ b'}' ∷ [];
  marshalled = refl;
  healthy = healthy;
  encoded = encode_cert;
}

serve-IsAnsweredBy_example :
    IsAnsweredBy platform backend parse_certificate marshal_indent directory cert_message world
      (serve platform backend store [] renewal world)
serve-IsAnsweredBy_example =
    serve-IsAnsweredBy platform backend parse_certificate marshal_indent directory [] renewal world
      (cert 5) (request_of csr_der) (cert 7) cert_message authenticated decode_csr
      (inr (routed_to, same_identity)) can_issue
