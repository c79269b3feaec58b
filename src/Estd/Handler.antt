-- ===== src/Estd/Handler.antt =====
-- The handler of a server that cmd/estd/main.go puts together: the endpoints over the backend and the
-- store that it chose.
use est.Common.{Bytes, Result}
use est.X509.{Certificate}
use est.Ca.{CaBackend}
use est.Ca.Serial.{random_serial_source}
use est.Ca.Local.Laws.{local_backend}
use est.Ca.Openssl.Backend.{openssl_backend}
use est.Ca.Ejbca.{RestTools}
use est.Ca.Ejbca.Backend.{ejbca_backend}
use est.Store.{Store, Metadata}
use est.Store.FileStore.Lawful.{file_store}
use est.Estapi.Encoding.{Response}
use est.Estapi.Server.{Platform, Request, World, serve}
use est.Estd
use est.Estd.{Backend}

-- What the handlers call of libraries, beside what start-up calls.
pub record Libraries : Type 1 where
  pub endpoints : Platform
  pub rest : RestTools
  pub parse_certificate : Bytes → Result Certificate
  pub marshal_indent : Metadata → Result Bytes

module _ (D : Estd.Platform) (A : Libraries) where
  abbrev pub ca_backend_of : Backend D → CaBackend
  ca_backend_of (Backend.local ca) = local_backend D.crypto random_serial_source ca
  ca_backend_of (Backend.openssl ca) = openssl_backend D.openssl ca
  ca_backend_of (Backend.ejbca client ca) = ejbca_backend A.rest ca

  abbrev pub store_of : Estd.Server D → Store
  store_of s = file_store A.parse_certificate A.marshal_indent s.file_store

  abbrev pub ServerWorld : Estd.Server D → Type 0
  ServerWorld s = World (ca_backend_of s.backend) (store_of s)

  -- `srv.Handler()` of the server that `NewServer` makes.
  unfoldable pub handle : (s : Estd.Server D) → Request → ServerWorld s → Response × ServerWorld s
  handle s = serve A.endpoints (ca_backend_of s.backend) (store_of s) s.csr_attrs_der
