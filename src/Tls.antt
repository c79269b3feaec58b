-- ===== src/Tls.antt =====
-- What the program uses of `crypto/tls` and of certificate pools: internal/estapi/tls.go configures
-- the server, and `NewCA` of internal/ca/ejbca a client.
use est.Common.{List, Bytes, Result}
use est.X509.{Certificate}

-- `tls.LoadX509KeyPair`, `os.ReadFile`, and the certificates that `AppendCertsFromPEM` adds to a pool:
-- it returns whether there is one.
pub record TlsTools : Type 1 where
  pub KeyPair : Type 0
  pub load_key_pair : Bytes → Bytes → Result KeyPair
  pub read_file : Bytes → Result Bytes
  pub certs_from_pem : Bytes → List Certificate
