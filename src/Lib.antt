-- ===== src/Lib.antt =====
-- A model of the EST server estd (RFC 7030), and of its Go packages.
--
-- The server answers four endpoints over HTTPS. internal/estapi reads a base64 CSR from the body, takes
-- the client's certificate from the TLS connection, asks a backend of internal/ca for a certificate,
-- stores the CSR and the certificate by internal/store, and answers with a certificates-only PKCS#7
-- message of internal/pkcs7 in base64.
--
-- Parts and files:
-- - Pkcs7: internal/pkcs7/pkcs7.go. EncodeCertsOnly is `encode_certs_only`, its nested closures are
--   `add_content_info`, `add_signed_data` and `add_certificates`; DecodeCertsOnly is
--   `decode_certs_only`, the loop's round is `read_certificate`.
-- - Estapi/Encoding, Estapi/Identity, Estapi/Server: internal/estapi/encoding.go, identity.go, and
--   handlers.go with server.go. Each Go function has its name in snake_case; issueAndRespond is cut at
--   its calls into `issue_and_respond`, `persist`, `persist_certificate` and `respond_with`, and `serve`
--   is the mux that Handler builds. A handler maps the request and the world (the states of backend and
--   store and the error log) to the response and the new world.
-- - Estapi/Identity/Abstract: the identity of a certificate as a common name and a multiset of names,
--   without the order in which the fields list them.
-- - Estapi/Server/Concurrent: the same handlers cut at their calls of the backend and of the store. The
--   phase of a goroutine says which call is next, `advance` is one step of it, and `interleave` takes the
--   arrivals and steps of all goroutines in a given order.
-- - Estapi/Tls: internal/estapi/tls.go. BuildTLSConfig is `build_tls_config`, its loop `read_client_cas`.
-- - Estd: cmd/estd/main.go. `start` is run up to the listener: `load_valid`, `choose_backend` (the
--   `switch`) and `assemble`; `wait_for_end` is the `select`, and `main` gives the exit code. `none` stands
--   for the panic of a nil pointer. Estd/Handler is the handler of the server that was put together.
-- - Store: internal/store/store.go, the interface and its laws. Store/FileStore and Store/Atomic:
--   internal/store/file.go, with writeFileAtomic call by call on the disk of Fs, where each call may
--   fail, the deferred os.Remove too, and every state of the disk during a run is kept. Store/Atomic/Writers is writeFileAtomic in
--   several goroutines: the stage of a writer says which call of the operating system is next,
--   `advance_write` is one step of it, and `take_steps` lets the writers go on in a given order.
-- - Ca: internal/ca/ca.go, the interface of a backend. Ca/Local and Ca/Serial: internal/ca/local.go and
--   serial.go, the backend that signs in the process, with IssueCertificate as `issue_certificate`,
--   which calls `sign` with a `certificate_template`. Ca/Openssl: internal/ca/openssl/openssl.go, whose
--   IssueCertificate is `openssl_issue_certificate` on the files, with the two deferred removals, which
--   may fail;
--   Ca/Openssl/Lock is runOpenSSLCA in several goroutines, where `take_turn` lets one of them go on.
--   Ca/Ejbca: internal/ca/ejbca/ejbca.go, over a remote that answers requests (`Remote`), with
--   `ejbca_issue_certificate` and `ejbca_ca_certificates`, whose error `rest_error` is httpError;
--   Ca/Ejbca/Client is NewCA with the client that it builds.
-- - CsrAttrs: internal/csrattrs/csrattrs.go, the options and their check; CsrAttrs/Oid has parseOID,
--   CsrAttrs/Encode the functions that write the DER (addOID is `add_oid`, Encode is
--   `encode_csr_attrs`), CsrAttrs/Asn1 the structures that they are compared with in
--   CsrAttrs/Elements and CsrAttrs/Der, CsrAttrs/Startup what the server answers.
-- - Config: internal/config/config.go, where Validate is `validate`, cut at its `switch`. Config/Load: Load
--   and the JSON of a duration. Config/Attrs: csrAttrsOptions of cmd/estd/csrattrs.go.
-- - Tls: what is used of crypto/tls, its key pairs and pools, by Estapi/Tls and Ca/Ejbca/Client.
-- - X509: the fields of the crypto/x509 structures that the program reads or sets.
-- - Base64, Utf8, Hex, Decimal, Strings: what the program uses of Go's encoding/base64, range over a
--   string and WriteRune, fmt's %x and %d, and sort.Strings.
-- - Common: shared types, numbers, lists and results. An error is a chain of wrapped texts.
-- - Tests: runs at concrete inputs, and each theorem at one, over a small DER cryptobyte that meets the
--   laws assumed of golang.org/x/crypto.
--
-- Parameters: golang.org/x/crypto/cryptobyte is the record `Cryptobyte`, with the documented behaviour
-- as `Cryptobyte.IsLawful`. x509.ParseCertificate and ParseCertificateRequest, json.MarshalIndent, the
-- String methods of net.IP and url.URL, asn1.Marshal of extensions, the signing and key formats of
-- crypto/x509 (the record `Crypto`, with `Ca.Local.Laws.IsLawful` for what is read back of a template
-- whose basic constraints are valid and whose key usage has nine bits),
-- what crypto/rand and time.Now return, the openssl command as a function on files, the answers of EJBCA,
-- the order of a range over a map, the key pairs and pools of crypto/tls (the record `TlsTools`), what
-- encoding/json makes of a configuration or a string, time.ParseDuration, how the listener ended, and the
-- errors that the operating system returns are arguments. What crypto/tls does with a TLS configuration
-- is a hypothesis.
--
-- Bounds and fuel: an int that counts bytes is a ℕ, as no sum comes near 2^63. The decoder's loop has
-- as much fuel as its input has bytes, and each round takes at least one. The loop that wraps base64
-- lines is well-founded recursion on what is left. The loop over PEM blocks has one round more than
-- there are bytes. Hex and decimal digits have the number plus one as fuel.
--
-- Simplifications: the paths, numbers and quoted values that the program formats into the text of an
-- error are left out, with the output of the openssl command, and the fixed words are kept; the text
-- of httpError is whole. Concurrent handlers interleave at calls of the backend and of the store, each
-- of which is one step; what the steps within a write of a file store do to each other is in
-- Store/Atomic/Writers, where the names of temp files that CreateTemp draws differ. Requests whose path
-- is not clean, which the mux redirects, are not modelled. The directory of a store is a clean path.
--
-- Not modelled: TLS handshakes, the flag package (whose errors exit with code 2), the listener and
-- the time that its shutdown takes, and the parts of the repository that are no Go.
pub mod Common
pub mod X509
pub mod Cryptobyte
pub mod Pkcs7
pub mod Base64
pub mod Utf8
pub mod Strings
pub mod Hex
pub mod Decimal
pub mod Fs
pub mod Ca
pub mod CsrAttrs
pub mod Config
pub mod Store
pub mod Tls
pub mod Estapi
pub mod Estd
mod Tests
