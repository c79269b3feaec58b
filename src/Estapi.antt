-- ===== src/Estapi.antt =====
-- internal/estapi: the RFC 7030 HTTP endpoints.
pub mod Encoding
pub mod Identity
pub mod Server
pub mod Tls
