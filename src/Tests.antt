-- ===== src/Tests.antt =====
-- Concrete inputs: a small DER writer and reader for the cryptobyte interface, runs of the code, and
-- the theorems at inputs that meet their hypotheses.
mod Der
mod Data
mod Pkcs7
mod Encoding
mod Identity
mod Store
mod Estapi
mod CsrAttrs
mod Ca
mod Config
mod Openssl
mod Ejbca
mod Tls
mod Estd
mod Concurrent
mod Lock
mod Delivered
mod Available
mod Writers
