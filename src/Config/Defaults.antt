-- ===== src/Config/Defaults.antt =====
-- The defaults that `Validate` of internal/config/config.go fills in.
use est.Common.{
  ◌≡◌, ap, ◌∙◌, arith, false, Option, none, some, ascii, str_eq, is_empty, Option-cases, Bool-cases,
  inl, inr, if◌then◌else◌,
}
use est.Config.{Config, OpenSslCaConfig, default_backend, default_openssl}

abbrev pub fill_openssl : Option OpenSslCaConfig → Option OpenSslCaConfig
fill_openssl none = none
fill_openssl (some o) = some (default_openssl o)

abbrev pub fill : Config → Config
fill c =
    if str_eq c.ca_backend (ascii "openssl")
    then record c { openssl_ca = fill_openssl c.openssl_ca }
    else c

-- The configuration with the defaults of the backend that it names.
abbrev pub with_defaults : Config → Config
with_defaults c = fill (default_backend c)

pub fill_keeps :
    (c : Config) → (o : Option OpenSslCaConfig) × (fill c ≡ record c { openssl_ca = o })
fill_keeps c = ((fill c).openssl_ca, ground arith)

pub fill-ca_backend : (c : Config) → (fill c).ca_backend ≡ c.ca_backend
fill-ca_backend c = ground arith

default_openssl_idem :
    (o : OpenSslCaConfig) → default_openssl (default_openssl o) ≡ default_openssl o
unfolding default_openssl ascii
default_openssl_idem o = ground arith

fill_idem : (c : Config) → fill (fill c) ≡ fill c
fill_idem c = elim (Bool-cases (str_eq c.ca_backend (ascii "openssl"))) [
  | inr e ↦ ground (arith, e)
  | inl e ↦ elim (Option-cases c.openssl_ca) [
    | inl absent ↦ ground (arith, e, absent)
    | inr (o, present) ↦ ground (arith, e, present, default_openssl_idem o)
  ]
]

default_backend_named : (c : Config) → is_empty (default_backend c).ca_backend ≡ false
unfolding default_backend ascii
default_backend_named c = ground arith

default_backend-fill :
    (c : Config) → is_empty c.ca_backend ≡ false → default_backend (fill c) ≡ fill c
unfolding default_backend
default_backend-fill c h = ground (arith, h, fill-ca_backend c)

pub with_defaults_idem : (c : Config) → with_defaults (with_defaults c) ≡ with_defaults c
with_defaults_idem c =
    ap fill (default_backend-fill (default_backend c) (default_backend_named c))
    ∙ fill_idem (default_backend c)
