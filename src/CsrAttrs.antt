-- ===== src/CsrAttrs.antt =====
-- internal/csrattrs/csrattrs.go: the attributes that a server wants in CSRs, their check, and their
-- encoding. A pointer that may be nil is an `Option`, an `int` is a ℤ.
pub mod Oid
pub mod Encode
pub mod Asn1
pub mod Values
pub mod Elements
pub mod Der
pub mod Startup
use est.Common.{
  ℤ, pos, int_eq, Bool, true, false, not, ◌&&◌, List, Option, none, some, Bytes, ascii, is_empty,
  is_some, Result, ok, err, new, if◌then◌else◌,
}

-- `RSAModulusBits` is 0 where it is not set, `CurveOID` empty.
pub record KeyAlgorithm : Type 0 where
  pub oid : Bytes
  pub curve_oid : Bytes
  pub rsa_modulus_bits : ℤ

pub record Extension : Type 0 where
  pub oid : Bytes
  pub critical : Bool
  pub value_hex : Bytes

pub record Rdn : Type 0 where
  pub oid : Bytes
  pub value : Option Bytes

pub record TemplateExtension : Type 0 where
  pub oid : Bytes
  pub critical : Bool
  pub value_hex : Option Bytes

pub record Template : Type 0 where
  pub subject : List Rdn
  pub key_type : Option KeyAlgorithm
  pub extensions : List TemplateExtension

pub record Options : Type 0 where
  pub challenge_password : Bool
  pub key_algorithm : Option KeyAlgorithm
  pub required_extensions : List Extension
  pub extra_oids : List Bytes
  pub template : Option Template

-- The first test of `Validate`.
unfoldable pub validate_key_algorithm : Option KeyAlgorithm → Result (Unit {0})
validate_key_algorithm none = ok tt
validate_key_algorithm (some ka) =
    if not (is_empty ka.curve_oid) && not (int_eq ka.rsa_modulus_bits (pos 0))
    then err
        (new (ascii "csrattrs: key_algorithm cannot set both a curve OID and an RSA modulus size"))
    else ok tt

-- The tests on `o.Template.KeyType`.
unfoldable pub validate_key_type : Option KeyAlgorithm → Result (Unit {0})
validate_key_type none = ok tt
validate_key_type (some ka) =
    if not (int_eq ka.rsa_modulus_bits (pos 0))
    then err (
        new (
          ascii
            "csrattrs: template key type does not support an RSA modulus size (use the top-level key_algorithm instead)"))
    else if is_empty ka.curve_oid
    then err (new (ascii "csrattrs: template key type requires a curve OID"))
    else ok tt

unfoldable pub validate_options : Options → Result (Unit {0})
validate_options o = elim (validate_key_algorithm o.key_algorithm) [
  | err e ↦ err e
  | ok _ ↦ elim o.template [ none ↦ ok tt | some t ↦ validate_key_type t.key_type ]
]

unfoldable pub is_empty_options : Options → Bool
is_empty_options opts =
    not opts.challenge_password
    && not (is_some opts.key_algorithm)
    && is_empty opts.required_extensions
    && is_empty opts.extra_oids
    && not (is_some opts.template)
