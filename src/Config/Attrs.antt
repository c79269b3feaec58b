-- ===== src/Config/Attrs.antt =====
-- cmd/estd/csrattrs.go: from the configuration to the options of the CSR attributes.
use est.Common.{false, [], map, Option, none, some}
use mathlib.Core.Option
use est.Config.{
  KeyAlgorithmConfig, ExtensionConfig, RdnConfig, TemplateExtensionConfig, TemplateConfig,
  CsrAttrsConfig,
}
use est.CsrAttrs.{KeyAlgorithm, Extension, Rdn, TemplateExtension, Template, Options}

unfoldable pub key_algorithm_of : KeyAlgorithmConfig → KeyAlgorithm
key_algorithm_of k = record {
  oid = k.oid;
  curve_oid = k.curve_oid;
  rsa_modulus_bits = k.rsa_modulus_bits;
}

unfoldable pub extension_of : ExtensionConfig → Extension
extension_of e = record { oid = e.oid; critical = e.critical; value_hex = e.value_hex }

unfoldable pub rdn_of : RdnConfig → Rdn
rdn_of r = record { oid = r.oid; value = r.value }

unfoldable pub template_extension_of : TemplateExtensionConfig → TemplateExtension
template_extension_of e = record { oid = e.oid; critical = e.critical; value_hex = e.value_hex }

unfoldable pub template_of : TemplateConfig → Template
template_of t = record {
  subject = map rdn_of t.subject;
  key_type = Option.map key_algorithm_of t.key_type;
  extensions = map template_extension_of t.extensions;
}

unfoldable pub csr_attrs_options : Option CsrAttrsConfig → Options
csr_attrs_options none = record {
  challenge_password = false;
  key_algorithm = none;
  required_extensions = [];
  extra_oids = [];
  template = none;
}
csr_attrs_options (some cfg) = record {
  challenge_password = cfg.challenge_password;
  key_algorithm = Option.map key_algorithm_of cfg.key_algorithm;
  required_extensions = map extension_of cfg.required_extensions;
  extra_oids = cfg.extra_oids;
  template = Option.map template_of cfg.template;
}
