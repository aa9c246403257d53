-- ===== src/MentionParser/Config.antt =====
-- The mapping configuration with its validators: rdf_mention_parser/domain/rdf_mapping_config.py,
-- and adapter/rdf_mapping_config_reader.py without the reading of the file. What pydantic raises is
-- a ValueError.
use Prim.Native.String.{◌++◌}
use entity_resolution_servic.Prelude.{
  String, Bool, true, false, ◌&&◌, Option, none, some, List, [], ◌∷◌, ◌==◌, string_eq,
  if◌then◌else◌, all,
}
use entity_resolution_servic.Dict.{Dict, lookup}
use entity_resolution_servic.Effects.{
  unsupported_entity_type, value_error, other_error, Result, ok, err, ◌>>?◌, require,
}
use entity_resolution_servic.MentionParser.Paths.{is_segment, split, split_once, first_part}

pub record EntityTypeConfig : Type 0 where
  pub rdf_type : String
  pub entity_label_field : String
  pub fields : Dict String

pub record RdfMappingConfig : Type 0 where
  pub namespaces : Dict String
  pub entity_types : Dict EntityTypeConfig

abbrev pub is_some {ℓ} : {A : Type ℓ} → Option A → Bool
is_some none = false
is_some (some a) = true

abbrev is_nonempty : {A : Type 0} → List A → Bool
is_nonempty [] = false
is_nonempty (x ∷ xs) = true

unfoldable pub fields_not_empty : Dict String → Result (Unit {0})
fields_not_empty v = require (is_nonempty v) value_error

unfoldable pub validate_field_paths : Dict String → Result (Unit {0})
validate_field_paths v =
    require (all (λ (name, path). all is_segment (split b'/' path)) v) value_error

unfoldable pub entity_label_field_must_be_a_configured_field : EntityTypeConfig → Result (Unit {0})
entity_label_field_must_be_a_configured_field c =
    require (is_some (lookup c.entity_label_field c.fields)) value_error

-- `EntityTypeConfig(**data)`
unfoldable pub entity_type_config : EntityTypeConfig → Result EntityTypeConfig
unfolding fields_not_empty validate_field_paths entity_label_field_must_be_a_configured_field
entity_type_config c = fields_not_empty c.fields >>? λ _. validate_field_paths c.fields >>? λ _.
    entity_label_field_must_be_a_configured_field c >>? λ _. ok c

unfoldable pub entity_type_configs : Dict EntityTypeConfig → Result (Unit {0})
unfolding entity_type_config
entity_type_configs [] = ok tt
entity_type_configs ((name, c) ∷ rest) =
    let others = entity_type_configs rest in entity_type_config c >>? λ _. others

unfoldable pub entity_types_not_empty : Dict EntityTypeConfig → Result (Unit {0})
entity_types_not_empty v = require (is_nonempty v) value_error

abbrev pub is_declared : Dict String → String → Bool
is_declared namespaces name = is_some (lookup (first_part b':' name) namespaces)

abbrev pub has_declared_prefixes : Dict String → EntityTypeConfig → Bool
has_declared_prefixes namespaces c =
    is_declared namespaces c.rdf_type
    && all (λ (name, path). all (is_declared namespaces) (split b'/' path)) c.fields

unfoldable pub validate_prefix_consistency : RdfMappingConfig → Result (Unit {0})
validate_prefix_consistency c =
    require (all (λ (name, t). has_declared_prefixes c.namespaces t) c.entity_types) value_error

-- `RDFMappingConfig(**data)`
unfoldable pub rdf_mapping_config : RdfMappingConfig → Result RdfMappingConfig
unfolding entity_type_configs entity_types_not_empty validate_prefix_consistency
rdf_mapping_config c = entity_type_configs c.entity_types >>? λ _.
    entity_types_not_empty c.entity_types >>? λ _. validate_prefix_consistency c >>? λ _. ok c

-- `RDFConfigReader.from_string`, with `yaml.safe_load` as a parameter.
unfoldable pub from_string : (String → Result RdfMappingConfig) → String → Result RdfMappingConfig
from_string safe_load yaml_text = safe_load yaml_text >>? λ loaded. rdf_mapping_config loaded

unfoldable pub get_entity_type_config : RdfMappingConfig → String → Result EntityTypeConfig
get_entity_type_config c name = elim (lookup name c.entity_types) [
  | none ↦ err unsupported_entity_type
  | some t ↦ ok t
]

-- `prefix, local = rdf_type.split(":", 1)`, which raises ValueError if there is no colon, and
-- `namespaces[prefix] + local`, which raises KeyError if the prefix is not declared.
abbrev pub expanded : Dict String → Option (String × String) → Result String
expanded namespaces none = err value_error
expanded namespaces (some (prefix, local)) = elim (lookup prefix namespaces) [
  | none ↦ err other_error
  | some uri ↦ ok (uri ++ local)
]

unfoldable pub expand : Dict String → String → Result String
unfolding split_once
expand namespaces rdf_type = expanded namespaces (split_once b':' rdf_type)

unfoldable pub find_expanding :
    Dict String → String → Dict EntityTypeConfig → Result EntityTypeConfig
unfolding expand
find_expanding namespaces uri [] = err unsupported_entity_type
find_expanding namespaces uri ((name, t) ∷ rest) =
    let others = find_expanding namespaces uri rest in
    expand namespaces t.rdf_type >>? λ full. if full == uri then ok t else others

unfoldable pub resolve_entity_type : RdfMappingConfig → String → Result EntityTypeConfig
unfolding find_expanding
resolve_entity_type c uri = find_expanding c.namespaces uri c.entity_types
