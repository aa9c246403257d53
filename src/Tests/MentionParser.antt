-- ===== src/Tests/MentionParser.antt =====
-- Runs of the mention parser on an organisation with two rows.
use entity_resolution_servic.Prelude.{
  String, ◌≡◌, ◌≢◌, refl, arith, subst, inl, inr, Bool-cases, true, false, Option, none, some, List,
  [], ◌∷◌, ◌==◌, string_eq, if◌then◌else◌,
}
use entity_resolution_servic.Dict.{Dict, lookup}
use entity_resolution_servic.Domain.{EntityMention}
use entity_resolution_servic.Effects.{
  ok, err, value_error, unsupported_content_type, multiple_entities_found,
}
use entity_resolution_servic.MentionParser.Paths.{split, split_once, first_part, is_segment}
use entity_resolution_servic.MentionParser.Config.{
  EntityTypeConfig, RdfMappingConfig, rdf_mapping_config, get_entity_type_config, expand,
}
use entity_resolution_servic.MentionParser.Parse.{
  Row, Rdf, parse, extract, parse_to_graph, validate_single_entity, validate_content_size,
}
use entity_resolution_servic.MentionParser.Documented.{is_documented, parse-Documented}
use entity_resolution_servic.Tests.Registry.{entity_a}

abbrev organisation : EntityTypeConfig
organisation = record {
  rdf_type = "org:Organization";
  entity_label_field = "name";
  fields = ("name", "epo:hasLegalName") ∷ ("country", "cccev:address/epo:country") ∷ [];
}

abbrev namespaces : Dict String
namespaces =
    ("org", "http://www.w3.org/ns/org#")
    ∷ ("epo", "http://data.europa.eu/a4g/ontology#")
    ∷ ("cccev", "http://data.europa.eu/m8g/")
    ∷ []

abbrev mapping : RdfMappingConfig
mapping = record { namespaces = namespaces; entity_types = ("org", organisation) ∷ [] }

abbrev row_of : String → Option String → Option String → String → Option String
row_of e name country var =
    if var == "entity"
    then some e
    else if var == "name"
    then name
    else if var == "country"
    then country
    else none

abbrev vars : List String
vars = "entity" ∷ "name" ∷ "country" ∷ []

-- A library that reads one document.
abbrev rdf : Rdf
rdf = record {
  Graph = String;
  parse = λ content format. if content == "" then none else some content;
  subjects_of_type =
      λ graph uri. if uri == "http://www.w3.org/ns/org#Organization" then "e1" ∷ [] else [];
  query = λ graph q.
      some (vars, row_of "e1" none (some "FR") ∷ row_of "e1" (some "Acme") (some "DE") ∷ []);
}

abbrev mention : EntityMention
mention = record entity_a {
  identified_by = record { source_id = "s"; request_id = "r"; entity_type = "org" };
}

is_accepted : rdf_mapping_config mapping ≡ ok mapping
unfolding rdf_mapping_config is_segment split first_part lookup
is_accepted = refl

a_prefix_without_a_local_name : is_segment "epo:" ≡ false
unfolding is_segment
a_prefix_without_a_local_name = refl

abbrev rows : List Row
rows =
    (("entity", some "e1") ∷ ("name", none) ∷ ("country", some "FR") ∷ [])
    ∷ (("entity", some "e1") ∷ ("name", some "Acme") ∷ ("country", some "DE") ∷ [])
    ∷ []

abbrev parsed : Row
parsed = ("name", some "Acme") ∷ ("country", some "FR") ∷ []

two_entities :
    validate_single_entity ((("entity", some "e1") ∷ []) ∷ (("entity", some "e2") ∷ []) ∷ [])
    ≡ err multiple_entities_found
unfolding validate_single_entity lookup
two_entities = refl

types_have_colons :
    (name : String) (t : EntityTypeConfig)
    → lookup name mapping.entity_types ≡ some t
    → split_once b':' t.rdf_type ≢ none
unfolding lookup split_once
types_have_colons name t h = elim (Bool-cases ("org" == name)) [
  | inl here ↦
      let same : organisation ≡ t = ground (arith, h, here) in
      subst (λ x. split_once b':' x.rdf_type ≢ none) same (λ k. cc k)
  | inr other ↦ absurd (ground (arith, h, other))
]

abbrev plain_text : EntityMention
plain_text = record mention { content_type = "text/plain" }

parse_plain_text : parse rdf 1000 mapping plain_text ≡ err unsupported_content_type
unfolding parse validate_content_size get_entity_type_config parse_to_graph lookup
parse_plain_text = refl

parse-Documented_example : is_documented unsupported_content_type ≡ true
parse-Documented_example =
    parse-Documented rdf 1000 mapping is_accepted types_have_colons (λ name t h graph k. cc k)
      plain_text unsupported_content_type parse_plain_text

-- A type without a colon passes the validators, and the parsing then raises a ValueError.
abbrev bare : EntityTypeConfig
bare = record organisation { rdf_type = "org" }

abbrev bare_mapping : RdfMappingConfig
bare_mapping = record mapping { entity_types = ("org", bare) ∷ [] }

bare_is_accepted : rdf_mapping_config bare_mapping ≡ ok bare_mapping
unfolding rdf_mapping_config is_segment split first_part lookup
bare_is_accepted = refl

parse_bare : parse rdf 1000 bare_mapping mention ≡ err value_error
unfolding parse extract validate_content_size get_entity_type_config expand split_once
    parse_to_graph lookup
parse_bare = refl
