-- ===== src/MentionParser/Parse.antt =====
-- `MentionParserService` of rdf_mention_parser/services/mention_parser_service.py with
-- adapter/rdf_parser_adapter.py. `max_bytes` is ERS_PARSER_MAX_CONTENT_LENGTH. The entity of a row
-- is null if the variable is unbound or its text is empty, as `row.get("entity")` is false then.
use Prim.Native.String.{◌++◌, len}
use entity_resolution_servic.Prelude.{
  all, ℕ, leb, String, Bool, true, false, Option, none, some, List, [], ◌∷◌, map, contains, length,
  ◌==◌, string_eq, if◌then◌else◌,
}
use entity_resolution_servic.Dict.{Dict, lookup}
use entity_resolution_servic.Domain.{EntityMention}
use entity_resolution_servic.Effects.{
  malformed_rdf, content_too_large, unsupported_content_type, entity_type_mismatch,
  multiple_entities_found, empty_extraction, other_error, Result, ok, err, ◌>>?◌, require,
}
use entity_resolution_servic.MentionParser.Config.{
  EntityTypeConfig, RdfMappingConfig, get_entity_type_config, expand,
}

-- A row of a result: the text of each variable.
abbrev pub Row : Type 0
Row = Dict (Option String)

-- `Graph.parse` in a format, `Graph.subjects(RDF.type, …)`, and `Graph.query`: the variables of the
-- result with its rows, or an exception if it does not understand the text.
pub record Rdf : Type 1 where
  pub Graph : Type 0
  pub parse : String → String → Option Graph
  pub subjects_of_type : Graph → String → List String
  pub query : Graph → String → Option (List String × List (String → Option String))

-- `_CONTENT_TYPE_FORMAT`
abbrev pub content_type_format : Dict String
content_type_format = ("text/turtle", "turtle") ∷ ("application/rdf+xml", "xml") ∷ []

abbrev join : String → List String → String
join sep [] = ""
join sep (x ∷ []) = x
join sep (x ∷ y ∷ ys) = x ++ (sep ++ join sep (y ∷ ys))

unfoldable pub build_sparql_query : RdfMappingConfig → EntityTypeConfig → String
build_sparql_query config entity_config =
    join "\n"
      (map (λ (prefix, uri). "PREFIX " ++ (prefix ++ (": <" ++ (uri ++ ">")))) config.namespaces)
    ++ ("\nSELECT ?entity "
        ++ (join " " (map (λ (name, path). "?" ++ name) entity_config.fields)
            ++ ("\nWHERE {\n  ?entity a "
                ++ (entity_config.rdf_type
                    ++ (" .\n"
                        ++ (join "\n" (
                              map
                                (λ (name, path).
                                  "  OPTIONAL { ?entity " ++ (path ++ (" ?" ++ (name ++ " . }"))))
                                entity_config.fields)
                            ++ "\n}"))))))

-- `row.get(name)`
abbrev pub value_of : String → Row → Option String
value_of name row = elim (lookup name row) [ none ↦ none | some v ↦ v ]

-- The bound, non-empty entity of a row.
abbrev pub entity_of : Row → Option String
entity_of row = elim (value_of "entity" row) [
  | none ↦ none
  | some e ↦ if e == "" then none else some e
]

-- The set of the entities.
abbrev pub added : Option String → List String → List String
added none es = es
added (some e) es = if contains e es then es else e ∷ es

abbrev pub distinct_entities : List Row → List String
distinct_entities [] = []
distinct_entities (row ∷ rows) = added (entity_of row) (distinct_entities rows)

unfoldable pub validate_single_entity : List Row → Result (Unit {0})
validate_single_entity rows =
    require (leb (length (distinct_entities rows)) 1) multiple_entities_found

unfoldable pub validate_content_size : ℕ → String → Result (Unit {0})
validate_content_size max_bytes content = require (leb (len content) max_bytes) content_too_large

-- A value is only taken where there is none yet.
abbrev pub kept_or : Option String → Option String → Option String
kept_or none v = v
kept_or (some old) v = some old

abbrev pub merge_row : Row → Row → Row
merge_row row merged = map (λ (name, old). (name, kept_or old (value_of name row))) merged

abbrev pub merge_into : List Row → Row → Row
merge_into [] merged = merged
merge_into (row ∷ rows) merged = merge_into rows (merge_row row merged)

unfoldable pub merge_rows : List Row → List String → Row
merge_rows rows field_names = merge_into rows (map (λ name. (name, none)) field_names)

abbrev pub is_null : Option String → Bool
is_null none = true
is_null (some v) = false

module _ (r : Rdf) where
  unfoldable pub parse_to_graph : String → String → Result r.Graph
  parse_to_graph content content_type = elim (lookup content_type content_type_format) [
    | none ↦ err unsupported_content_type
    | some format ↦ elim (r.parse content format) [ none ↦ err malformed_rdf | some g ↦ ok g ]
  ]

  unfoldable pub execute_sparql : r.Graph → String → Result (List Row)
  execute_sparql graph query = elim (r.query graph query) [
    | none ↦ err other_error
    | some (vars, rows) ↦ ok (map (λ row. map (λ var. (var, row var)) vars) rows)
  ]

  unfoldable pub has_entity_of_type : r.Graph → String → Bool
  has_entity_of_type graph type_uri = elim (r.subjects_of_type graph type_uri) [
    | [] ↦ false
    | x ∷ xs ↦ true
  ]

  module _ (max_bytes : ℕ) (config : RdfMappingConfig) where
    -- From the rows of the query to the result.
    unfoldable pub extracted : List Row → List String → Result Row
    unfolding validate_single_entity merge_rows
    extracted [] field_names = err empty_extraction
    extracted (row ∷ rows) field_names = validate_single_entity (row ∷ rows) >>? λ _.
        let merged = merge_rows (row ∷ rows) field_names in
        if all (λ (name, v). is_null v) merged then err empty_extraction else ok merged

    unfoldable pub extract : EntityTypeConfig → r.Graph → Result Row
    unfolding extracted
    extract entity_config graph =
        expand config.namespaces entity_config.rdf_type >>? λ rdf_type_uri.
        require (has_entity_of_type graph rdf_type_uri) entity_type_mismatch >>? λ _.
        execute_sparql graph (build_sparql_query config entity_config) >>? λ rows.
        extracted rows (map (λ (name, path). name) entity_config.fields)

    unfoldable pub parse : EntityMention → Result Row
    unfolding validate_content_size
    parse entity_mention = validate_content_size max_bytes entity_mention.content >>? λ _.
        get_entity_type_config config entity_mention.identified_by.entity_type >>? λ entity_config.
        parse_to_graph entity_mention.content entity_mention.content_type >>? λ graph.
        extract entity_config graph
