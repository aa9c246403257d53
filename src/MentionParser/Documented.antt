-- ===== src/MentionParser/Documented.antt =====
-- The exceptions that `MentionParserService.parse` documents, and what an accepted configuration is.
use Prim.Native.Char.{code}
use Prim.Native.String.{String, [], ◌∷◌, ◌++◌}
use entity_resolution_servic.Prelude.{
  all, arith, ℕ, nat_beq, ◌≡◌, ◌≢◌, refl, sym, ap, ◌∙◌, inl, inr, Bool, true, false, Bool-cases,
  Option, none, some, string_eq, ◌==◌, List, [] as nil, ◌∷◌ as cons, if◌then◌else◌, map,
}
use entity_resolution_servic.Dict.{Dict, lookup}
use entity_resolution_servic.Domain.{EntityMention}
use entity_resolution_servic.Effects.{
  Error, Result, ok, err, ◌>>?◌, require, malformed_rdf, content_too_large, unsupported_entity_type,
  unsupported_content_type, entity_type_mismatch, multiple_entities_found, empty_extraction,
  other_error,
}
use entity_resolution_servic.MentionParser.Paths.{split_once, first_part, started}
use entity_resolution_servic.MentionParser.Config.{
  EntityTypeConfig, RdfMappingConfig, entity_type_configs, entity_types_not_empty,
  validate_prefix_consistency, is_some, is_declared, has_declared_prefixes, expand, expanded,
  get_entity_type_config, rdf_mapping_config,
}
use entity_resolution_servic.MentionParser.Parse.{
  Row, Rdf, content_type_format, build_sparql_query, validate_single_entity, validate_content_size,
  merge_rows, is_null, parse_to_graph, execute_sparql, has_entity_of_type, extracted, extract,
  parse,
}
use entity_resolution_servic.MentionParser.Extraction.{>>?-eq-ok, require-eq-ok}

split_once-first_part :
    (sep : ℕ) (s : String) (p : String × String)
    → split_once sep s ≡ some p
    → first_part sep s ≡ p.0
unfolding split_once first_part
split_once-first_part sep [] p h = cc h
split_once-first_part sep (c ∷ s) p h = elim (Bool-cases (nat_beq (code c) sep)) [
  | inl here ↦ ground (arith, h, here)
  | inr later ↦
      in_rest later (split_once sep s) (λ q e. split_once-first_part sep s q e)
        (ground (arith, h, later))
]
  where
    in_rest :
        nat_beq (code c) sep ≡ false
        → (o : Option (String × String))
        → ((q : String × String) → o ≡ some q → first_part sep s ≡ q.0)
        → started c o ≡ some p
        → first_part sep (c ∷ s) ≡ p.0
    in_rest later none e k = cc k
    in_rest later (some q) e k = let rest = e q refl in ground (arith, k, rest, later)

all-lookup :
    {V : Type 0} (p : V → Bool) (k : String) (d : Dict V) {v : V}
    → all (λ (name, x). p x) d ≡ true
    → lookup k d ≡ some v
    → p v ≡ true
unfolding lookup
all-lookup p k nil h found = cc found
all-lookup p k (cons (name, x) d) h found = elim (Bool-cases (name == k)) [
  | inl here ↦ ground (arith, h, found, here)
  | inr later ↦ all-lookup p k d (ground (arith, h)) (ground (arith, found, later))
]

-- The exceptions that `parse` lists in its documentation.
abbrev pub is_documented : Error → Bool
is_documented content_too_large = true
is_documented unsupported_entity_type = true
is_documented unsupported_content_type = true
is_documented malformed_rdf = true
is_documented entity_type_mismatch = true
is_documented multiple_entities_found = true
is_documented empty_extraction = true
is_documented e = false

-- An accepted configuration declares the prefixes of its entity types.
rdf_mapping_config-has_declared_prefixes :
    (c c' : RdfMappingConfig)
    → rdf_mapping_config c ≡ ok c'
    → all (λ (name, t). has_declared_prefixes c.namespaces t) c.entity_types ≡ true
unfolding rdf_mapping_config validate_prefix_consistency
rdf_mapping_config-has_declared_prefixes c c' h =
    let (u, a, h1) = >>?-eq-ok (entity_type_configs c.entity_types) _ h in
    let (u', a', h2) = >>?-eq-ok (entity_types_not_empty c.entity_types) _ h1 in
    let (u2, a2, h3) = >>?-eq-ok (validate_prefix_consistency c) _ h2 in require-eq-ok _ _ u2 a2

is_some-lookup :
    (namespaces : Dict String) (prefix : String)
    → is_some (lookup prefix namespaces) ≡ true
    → (uri : String) × (lookup prefix namespaces ≡ some uri)
is_some-lookup namespaces prefix h = found (lookup prefix namespaces) refl h
  where
    found :
        (o : Option String)
        → lookup prefix namespaces ≡ o
        → is_some o ≡ true
        → (uri : String) × (lookup prefix namespaces ≡ some uri)
    found none e k = cc k
    found (some uri) e k = (uri, e)

-- A prefixed name whose prefix is declared expands.
expand-ok :
    (namespaces : Dict String) (name : String)
    → is_declared namespaces name ≡ true
    → split_once b':' name ≢ none
    → (uri : String) × (expand namespaces name ≡ ok uri)
unfolding expand
expand-ok namespaces name declared colon = expands (split_once b':' name) refl
  where
    expands :
        (o : Option (String × String))
        → split_once b':' name ≡ o
        → (uri : String) × (expanded namespaces o ≡ ok uri)
    expands none e = absurd (colon e)
    expands (some (prefix, local)) e =
        let same = split_once-first_part b':' name (prefix, local) e in
        let (uri, found) =
          is_some-lookup namespaces prefix
            (ap (λ p. is_some (lookup p namespaces)) (sym same) ∙ declared) in
        (uri ++ local, ground (arith, found))

-- All that a computation raises is documented.
abbrev pub Documented {ℓ} : {A : Type ℓ} → Result A → Type ℓ
Documented r = (e : Error) → r ≡ err e → is_documented e ≡ true

ok-Documented {ℓ} : {A : Type ℓ} (a : A) → Documented (ok a)
ok-Documented a e h = cc h

err-Documented {ℓ} : {A : Type ℓ} (e : Error) → is_documented e ≡ true → Documented {A = A} (err e)
err-Documented e d e' h = ground (arith, h, d)

require-Documented :
    (test : Bool) (e : Error) → is_documented e ≡ true → Documented (require test e)
require-Documented true e d = ok-Documented tt
require-Documented false e d = err-Documented e d

>>?-Documented {ℓ} :
    {A B : Type ℓ} (m : Result A) (f : A → Result B)
    → Documented m
    → ((a : A) → m ≡ ok a → Documented (f a))
    → Documented (m >>? f)
>>?-Documented (ok a) f dm df = df a refl
>>?-Documented (err e) f dm df = err-Documented e (dm e refl)

module _ (r : Rdf) (max_bytes : ℕ) (config : RdfMappingConfig) where
  parse_to_graph-Documented :
      (content content_type : String) → Documented (parse_to_graph r content content_type)
  unfolding parse_to_graph
  parse_to_graph-Documented content content_type =
      by_format (lookup content_type content_type_format)
    where
      by_format :
          (o : Option String)
          → Documented (elim o [
            | none ↦ err unsupported_content_type
            | some format ↦ elim (r.parse content format) [
              | none ↦ err malformed_rdf
              | some g ↦ ok g
            ]
          ])
      by_format none = err-Documented unsupported_content_type refl
      by_format (some format) = read (r.parse content format)
        where
          read :
              (g : Option r.Graph)
              → Documented (elim g [ none ↦ err malformed_rdf | some g ↦ ok g ])
          read none = err-Documented malformed_rdf refl
          read (some g) = ok-Documented g

  extracted-Documented :
      (rows : List Row) (names : List String) → Documented (extracted r max_bytes config rows names)
  unfolding extracted validate_single_entity
  extracted-Documented nil names = err-Documented empty_extraction refl
  extracted-Documented (cons row rows) names =
      >>?-Documented (validate_single_entity (cons row rows)) _
        (require-Documented _ multiple_entities_found refl)
        (λ u e. nonempty (all (λ (name, v). is_null v) (merge_rows (cons row rows) names)))
    where
      nonempty :
          (b : Bool)
          → Documented (if b then err empty_extraction else ok (merge_rows (cons row rows) names))
      nonempty true = err-Documented empty_extraction refl
      nonempty false = ok-Documented _

  get_entity_type_config-Documented :
      (name : String) → Documented (get_entity_type_config config name)
  unfolding get_entity_type_config
  get_entity_type_config-Documented name = by_entry (lookup name config.entity_types)
    where
      by_entry :
          (o : Option EntityTypeConfig)
          → Documented (elim o [ none ↦ err unsupported_entity_type | some t ↦ ok t ])
      by_entry none = err-Documented unsupported_entity_type refl
      by_entry (some t) = ok-Documented t

  execute_sparql-Documented :
      (graph : r.Graph) (query : String)
      → r.query graph query ≢ none
      → Documented (execute_sparql r graph query)
  unfolding execute_sparql
  execute_sparql-Documented graph query understood = by_result (r.query graph query) understood
    where
      by_result :
          (o : Option (List String × List (String → Option String)))
          → o ≢ none
          → Documented (elim o [
            | none ↦ err other_error
            | some (vars, rows) ↦ ok (map {B = Row} (λ row. map (λ var. (var, row var)) vars) rows)
          ])
      by_result none k = absurd (k refl)
      by_result (some (vars, rows)) k = ok-Documented _

  extract-Documented :
      (t : EntityTypeConfig) (graph : r.Graph) {uri : String}
      → expand config.namespaces t.rdf_type ≡ ok uri
      → r.query graph (build_sparql_query config t) ≢ none
      → Documented (extract r max_bytes config t graph)
  unfolding extract
  extract-Documented t graph full understood =
      >>?-Documented (expand config.namespaces t.rdf_type) _ (λ e h. cc (full, h))
        (λ uri same.
          >>?-Documented (require (has_entity_of_type r graph uri) _) _
            (require-Documented _ entity_type_mismatch refl)
            (λ u there.
              >>?-Documented (execute_sparql r graph (build_sparql_query config t)) _
                (execute_sparql-Documented graph (build_sparql_query config t) understood)
                (λ rows ran. extracted-Documented rows (map (λ (name, path). name) t.fields))))

  get_entity_type_config-expand :
      rdf_mapping_config config ≡ ok config
      → (name : String) (t : EntityTypeConfig) → lookup name config.entity_types ≡ some t
      → split_once b':' t.rdf_type ≢ none
      → (uri : String) × (expand config.namespaces t.rdf_type ≡ ok uri)
  get_entity_type_config-expand accepted name t known colon =
      let declared = rdf_mapping_config-has_declared_prefixes config config accepted in
      let here =
        all-lookup (has_declared_prefixes config.namespaces) name config.entity_types declared
          known in
      expand-ok config.namespaces t.rdf_type (ground (arith, here)) colon

  -- Let a configuration have passed its validators, each entity type have a colon in its rdf_type, and
  -- RDFLib understand the query of each entity type. Then every exception that the parsing of a mention
  -- raises is one of the seven it documents.
  pub parse-Documented :
      (accepted : rdf_mapping_config config ≡ ok config)
      (colons : (name : String) (t : EntityTypeConfig)
        → lookup name config.entity_types ≡ some t
        → split_once b':' t.rdf_type ≢ none)
      (understood : (name : String) (t : EntityTypeConfig)
        → lookup name config.entity_types ≡ some t
        → (graph : r.Graph) → r.query graph (build_sparql_query config t) ≢ none)
      (m : EntityMention)
      → Documented (parse r max_bytes config m)
  unfolding parse validate_content_size get_entity_type_config
  parse-Documented accepted colons understood m =
      >>?-Documented (validate_content_size max_bytes m.content) _
        (require-Documented _ content_too_large refl)
        (λ u s.
          >>?-Documented (get_entity_type_config config m.identified_by.entity_type) _
            (get_entity_type_config-Documented m.identified_by.entity_type)
            (λ t known.
              >>?-Documented (parse_to_graph r m.content m.content_type) _
                (parse_to_graph-Documented m.content m.content_type)
                (λ graph read.
                  let name = m.identified_by.entity_type in
                  let found : lookup name config.entity_types ≡ some t = ground (arith, known) in
                  let (uri, full) =
                    get_entity_type_config-expand accepted name t found (colons name t found) in
                  extract-Documented t graph full (understood name t found graph))))
