-- ===== src/MentionParser/Extraction.antt =====
-- What a mention that is parsed has, and what is extracted from it.
use Prim.Native.String.{len}
use entity_resolution_servic.Prelude.{
  ℕ, ◌≤◌, String, ◌≡◌, ◌≢◌, refl, ◌⊎◌, Bool, true, false, Option, none, some, List, [], ◌∷◌, map,
  contains, All, string_eq,
}
use entity_resolution_servic.Dict.{lookup}
use entity_resolution_servic.Domain.{EntityMention}
use entity_resolution_servic.Effects.{Error, Result, ok, err, ◌>>?◌, require}
use entity_resolution_servic.MentionParser.Config.{EntityTypeConfig, RdfMappingConfig}
use entity_resolution_servic.MentionParser.Parse.{Row, Rdf, build_sparql_query, entity_of, parse}
use entity_resolution_servic.MentionParser.Reading.{IsFormat, IsExpansion, Answered}
use entity_resolution_servic.MentionParser.Merge.{first_value}

pub >>?-eq-ok {ℓ} :
    {A B : Type ℓ} (m : Result A) (f : A → Result B) {b : B}
    → (m >>? f) ≡ ok b
    → (a : A) × (m ≡ ok a) × (f a ≡ ok b)
>>?-eq-ok (ok a) f h = (a, refl, h)
>>?-eq-ok (err e) f h = cc h

pub require-eq-ok : (test : Bool) (e : Error) (u : Unit {0}) → require test e ≡ ok u → test ≡ true
require-eq-ok true e u h = refl
require-eq-ok false e u h = cc h

-- The entity of a row, if it has one, is among some.
abbrev Among : List String → Option String → Type 0
Among es none = Unit
Among es (some e) = contains e es ≡ true

-- A row without an entity, or with this one.
abbrev pub Names : String → Row → Type 0
Names e row = (entity_of row ≡ none) ⊎ (entity_of row ≡ some e)

-- Some value is not null.
abbrev pub HasValue : Row → Type 0
HasValue [] = ⊥
HasValue ((name, v) ∷ rest) = (v ≢ none) ⊎ HasValue rest

-- What the rows of a query give for the fields of a configuration.
abbrev pub Extracts : List Row → List String → Row → Type 0
Extracts rows names result =
    (result ≡ map (λ name. (name, first_value name rows)) names)
    × ((e : String) × All (Names e) rows)
    × HasValue result

module _ (r : Rdf) (max_bytes : ℕ) (config : RdfMappingConfig) where
  -- A mention that is parsed is small enough, of a configured type, in a supported format that RDFLib
  -- reads, and has an entity of that type; the result is what the rows of the query give.
  abbrev pub IsParsed : EntityMention → Row → Type 0
  IsParsed m result =
      (t : EntityTypeConfig) × (graph : r.Graph) × (uri : String) × (rows : List Row) × (len
          m.content
        ≤ max_bytes)
      × (lookup m.identified_by.entity_type config.entity_types ≡ some t)
      × ((format : String) × IsFormat m.content_type format
          × (r.parse m.content format ≡ some graph))
      × IsExpansion config.namespaces t.rdf_type uri
      × (r.subjects_of_type graph uri ≢ [])
      × Answered r graph (build_sparql_query config t) rows
      × Extracts rows (map (λ (name, path). name) t.fields) result
