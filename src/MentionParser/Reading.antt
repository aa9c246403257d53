-- ===== src/MentionParser/Reading.antt =====
-- What the steps of the parser have found when they succeed.
use Prim.Native.Char.{Char, code}
use Prim.Native.String.append
use Prim.Native.String.{String, [], ◌∷◌, ◌++◌}
use text.Mathlib.TextEquality.{Char-path}
use entity_resolution_servic.Prelude.{
  arith, nat_beq, ◌≡◌, ◌≢◌, refl, sym, ap, ◌∙◌, ◌⊎◌, inl, inr, true, false, Bool-cases, Option,
  none, some, Option-cases, List, [] as nil, map, ◌==◌, string_eq, eq_iff,
}
use entity_resolution_servic.Dict.{Dict, lookup}
use entity_resolution_servic.Effects.{ok}
use entity_resolution_servic.MentionParser.Paths.{split_once, started}
use entity_resolution_servic.MentionParser.Config.{expand}
use entity_resolution_servic.MentionParser.Parse.{
  Row, Rdf, parse_to_graph, execute_sparql, has_entity_of_type,
}

-- A supported content type with the format that RDFLib knows it by.
abbrev pub IsFormat : String → String → Type 0
IsFormat content_type format =
    ((content_type ≡ "text/turtle") × (format ≡ "turtle"))
    ⊎ ((content_type ≡ "application/rdf+xml") × (format ≡ "xml"))

-- A prefixed name with a declared prefix, and what it stands for.
abbrev pub IsExpansion : Dict String → String → String → Type 0
IsExpansion namespaces name uri =
    (prefix : String) × (local : String) × (base : String) × (name ≡ prefix ++ (":" ++ local))
    × (lookup prefix namespaces ≡ some base)
    × (uri ≡ base ++ local)

cons_joined : (c : Char) (s t : String) → c ∷ (s ++ t) ≡ (c ∷ s) ++ t
cons_joined c s t = sym (append.cons c s t)

split_once-joined :
    (s : String) (a b : String) → split_once b':' s ≡ some (a, b) → s ≡ a ++ (":" ++ b)
unfolding split_once
split_once-joined [] a b h = cc h
split_once-joined (c ∷ s) a b h = elim (Bool-cases (nat_beq (code c) b':')) [
  | inl here ↦
      let colon : c ≡ ":" = Char-path c ":" (ground (arith, here)) in
      let first : [] ≡ a = ground (arith, h, here) in
      let second : s ≡ b = ground (arith, h, here) in
      ap (λ x. x ∷ s) colon
      ∙ ap (λ x. ":" ∷ x) (sym (append.nil s))
      ∙ cons_joined ":" [] s
      ∙ ap (λ x. ":" ++ x) second
      ∙ sym (append.nil (":" ++ b))
      ∙ ap (λ x. x ++ (":" ++ b)) first
  | inr later ↦
      in_rest later (split_once b':' s) (λ a' b' e. split_once-joined s a' b' e)
        (ground (arith, h, later))
]
  where
    in_rest :
        nat_beq (code c) b':' ≡ false
        → (o : Option (String × String))
        → ((a' b' : String) → o ≡ some (a', b') → s ≡ a' ++ (":" ++ b'))
        → started c o ≡ some (a, b)
        → c ∷ s ≡ a ++ (":" ++ b)
    in_rest later none e k = cc k
    in_rest later (some (a', b')) e k =
        let first : (c ∷ a') ≡ a = ground (arith, k) in
        let second : b' ≡ b = ground (arith, k) in
        ap (λ x. c ∷ x) (e a' b' refl)
        ∙ ap (λ x. c ∷ (a' ++ (":" ++ x))) second
        ∙ cons_joined c a' (":" ++ b)
        ∙ ap (λ x. x ++ (":" ++ b)) first

pub expand-IsExpansion :
    (namespaces : Dict String) (name uri : String)
    → expand namespaces name ≡ ok uri
    → IsExpansion namespaces name uri
unfolding expand
expand-IsExpansion namespaces name uri h = elim (Option-cases (split_once b':' name)) [
  | inl whole ↦ absurd (ground (arith, h, whole))
  | inr ((prefix, local), parts) ↦ elim (Option-cases (lookup prefix namespaces)) [
    | inl unknown ↦ absurd (ground (arith, h, parts, unknown))
    | inr (base, declared) ↦ (
      prefix,
      local,
      base,
      split_once-joined name prefix local parts,
      declared,
      ground (arith, h, parts, declared),
    )
  ]
]

module _ (r : Rdf) where
  pub parse_to_graph-reads :
      (content content_type : String) (graph : r.Graph)
      → parse_to_graph r content content_type ≡ ok graph
      → (format : String) × IsFormat content_type format × (r.parse content format ≡ some graph)
  unfolding parse_to_graph lookup
  parse_to_graph-reads content content_type graph h =
      elim (Bool-cases ("text/turtle" == content_type)) [
        | inl turtle ↦ (
          "turtle",
          inl (sym ((eq_iff "text/turtle" content_type).0 turtle), refl),
          elim (Option-cases (r.parse content "turtle")) [
            | inl broken ↦ absurd (ground (arith, h, turtle, broken))
            | inr (g, read) ↦ ground (arith, h, turtle, read)
          ],
        )
        | inr other ↦ elim (Bool-cases ("application/rdf+xml" == content_type)) [
          | inl xml ↦ (
            "xml",
            inr (sym ((eq_iff "application/rdf+xml" content_type).0 xml), refl),
            elim (Option-cases (r.parse content "xml")) [
              | inl broken ↦ absurd (ground (arith, h, other, xml, broken))
              | inr (g, read) ↦ ground (arith, h, other, xml, read)
            ],
          )
          | inr neither ↦ absurd (ground (arith, h, other, neither))
        ]
      ]

  pub has_entity_of_type-subjects :
      (graph : r.Graph) (uri : String)
      → has_entity_of_type r graph uri ≡ true
      → r.subjects_of_type graph uri ≢ nil
  unfolding has_entity_of_type
  has_entity_of_type-subjects graph uri h none_there = ground (arith, h, none_there)

  -- The rows of a result, each with the text of every variable.
  abbrev pub Answered : r.Graph → String → List Row → Type 0
  Answered graph query rows =
      (vars : List String) × (found : List (String → Option String)) × (r.query graph query
        ≡ some (vars, found))
      × (rows ≡ map (λ row. map (λ var. (var, row var)) vars) found)

  pub execute_sparql-Answered :
      (graph : r.Graph) (query : String) (rows : List Row)
      → execute_sparql r graph query ≡ ok rows
      → Answered graph query rows
  unfolding execute_sparql
  execute_sparql-Answered graph query rows h = elim (Option-cases (r.query graph query)) [
    | inl failed ↦ absurd (ground (arith, h, failed))
    | inr ((vars, found), answered) ↦ (vars, found, answered, ground (arith, h, answered))
  ]
