-- ===== src/Curation/Canonical.antt =====
-- `CanonicalEntityService` of ers/curation/services/canonical_entity_service.py with the reads that it
-- makes, and the pages of ers/commons/domain/data_transfer_objects.py.
use entity_resolution_servic.Prelude.{
  ◌≡◌, ℕ, ◌+◌, ◌-◌, ◌*◌, ltb, leb, String, Bool, not, Option, none, some, List, [], ◌∷◌, map, take,
  drop, length, ◌==◌, string_eq, if◌then◌else◌,
}
use entity_resolution_servic.Prelude.Int.{ℤ, pos}
use entity_resolution_servic.Domain.{EntityMentionIdentifier, ClusterReference, Decision}
use entity_resolution_servic.Effects.{
  Error, ok, pymongo, connection_failure, not_found, service_unavailable, mongodb, Action, pure,
  raise, catch, ◌>>=◌,
}
use entity_resolution_servic.Dict.{lookup}
use entity_resolution_servic.Backend.{Backend, answer}
use entity_resolution_servic.Backend.Documents.{ResolutionRequestRecord, ClusterSizeDocument}
use entity_resolution_servic.DecisionStore.Repository.{find_by_id}
use entity_resolution_servic.Paging.{filter, sort}
use entity_resolution_servic.Registry.{triad_id}

-- Both numbers are at least 1.
pub record PaginationParams : Type 0 where
  pub page : ℕ
  pub per_page : ℕ

pub record PaginatedResult (A : Type 0) : Type 0 where
  pub count : ℕ
  pub previous : Option ℕ
  pub next : Option ℕ
  pub results : List A

pub record EntityMentionPreview : Type 0 where
  pub identified_by : EntityMentionIdentifier
  pub parsed_representation : Option String

pub record CanonicalEntityPreview : Type 0 where
  pub cluster_id : String
  pub confidence_score : ℕ
  pub similarity_score : ℕ
  pub cluster_size : ℤ
  pub top_entities : List EntityMentionPreview

abbrev pub default_top_entities_limit : ℕ
default_top_entities_limit = 5

abbrev pub at_least_as_confident : ClusterReference → ClusterReference → Bool
at_least_as_confident c d = leb d.confidence_score c.confidence_score

-- The candidates but the current placement, the most confident first; equal ones keep their order.
unfoldable pub alternatives_of : Decision → List ClusterReference
alternatives_of decision =
    sort at_least_as_confident (
      filter (λ c. not (c.cluster_id == decision.current_placement.cluster_id)) decision.candidates)

abbrev pub start_of : PaginationParams → ℕ
start_of p = (p.page - 1) * p.per_page

abbrev pub page_items : {A : Type 0} → PaginationParams → List A → List A
page_items p xs = take p.per_page (drop (start_of p) xs)

abbrev pub previous_page : PaginationParams → Option ℕ
previous_page p = if ltb 1 p.page then some (p.page - 1) else none

abbrev pub next_page : PaginationParams → ℕ → Option ℕ
next_page p total = if ltb (start_of p + p.per_page) total then some (p.page + 1) else none

abbrev pub to_entity_mention_previews : List ResolutionRequestRecord → List EntityMentionPreview
to_entity_mention_previews records =
    map
      (λ r. record {
        identified_by = r.mention.identified_by;
        parsed_representation = some r.parsed_representation;
      })
      records

unfoldable pub size_of_document : Option ClusterSizeDocument → ℤ
size_of_document none = pos 0
size_of_document (some d) = d.size

unfoldable pub mongo_error : {W A : Type 0} → Error → Action W A
mongo_error (pymongo connection_failure) = raise (service_unavailable mongodb)
mongo_error e = raise e

-- `translate_mongo_errors`
abbrev pub translated : {W A : Type 0} → Action W A → Action W A
translated m = catch m mongo_error

module _ (b : Backend) where
  -- The finds with a limit, and the read of one size.
  pub record PreviewQueries : Type 0 where
    pub find_mentions_of : String → ℕ → Action b.World (List EntityMentionIdentifier)
    pub find_requests : List String → ℕ → Action b.World (List ResolutionRequestRecord)
    pub find_size : String → Action b.World (Option ClusterSizeDocument)

  -- They answer unless MongoDB fails, and they write nothing.
  pub record IsPreviewQueries (q : PreviewQueries) : Type 0 where
    pub mentions_reply :
        (c : String) (n : ℕ) (w : b.World)
        → b.fault w ≡ none
        → (ids : List EntityMentionIdentifier) × ((q.find_mentions_of c n w).0 ≡ ok ids)
    pub mentions_state :
        (c : String) (n : ℕ) (w : b.World) → b.state (q.find_mentions_of c n w).1 ≡ b.state w
    pub requests_reply :
        (ids : List String) (n : ℕ) (w : b.World)
        → b.fault w ≡ none
        → (rs : List ResolutionRequestRecord) × ((q.find_requests ids n w).0 ≡ ok rs)
    pub requests_state :
        (ids : List String) (n : ℕ) (w : b.World) → b.state (q.find_requests ids n w).1 ≡ b.state w
    pub size_reply :
        (c : String) (w : b.World)
        → (q.find_size c w).0 ≡ answer (b.fault w) (lookup c (b.state w).cluster_sizes)
    pub size_state : (c : String) (w : b.World) → b.state (q.find_size c w).1 ≡ b.state w

  module _ (q : PreviewQueries) (has_index : Bool) where
    unfoldable pub get_size : String → Action b.World ℤ
    get_size cluster_id = do doc ← q.find_size cluster_id; pure (size_of_document doc)

    unfoldable pub build_cluster_preview : ClusterReference → Action b.World CanonicalEntityPreview
    build_cluster_preview c = do
      mention_ids ← q.find_mentions_of c.cluster_id default_top_entities_limit
      entity_mentions ← q.find_requests (map triad_id mention_ids) default_top_entities_limit
      cluster_size ← if has_index then get_size c.cluster_id else pure (pos 0)
      pure (record {
        cluster_id = c.cluster_id;
        confidence_score = c.confidence_score;
        similarity_score = c.similarity_score;
        cluster_size = cluster_size;
        top_entities = to_entity_mention_previews entity_mentions;
      })

    unfoldable pub build_previews :
        List ClusterReference → Action b.World (List CanonicalEntityPreview)
    unfolding build_cluster_preview
    build_previews [] = pure []
    build_previews (c ∷ cs) = do
      preview ← build_cluster_preview c
      previews ← build_previews cs
      pure (preview ∷ previews)

    unfoldable pub get_proposed_canonical_entity : String → Action b.World CanonicalEntityPreview
    unfolding build_cluster_preview mongo_error
    get_proposed_canonical_entity decision_id = translated (do
      decision ← find_by_id b decision_id
      elim decision [
        | none ↦ raise (not_found decision_id)
        | some d ↦ build_cluster_preview d.current_placement
      ])

    unfoldable pub page_of_alternatives :
        Decision → PaginationParams → Action b.World (PaginatedResult CanonicalEntityPreview)
    unfolding alternatives_of build_previews
    page_of_alternatives d p = do
      previews ← build_previews (page_items p (alternatives_of d))
      pure (record {
        count = length (alternatives_of d);
        previous = previous_page p;
        next = next_page p (length (alternatives_of d));
        results = previews;
      })

    abbrev pub page_if_found :
        String
        → PaginationParams
        → Option Decision
        → Action b.World (PaginatedResult CanonicalEntityPreview)
    page_if_found decision_id p none = raise (not_found decision_id)
    page_if_found decision_id p (some d) = page_of_alternatives d p

    unfoldable pub get_alternative_canonical_entities :
        String → PaginationParams → Action b.World (PaginatedResult CanonicalEntityPreview)
    unfolding page_of_alternatives mongo_error
    get_alternative_canonical_entities decision_id p =
        translated (find_by_id b decision_id >>= page_if_found decision_id p)
