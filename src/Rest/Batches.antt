-- ===== src/Rest/Batches.antt =====
-- A bulk resolution answers every mention, in the order of the request.
use entity_resolution_servic.Prelude.{ℕ, ◌≡◌, true, none, some, List, [], ◌∷◌, nat_eq}
use entity_resolution_servic.Domain.{EntityMention}
use entity_resolution_servic.Effects.{Action, Result, ok, err}
use entity_resolution_servic.Coordinator.Bulk.{Resolution, EventLoop, IsEventLoop}
use entity_resolution_servic.Rest.Messages.{EntityMentionResolutionResult, has_success_xor_error}
use entity_resolution_servic.Rest.Resolve.{error_code_for}

-- What is reported for a mention, given how its resolution ended.
abbrev pub IsReport : EntityMention → Result Resolution → EntityMentionResolutionResult → Type 0
IsReport m (ok (d, o)) x = x ≡ record {
  identified_by = d.about_entity_mention;
  canonical_entity_id = some d.current_placement.cluster_id;
  status = some o;
  error = none;
}
IsReport m (err e) x = x ≡ record {
  identified_by = m.identified_by;
  canonical_entity_id = none;
  status = none;
  error = some (record { error_code = error_code_for e });
}

-- One report for each mention, in their order, each with a success or an error and not both; it
-- reports a result that the resolution of this mention may end with.
abbrev pub AreReports :
    (EntityMention → Result Resolution → Type 0)
    → List EntityMention
    → List EntityMentionResolutionResult
    → Type 0
AreReports Ends [] [] = Unit
AreReports Ends (m ∷ ms) (x ∷ xs) =
    ((r : Result Resolution) × (Ends m r × IsReport m r x))
    × ((has_success_xor_error x ≡ true) × AreReports Ends ms xs)
AreReports Ends ms xs = ⊥

module _ {W : Type 0} (l : EventLoop W) (laws : IsEventLoop l)
    (resolve : EntityMention → Action W Resolution) (budget : ℕ) where
  -- The resolution of the mention may end so.
  abbrev pub Ends : EntityMention → Result Resolution → Type 0
  Ends m r = l.may_end (resolve m) r
