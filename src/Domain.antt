-- ===== src/Domain.antt =====
-- The values that the services pass on: the fields that the code reads of the models of the erspec
-- package (EntityMentionIdentifier, ClusterReference, Decision, EntityMention, UserAction).
-- A score is a number of units of the smallest float, a date and time a number of milliseconds, the
-- precision in which MongoDB keeps it.
use Prim.Native.String.{◌++◌}
use entity_resolution_servic.Prelude.{
  ℕ, String, ◌≡◌, ◌↔◌, Bool, true, false, ◌&&◌, Option, List, [], ◌∷◌, arith, eq_iff, Eq, ◌==◌,
  nat_eq, string_eq,
}

pub record EntityMentionIdentifier : Type 0 where
  pub source_id : String
  pub request_id : String
  pub entity_type : String

pub record ClusterReference : Type 0 where
  pub cluster_id : String
  pub confidence_score : ℕ
  pub similarity_score : ℕ

pub record Decision : Type 0 where
  pub id : String
  pub about_entity_mention : EntityMentionIdentifier
  pub current_placement : ClusterReference
  pub candidates : List ClusterReference
  pub created_at : ℕ
  pub updated_at : Option ℕ

pub record EntityMention : Type 0 where
  pub identified_by : EntityMentionIdentifier
  pub content : String
  pub content_type : String
  pub context : Option String

pub data UserActionType : Type 0 where
  accept_top accept_alternative reject_all : UserActionType

pub record UserAction : Type 0 where
  pub id : String
  pub about_entity_mention : EntityMentionIdentifier
  pub candidates : List ClusterReference
  pub selected_cluster : Option ClusterReference
  pub action_type : UserActionType
  pub actor : String
  pub created_at : ℕ

-- `ClusterReference.__eq__`: field by field.
abbrev pub same_reference : ClusterReference → ClusterReference → Bool
same_reference a b =
    a.cluster_id == b.cluster_id
    && (a.confidence_score == b.confidence_score && a.similarity_score == b.similarity_score)

pub same_reference_iff : (a b : ClusterReference) → (same_reference a b ≡ true) ↔ (a ≡ b)
same_reference_iff a b = ground (arith, eq_iff a.cluster_id b.cluster_id)

-- `==` on lists of references.
abbrev pub same_references : List ClusterReference → List ClusterReference → Bool
same_references [] [] = true
same_references (a ∷ xs) (b ∷ ys) = same_reference a b && same_references xs ys
same_references _ _ = false

pub same_references_iff :
    (xs ys : List ClusterReference) → (same_references xs ys ≡ true) ↔ (xs ≡ ys)
same_references_iff [] [] = ground arith
same_references_iff (a ∷ xs) (b ∷ ys) =
    ground (arith, same_reference_iff a b, same_references_iff xs ys)
same_references_iff [] (b ∷ ys) = ground arith
same_references_iff (a ∷ xs) [] = ground arith

instance abbrev pub reference_eq : Eq ClusterReference
reference_eq = record { is_equal = same_reference; is_equal_iff = same_reference_iff }

instance abbrev pub references_eq : Eq (List ClusterReference)
references_eq = record { is_equal = same_references; is_equal_iff = same_references_iff }

-- The f-string of the three fields, with nothing between them.
abbrev pub triad_key : EntityMentionIdentifier → String
triad_key i = i.source_id ++ (i.request_id ++ i.entity_type)
