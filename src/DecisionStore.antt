-- ===== src/DecisionStore.antt =====
-- The resolution decision store (ers/resolution_decision_store): one decision for each mention.
pub mod Outcome
pub mod Repository
pub mod Queries
pub mod Seek
pub mod Pages
pub mod Gathering
pub mod Listings
pub mod Filtering
pub mod PageLimits
pub mod ClusterSizes
pub mod Service
pub mod Spec
pub mod Upsert
pub mod Refinement
pub mod Sizes
pub mod Shift
pub mod Indexed
pub mod Review
pub mod History
pub mod Orders
