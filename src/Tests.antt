-- ===== src/Tests.antt =====
-- Concrete runs: the theorems at inputs that meet their hypotheses.
mod Memory
mod DecisionStore
mod MentionParser
mod Registry
mod Integrator
mod Curation
mod EreClient
mod Coordinator
mod Codec
mod Pages
mod Refresh
mod Users
mod Rest
mod Maintenance
mod Waiter
mod Canonical
