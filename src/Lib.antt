-- ===== src/Lib.antt =====
-- entity_resolution_servic: the core of the Entity Resolution Service (src/ers), a Python service
-- that registers entity mentions, asks an Entity Resolution Engine (ERE) over Redis for the cluster
-- of each, and keeps one decision per mention in MongoDB.
--
-- How the parts interact. A client sends a mention; the coordinator registers it in the request
-- registry, publishes a request to the ERE, waits for an outcome within a time budget and otherwise
-- issues a provisional decision. The outcome integrator receives what the ERE answers and stores it
-- in the decision store, which keeps, beside the decisions, the number of decisions of each cluster.
-- A client asks page by page for the decisions of its source that have moved since its marker (the
-- bulk refresh); curators list decisions under filters and orderings in pages with cursors.
-- A curator accepts, rejects or reassigns a decision; the action goes to an audit trail, is counted
-- on the decision, and is sent back to the ERE. All parts share the MongoDB collections and the Redis
-- channel, which are the record `State` of Backend.Documents.
--
-- Which file models what (paths under src/ers; a definition has the name of the Python method, less
-- a leading underscore):
--   Domain: the fields that the code reads of the models of the erspec package
--   Effects, Effects.Keeps, Effects.Answers: coroutines that read and write a world and may raise; the exceptions of all packages
--   Backend, Backend.Documents, Backend.Documented: MongoDB, Redis, the clock, uuid4, SHA-256 and the
--     waiting for a notification, as one interface with the documented behaviour the code relies on
--   DecisionStore and its children: resolution_decision_store (adapters/decision_repository.py,
--     adapters/cluster_size_index.py, services/decision_store_service.py, domain/outcome.py) and
--     commons/adapters/provisional_id.py. Repository, ClusterSizes, Service and Outcome are the code;
--     Spec is what a write promises; Upsert and Refinement, Shift and Sizes, Indexed, Review, History
--     and Orders hold the proofs;
--     Queries is the code of the listings, of commons/adapters/decision_repository.py too; Seek, Pages,
--     Gathering, Listings, Filtering and PageLimits hold the proofs on their pages
--   Backend.Queries, Backend.Order: find, count_documents and the aggregation on the decisions, with
--     the order of their rows
--   Cursor: commons/domain/cursor.py; Paging, Paging.Order, Paging.Walk, Paging.Size: pages of a
--     sorted list by keyset, for any rows
--   Registry, Registry.Requests, Registry.Snapshots, Registry.Contexts,
--     Registry.Reading: request_registry
--   MentionParser and its children: rdf_mention_parser. Paths and Config are the mapping configuration
--     with its validators, Parse the service with its adapter; Merge, Reading, Extraction and Documented hold the
--     proofs. RDFLib is a parameter, the record `Rdf`
--   EreClient, EreClient.Publish: ere_contract_client/services/ere_publish_service.py, and push_request
--     of commons/adapters/redis_client.py
--   Coordinator, Coordinator.Replay, Coordinator.Answers: resolution_coordinator/services/resolution_coordinator_service.py
--   Coordinator.BulkRefresh, Coordinator.Delivery: resolution_coordinator/services/bulk_refresh_coordinator_service.py
--   Coordinator.Bulk: resolve_bulk of the same service, over the event loop of asyncio
--   Coordinator.Waiter and its children: services/async_resolution_waiter.py and
--     entrypoints/notification_subscriber_worker.py of resolution_coordinator. Shared, Waking
--     and Messages hold the proofs, Subscriber the loop of the worker
--   Rest and its children: ers_rest_api. Messages, Resolve, Lookup and Handlers are the code of domain,
--     services and entrypoints/api; Status, Batches, Lookups and Found hold the proofs
--   Users and its children Management and Auth: users, with MongoDB, argon2 and PyJWT as an interface of
--     their own; Admins, Emails and Sessions hold the proofs
--   Integrator, Integrator.Outcomes, Integrator.Worker: ere_result_integrator
--   Curation and its children Recording, Audit, Commands, Refusals, Exclusions: curation/services (the commands of a curator) and curation/domain
--   Curation.Canonical, Curation.Ranking, Curation.Alternatives: curation/services/canonical_entity_service.py, and a
--     client that follows the pages of the alternatives
--   Maintenance and its children Overwriting, Backfill and Verify: the scripts backfill_cluster_sizes.py
--     and verify_cluster_sizes.py of src/scripts
--   Tests: concrete runs on a backend that keeps everything in memory
--   Prelude, Dict: shared helpers, and maps from text keys as lists of pairs
--
-- How the code is modelled. A coroutine is a function from a world to a result and a world; what was
-- written before an exception stays written. A command on MongoDB answers as documented or raises the
-- fault of its world; what a failed write has left is not known, so theorems on the collections ask
-- for a stretch of time without faults (`IsHealthy`). The laws of the interface say that no other
-- client writes while one command runs; between commands only the coordinator's waiting lets others
-- in, with no restriction on what they do. Dates and times are numbers of milliseconds, the precision
-- that MongoDB keeps; scores are numbers of the smallest float unit, of which equality and order are used.
-- Messages and log lines are left out. The loops of the two workers are recursions on the events that
-- they are given; the batches of the backfill are written on fuel, one unit for each operation, which
-- is enough as a batch takes one at least. A client that follows cursors or page numbers makes a bounded
-- number of requests; one more than there are decisions, or candidates, is enough, as the theorems show. Pauses are in milliseconds, with the random factors as part of the events; the
-- claims of a token are in whole seconds once they are decoded.
-- The tasks of a bulk resolution interleave without restriction; what is known is that the results are in
-- their order and that each is one that its task may end with, for any notion of what a task may end with.
-- A task that has ended is taken to hold its event no longer; the shielded wait of one that timed out may keep
-- it a little longer. The waiter of the process stands beside the coordinator, for which waiting is an operation of the backend.
-- The registry and the coordinator take the mention parser as a parameter.
-- Ids of decisions are compared by their place in the engine's order of texts, and theorems that need
-- them distinct say so.
--
-- Not modelled: the listing of users, statistics, the concurrent run of a bulk command of a curator,
-- the FastAPI applications, the HTTP layer of the curation, tracing, configuration, client connections
-- and the other scripts. Of the Redis client (commons/adapters/redis_client.py) only push_request is.
-- Documents that lack a field that every writer sets are left out, and so are cursors whose JSON holds other
-- values than the encoder writes.
pub mod Backend
pub mod Coordinator
pub mod Curation
pub mod Cursor
pub mod DecisionStore
pub mod Dict
pub mod Domain
pub mod Effects
pub mod EreClient
pub mod Integrator
pub mod Maintenance
pub mod MentionParser
pub mod Paging
pub mod Prelude
pub mod Registry
pub mod Rest
pub mod Tests
pub mod Users
