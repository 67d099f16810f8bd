-- ===== src/Lib.antt =====
-- OpenNDX core exchanges data on citizens between the systems of a state. A consumer's query reaches
-- the orchestration engine, which asks the policy decision point whether the application may read
-- the fields, and the consent engine whether their owner agrees, before it asks the providers.
--
-- Parts and files:
-- - Consent: the consent engine. Consent/Model is internal/ce/models: records, requests, views and
--   errors. Consent/Expiry, Consent/Requests and Consent/Service are
--   internal/ce/services/consent_service.go, one function for each of its functions, in snake case:
--   markExpiredIfStale is mark_expired_if_stale, UpdateConsentStatusByPortalAction is
--   update_consent_status_by_portal_action, which is prepare_portal_action (all up to the last write)
--   followed by commit_portal_action (the conditional write), so that two requests may interleave.
--   Consent/Portal is GetConsent and UpdateConsent of
--   internal/ce/handlers/portal_handler.go.
--   Loading, Decisions, Races, LifeCycle, Lookup, Listing, Creation, Outcome and Renewal below
--   Consent/Service are the proofs.
-- - Policy: the policy decision point. Policy/Model is internal/pdp/models, Policy/Engine is
--   internal/pdp/engine/engine.go with the Rego policies beside it, and Policy/Service is
--   internal/pdp/services/policy_metadata_service.go.
-- - Exchange: the orchestration engine. Exchange/Operation is DataOwnerID of
--   internal/oe/federator/operation/operation.go, and Exchange/Bindings is BindArguments there;
--   Exchange/Fetches and Exchange/Plan are internal/oe/federator/plan.go, where (*planner).field is
--   plan_field and its switch the functions above it; Exchange/Printing is print there;
--   Exchange/Completion and Exchange/Merge are
--   internal/oe/federator/merge.go, where (*merger).value is complete_field and (*merger).object is
--   complete_object; Exchange/Value is the JSON that they read and write, and
--   Exchange/Paths the paths with dots. Exchange/Access is internal/oe/federator/access.go with the
--   messages of internal/oe/policy and internal/oe/consent. Exchange/Federation is the end of
--   FederateQuery in internal/oe/federator/federator.go, with
--   internal/oe/federator/execute.go. Exchange/Access/Release puts the policy
--   decision point behind the gate's client.
-- - Platform: the platform backend. Platform/Applications is internal/pb/application/service.go with
--   its model and requests; CreateApplication is create_application, a saga over the identity
--   provider, the database and the policy decision point. Platform/Schemas is
--   internal/pb/schema/service.go likewise, Platform/Members is internal/pb/member/service.go, and
--   Platform/Callers is internal/pb/caller. Platform/Systems has what services share.
-- - Base: what the parts share: lists, dictionaries for Go's maps, Boolean tests, the monad Action of
--   methods that read and change a state and return a value or an error, and Base/Table, the
--   interface of a database table. Base/Rows is about rows, Base/Memory is a table in memory.
-- - Tests below each part run it on that table.
--
-- How the code is read:
-- - A service works on a table through an interface, which is an argument. Its laws are what the
--   services rely on: each call fails and leaves the rows, or does what SQL documents, where
--   rows of one creation time, whose order SQL leaves open, keep the table's order; a transaction
--   keeps the writes of a body that succeeds and drops those of one that fails. Row locks are not
--   modelled: a service's call runs alone, except that Races interleaves two portal actions at the
--   write that is conditional.
-- - A time is a number of nanoseconds, unbounded; the readings of a clock are arguments. A UUID is a
--   number, read and printed by an argument; fresh identifiers are arguments.
-- - An error of the consent engine is the list of the sentinel errors that it wraps, and errors.Is is
--   membership. The status column is an enumeration, since the code writes nothing else to it.
-- - Save stamps updated_at, as gorm documents; the laws of a table take that as a function.
-- - OPA's evaluation is an argument; that it runs the embedded policies is a hypothesis, which states
--   the policies' text as a function.
-- - The loops are over lists, but for the naming of a variable in Exchange/Printing, which tries one
--   name more than there are names, and so finds one that is free.
-- - A fetch of a plan is known by its key and a consumer field by its path, where the code holds
--   pointers to them; a number of JSON is its text.
-- - In Platform an ID is a text and an error is named after what failed. The identity provider and
--   the client of the policy decision point are interfaces; a creation at the identity provider
--   that fails may leave a client there.
--
-- Not modelled: logging, audit, the other HTTP handlers and the clients, the entry points,
-- authentication (internal/authn) but for what callers read of it, the parsing and normalization of
-- queries in internal/oe/federator, the command line client and the portals.
pub mod Base
pub mod Consent
pub mod Policy
pub mod Platform
pub mod Exchange
