-- ===== src/Lib.antt =====
-- DataGenie: the governance core of the catalog service, the quality service and the MCP gateway's
-- tools, modelled and verified.
--
-- The repository holds several services. This development is about three of them. Of the catalog
-- API (apps/catalog-api): the policy service that decides who may do what with a governed asset,
-- the enforcement of its decisions at the routes, the workflow by which proposed changes are
-- created, approved and executed, the job records and idempotency keys around them, and the worker
-- that runs a connector, takes over what it discovers and retries what failed. Of the
-- quality API (apps/quality-api): the rules with their versions, the rule engine, the runs with
-- their score and incidents, the schedules and the coverage of critical assets. Of the MCP gateway
-- (apps/mcp-gateway): the sliding-window rate limiter, and the execution of a tool with its policy
-- decision and its row in the ledger.
--
-- Files and what they model (paths are under apps/catalog-api where nothing else is said):
--   Prelude         Booleans, lists, tables of rows, texts, results and JSON values.
--   Catalog.Models  the rows of apps/catalog-api/app/models/catalog.py.
--   Catalog.Session the tenant-scoped session of app/db/session.py: working and committed tables,
--                   flush, commit, rollback.
--   Catalog.Principals, Catalog.Audit
--                   app/core/security.py (principal and roles; the role tests are in
--                   Catalog.Authorization), app/services/audit_service.py.
--   Policy          app/services/policy_service.py (Text, Decision, Rules, Access) and
--                   app/core/policy.py (Access.enforce_policy).
--   Proposal        app/services/proposal_service.py: Defs (shared helpers), Diff (the checks of a
--                   new proposal), Create, Review (approve, reject, cancel), Change (the typed
--                   changes) and Execute.
--   Catalog.Certification
--                   the certification requests of app/services/governance_service.py.
--   Idempotency     app/services/idempotency_service.py.
--   Catalog.SearchIndex
--                   the writing half of app/services/search_index_service.py.
--   Ingestion       Jobs: app/api/v1/ingestion_jobs.py and the two functions of
--                   app/services/catalog_service.py on jobs; Operations has the routes together.
--                   Discovery (with app/connectors/base.py: columns), Technical (one asset),
--                   Synchronize (all of them), Apply and Worker (the run of a job):
--                   app/services/ingestion_service.py. Retries: run_connector_job of
--                   app/workers/tasks.py.
--   Gateway.RateLimit
--                   apps/mcp-gateway/app/core/rate_limit.py; Window has the limit by the whole history.
--   Gateway.Tools   apps/mcp-gateway/app/services/tool_execution.py (Calls, Proposals and the handlers)
--                   with the ledger of services/execution_ledger.py.
--   Quality         apps/quality-api/app: Models (models/quality.py), RuleEngine
--                   (services/rule_engine.py) over Numbers, Rules, Assets and Incidents
--                   (services/quality_service.py and the routes that compose its calls), Runs
--                   (services/execution_service.py).
--   Tests           a small catalog and the runs on it.
--
-- How the parts interact: a route calls enforce_policy, which asks evaluate_access and commits the
-- event of the decision. The workflow calls evaluate_access through evaluate_rest_policy inside its
-- own transaction, writes the proposal, records the transition and commits. A tool of the gateway
-- asks the catalog's policy, reads through its client and writes the ledger. A quality run
-- evaluates the enabled rules of its asset, writes results and incidents, then its score and the
-- asset's context. The worker leases the job that a route has queued, runs the connector, and
-- writes assets, version rows and search documents in the commit that settles the job. The technical
-- version that it moves on is the one that a proposal names as its precondition.
--
-- State: every operation is a function from the session to a result and a session. A session has a
-- working copy of the tables and a committed one; a commit copies the first over the second, a
-- rollback the other way. Whether a flush or commit raises is read off a list of Booleans in the
-- session, so a theorem about all sessions is about all failures. Python exceptions are the values
-- of Error. A row lock is not modelled: an operation runs from its first read to its last write, as
-- the lock of the proposal row makes it do for the proposal.
--
-- A request draws its clock, identifiers and random texts from one record; the clock is read once
-- per request. An execution of a quality run reads its clock more often, and its record has each
-- reading. Instants are microseconds and counts are natural numbers. SHA-256, the canonical JSON
-- text, number and time formats, what the driver stores in a text column and whether a JSON column
-- tracks changes in place are a record of parameters. Text rules (lower case, blanks) are those of
-- ASCII. The floats of the rule engine, their formats and the parsing of timestamps are a parameter
-- too (Quality.Numbers), of which nothing is assumed. The rounding of a score is exact. The order
-- in which lists of rows are answered is left out. The runs of a connector task are counted by fuel
-- (Retries.run_task), and as many as the allowed retries and one more are enough; every other
-- function is structurally recursive.
--
-- A run of a job is given its connectors, which may answer or raise anything, the clock at its
-- start, for the whole synchronisation and at its end, the identifiers of new assets, and whether
-- another session asks for a cancellation while the connector works. Celery is known by the number
-- of retries that it grants a task. A flush or a commit that raises inside the run is handled as the
-- code handles it.
--
-- The gateway's client of the other services and the validation by pydantic are parameters: what
-- they answer is anything. Where the gateway takes a list and is sent something else, the model
-- raises. Its metrics, durations and times are left out.
--
-- Not modelled: the lineage, search and connector services, the gateway's JSON-RPC dispatch, the
-- connectors' SQL, retention and the delivery of webhooks, the domains, glossary terms, findings and
-- suggestions of the governance service, the catalog's own rate limits, configuration, metrics,
-- migrations and user interfaces; the HTTP and ORM frameworks and the database, which are known by
-- what the code relies on; timestamps that the database fills in; the ids of metadata versions.
pub mod Prelude
pub mod Catalog
pub mod Policy
pub mod Proposal
pub mod Idempotency
pub mod Ingestion
pub mod Gateway
pub mod Quality
mod Tests
