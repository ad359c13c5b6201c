-- ===== src/Lib.antt =====
-- egras, the back end of a multi-tenant service: a model of its core in definitions that compute,
-- and what is proved of them.
--
-- The program is an HTTP server over Postgres. A request passes the authentication layer
-- (src/auth/middleware.rs), which reads an API key or an access token, asks its strategies, and
-- leaves claims, permissions and the caller in the request's extensions; the extractors of the
-- handlers (src/auth/extractors.rs) read them. The layer asks the feature evaluator which headers an
-- organisation allows keys in, so it depends on the feature flags (src/features): two tables, a
-- cache with a time to live in front of them, and the services that set, clear and list flags and
-- record audit events. Background work is a table of jobs (src/jobs) that workers claim with a lock
-- that expires, run, and mark as done, to retry, or dead. The outbox (src/outbox) is a table of events
-- that a relayer moves to the jobs, a batch in each transaction. Organisations, roles and memberships
-- (src/tenants) are tables, with services that check who may change them. Users, service accounts,
-- their keys, and the tokens that reset a password or are logged out (src/security) are tables too;
-- the layer's strategies read them, so that what a service writes decides which later requests pass.
--
-- Files, and the code that each models:
--   Prelude             names of the libraries, tests into Bool, results, lists
--   Json                serde_json's Value, as far as the source matches on it
--   Error               src/errors.rs
--   Pagination          src/pagination.rs: cursors
--   Audit/Model         src/audit/model.rs: the event, and the constructors of src/features and src/tenants
--   Audit/Security      src/audit/model.rs: the constructors of the events of src/security
--   Audit/Worker        src/audit/worker.rs: write_with_retry; the channel of
--                       src/audit/service/record_event.rs
--   Features/Model      src/features/model.rs; Names and Typing prove what its functions decide
--   Features/Repository src/features/persistence: tables and SQL of FeaturePgRepository; Order and
--                       Rows prove what its queries do
--   Features/Evaluate   src/features/service/evaluate.rs: PgFeatureEvaluator
--   Features/Service    set_org_feature, clear_org_feature, list_org_features
--   Features/Handlers   src/features/interface.rs
--   Security/ApiKeySecret  src/security/service/api_key_secret.rs: parse and generate
--   Security/Model      src/security/model.rs, and the tables with their rows
--   Security/Users, Tokens, ServiceAccounts, ApiKeys
--                       src/security/persistence: the four repositories on Postgres, and PgApiKeyVerifier
--   Security/PasswordHash  src/security/service/password_hash.rs
--   Security/State      what the services take from AppState, and what one call finds
--   Security/Login      login, logout and switch_org of src/security/service
--   Security/Passwords  change_password, password_reset_request, password_reset_confirm
--   Security/Accounts   create_service_account, delete_service_account, list_service_accounts
--   Security/Keys       create_api_key, rotate_api_key, revoke_api_key, list_api_keys
--   Security/Listing    list_users
--   Security/Handlers   src/security/interface.rs: service accounts and keys; Cursors: their listing;
--                       Sessions: sessions, passwords and users
--   Auth/Jwt            src/auth/jwt.rs
--   Auth/Permissions    src/auth/permissions.rs, with Caller of src/auth/extractors.rs
--   Auth/Extractors     src/auth/extractors.rs
--   Auth/Middleware     src/auth/middleware.rs: AuthService::call, handle_api_key; Strategies: the
--                       loader and the checker on Postgres, and the layer over the tables
--   Jobs/Model          src/jobs/model.rs
--   Jobs/Backoff        compute_backoff of src/jobs/runner.rs
--   Jobs/Repository     src/jobs/persistence/jobs_repository_pg.rs: the table and its SQL
--   Jobs/Runner         src/jobs/runner.rs: JobRunner
--   Outbox/Model        src/outbox/model.rs
--   Outbox/Repository   src/outbox/persistence/outbox_repository_pg.rs
--   Outbox/Relayer      src/outbox/relayer.rs: OutboxRelayer
--   Tenants/Repository  src/tenants/persistence: OrganisationRepositoryPg, RoleRepositoryPg
--   Tenants/Services    assign_role, add_user_to_organisation, remove_user_from_organisation of
--                       src/tenants/service; Handlers: two handlers of src/tenants/interface.rs
-- The modules below a component prove what it does; those named Tests hold concrete data and apply
-- the theorems to it.
--
-- How code becomes definitions. A function of the source keeps its name. A function that writes
-- takes the state and returns it; an async function is its body between two awaits of a lock or of
-- the database, in the order of the source, and where calls of one process overlap, the parts stand
-- alone (cache_hit, load_at and fill of evaluate; count_pending_for_user, make_room and insert_row of
-- the reset tokens) and, for the evaluator, a relation (Reach) orders them. A table is the
-- list of its rows, and a query a function on it; a query can fail in the database, and which do is a
-- parameter (fails). The clock, fresh ids, the rows that others hold locked, and the crates' codecs
-- are parameters too. Instants and durations are numbers of nanoseconds, ids are numbers, an i32 is
-- an integer with its wrap, and saturation on u64 is written out.
--
-- The audit worker's retry loop runs on fuel: one more than the retries allowed, which is proved to be
-- enough. Every other loop of the source that is modelled runs over a list. The loops of the runner
-- and of the relayer, which do not end by themselves, are run over a list of rounds.
--
-- A key is drawn again once when its prefix is taken, so the loop of two attempts runs on the attempts
-- that are left. A client who follows cursors runs on fuel, and the theorem on it says how much is
-- enough.
--
-- Not modelled: the HTTP server, routing and serialization; hashing, signing and random bytes; the
-- logs; and, so far, the listings and channels of the tenants, the registration of users with its
-- handler, and the listings of the audit trail. A job's handler is a function from the payload to its
-- outcome: what it does elsewhere, and answers that change between calls, are left out. The tables of
-- the flags and those of the users are apart: that a row of organisation_features refers to a user
-- (updated_by), so that the database refuses to delete the user, is a fault of that query.
pub mod Prelude
pub mod Json
pub mod Error
pub mod Pagination
pub mod Audit
pub mod Features
pub mod Security
pub mod Auth
pub mod Jobs
pub mod Outbox
pub mod Tenants
