-- ===== src/Lib.antt =====
-- The AegisPanel backend (backend/internal): the Go services of a panel that manages proxy nodes
-- and the users they serve.
--
-- Parts and files:
--   Bootstrap.State   backend/internal/bootstrap/state.go: the lifecycle graph of a node.
--   Cores.Batched     backend/internal/cores/batched.go: one applier to a node collects deltas to
--                     users over a window and hands a snapshot to a callback.
--   RateLimit         backend/internal/ratelimit/ratelimit.go: token buckets by key.
--   Users             backend/internal/users: Model (user.go, the errors of store.go), Store
--                     (memory_store.go), Service, Validate and Access (service.go).
--   Webhooks          backend/internal/webhooks: Model (endpoint.go, delivery.go), Retry (retry.go),
--                     Store (memory_store.go), Deliver, Dispatch and Service (service.go, worker.go).
--   Auth              backend/internal/auth: Model (scopes.go), Store (users.go), Service (service.go, the
--                     refresh tokens of jwt.go).
--   Audits            backend/internal/audits: Model (audit.go), Store (store.go), Service (service.go,
--                     RecordFromContext of handler.go).
--   Backups           backend/internal/backups/schedule.go: Cron (the expressions) and Scheduler.
--   Plans             backend/internal/plans: Model (plan.go, the errors of store.go), Store
--                     (memory_store.go), Service (service.go).
--   Inbounds          backend/internal/inbounds: Model (inbound.go), Store (store.go), Validate
--                     (validate.go), Service (service.go).
--   Hosts             backend/internal/hosts: Model (host.go), Store, Validate and Service, each after
--                     its Go file.
--   Nodes             backend/internal/nodes: Model (node.go), Store (store.go), Service (service.go).
--   Subscription      backend/internal/subscription: Store (store.go), Service (the resolution of
--                     service.go, port.go), Render (the order and the addresses of render.go).
--   Common            maps, lists, texts, signed integers and results that the parts share; Index and
--                     Pointers on a map that indexes the rows of another, Sorts on the stable sort of
--                     a listing, Tags on the clean-up of tags, Distinct on the collection of new ids.
-- The user service writes to the store and sends each change to the appliers of the nodes that
-- Access picks; Users.Service.Changes joins the service with Cores.Batched. The inbound service sends
-- its deltas to the applier of the inbound's node, which Inbounds.Service.Window joins with
-- Cores.Batched. The host service looks up the nodes and inbounds of its endpoints, as functions;
-- Subscription reads the stores of users, hosts, inbounds and nodes themselves.
--
-- State: a Go struct is a record and each method a function to the next state, named as the method
-- in snake case; a Go map is an association list (Common.Maps), a nil pointer `none`, an id a
-- number with 0 the zero UUID, a time a number of nanoseconds. An error keeps its class and field
-- and drops its text. Each method holds the mutex from its first read, so a call is one step.
-- `create_row` and its like are the body of a method past the nil test. The events and the audit
-- entries of a call are the list of its effects, in the order of the code.
--
-- Concurrency: the select loop of the applier is a list of turns (a send, a receive, a tick), so a
-- statement for all lists holds for every interleaving. The rate limiter's floats are exact
-- fractions of a token (10^15 parts). Loops are over lists, but for the one that counts up by a step
-- in a cron field: it has as much fuel as there are numbers up to its end, and
-- Backups.Cron.Fields.steps-Lands shows that this is enough.
--
-- Not modelled: HTTP handlers, the PostgreSQL stores, SSH, gRPC, TLS and JSON rendering, which are
-- I/O or calls of libraries; the text of the client formats and the credentials of a render; the
-- refresh of a node's bearer and its stored SSH key; inbound templates, migrations, the panel
-- configuration and the store of credentials. The clock, the random source and fresh ids, net/mail,
-- net/url, net.ParseIP, the HTTP client, the digest and the templates service are arguments; a random
-- pick is any number, taken modulo the length of the list.
pub mod Audits
pub mod Auth
pub mod Backups
pub mod Bootstrap
pub mod Common
pub mod Cores
pub mod Hosts
pub mod Inbounds
pub mod Nodes
pub mod Plans
pub mod RateLimit
pub mod Subscription
pub mod Users
pub mod Webhooks
