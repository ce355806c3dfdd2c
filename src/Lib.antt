-- ===== src/Lib.antt =====
-- The core of JadeEnvoy: the event log of a session, the broker that hands its events out, the
-- stream that a client reads, the harness that drives an agent's turns over them, and the services of
-- memory stores, vaults and webhooks.
--
-- State. The model's world (World.antt) holds the two tables `session` and `session_event`
-- (Rows.antt), the broker's subscriptions with their channels, and a count of the calls made. What
-- comes from outside is a record of functions of that count (`Env`): ULIDs, the clock, faults of the
-- database, cancellation of the turn's context, the model's stream, the tools, and the reading of
-- JSON texts. Every operation is an action `World → Result A × World`, so that an error leaves the
-- state that the calls before it made. Webhooks, memory stores and vaults have tables that no other part
-- reads; each has a state of its own, the last two with the actions of Action.antt.
--
-- Files.
--   Prelude and its children: library names, lists, texts and tests that the components share.
--   Json.antt: values of JSON and encoding/json's decoding into fields.
--   Errors.antt, Provider.antt: the errors and the message types of internal/provider/provider.go.
--   Store.antt: internal/store/session.go (Store/Session) and internal/store/event.go (Store/Event);
--     Store/Log states what a log is.
--   Broker.antt: internal/event/broker.go; Broker/Delivery relates channels to logs.
--   Stream.antt: streamEvents of internal/api/event.go; Stream/Exact says what a client reads.
--   Harness.antt: internal/harness: Guardrails, Permissions, Approvals, Messages, Compaction, Mcp and
--     CustomTools for the files of these names; Model for the calls of the provider, Agent, Turn and
--     Thread for RunThread in harness.go (what it reads, its loop, its start and deferred function);
--     Paths for skills.go and the names of resources.go.
--   Webhook.antt: internal/webhook and internal/store/webhook.go, with a state of its own
--     (Webhook/Rows): Target the guard of addresses, Queue the two tables, Dispatch the rounds.
--   Action.antt: actions on a state of any type, for the parts with tables of their own; Action/Keeps
--     and Action/When are the rules for what an action keeps and what holds when it returns.
--   Dialect.antt: internal/store/dialect.go, the texts of queries for the two databases.
--   Memory.antt: internal/store/memory.go (Memory/Rows, Statements, Like, Table) and
--     internal/memory/service.go (Memory/Service, and Memory/Mount for the sandbox).
--   Vault.antt: internal/store/vault.go (Vault/Rows, Statements, Table) and internal/vault: Secrets for
--     crypto.go and the secrets of service.go, Service for its requests and views, Inject for the headers of
--     proxy.go; Handle has the sequences of requests.
--   Tests: concrete runs.
--
-- Bounds. A channel has 64 places as in the source; int64 columns are natural numbers with the
-- range of int64 written where the source's range matters. The loops are structural
-- recursion: over the events, the tool uses, the steps of MaxSteps and the attempts of MaxRetries.
-- The lock of a turn makes RunThread one action; an interrupt is a context found done at some call.
--
-- SHA-256, base64, AES-GCM, the JSON of secrets, the reading of URLs and times, the exchange with a token
-- endpoint and the sandbox's Exec are parameters; what is relied on of them stands in the hypotheses
-- (Vault/Readable's IsFaithful).
--
-- Not modelled: HTTP, the database's reading of SQL, JSON printing, TLS and certificates, the sandbox's
-- processes and the network, which are input and output around these parts; the services of sessions,
-- agents and authentication, the providers' wire formats and the client commands.
pub mod Prelude
pub mod Json
pub mod Errors
pub mod Provider
pub mod Rows
pub mod World
pub mod Store
pub mod Broker
pub mod Stream
pub mod Harness
pub mod Webhook
pub mod Tests
pub mod Action
pub mod Dialect
pub mod Memory
pub mod Vault
