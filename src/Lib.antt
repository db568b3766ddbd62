-- ===== src/Lib.antt =====
-- Verification of the Yuchen panel: the control plane of Xray servers, which keeps servers, inbound
-- nodes, relay routes, landing exits and clients in one JSON file, accounts the traffic that agents
-- report, and generates configurations and subscriptions.
--
-- The panel is one `PanelData` (backend/internal/model/model.go) behind a mutex. A handler locks it,
-- changes the maps, appends a log entry and saves the file. A handler is modelled as a function of
-- the store and of what it reads from outside, to the store and the reply: `Store` holds the data in
-- memory and what the file holds, `Env` the clock, the fresh identifiers, the environment variables
-- and whether the file can be written. Requests that run at the same time are sequences of such
-- functions, in the order in which they hold the lock.
--
--   Common   Go's integers, strings, maps and errors: wrapping int64, the functions of package
--            strings that the panel calls, association lists for maps, `Outcome` for (value, error)
--   Model    backend/internal/model: the records, field by field
--   Store    backend/internal/store/store.go: save, normalise, log, administrators, and the server
--            of single mode
--   Traffic  backend/internal/api/traffic.go: samples, cursors, billing
--   Http     backend/internal/api/response.go: methods and replies
--   Xray     backend/internal/xray: credentials, the users of the inbounds, the policy
--            in force and the configuration
--   Places   who listens on which port of which server, for nodes and relays alike
--   Clients  backend/internal/api/clients.go: validation and handlers
--   Nodes    backend/internal/api/nodes.go: normalisation and handlers
--   Relays   backend/internal/api/relays.go: normalisation and handlers, and the creation of a client
--            with its own relay (backend/internal/api/clients.go)
--   Servers  backend/internal/api/servers.go: the handlers, and the servers that nodes need
--   Exits    backend/internal/api/landing_exits.go: normalisation, handlers, the bulk import, and the
--            test of an exit, which does not hold the lock while it connects
--   Agent    backend/internal/api/agent.go: the token, the heartbeat and the sync
--   Versions the semantic versions of backend/internal/api/upgrade_tasks.go, and the release ids of
--            backend/internal/version
--   Policies backend/internal/api/network_policy.go: the normalisation that the pages use, status,
--            preview, save and rollback
--   Subscriptions
--            backend/internal/api/subscription.go, subscription_formats.go and singbox.go: the
--            snapshot of a client, unique names, share links, the Clash profile and the sing-box
--            configuration
--   Upgrades backend/internal/api/updates.go: comparison of releases, Bash literals, the command;
--            backend/internal/api/upgrade_tasks.go: the state of the upgrade task, its requests, and
--            the script of the runner; `UpgradeEnv` is what they read from the host, and what others do to
--            the file of the task between two steps of a request, for which no lock is held
--   Sessions backend/internal/api/auth.go, `withAuth` of backend/internal/api/router.go and
--            backend/internal/security/jwt.go: tokens, login, the check of a session, passwords
--   AgentMain
--            agent/cmd/agent/main.go and traffic.go: the loop of the agent with the change of the
--            configuration, as the states of the server that a kill can leave, and the counters
--   Panel    the handlers together: `Router` serves requests in sequence, `Interface` is the record of
--            what each handler must keep of a property, `Dispatch` the proof that then every sequence
--            keeps it, and `Invariants` its two uses
--   Tests    concrete runs
--
-- A map is an association list, and its order is the order in which Go happens to range over the map;
-- where a function returns the first entry of such a loop, its theorems hold for every order. A time
-- is the number of nanoseconds since Go's zero time; `AddDate` counts days of 24 hours, as in a zone
-- without changes of the clock, and stops at the zero time. An int of 64 bits is an integer whose sums wrap.
-- Strings are sequences of code points; `strings.ToLower` leaves letters alone whose lower case is not
-- ASCII, and `EqualFold` with a constant is equality of the lower cases.
-- The loops run over lists, but for two searches: that of a free port in the configuration of Xray and
-- that of a free name in a subscription. Each gets fuel for one more than there are ports or names in
-- use: each step but the last finds another one of them.
--
-- SHA-256, HMAC, the JSON and base64 texts of a token, Reality keys, password hashes, the parsing
-- and printing of times, the download of the version manifest and the start of a process are
-- parameters. Not modelled are the parsing of JSON, what Bash does with the runner's script, HTTP
-- and the file system beyond whether a write succeeds, the read-only pages, the frontend and the
-- installer.
pub mod Common
pub mod Model
pub mod Store
pub mod Traffic
pub mod Http
pub mod Xray
pub mod Places
pub mod Clients
pub mod Nodes
pub mod Relays
pub mod Agent
pub mod AgentMain
pub mod Exits
pub mod Panel
pub mod Policies
pub mod Servers
pub mod Sessions
pub mod Subscriptions
pub mod Upgrades
pub mod Versions
pub mod Tests
