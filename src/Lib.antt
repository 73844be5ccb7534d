-- ===== src/Lib.antt =====
-- dotdns: a forwarding DNS resolver with a cache and blocklists, and what it does to a query.
--
-- A listener (DoT in src/server.rs, DoH in src/doh.rs) hands each message to
-- `server::resolve_with_context`. The handler counts the query, adds the client's subnet to it (EDNS),
-- asks the blocklist for a decision, looks in the cache and, for a name that is not blocked and not
-- cached, asks the pool of upstreams through the table of pending queries. The parts share the metrics
-- and the registry of statistics per upstream and per client.
--
-- Which file models which part (a child module proves what its name says):
--   Text, Map, Net, Prelude   Rust's `str`, `HashMap`, `std::net` and integers, as far as they are used
--   Dns                       the messages of the crate hickory_proto, as a record of operations and
--                             of the laws that its documentation gives
--   Blocklist                 src/blocklist.rs: `parse_line`, `decide`; Blocklist.Loading: `from_sources`
--                             and `ReloadableBlocklist::reload`; Blocklist.Refresh: `refresh` and
--                             `refresh_and_reload`
--   CacheKey, Cache           src/cache.rs: `CacheKey`, `Cache::get`, `insert`, `flush`
--   Metrics                   src/metrics.rs: `MetricsRecorder`, `snapshot`, `to_persisted`, `format_uptime`;
--                             Metrics.Stored: `load_stats`, `save_stats`
--   Stats, Observability      src/observability.rs: the statistics, and `ObservabilityRegistry`
--   Upstream                  src/upstream.rs: `UpstreamHealth`, `UpstreamPool::query`
--   Transports                src/upstream.rs: `PlainUpstream`, `DotUpstream::exchange`, the loop over the
--                             endpoints, `DohUpstream::query`
--   Dot                       src/upstream.rs: `DotUpstream::checkout` and `checkin`; Dot.Query:
--                             `query`, `query_endpoint`
--   Resolution                src/upstream.rs: `extract_host`, `resolve_host`; Resolution.Bootstrap:
--                             `query_bootstrap_dns`
--   Entries                   src/upstream.rs: `Upstream::from_entry`, `pool_from_config`; Entries.Kinds
--                             says what each entry gives, without the code's own functions
--   Server                    src/server.rs: Server.Ecs (`query_with_ecs`, `mask_bits`),
--                             Server.Responses (`make_blocked_response`, `make_error_response`),
--                             Server.Resolve (`resolve_with_context`), Server.Pending
--                             (`PendingQueries::query`), Server.Framing (`read_message`,
--                             `write_message`), Server.Connection (`handle_connection` and the task
--                             that `accept_loop` spawns)
--   Doh                       src/doh.rs: `dns_query_post`, `dns_query_get`, `doh_resolve` and the task
--                             of a connection
--   Management                src/management.rs: `dispatch`, `handle_connection`; Management.Client:
--                             `ManagementClient`
--   Config                    src/config.rs: `Config::validate`; Config.Defaults: the default values
--   Console                   src/main.rs: `format_upstreams`, `format_activity`, `format_clients`
--   Samples, Tests            a concrete instance of `Dns`, and the theorems and operations at work
--
-- State is a record that the operations take and return; locks and atomics make each operation one
-- step, except `record_active_connection_closed`, whose load and subtraction are two, with what other
-- tasks record in between (`meanwhile`, and the steps of Metrics.Connections). An error is a value of
-- `Result`. Counters are `u64` and wrap around. Times are numbers of nanoseconds (milliseconds in
-- Upstream, as in the source). A hash map is an association list, whose order stands for the order of
-- iteration; the theorems hold for each order.
--
-- What is not under version control here is a parameter: the messages of hickory_proto (`Dns`) and
-- their decoder (`from_bytes`), the readers and writers of tokio (`AsyncIo`, and `TextWriter` in
-- Management), JSON (`Json`, `StatsJson`), what axum and base64 do (`Http`), the sockets and
-- connections to an upstream (`Sockets`, `Dialing`, `post`, `BootstrapSocket`), URLs (`Urls`), the
-- lower-casing of texts (`lower`), what the files hold (`read`) and the calls on them
-- (`FileSystem`, `StatsFiles`), a download (`fetch`), the exchanges with upstreams (`Exchange`),
-- and the whole of the wait for an upstream (`ask`), during which other handlers may do anything to
-- the shared state. `lone_ask` is that wait for a caller that no other handler disturbs, with its
-- time-out of 10 seconds (`PENDING_FOLLOWER_TIMEOUT`): when the attempts of the pool take longer, it
-- gives the time-out. In Server.Pending, callers, channels and tasks take steps in any order, callers
-- may be dropped at any time, what the pool answers is a relation (`Answers`), and no task panics.
-- Fuel is needed by `domain_suffixes`, which gets the length of the domain, of which each round
-- drops at least one character, and by the digits of a number, which get the number and one. The
-- loops that wait for a peer (`handle_messages`, `receive`) take the list of the rounds that there
-- are.
--
-- Not modelled: sockets and TLS, the loops that accept connections under a semaphore, the router of
-- axum, the listeners of the management socket, the command line (src/cli.rs), and the program's
-- start and end (the rest of src/main.rs), which wire the parts together.
pub mod Prelude
pub mod Text
pub mod Map
pub mod Dns
pub mod Net
pub mod Metrics
pub mod Stats
pub mod Observability
pub mod Blocklist
pub mod Upstream
pub mod Transports
pub mod Resolution
pub mod Doh
pub mod Dot
pub mod Management
pub mod CacheKey
pub mod Cache
pub mod Server
pub mod Config
pub mod Entries
pub mod Console
pub mod Samples
pub mod Tests
