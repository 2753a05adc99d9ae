-- ===== src/Lib.antt =====
-- A verification library for the core of nexalink-tunnel: the relay protocol and the relay server's
-- registry of clients (iroh-relay), the path bookkeeping of the endpoint's socket and its network
-- reports (iroh), and the signed packets of the DNS server and their store (iroh-dns, iroh-dns-server).
--
-- How the parts interact. A relay server reads frames from its clients (protos/common.rs and
-- protos/relay.rs), looks up the keys in them through a cache (key_cache.rs), and forwards the
-- datagrams to the active connection of the destination, which it finds in its registry
-- (server/clients.rs); an actor for each connection does this, and writes what is queued for its client
-- (server/client.rs). Both ends watch a connection with pings (ping_tracker.rs).
-- Before that, the client proves to the relay that it has its key (protos/handshake.rs). On the other
-- side an endpoint's socket keeps, for each remote endpoint, the paths that it knows
-- (socket/remote_map/remote_state/path_state.rs), picks one of them
-- (socket/biased_rtt_path_selector.rs), and names relay and custom paths to QUIC by mapped IPv6
-- addresses (socket/mapped_addrs.rs, socket/transports.rs). It measures the relays of its map
-- (iroh-relay/src/relay_map.rs) by probes, and prefers one of them by the history of these reports
-- (iroh/src/net_report.rs). An endpoint publishes its address as a signed packet (iroh-dns/src/pkarr.rs),
-- of which the DNS server keeps the most recent one for each key (iroh-dns-server/src/store).
--
-- Files:
--   Common            shared names; Common/Tests, Lists, Results, Ints, Maps, Chunks, Bytes
--                     and Ordered hold Boolean tests, lists over native numbers, results with errors
--                     and panics, `i128` integers, maps and sets as lists, chunks of lists, big-endian
--                     bytes, and sorted maps
--   External          the crates noq_proto, bytes, std::str and ed25519_dalek, as a record of
--                     functions and of the laws that the code relies on
--   Keys, Keys/Cache  PublicKey of iroh-base/src/key.rs, and KeyCache of iroh-relay/src/key_cache.rs
--                     over an abstract lru::LruCache
--   Protos            iroh-relay/src/protos: Frame is common.rs; Message, Status, Datagrams,
--                     RelayToClient and ClientToRelay are relay.rs, with child modules for lengths,
--                     round trips and safety; Handshake is handshake.rs, with child modules for how
--                     it ends and for what is proved by it
--   Server            iroh-relay/src/server: Client is the record of a connection, Clients the
--                     registry, Runtime the parts of tokio that they use; Clients/Connections compares
--                     the registry with lists of connections, Clients/Packets follows packets,
--                     Clients/Disconnect what a disconnect tells and which tokens it cancels,
--                     Clients/Gone the notice that an endpoint is gone; Actor is the actor and the
--                     ClientCounter of client.rs, with child modules for what it counts, what it
--                     writes and how it leaves the registry; Bucket is the token bucket of
--                     streams.rs, Limited the `RateLimited` around it, and Streams the `RelayedStream`
--   Client            iroh-relay/src/client/conn.rs; Uplink and Downlink compare what one end of a
--                     connection sends with what the other one receives
--   Ping              iroh-relay/src/ping_tracker.rs
--   Transports        Addr and FourTuple of iroh/src/socket/transports.rs; Urls orders the relays' URLs
--   Paths             iroh/src/socket/remote_map/remote_state/path_state.rs: Prune is
--                     `prune_non_relay_paths`, State is `RemotePathState`
--   Selector          iroh/src/socket/biased_rtt_path_selector.rs
--   Mapped            iroh/src/socket/mapped_addrs.rs: the three kinds of addresses, and Map is
--                     `AddrMap`, with its runs in Map/Runs
--   RelayMap          iroh-relay/src/relay_map.rs, and `get_quic_port` of
--                     iroh/src/net_report/reportgen.rs
--   NetReport         iroh/src/net_report: Latencies and Report are report.rs, Probes is probes.rs with
--                     the protocols of options.rs, History is the history of net_report.rs with the
--                     choice of the preferred relay, Run is `get_report`
--   Dns               Pkarr is `SignedPacket` and Timestamp is `Timestamp::now` of
--                     iroh-dns/src/pkarr.rs, Attrs is attrs.rs and Info endpoint_info.rs beside it,
--                     Store is iroh-dns-server/src/store/signed_packets.rs
--   Tests             concrete values, and the theorems at concrete inputs
--
-- Conventions. A function of a module bears the name of the method that it models; a state is a
-- record, and a method that changes it returns the new one. Errors are `err`, a panic is `panic`, of
-- the type `Result`. A hash map is an association list and a hash set a list; the order of iteration is
-- that of the list. A BTreeMap and a BTreeSet are sorted lists. A loop over `select!` is a list of rounds,
-- each with the branch that it takes, what the awaited code yields, and what other tasks did to the
-- shared state before it. `Instant::now`, random payloads and fresh connection ids are arguments. An await
-- that only sends or waits is not modelled: a method that holds a lock throughout is one step. No
-- loop needs fuel: all are structural recursion over a list.
--
-- Bounds. The counters of mapped addresses wrap at 2^64, and the map's theorems ask that they have
-- not wrapped. A product of `take_segments` wraps at 2^64, and
-- the bucket's numbers wrap or saturate as `i64` and `u32`, where the code does so. `Duration` arithmetic in the ping
-- tracker panics where it overflows. A slice out of range and a read past the end of a buffer are
-- panics where the code makes them, also behind a length test. The path selector adds round-trip times as `i128`: a duration
-- is below 2^94 nanoseconds, so its plain sum cannot overflow.
--
-- Not modelled: sockets, TLS, HTTP and QUIC, the actors' loops other than that of a relay client, the
-- probes of network reports, address lookup, and the DNS and HTTP fronts of the
-- DNS server.
pub mod Common
pub mod External
pub mod Keys
pub mod Protos
pub mod Mapped
pub mod Transports
pub mod Ping
pub mod RelayMap
pub mod Client
pub mod Dns
pub mod NetReport
pub mod Server
pub mod Paths
pub mod Selector
pub mod Tests
