-- ===== src/Lib.antt =====
-- Veilink: the tunnel's protocol, registry, configuration, server and client, as functions.
--
-- Veilink carries IPv4 packets between a TUN device and a WebSocket. The server (internal/server)
-- lets a request in by the digest of its bearer token, exchanges a hello and a welcome, enters the
-- session in the registry (internal/core) under the one address of the token, and then moves packets:
-- from the client to the device after a check of their source, and from the device to the queue of
-- the session that owns their destination. Frames and control messages are internal/protocol, tokens
-- internal/auth, the configuration that fixes networks, clients and limits internal/config.
--
-- Protocol/Frame is internal/protocol/frame.go, Protocol/Packet and Protocol/Control are
-- internal/protocol/control.go. Auth is internal/auth/token.go, Config internal/config/config.go,
-- Metrics internal/metrics/metrics.go, Core/Hub internal/core/hub.go, Server
-- internal/server/server.go and Client internal/client/client.go; Client/EndToEnd and Client/Handshake
-- put both ends together. Platform/Linux is internal/platform/client_linux.go: its two set-ups are
-- lists of steps, which one function runs; Platform/Linux/Cleanups says which cleanup belongs to which
-- command. Config/Validate/Shapes, Listen, Subnet and Network describe what `Validate` asks for, apart
-- from its tests. Functions keep their names, in snake case: `Encode` is `encode`, `IPv4SourceDestination` is `ipv4_source_destination`, `isNetworkOrBroadcast` is
-- `is_network_or_broadcast`; `New` of the server is `new_server`, `Validate` of the configurations
-- `validate_server` and `validate_client`. Encoding and Netip are what the code uses of
-- encoding/base64, encoding/hex and net/netip; Prelude is shared by all.
--
-- A string is the list of its bytes. A `byte`, `uint16` or counter is a number, with its wrap-around
-- written where the code converts or adds; an `int` that can be negative is an integer. A function of
-- result and error gives a `Result`, in which a panic is a case of its own. The peers of the registry
-- are objects on the heap, known by a number that stands for the pointer, and their channels and
-- contexts are kept by that number. Core/Hub/Interleaving cuts `Register` and `Dispatch` where they
-- let go of the lock. The goroutines of the server are cut in the steps that they make between
-- waiting; what they wait for is an argument, so no such loop needs fuel: each runs over the list of
-- what it reads. Only the digits of a number have fuel, the number itself, which is at least
-- as many. The reconnect loop of the client, in Client/Run, runs over the list of what its rounds meet.
--
-- Config/Load is `LoadServer` and `LoadClient`, Logging internal/logging/logging.go, Metrics/Text the
-- text of `WritePrometheus` with Metrics/Decimal for its numbers, and Command cmd/veilink/main.go: `run`
-- is `choose`, `runServer` is `run_server`, and so on. Server/Pages is the mux and the pages of the
-- server, Server/Lifecycle its `Run`, as the list of what it does to the device and the listeners;
-- Server/Writer is `writeLoop` and Client/Writer the goroutine of `runSession` that writes.
-- Core/Hub/Directory is the abstract view of the registry: who owns an address, and what waits for
-- whom, as functions; in Core/Hub/Directory/Representation the registry with its order forgotten and
-- its counters kept is a quotient. Metrics/Text/Scraper is a reader of the text format, one byte at a
-- time, as the description that the text is held to. Client/Writer/Downstream and Command/Meeting put the parts
-- together: the path of a packet from device to device, and the way from a printed token to a session.
--
-- Protocol/Frame/Equivalence is the type of the frames beside the type of the messages that are accepted.
-- Client/Dialing is `resolveServerIPv4` and the dial test of `connect`, Client/Run/Options what the
-- reconnect loop opens the device with, Client/Reader `readTun`, Device internal/device/device.go, and
-- Command/Clients `runClient` as a whole. Platform/Windows is internal/platform/client_windows.go:
-- the scripts are the commands that they run, over what they read from the environment, and
-- Platform/Windows/Standing is the account of what the commands make and remove on the system.
--
-- SHA-256, JSON, YAML, the random source, the file system, the resolver, the patterns with wildcards of
-- the HTTP mux and the readers of addresses, prefixes, URLs and host-port pairs are parameters, as are
-- the answers of the TUN library, the listeners, the platform and the connections. Not modelled: HTTP,
-- WebSocket and TUN themselves, time-outs and how long a wait takes, the text of the Windows scripts
-- and how powershell is run, the stubs for other systems, and what is logged.
pub mod Prelude
pub mod Netip
pub mod Protocol
pub mod Metrics
pub mod Encoding
pub mod Auth
pub mod Config
pub mod Core
pub mod Device
pub mod Server
pub mod Client
pub mod Platform
pub mod Logging
pub mod Command
