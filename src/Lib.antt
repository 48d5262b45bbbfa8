-- ===== src/Lib.antt =====
-- Polaris Sidecar: a DNS server beside an application, which answers the names of services that
-- are registered with Polaris and forwards every other name.
--
-- A request comes to the handler (internal/resolver/handler.go, Resolver/Handler.antt), which takes
-- a search domain off the name and asks the resolvers in turn; if none replies it falls back to
-- the nameservers of the host (internal/resolver/recursor, Resolver/Recursor.antt and
-- Resolver/Recursor/Proxy.antt). There are two resolvers: one asks Polaris for the instances of a
-- service (internal/resolver/dnsagent, Resolver/DnsAgent.antt), the other answers every service of
-- the mesh with one address, from a table that a loop reloads (internal/resolver/meshproxy,
-- Resolver/MeshProxy.antt). Replies are completed by internal/resolver/common/dns.go
-- (Resolver/Response.antt), and the resolvers are made and destroyed by internal/resolver/server.go
-- (Resolver/Server.antt). Names of services and labels are parsed by pkg/utils/util.go (Qname.antt)
-- and pkg/utils/base.go (Labels.antt).
--
-- The configuration (internal/bootstrap/config, Config.antt and the files of Config/) is made of
-- defaults, a file, the environment and the boot flags, and is verified. For the proxies of a mesh
-- (internal/mesh, Mesh.antt) there are a rate limit service (rls, Mesh/RateLimit.antt), an agent
-- for mutual TLS, and a reporter of Envoy's counters (metrics, Mesh/Metrics.antt). Of the agent, there
-- are its options (mtls/option.go, Mesh/Options.antt), its rotation
-- (mtls/rotator/rotate.go, Mesh/Rotator.antt), and the signing of its certificates
-- (mtls/certificate, Mesh/CaClient.antt).
--
-- The configuration makes the services (internal/bootstrap/config/config.go, Config/Services.antt),
-- and the start puts them together, up to the first error (internal/bootstrap/agent.go,
-- Bootstrap/Init.antt). Then each runs in its goroutine, beside the main loop that waits for a signal
-- or an error (internal/bootstrap/entry.go and the Run of each service, Bootstrap.antt): a state is
-- the context, the wait group, the number of errors in the channel and where each service is, a step
-- is one of the main goroutine or of a service, and Reach holds of the states that some
-- interleaving reaches. The wait of 30 seconds at the end may end at any time.
--
-- Logging (pkg/log) has levels and options (options.go, Log.antt), scopes in a registry and the
-- calls that log (scope.go and default.go, Log/Scope.antt), the cores of zap that an entry is
-- written to (Log/Output.antt), and, from config.go, the sinks (Log/Prepare.antt) and the
-- configuration of the default scope (Log/Configure.antt). What a call does is the list of its
-- writes.
--
-- Functions keep the code's names, in snake case: `serve_dns` of Resolver/Handler.antt is ServeDNS
-- of handler.go. A string is the list of its bytes, a nil pointer is `none`, and a call that may
-- panic has an `Outcome`. A map is an association list or a list of distinct names. The rotation of
-- the upstream servers is passed along as state; all queries share it under a mutex, so an exchange
-- with a server also tells how many draws other queries made until this query goes on. The network
-- is a world that the exchange acts on.
--
-- The functions of miekg/dns that the code calls are the record `DnsLib` of Resolver/Dns.antt; what
-- its documentation promises of them are the records `DnsLaws` and `NameLaws`, which the stand-in of
-- Resolver/Dns/Simple.antt satisfies. Polaris, net.ParseIP and the servers are parameters, and so are
-- the decoding of the configuration file, time.ParseDuration, the exchange with the signing server,
-- the file system of the logger, and what a write to a core returns. No model needs fuel: every loop
-- is over a list or counts its attempts. The sections of a configuration are not nil, nor are the
-- elements of the lists that Envoy answers.
--
-- Not modelled: the exchange with Envoy and the decoding of its answers, the tickers, the sockets and
-- HTTP servers, the encoders and the rotation of log files, the secret discovery server and the
-- other parts that only call libraries. Calls that log are not part of the models of the callers.
pub mod Prelude
pub mod Qname
pub mod Labels
pub mod Resolver
pub mod Config
pub mod Mesh
pub mod Log
pub mod Bootstrap
pub mod Tests
