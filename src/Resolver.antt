-- ===== src/Resolver.antt =====
-- internal/resolver: the DNS server, its resolvers and the fallback to other name servers.
pub mod Dns
pub mod Response
pub mod Plugin
pub mod Hex
pub mod DnsAgent
pub mod MeshProxy
pub mod Recursor
pub mod Handler
pub mod Server
