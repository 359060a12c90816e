-- ===== src/Probe.antt =====
-- internal/probe.
pub mod Result
pub mod Resolve
pub mod Mtu
pub mod Sockets
pub mod Dial
pub mod Tcp
pub mod Tunnel
pub mod TlsCert
pub mod Proxy
pub mod Http
pub mod Dns
pub mod Icmp
pub mod PingSocket
