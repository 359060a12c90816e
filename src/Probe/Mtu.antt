-- ===== src/Probe/Mtu.antt =====
-- internal/probe/mtu.go: the step-down through the payload sizes. The ICMP backend, the context and
-- the clock are functions of a world `W`, so a call may answer differently each time.
pub mod Classify
pub mod Sanity
pub mod Run
