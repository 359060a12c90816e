-- ===== src/Tests.antt =====
-- Concrete inputs of the model, and the runs on them.
mod Samples
mod Metrics
mod Scheduler
mod Probe
mod Config
mod Agent
mod Dial
mod Http
mod Dns
mod Icmp
mod Socket
mod Doctor
