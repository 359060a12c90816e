-- ===== src/Lib.antt =====
-- NetSonar, an agent that probes network targets and exports Prometheus metrics: a model of its core.
--
-- cmd/agent/main.go loads a configuration (internal/config), makes an exporter (internal/metrics) and
-- starts a scheduler (internal/scheduler), which runs one goroutine for each target. A goroutine
-- calls a prober (internal/probe) at each tick and records the result in the exporter. A reload
-- stops, starts and keeps goroutines by the difference of two configurations, and deletes the series
-- of those that it stops.
--
-- Files:
--   Config, for internal/config/config.go: Types (the structs), Defaults (applyDefaults), Checks
--     (labels, tag keys, paths), Rules (addresses, codes, sizes, proxies of targets), Options
--     (validateProbeOpts), Credentials (validateProxies, resolveProxyCredentials), Validate
--     (validate). A validator returns `ok` or the rule that is broken; the wording is left out.
--   Probe, for internal/probe: Result (ProbeResult of prober.go), Resolve (resolver.go, resolveIPv4),
--     Mtu (mtu.go): Classify and Sanity its pure part, Run the probe, Run/Attempts the retries,
--     Run/Outcome, Run/Steady and Run/Largest their laws.
--   Metrics, for internal/metrics/metrics.go: Vec (a vector of the Prometheus client), Series
--     (the vectors and their labels), Exporter (Record, DeleteTarget), Info (EnsureTarget and what the agent
--     says of itself), Observe, Phases, Delete their laws.
--   Scheduler, for internal/scheduler/scheduler.go: Diff (diffTargets, and Equal of
--     internal/config/hash.go), State (Start, Stop, Reload; in Goroutines and
--     Numbered what runs, in History sequences of them), Loop
--     (runProbeLoop and what it calls), Race (a goroutine beside a removal, as interleaved steps).
--   Agent, for cmd/agent/main.go: the start, handleReload, shutdown; Agent/Run the loop over signals.
--   Probe/Sockets (what the probes use of net), Probe/Dial (dialTCPWithSplitPhases of prober.go: Race
--     and Held its laws), Probe/Tcp (tcp.go), Probe/TlsCert (tls_cert.go), Probe/Tunnel
--     (proxy_tunnel.go), Probe/Proxy (proxy.go), Proxyurl (internal/proxyurl/proxyurl.go).
--   Probe/Http: Redirect (the redirects of http.go), Exchange (http_proxy_path.go), Loop (the loop over
--     redirects), ViaProxy (HTTPProber.probeViaProxy of http.go), Body (http_body.go), Direct (both probes
--     without a proxy and as a whole), Trace (http_trace.go),
--     Phases (buildPhases of http.go).
--   Probe/Dns (dns.go), Probe/Icmp (icmp.go: Echo one request, Sequence the loop over them, Judged their laws).
--   Probe/PingSocket (mtu_backend_linux.go): Queue the error queue, Calls the system calls, Ping the probe.
--   Doctor, for internal/doctor/doctor.go: Parse its parsers, Healthy what it wants, Text what it prints.
--   Config/TagKeys (CollectTagKeys), Metrics/Register (NewMetricsExporter).
--   Base: shared names, lists, texts, and the integers of Go. Tests: concrete inputs.
--
-- Go's int, int64 and time.Duration are integers; sums and differences that the source makes are cut
-- to 64 bits (`wrap64`). A duration is in nanoseconds, a time in Unix seconds or nanoseconds of a
-- clock. A float64 stands for the exact value before rounding. A map is an association list with
-- distinct keys, or the list of the targets that it holds; where Go visits a map in any order, the
-- model visits the list in its order. Most loops go over lists or over a number of retries.
-- Four take fuel: the redirect loop (below), the read of echo replies, the poll of a ping socket, and the
-- reading of its error queue. The fuel of the last three is what the world still delivers (`pending`, `polls`, `entries`, which each round lowers), and
-- a loop that runs out of it gives `none`; the theorems on sendEcho and probePingSocket show that this
-- never happens. A socket delivers only so many echo replies once a deadline is set on it; of one without,
-- nothing is said.
--
-- Parameters, since their code is not in the repository: the Prometheus client (`VecOps`), the
-- functions of net, strconv and regexp (`Net`), sockets with TLS and the requests of HTTP (`Sockets`, `HttpOps`, `Transport`, whose
-- laws say which operations open and close connections), net/url (`UrlOps`), the registration of
-- vectors (`Registry`), the environment, files and sorting (`Sources`, with
-- proxyurl.Parse on the side of the configuration), the hash of a target (`Hash`), and the context, clock, resolver and sockets
-- (`Env`, `LoopEnv`, `Backend`), which move a world of any type on; DNS lookups (`DnsOps`), ICMP sockets
-- (`IcmpOps`), the system calls and numbers of the kernel (`SocketOps`, `Kernel`), float64 arithmetic of
-- the deviation (`Float`), and the answers of the doctor's environment (`Filled`), which are taken not to
-- change during a run.
--
-- The scheduler's mutex makes each of its methods one step; a goroutine in State is its number, its
-- target and whether it is cancelled, and one that is awaited is gone. Only Race looks at the steps
-- inside Reload. time.NewTicker is left out: its panic needs an interval that validation refuses.
--
-- Happy eyeballs are two workers that take their steps in an order that a list of picks gives, so every
-- interleaving up to the first result is covered. The worker that loses goes on after the dial; the
-- model lets it end, and its connection be closed, after the probe has returned (`settle`).
--
-- The redirect loop is a recursion on fuel, of which ten are given; its own test on the hops ends it before.
-- A goroutine, and an entry in the map, has a number that `next_id` gives, once.
--
-- Not modelled: YAML, the flags, the log and the HTTP server of
-- cmd/agent, the sockets of the doctor's default environment, tools/configmerge.
pub mod Base
pub mod Config
pub mod Probe
pub mod Metrics
pub mod Scheduler
pub mod Agent
pub mod Proxyurl
pub mod Doctor
pub mod Tests
