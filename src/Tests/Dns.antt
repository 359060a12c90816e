-- ===== src/Tests/Dns.antt =====
-- The DNS probe against a resolver that answers two addresses.
use netsonar.Base.{ℕ, String, ◌≡◌, refl, [], ◌∷◌}
use netsonar.Base.Int.{pos, sub64}
use netsonar.Base.Spaces.{trim_space}
use netsonar.Config.Types.{TargetConfig, dns}
use netsonar.Probe.Sockets.{got, failed}
use netsonar.Probe.Dns.{DnsOps, trim_dot, dns_probe}
use netsonar.Probe.Dns.Normal.{IsNormal}
use netsonar.Probe.Dns.Matched.{IsDnsReport, lookup_of, dns_probe-IsDnsReport}
use netsonar.Tests.Samples.{web, no_options}
use netsonar.Tests.Probe.{env}

abbrev ops : DnsOps ℕ
ops = record {
  env = env;
  split_host_port = λ s. failed "missing port in address";
  join_host_port = λ h p. h;
  lookup_ip = λ r network name w. (got ("10.0.0.2" ∷ "10.0.0.1" ∷ []), w);
  lookup_cname = λ r name w. (got "web.example.", w);
  to_lower = λ s. s;
}

abbrev name : TargetConfig
name = record web {
  name = "name";
  address = "web.example";
  probe_type = dns;
  probe_opts = record no_options { dns_expected_results = "10.0.0.1" ∷ " 10.0.0.2" ∷ [] };
}

dns_probe-IsDnsReport_example :
    (norm : String → String) × ((v : String) → IsNormal ops.to_lower v (norm v))
    × IsDnsReport ops norm
        (lookup_of ops name 1).0
        ("10.0.0.1" ∷ " 10.0.0.2" ∷ [])
        (sub64 (env.now (lookup_of ops name 1).1).0 (pos 0))
        (dns_probe ops name 0).0
dns_probe-IsDnsReport_example = dns_probe-IsDnsReport ops name 0

-- The dot and the spaces at the ends go.
spaces_and_dot : trim_dot (trim_space "  web.example. ") ≡ "web.example"
unfolding trim_dot trim_space
spaces_and_dot = refl
