-- ===== src/Doctor/Healthy.antt =====
-- What the doctor of internal/doctor/doctor.go wants of an environment.
pub mod Counts
pub mod Verdict
pub mod Checks
pub mod Exact
use mathlib.Core.Bool.{false≢true}
use netsonar.Base.{
  ℕ, suc, ◌<◌, ◌≡◌, refl, sym, ap, ◌∙◌, Bool, true, false, ◌&&◌, ◌||◌, not, String, is_blank, List,
  [], ◌∷◌, ◌++◌, Option, none, some, if◌then◌else◌, ltb, ◌==◌, any, is_empty, length, arith,
  Bool-cases, Option-cases, inl, inr,
}
use netsonar.Base.Int.{ℤ, leb_ℤ}
use netsonar.Config.Types.{ProbeType, icmp, mtu, dns, probe_type_text, TargetConfig, Config}
use netsonar.Probe.Sockets.{Outcome, got, failed, Outcome-cases}
use netsonar.Doctor.Parse.{
  Strconv, has_type, parse_ping_group_range, any_gid_in_range, unique_ints, parse_nameservers,
  count_dns_targets,
}
use netsonar.Doctor.{
  Check, Severity, pass, warn, fail, skip, Result, Env, Filled, fill_env_defaults, add, count_of,
  count_targets, check_process, check_listen_addr, gids_of, note_groups, judge_range,
  check_ping_group_range, check_socket, check_icmp, check_mtu, complain, check_nameservers,
  check_dns, run_checks, address_of, run_with_options, is_fail, all_ok,
}

module _ (conv : Strconv) (env : Filled) where
  -- No group range is known to leave all groups of the process out.
  abbrev pub allows : Outcome (ℤ × ℤ) → Bool
  allows (failed e) = true
  allows (got (start, end)) =
      any (λ g. leb_ℤ start g && leb_ℤ g end) (gids_of conv env env.getgroups)

  abbrev pub range_allows : Outcome String → Bool
  range_allows (failed e) = true
  range_allows (got raw) = allows (parse_ping_group_range conv raw)

  -- A socket that the platform has can be opened.
  abbrev pub opens : Option (Outcome (Unit {0})) → Bool
  opens none = true
  opens (some (got t)) = range_allows (env.read_file "/proc/sys/net/ipv4/ping_group_range")
  opens (some (failed e)) = false

  -- The system resolver names a server.
  abbrev pub resolves : Outcome String → Bool
  resolves (failed e) = false
  resolves (got content) = not (is_empty (parse_nameservers content))

  abbrev pub listens : Outcome (Unit {0}) → Bool
  listens (got t) = true
  listens (failed e) = false

  -- What the targets of the configuration need of the environment.
  abbrev pub healthy : List TargetConfig → String → Bool
  healthy targets addr =
      listens (env.listen_tcp addr)
      && ((not (any (has_type icmp) targets) || opens env.open_unprivileged_icmp)
          && ((not (any (has_type mtu) targets) || opens env.check_mtu_ping_socket)
              && (not (any (λ t. has_type dns t && is_blank t.probe_opts.dns_server) targets)
                  || resolves (env.read_file "/etc/resolv.conf"))))

-- What decides of a run: a configuration that loads, and an environment that has what its targets need.
abbrev pub expected_ok : Strconv → Filled → Outcome Config → Env → String → Bool
expected_ok conv os (failed e) env override = false
expected_ok conv os (got cfg) env override =
    healthy conv (fill_env_defaults os env) cfg.targets (address_of override cfg)
