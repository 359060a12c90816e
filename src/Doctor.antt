-- ===== src/Doctor.antt =====
-- internal/doctor/doctor.go: the checks of the environment for a configuration. The environment is a record
-- of answers, which stay the same while the checks run.
pub mod Parse
pub mod Healthy
pub mod Text
use netsonar.Base.{
  ℕ, suc, Bool, true, false, ◌&&◌, not, String, ◌<>◌, str_eq, is_blank, List, [], ◌∷◌, ◌++◌, Option,
  none, some, if◌then◌else◌, ltb, ◌==◌, length, is_empty, show_ℕ,
}
use netsonar.Base.Int.{ℤ, show_ℤ}
use netsonar.Config.Types.{ProbeType, icmp, mtu, probe_type_text, TargetConfig, Config}
use netsonar.Probe.Sockets.{Outcome, got, failed}
use netsonar.Probe.Dns.{join_spaced}
use Parse.{
  Strconv, parse_ping_group_range, any_gid_in_range, unique_ints, parse_nameservers,
  count_dns_targets,
}

pub data Severity : Type 0 where
  pass warn fail skip : Severity

pub record Check : Type 0 where
  pub section : String
  pub name : String
  pub severity : Severity
  pub detail : String
  pub hint : String

-- `target_counts` has distinct keys, the texts of the probe types.
pub record Result : Type 0 where
  pub config_path : String
  pub target_counts : List (String × ℕ)
  pub checks : List Check

-- The functions of the environment; a nil one is `none`.
pub record Env : Type 0 where
  pub read_file : Option (String → Outcome String)
  pub getuid : Option ℤ
  pub getgid : Option ℤ
  pub getgroups : Option (Outcome (List ℤ))
  pub open_unprivileged_icmp : Option (Outcome (Unit {0}))
  pub check_mtu_ping_socket : Option (Outcome (Unit {0}))
  pub listen_tcp : Option (String → Outcome (Unit {0}))

-- An environment with the defaults filled in: the first five functions are there.
pub record Filled : Type 0 where
  pub read_file : String → Outcome String
  pub getuid : ℤ
  pub getgid : ℤ
  pub getgroups : Outcome (List ℤ)
  pub open_unprivileged_icmp : Option (Outcome (Unit {0}))
  pub check_mtu_ping_socket : Option (Outcome (Unit {0}))
  pub listen_tcp : String → Outcome (Unit {0})

abbrev pub or_default {ℓ} : {A : Type ℓ} → Option A → A → A
or_default none d = d
or_default (some a) d = a

-- `os` has the functions of the os package and listenTCP.
unfoldable pub fill_env_defaults : Filled → Env → Filled
fill_env_defaults os env = record {
  read_file = or_default env.read_file os.read_file;
  getuid = or_default env.getuid os.getuid;
  getgid = or_default env.getgid os.getgid;
  getgroups = or_default env.getgroups os.getgroups;
  open_unprivileged_icmp = env.open_unprivileged_icmp;
  check_mtu_ping_socket = env.check_mtu_ping_socket;
  listen_tcp = or_default env.listen_tcp os.listen_tcp;
}

unfoldable pub add : Result → String → String → Severity → String → String → Result
add r section name severity detail hint = record r {
  checks =
      r.checks
      ++ (record {
        section = section;
        name = name;
        severity = severity;
        detail = detail;
        hint = hint;
      })
        ∷ [];
}

-- `result.TargetCounts[t]++`, and the read, which is 0 of a missing key.
unfoldable pub increment : String → List (String × ℕ) → List (String × ℕ)
increment k [] = (k, 1) ∷ []
increment k ((j, n) ∷ m) = if str_eq j k then (j, suc n) ∷ m else (j, n) ∷ increment k m

unfoldable pub count_of : String → List (String × ℕ) → ℕ
count_of k [] = 0
count_of k ((j, n) ∷ m) = if str_eq j k then n else count_of k m

unfoldable pub count_targets : List TargetConfig → List (String × ℕ) → List (String × ℕ)
unfolding increment probe_type_text
count_targets [] counts = counts
count_targets (t ∷ targets) counts =
    count_targets targets (increment (probe_type_text t.probe_type) counts)

-- `%v` of a []int.
unfoldable pub show_ints : List ℤ → List String
show_ints [] = []
show_ints (n ∷ ns) = show_ℤ n ∷ show_ints ns

unfoldable pub show_int_list : List ℤ → String
unfolding show_ints join_spaced
show_int_list ns = "[" <> (join_spaced (show_ints ns) <> "]")

-- strings.Join(s, ", ").
unfoldable pub join_commas : List String → String
join_commas [] = ""
join_commas (s ∷ []) = s
join_commas (s ∷ (t ∷ ts)) = s <> (", " <> join_commas (t ∷ ts))

abbrev gid_hint : String
gid_hint = "Ensure net.ipv4.ping_group_range includes the process effective or supplementary GID."

module _ (conv : Strconv) (env : Filled) where
  unfoldable pub check_process : Result → Result
  unfolding add show_int_list unique_ints
  check_process r =
      let ids = "uid=" <> (show_ℤ env.getuid <> (" gid=" <> show_ℤ env.getgid)) in
      elim env.getgroups [
        | failed e ↦
            add r "Process" "uid/gid" warn
              (ids <> ("; could not determine supplementary groups: " <> e)) ""
        | got groups ↦
            add r "Process" "uid/gid/groups" pass
              (ids <> (" groups=" <> show_int_list (unique_ints (env.getgid ∷ groups)))) ""
      ]

  unfoldable pub check_listen_addr : String → Result → Result
  unfolding add
  check_listen_addr addr r = elim (env.listen_tcp addr) [
    | failed e ↦
        add r "ListenAddr" ("bind " <> addr) fail e "Free the port or change agent.listen_addr."
    | got t ↦ add r "ListenAddr" ("bind " <> addr) pass "ok" ""
  ]

  -- The groups of the process: the primary one, and the others if they are known.
  unfoldable pub gids_of : Outcome (List ℤ) → List ℤ
  gids_of (failed e) = env.getgid ∷ []
  gids_of (got groups) = env.getgid ∷ groups

  unfoldable pub note_groups : String → Outcome (List ℤ) → Result → Result
  unfolding add
  note_groups section (failed e) r =
      add r section "supplementary groups" warn e "Checking primary GID only."
  note_groups section (got groups) r = r

  -- With the range that was read.
  unfoldable pub judge_range : String → ℤ × ℤ → Result → Result
  unfolding note_groups gids_of unique_ints any_gid_in_range add show_int_list
  judge_range section (start, end) r =
      let gids = unique_ints (gids_of env.getgroups) in
      let noted = note_groups section env.getgroups r in
      let range = show_ℤ start <> (" " <> show_ℤ end) in
      if any_gid_in_range gids start end
      then add noted section "ping_group_range" pass
          (range <> (" includes gids " <> show_int_list gids)) ""
      else add noted section "ping_group_range" fail
          (range <> (" does not include gids " <> show_int_list gids))
          "Set net.ipv4.ping_group_range to include the process effective or supplementary GID."

  unfoldable pub check_ping_group_range : String → Result → Result
  unfolding judge_range add parse_ping_group_range
  check_ping_group_range section r = elim (env.read_file "/proc/sys/net/ipv4/ping_group_range") [
    | failed e ↦
        add r section "ping_group_range" warn e
          "Could not verify whether the kernel allows unprivileged ICMP for this process."
    | got raw ↦ elim (parse_ping_group_range conv raw) [
      | failed e ↦
          add r section "ping_group_range" warn e "Could not parse net.ipv4.ping_group_range."
      | got range ↦ judge_range section range r
    ]
  ]

  -- The end of checkICMP and checkMTU: the socket, after the range.
  unfoldable pub check_socket : String → String → Outcome (Unit {0}) → Result → Result
  unfolding add
  check_socket section name (failed e) r = add r section name fail e gid_hint
  check_socket section name (got t) r = add r section name pass "ok" ""

  unfoldable pub check_icmp : Result → Result
  unfolding check_ping_group_range check_socket add
  check_icmp r =
      if count_of (probe_type_text icmp) r.target_counts == 0
      then add r "ICMP" "environment" skip "no icmp targets in config" ""
      else elim env.open_unprivileged_icmp [
        | none ↦
            add r "ICMP" "environment" warn "not supported on this platform"
              "ICMP checks require a Linux runtime."
        | some o ↦ check_socket "ICMP" "unprivileged socket" o (check_ping_group_range "ICMP" r)
      ]

  unfoldable pub check_mtu : Result → Result
  unfolding check_ping_group_range check_socket add
  check_mtu r =
      if count_of (probe_type_text mtu) r.target_counts == 0
      then add r "MTU" "environment" skip "no mtu targets in config" ""
      else elim env.check_mtu_ping_socket [
        | none ↦
            add r "MTU" "ping socket + PMTUDISC" warn "not supported on this platform"
              "MTU probes require a Linux runtime with ICMP ping socket support."
        | some o ↦ check_socket "MTU" "ping socket + PMTUDISC" o (check_ping_group_range "MTU" r)
      ]

  -- A complaint about /etc/resolv.conf, which is a failure if a target needs it.
  unfoldable pub complain : ℕ → String → String → String → Result → Result
  unfolding add
  complain without name detail hint r =
      if ltb 0 without
      then add r "DNS" name fail detail hint
      else add r "DNS" name warn detail
          "All DNS targets configure dns_server; system resolver may be unused."

  unfoldable pub check_nameservers : ℕ → List String → Result → Result
  unfolding complain add join_commas
  check_nameservers without nameservers r =
      if is_empty nameservers
      then complain without "resolv.conf nameservers" "none found"
          "Add nameservers to /etc/resolv.conf or set probe_opts.dns_server for DNS targets." r
      else add r "DNS" "resolv.conf nameservers" pass (join_commas nameservers) ""

  unfoldable pub check_dns : List TargetConfig → Result → Result
  unfolding count_dns_targets check_nameservers complain add parse_nameservers
  check_dns targets r =
      let (dns_targets, without) = count_dns_targets targets in
      if dns_targets == 0
      then add r "DNS" "resolver" skip "no dns targets in config" ""
      else elim (env.read_file "/etc/resolv.conf") [
        | failed e ↦
            complain without "resolv.conf" e
              "DNS targets without probe_opts.dns_server need a working system resolver." r
        | got content ↦ check_nameservers without (parse_nameservers content) r
      ]

  -- The checks of a configuration that was loaded.
  unfoldable pub run_checks : Config → String → Result → Result
  unfolding check_process check_listen_addr check_icmp check_mtu check_dns
  run_checks cfg addr r =
      check_dns cfg.targets (check_mtu (check_icmp (check_listen_addr addr (check_process r))))

-- The address that is checked, which the option overrides.
unfoldable pub address_of : String → Config → String
address_of override cfg = if is_blank override then cfg.agent.listen_addr else override

-- RunWithOptions; `loaded` is what LoadConfig returned.
unfoldable pub run_with_options : Strconv → Filled → String → Outcome Config → Env → String → Result
unfolding run_checks fill_env_defaults add count_targets address_of
run_with_options conv os config_path (failed e) env override =
    add (record { config_path = config_path; target_counts = []; checks = [] }) "Config"
      "load config" fail e "Fix the configuration file and run doctor again."
run_with_options conv os config_path (got cfg) env override =
    let r : Result = record {
      config_path = config_path;
      target_counts = count_targets cfg.targets [];
      checks = [];
    } in
    run_checks conv (fill_env_defaults os env) cfg (address_of override cfg)
      (add r "Config" "load config" pass ("targets=" <> show_ℕ (length cfg.targets)) "")

abbrev pub is_fail : Severity → Bool
is_fail fail = true
is_fail _ = false

-- `OK`, on the checks of a result.
unfoldable pub all_ok : List Check → Bool
all_ok [] = true
all_ok (c ∷ checks) = if is_fail c.severity then false else all_ok checks
