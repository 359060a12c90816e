-- ===== src/Doctor/Healthy/Checks.antt =====
-- The verdict of each check of internal/doctor/doctor.go.
use netsonar.Base.{
  ℕ, ◌≡◌, sym, ap, ◌∙◌, true, ◌&&◌, ◌||◌, not, String, is_blank, List, [], ◌∷◌, some, ltb, ◌==◌,
  any, is_empty, Bool-cases, Option-cases, inl, inr,
}
use netsonar.Base.Int.{ℤ}
use netsonar.Config.Types.{icmp, mtu, dns, probe_type_text, TargetConfig, Config}
use netsonar.Probe.Sockets.{Outcome, got, failed, Outcome-cases}
use netsonar.Doctor.Parse.{
  Strconv, has_type, parse_ping_group_range, any_gid_in_range, unique_ints, parse_nameservers,
  count_dns_targets,
}
use netsonar.Doctor.{
  pass, warn, fail, skip, Result, Filled, count_of, count_targets, check_process, check_listen_addr,
  gids_of, note_groups, judge_range, check_ping_group_range, check_socket, check_icmp, check_mtu,
  complain, check_nameservers, check_dns, run_checks,
}
use netsonar.Doctor.Healthy.Counts.{any_gid_unique, count_of-any, count_dns-any}
use netsonar.Doctor.Healthy.{allows, range_allows, opens, resolves, listens, healthy}
use netsonar.Doctor.Healthy.Verdict.{
  Adds, add-Adds, Adds-trans, Adds-none, and_verdict, and_true, and_false, or_true, or_false,
  no_part,
}

module _ (conv : Strconv) (env : Filled) where
  check_process-Adds : (r : Result) → Adds r true (check_process conv env r)
  unfolding check_process
  check_process-Adds r = elim (Outcome-cases env.getgroups) [
    | inl (g, q) ↦ rw (q, check_process) (add-Adds r _ _ _ _ _)
    | inr (e, q) ↦ rw (q, check_process) (add-Adds r _ _ _ _ _)
  ]

  check_listen_addr-Adds :
      (addr : String) (r : Result)
      → Adds r (listens conv env (env.listen_tcp addr)) (check_listen_addr conv env addr r)
  unfolding check_listen_addr
  check_listen_addr-Adds addr r = elim (Outcome-cases (env.listen_tcp addr)) [
    | inl (g, q) ↦ rw (q, check_listen_addr) (add-Adds r _ _ _ _ _)
    | inr (e, q) ↦ rw (q, check_listen_addr) (add-Adds r _ _ _ _ _)
  ]

  note_groups-Adds :
      (section : String) (o : Outcome (List ℤ)) (r : Result)
      → Adds r true (note_groups conv env section o r)
  unfolding note_groups
  note_groups-Adds section (failed e) r = add-Adds r _ _ _ _ _
  note_groups-Adds section (got groups) r = Adds-none r

  judge_range-Adds :
      (section : String) (start end : ℤ) (r : Result)
      → Adds r (allows conv env (got (start, end))) (judge_range conv env section (start, end) r)
  unfolding judge_range
  judge_range-Adds section start end r =
      let gids = gids_of conv env env.getgroups in
      let n = note_groups-Adds section env.getgroups r in
      elim (Bool-cases (any_gid_in_range (unique_ints gids) start end)) [
        | inl b ↦ rw b (
            rw (← any_gid_unique gids start end)
              (rw b (Adds-trans n (add-Adds _ section "ping_group_range" pass _ ""))))
        | inr b ↦ rw b (
            rw (← any_gid_unique gids start end)
              (rw b (Adds-trans n (add-Adds _ section "ping_group_range" fail _ _))))
      ]

  check_ping_group_range-Adds :
      (section : String) (r : Result)
      → Adds r
          (range_allows conv env (env.read_file "/proc/sys/net/ipv4/ping_group_range"))
          (check_ping_group_range conv env section r)
  unfolding check_ping_group_range
  check_ping_group_range-Adds section r =
      elim (Outcome-cases (env.read_file "/proc/sys/net/ipv4/ping_group_range")) [
        | inr (e, q) ↦ rw (q, check_ping_group_range) (add-Adds r _ _ _ _ _)
        | inl (raw, q) ↦ elim (Outcome-cases (parse_ping_group_range conv raw)) [
          | inr (e, p) ↦ rw (q, check_ping_group_range) (rw p (add-Adds r _ _ _ _ _))
          | inl ((start, end), p) ↦
              rw (q, check_ping_group_range) (rw p (judge_range-Adds section start end r))
        ]
      ]

  check_socket-Adds :
      (section name : String) (o : Outcome (Unit {0})) (r s : Result)
      → Adds r (range_allows conv env (env.read_file "/proc/sys/net/ipv4/ping_group_range")) s
      → Adds r (opens conv env (some o)) (check_socket conv env section name o s)
  unfolding check_socket
  check_socket-Adds section name (got t) r s h =
      and_verdict (Adds-trans h (add-Adds s _ _ pass _ _)) (and_true _)
  check_socket-Adds section name (failed e) r s h =
      and_verdict (Adds-trans h (add-Adds s _ _ fail _ _)) (and_false _)

  check_icmp-Adds :
      (targets : List TargetConfig) (r : Result)
      → r.target_counts ≡ count_targets targets []
      → Adds r
          (not (any (has_type icmp) targets) || opens conv env env.open_unprivileged_icmp)
          (check_icmp conv env r)
  unfolding check_icmp
  check_icmp-Adds targets r h =
      let c : (count_of (probe_type_text icmp) r.target_counts == 0)
          ≡ not (any (has_type icmp) targets) =
        rw h (count_of-any icmp targets) in
      elim (Bool-cases (any (has_type icmp) targets)) [
        | inr n ↦ rw c (rw n (add-Adds r _ _ skip _ _))
        | inl y ↦ elim (Option-cases env.open_unprivileged_icmp) [
          | inl q ↦ rw c (rw y (rw q (add-Adds r _ _ warn _ _)))
          | inr (o, q) ↦
              rw c
                (rw y (rw q (check_socket-Adds _ _ o r _ (check_ping_group_range-Adds "ICMP" r))))
        ]
      ]

  check_mtu-Adds :
      (targets : List TargetConfig) (r : Result)
      → r.target_counts ≡ count_targets targets []
      → Adds r
          (not (any (has_type mtu) targets) || opens conv env env.check_mtu_ping_socket)
          (check_mtu conv env r)
  unfolding check_mtu
  check_mtu-Adds targets r h =
      let c : (count_of (probe_type_text mtu) r.target_counts == 0)
          ≡ not (any (has_type mtu) targets) =
        rw h (count_of-any mtu targets) in
      elim (Bool-cases (any (has_type mtu) targets)) [
        | inr n ↦ rw c (rw n (add-Adds r _ _ skip _ _))
        | inl y ↦ elim (Option-cases env.check_mtu_ping_socket) [
          | inl q ↦ rw c (rw y (rw q (add-Adds r _ _ warn _ _)))
          | inr (o, q) ↦
              rw c (rw y (rw q (check_socket-Adds _ _ o r _ (check_ping_group_range-Adds "MTU" r))))
        ]
      ]

  -- A complaint fails exactly if some target has no server of its own.
  complain-Adds :
      (without : ℕ) (name detail hint : String) (r : Result)
      → Adds r (not (ltb 0 without)) (complain conv env without name detail hint r)
  unfolding complain
  complain-Adds without name detail hint r = elim (Bool-cases (ltb 0 without)) [
    | inl b ↦ rw b (add-Adds r _ _ fail _ _)
    | inr b ↦ rw b (add-Adds r _ _ warn _ _)
  ]

  check_nameservers-Adds :
      (without : ℕ) (servers : List String) (r : Result)
      → Adds r
          (not (ltb 0 without) || not (is_empty servers))
          (check_nameservers conv env without servers r)
  unfolding check_nameservers
  check_nameservers-Adds without [] r =
      and_verdict (complain-Adds without _ _ _ r) (sym (or_false _))
  check_nameservers-Adds without (s ∷ servers) r =
      and_verdict (add-Adds r _ _ pass _ _) (sym (or_true _))

  check_dns-Adds :
      (targets : List TargetConfig) (r : Result)
      → Adds r
          (not (any (λ t. has_type dns t && is_blank t.probe_opts.dns_server) targets)
            || resolves conv env (env.read_file "/etc/resolv.conf"))
          (check_dns conv env targets r)
  unfolding check_dns
  check_dns-Adds targets r =
      let (total, without) = count_dns_targets targets in
      let (z, w) = count_dns-any targets in
      elim (Bool-cases (total == 0)) [
        | inl n ↦ rw n (
            and_verdict (add-Adds r _ _ skip _ _) (
              sym (
                ap (λ b. not b || resolves conv env (env.read_file "/etc/resolv.conf"))
                  (no_part dns (λ t. is_blank t.probe_opts.dns_server) targets (sym z ∙ n)))))
        | inr n ↦ elim (Outcome-cases (env.read_file "/etc/resolv.conf")) [
          | inr (e, q) ↦
              rw n
                (rw q (and_verdict (complain-Adds without _ _ _ r) (ap not w ∙ sym (or_false _))))
          | inl (content, q) ↦ rw n (
              rw q (
                and_verdict (check_nameservers-Adds without (parse_nameservers content) r)
                  (ap (λ b. not b || not (is_empty (parse_nameservers content))) w)))
        ]
      ]

  pub run_checks-Adds :
      (cfg : Config) (addr : String) (r : Result)
      → r.target_counts ≡ count_targets cfg.targets []
      → Adds r (healthy conv env cfg.targets addr) (run_checks conv env cfg addr r)
  unfolding run_checks
  run_checks-Adds cfg addr r h =
      let a = check_process-Adds r in
      let b = check_listen_addr-Adds addr _ in
      let ab = Adds-trans a b in
      let c = check_icmp-Adds cfg.targets _ (ab.counted ∙ h) in
      let d = check_mtu-Adds cfg.targets _ (c.counted ∙ (ab.counted ∙ h)) in
      let e = check_dns-Adds cfg.targets _ in Adds-trans ab (Adds-trans c (Adds-trans d e))
