-- ===== src/Probe/Dns.antt =====
-- DNSProber of internal/probe/dns.go. The resolver of net and strings.ToLower are parameters.
pub mod Normal
pub mod Matched
use Prim.Native.Char.{code}
use netsonar.Base.{
  ℕ, Bool, true, false, ◌&&◌, not, String, ◌<>◌, str_eq, is_blank, List, [], ◌∷◌, Option, none,
  some, map, if◌then◌else◌, length, is_empty, ◌==◌,
}
use netsonar.Base.Int.{ℤ, sub64}
use netsonar.Base.Spaces.{trim_space}
use netsonar.Config.Types.{TargetConfig, ProbeOptions}
use netsonar.Config.TagKeys.{sort_strings}
use netsonar.Probe.Result.{ProbeResult, zero_result}
use netsonar.Probe.Resolve.{Env, Resolver, system, resolver_for}
use netsonar.Probe.Sockets.{Outcome, got, failed}

-- The net.Resolver of a probe: the default one, or one that dials a server whose name the first
-- resolver looks up.
pub data DnsResolver : Type 0 where
  default_resolver : DnsResolver
  dialing : Resolver → String → DnsResolver

-- LookupIP gives its addresses as texts.
pub record DnsOps (W : Type 0) : Type 0 where
  pub env : Env W
  pub split_host_port : String → Outcome (String × String)
  pub join_host_port : String → String → String
  pub lookup_ip : DnsResolver → String → String → W → Outcome (List String) × W
  pub lookup_cname : DnsResolver → String → W → Outcome String × W
  pub to_lower : String → String

-- strings.TrimSuffix(s, ".").
unfoldable pub trim_dot : String → String
trim_dot String.[] = ""
trim_dot (String.◌∷◌ c s) =
    let rest = trim_dot s in if is_blank s && code c == b'.' then "" else String.◌∷◌ c rest

-- `%v` of a []string.
unfoldable pub join_spaced : List String → String
join_spaced [] = ""
join_spaced (s ∷ []) = s
join_spaced (s ∷ (t ∷ ts)) = s <> (" " <> join_spaced (t ∷ ts))

unfoldable pub show_strings : List String → String
unfolding join_spaced
show_strings ss = "[" <> (join_spaced ss <> "]")

-- The loop over the elements of two lists of one length.
unfoldable pub same_strings : List String → List String → Bool
same_strings [] ws = true
same_strings (g ∷ gs) [] = true
same_strings (g ∷ gs) (w ∷ ws) = if not (str_eq g w) then false else same_strings gs ws

-- A text, or its default where it is empty.
abbrev pub option_or : String → String → String
option_or s d = if is_blank s then d else s

module _ {W : Type 0} (ops : DnsOps W) where
  unfoldable pub normalize_one : String → String
  unfolding trim_dot
  normalize_one v = trim_dot (ops.to_lower (trim_space v))

  unfoldable pub normalize : List String → List String
  normalize s = sort_strings (map (normalize_one) s)

  unfoldable pub match_expected : List String → List String → Bool
  unfolding normalize same_strings
  match_expected records expected =
      let g = normalize records in
      let w = normalize expected in if not (length g == length w) then false else same_strings g w

  -- The server of the probe, with port 53 where it names none.
  unfoldable pub server_address : String → Outcome (String × String) → String
  server_address server (got hp) = server
  server_address server (failed e) = ops.join_host_port server "53"

  unfoldable pub build_dns_resolver : String → Option Resolver → DnsResolver
  unfolding server_address
  build_dns_resolver server pre_resolver =
      let address = server_address server (ops.split_host_port server) in
      if is_blank server
      then default_resolver
      else elim pre_resolver [ none ↦ dialing system address | some r ↦ dialing r address ]

  -- The record of a CNAME lookup; none where nothing is left without the dot.
  unfoldable pub cname_records : Outcome String → Outcome (List String)
  unfolding trim_dot
  cname_records (failed e) = failed e
  cname_records (got cname) =
      if is_blank (trim_dot cname) then got [] else got (trim_dot cname ∷ [])

  unfoldable pub resolve : DnsResolver → String → String → W → Outcome (List String) × W
  unfolding cname_records
  resolve resolver query_name query_type w =
      let (cname, w1) = ops.lookup_cname resolver query_name w in
      if str_eq query_type "A"
      then ops.lookup_ip resolver "ip4" query_name w
      else if str_eq query_type "AAAA"
      then ops.lookup_ip resolver "ip6" query_name w
      else if str_eq query_type "CNAME"
      then (cname_records cname, w1)
      else (failed ("unsupported dns_query_type: " <> query_type), w)

  -- The records against those that are expected.
  unfoldable pub judge_expected : ProbeResult → List String → List String → ProbeResult
  unfolding show_strings
  judge_expected r records expected =
      let matched = match_expected records expected in
      let evaluated : ProbeResult = record r {
        success = true;
        dns_match_evaluated = true;
        dns_matched = matched;
      } in
      if matched then evaluated else record evaluated {
        success = false;
        error =
            "dns expected result mismatch: got "
            <> (show_strings records <> (", want " <> show_strings expected));
      }

  -- From the answer of the lookup on.
  unfoldable pub judge_records : ProbeResult → Outcome (List String) → List String → ProbeResult
  unfolding judge_expected
  judge_records r (failed e) expected = record r { error = "dns resolve: " <> e }
  judge_records r (got []) expected = record r {
    dns_match_evaluated = if not (is_empty expected) then true else r.dns_match_evaluated;
    dns_matched = if not (is_empty expected) then false else r.dns_matched;
    error = "dns resolve: no results returned";
  }
  judge_records r (got (a ∷ records)) expected =
      if not (is_empty expected)
      then judge_expected r (a ∷ records) expected
      else record r { success = true }

  unfoldable pub dns_probe : TargetConfig → W → ProbeResult × W
  dns_probe target w =
      let opts = target.probe_opts in
      let query_name = option_or opts.dns_query_name target.address in
      let query_type = option_or opts.dns_query_type "A" in
      let resolver = build_dns_resolver opts.dns_server (some (resolver_for target.dns_resolver)) in
      let (start, w1) = ops.env.now w in
      let (records, w2) = resolve resolver query_name query_type w1 in
      let (end, w3) = ops.env.now w2 in
      let timed : ProbeResult = record zero_result {
        dns_resolve_time = sub64 end start;
        duration = sub64 end start;
      } in
      (judge_records timed records opts.dns_expected_results, w3)
