-- ===== src/Probe/Dial.antt =====
-- dialTCPWithSplitPhases of internal/probe/prober.go with its happy eyeballs. The two workers take
-- their steps in an order that a list of picks gives; the one that is left when a connection has been
-- won is `pending`, and ends after the prober has returned.
pub mod Families
pub mod Race
pub mod Held
pub mod Total
use Prim.Native.Char.{code}
use netsonar.Base.{
  ℕ, Bool, true, false, not, String, ◌<>◌, List, [], ◌∷◌, ◌++◌, map, Option, none, some, is_some,
  if◌then◌else◌, ◌==◌, is_empty, ◌||◌,
}
use netsonar.Base.Int.{ℤ}
use netsonar.Probe.Result.{Phase}
use netsonar.Probe.Resolve.{Ip, ipv4, ipv6, Resolver, Env, add_observed_phase}
use netsonar.Probe.Sockets.{Outcome, got, failed, Sockets}

-- What dialTCPAddresses returns; `nothing` is a nil connection with a nil error.
pub data Dialed : Type 0 where
  connected : ℕ → Dialed
  refused : String → Dialed
  nothing : Dialed

-- A goroutine of startWorker: in its delay, at its targets with the last error, or ended.
pub data Worker : Type 0 where
  waiting : List String → Worker
  dialing : List String → Option String → Worker
  done : Dialed → Worker

pub record SplitDialResult : Type 0 where
  pub dns_start : Option ℤ
  pub dns_end : Option ℤ
  pub tcp_start : Option ℤ
  pub tcp_end : Option ℤ
  pub pending : Option Worker

abbrev pub no_dial : SplitDialResult
no_dial = record {
  dns_start = none;
  dns_end = none;
  tcp_start = none;
  tcp_end = none;
  pending = none;
}

-- host[:strings.LastIndex(host, "%")], if there is one.
unfoldable pub cut_zone : String → Option String
cut_zone String.[] = none
cut_zone (String.◌∷◌ c s) = elim (cut_zone s) [
  | some r ↦ some (String.◌∷◌ c r)
  | none ↦ if code c == b'%' then some "" else none
]

abbrev pub is_ipv6 : Option Ip → Bool
is_ipv6 (some (ipv6 a)) = true
is_ipv6 _ = false

unfoldable pub filter_by : (String → Bool) → List String → List String
filter_by p [] = []
filter_by p (s ∷ ss) = if p s then s ∷ filter_by p ss else filter_by p ss

abbrev last_error : Option String → Dialed
last_error none = nothing
last_error (some e) = refused e

-- The phases that a prober reads off a dial.
unfoldable pub dial_phases : SplitDialResult → List (Phase × ℤ)
dial_phases r =
    add_observed_phase (add_observed_phase [] Phase.dns_resolve r.dns_end r.dns_start)
      Phase.tcp_connect r.tcp_end r.tcp_start

module _ {W : Type 0} (net : Sockets W) where
  unfoldable pub is_literal_ip_host : String → Bool
  unfolding cut_zone
  is_literal_ip_host host = elim (cut_zone host) [
    | none ↦ is_some (net.env.parse_ip host)
    | some h ↦ is_some (net.env.parse_ip h)
  ]

  unfoldable pub join_dial_targets : List String → String → List String
  join_dial_targets ips port = map (λ ip. net.join_host_port ip port) ips

  unfoldable pub is_ipv6_target : String → Bool
  is_ipv6_target target = elim (net.split_host_port target) [
    | got (host, port) ↦ is_ipv6 (net.env.parse_ip host)
    | failed e ↦ false
  ]

  unfoldable pub first_is_ipv6 : List String → Bool
  first_is_ipv6 [] = false
  first_is_ipv6 (t ∷ ts) = is_ipv6_target t

  -- The primary and the fallback targets.
  unfoldable pub split_dial_families : List String → List String × List String
  unfolding filter_by
  split_dial_families targets =
      let v4 = filter_by (λ t. not (is_ipv6_target t)) targets in
      let v6 = filter_by is_ipv6_target targets in
      if is_empty v4 || is_empty v6
      then (targets, [])
      else if first_is_ipv6 targets
      then (v6, v4)
      else (v4, v6)

  unfoldable pub dial_tcp_addresses : Resolver → List String → Option String → W → Dialed × W
  dial_tcp_addresses resolver [] last w = (last_error last, w)
  dial_tcp_addresses resolver (t ∷ ts) last w =
      let (r, w1) = net.dial resolver t w in
      elim r [ got c ↦ (connected c, w1) | failed e ↦ dial_tcp_addresses resolver ts (some e) w1 ]

  -- One step of a worker: the end of its delay, or one address.
  unfoldable pub step_worker : Resolver → Worker → W → Worker × W
  step_worker resolver (waiting ts) w =
      let (fires, w1) = net.fallback_timer w in
      if fires then (dialing ts none, w1) else (done (refused "context canceled"), w1)
  step_worker resolver (dialing [] last) w = (done (last_error last), w)
  step_worker resolver (dialing (t ∷ ts) last) w =
      let (r, w1) = net.dial resolver t w in
      elim r [ got c ↦ (done (connected c), w1) | failed e ↦ (dialing ts (some e), w1) ]
  step_worker resolver (done d) w = (done d, w)

  -- All the steps that a worker has left.
  unfoldable pub finish : Resolver → Worker → W → Dialed × W
  unfolding dial_tcp_addresses
  finish resolver (waiting ts) w =
      let (fires, w1) = net.fallback_timer w in
      if fires then dial_tcp_addresses resolver ts none w1 else (refused "context canceled", w1)
  finish resolver (dialing ts last) w = dial_tcp_addresses resolver ts last w
  finish resolver (done d) w = (d, w)

  -- The steps of both until one has ended: its outcome, and the other. Once the picks are used up the
  -- primary goes on.
  unfoldable pub race : Resolver → List Bool → Worker → Worker → W → (Dialed × Worker) × W
  unfolding step_worker finish
  race resolver picks (done d) fallback w = ((d, fallback), w)
  race resolver picks primary (done d) w = ((d, primary), w)
  race resolver [] primary fallback w =
      let (d, w1) = finish resolver primary w in ((d, fallback), w1)
  race resolver (true ∷ picks) primary fallback w =
      let (p, w1) = step_worker resolver primary w in race resolver picks p fallback w1
  race resolver (false ∷ picks) primary fallback w =
      let (f, w1) = step_worker resolver fallback w in race resolver picks primary f w1

  -- The loop over the two results, from the first.
  unfoldable pub await_results : Resolver → Dialed × Worker → W → (Dialed × Option Worker) × W
  unfolding finish
  await_results resolver (connected c, other) w = ((connected c, some other), w)
  await_results resolver (nothing, other) w = ((nothing, some other), w)
  await_results resolver (refused e, other) w =
      let (d, w1) = finish resolver other w in ((d, none), w1)

  unfoldable pub dial_tcp_happy_eyeballs :
      Resolver → List Bool → List String → W → (Dialed × Option Worker) × W
  unfolding split_dial_families dial_tcp_addresses race await_results
  dial_tcp_happy_eyeballs resolver picks [] w = ((refused "no dial targets", none), w)
  dial_tcp_happy_eyeballs resolver picks (t ∷ ts) w =
      let (primary, fallback) = split_dial_families (t ∷ ts) in
      if is_empty fallback
      then (let (d, w1) = dial_tcp_addresses resolver primary none w in ((d, none), w1))
      else (let (first, w1) = race resolver picks (dialing primary none) (waiting fallback) w in
          await_results resolver first w1)

  -- The dial of the targets with its two times.
  unfoldable pub dial_targets :
      Resolver → List Bool → SplitDialResult → List String → W → (SplitDialResult × Dialed) × W
  unfolding dial_tcp_happy_eyeballs
  dial_targets resolver picks r targets w =
      let (start, w1) = net.env.now w in
      let (d, w2) = dial_tcp_happy_eyeballs resolver picks targets w1 in
      let (end, w3) = net.env.now w2 in
      ((record r { tcp_start = some start; tcp_end = some end; pending = d.1 }, d.0), w3)

  -- The lookup of a host name.
  unfoldable pub dial_looked_up :
      Resolver
      → List Bool
      → String
      → SplitDialResult
      → Outcome (List String)
      → W
      → (SplitDialResult × Dialed) × W
  unfolding join_dial_targets dial_targets
  dial_looked_up resolver picks port r (failed e) w = ((r, refused ("dns resolve: " <> e)), w)
  dial_looked_up resolver picks port r (got []) w =
      ((r, refused "dns resolve: no results returned"), w)
  dial_looked_up resolver picks port r (got (ip ∷ ips)) w =
      dial_targets resolver picks r (join_dial_targets (ip ∷ ips) port) w

  unfoldable pub dial_host :
      Resolver → List Bool → String → Outcome (String × String) → W → (SplitDialResult × Dialed) × W
  unfolding is_literal_ip_host dial_targets dial_looked_up
  dial_host resolver picks address (failed e) w = ((no_dial, refused e), w)
  dial_host resolver picks address (got (host, port)) w =
      if is_literal_ip_host host
      then dial_targets resolver picks no_dial (address ∷ []) w
      else (let (start, w1) = net.env.now w in
          let (ips, w2) = net.lookup_ip_addr resolver host w1 in
          let (end, w3) = net.env.now w2 in
          dial_looked_up resolver picks port
            (record no_dial { dns_start = some start; dns_end = some end }) ips w3)

  unfoldable pub dial_tcp_with_split_phases :
      Resolver → List Bool → String → W → (SplitDialResult × Dialed) × W
  unfolding dial_host
  dial_tcp_with_split_phases resolver picks address w =
      dial_host resolver picks address (net.split_host_port address) w

  -- The worker that is left runs to its end, and the goroutine that waits for it closes what it won.
  unfoldable pub settle : Resolver → Option Worker → W → W
  unfolding finish
  settle resolver none w = w
  settle resolver (some worker) w =
      let (d, w1) = finish resolver worker w in
      elim d [ connected c ↦ net.close c w1 | refused e ↦ w1 | nothing ↦ w1 ]
