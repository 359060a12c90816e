-- ===== src/Probe/Dial/Total.antt =====
-- The dialing of internal/probe/prober.go returns a connection or an error, never neither.
use netsonar.Base.{
  ◌≡◌, ◌≢◌, refl, inl, inr, Bool, false, ◌&&◌, String, List, [], ◌∷◌, Option, none, some, is_empty,
  is_none, arith, Bool-cases,
}
use netsonar.Probe.Resolve.{Resolver}
use netsonar.Probe.Sockets.{Outcome, Outcome-cases, got, failed, Sockets}
use netsonar.Probe.Dial.{
  Dialed, connected, refused, nothing, Worker, waiting, dialing, done, SplitDialResult,
  dial_tcp_addresses, step_worker, finish, race, await_results, dial_tcp_happy_eyeballs,
  split_dial_families, join_dial_targets, dial_targets, dial_looked_up, dial_host,
  dial_tcp_with_split_phases, is_literal_ip_host,
}
use netsonar.Probe.Dial.Families.{split_dial_families-primary}
use netsonar.Probe.Dial.Race.{race_rule}

-- A worker with something to try, or that has tried something.
abbrev Busy : Worker → Type 0
Busy (waiting ts) = is_empty ts ≡ false
Busy (dialing ts last) = (is_empty ts && is_none last) ≡ false
Busy (done d) = d ≢ nothing

abbrev BothBusy : {W : Type 0} → Worker → Worker → W → Type 0
BothBusy p f w = Busy p × Busy f

abbrev RacedBusy : {W : Type 0} → (Dialed × Worker) × W → Type 0
RacedBusy ((d, other), w) = (d ≢ nothing) × Busy other

module _ {W : Type 0} (net : Sockets W) (resolver : Resolver) where
  dial_tcp_addresses_total :
      (ts : List String) (last : Option String) (w : W)
      → (is_empty ts && is_none last) ≡ false
      → (dial_tcp_addresses net resolver ts last w).0 ≢ nothing
  unfolding dial_tcp_addresses
  dial_tcp_addresses_total [] none w h = absurd (cc)
  dial_tcp_addresses_total [] (some e) w h = λ q. cc
  dial_tcp_addresses_total (t ∷ ts) last w h = elim (Outcome-cases (net.dial resolver t w).0) [
    | inl (c, e) ↦ λ q. ground arith
    | inr (m, e) ↦
        λ q. ground (arith, dial_tcp_addresses_total ts (some m) (net.dial resolver t w).1)
  ]

  step_worker-Busy : (k : Worker) (w : W) → Busy k → Busy (step_worker net resolver k w).0
  unfolding step_worker
  step_worker-Busy (waiting ts) w h = elim (Bool-cases (net.fallback_timer w).0) [
    | inl e ↦ rw e (ground arith)
    | inr e ↦ rw e (λ q. cc)
  ]
  step_worker-Busy (dialing [] none) w h = absurd (cc)
  step_worker-Busy (dialing [] (some e)) w h = λ q. cc
  step_worker-Busy (dialing (t ∷ ts) last) w h = elim (Outcome-cases (net.dial resolver t w).0) [
    | inl (c, e) ↦ rw (e, step_worker) (λ q. cc)
    | inr (m, e) ↦ rw (e, step_worker) (ground arith)
  ]
  step_worker-Busy (done d) w h = h

  finish_total : (k : Worker) (w : W) → Busy k → (finish net resolver k w).0 ≢ nothing
  unfolding finish
  finish_total (waiting ts) w h = elim (Bool-cases (net.fallback_timer w).0) [
    | inl e ↦ rw e (dial_tcp_addresses_total ts none _ (ground arith))
    | inr e ↦ rw e (λ q. cc)
  ]
  finish_total (dialing ts last) w h = dial_tcp_addresses_total ts last w h
  finish_total (done d) w h = h

  race-Busy :
      (picks : List Bool) (p f : Worker) (w : W)
      → BothBusy p f w
      → RacedBusy (race net resolver picks p f w)
  race-Busy =
      race_rule net resolver BothBusy RacedBusy (λ p f w a b h. (step_worker-Busy p w h.0, h.1))
        (λ p f w a b h. (h.0, step_worker-Busy f w h.1)) (λ d f w h. h) (λ p d w a h. (h.1, h.0))
        (λ p f w a b h. (finish_total p w h.0, h.1))

  await_results_total :
      (d : Dialed) (other : Worker) (w : W)
      → d ≢ nothing
      → Busy other
      → (await_results net resolver (d, other) w).0.0 ≢ nothing
  unfolding await_results
  await_results_total (connected c) other w h b = h
  await_results_total (refused e) other w h b = finish_total other w b
  await_results_total nothing other w h b = absurd (h refl)

  dial_tcp_happy_eyeballs_total :
      (picks : List Bool) (ts : List String) (w : W)
      → (dial_tcp_happy_eyeballs net resolver picks ts w).0.0 ≢ nothing
  unfolding dial_tcp_happy_eyeballs
  dial_tcp_happy_eyeballs_total picks [] w = λ q. cc
  dial_tcp_happy_eyeballs_total picks (t ∷ ts) w =
      let (primary, fallback) = split_dial_families net (t ∷ ts) in
      let full = split_dial_families-primary net t ts in
      elim (Bool-cases (is_empty fallback)) [
        | inl e ↦ rw e (dial_tcp_addresses_total primary none w (ground (arith, full)))
        | inr e ↦
            let raced = race net resolver picks (dialing primary none) (waiting fallback) w in
            let (h, b) =
              race-Busy picks (dialing primary none) (waiting fallback) w
                (ground (arith, full), e) in
            rw e (await_results_total raced.0.0 raced.0.1 raced.1 h b)
      ]

  dial_looked_up_total :
      (picks : List Bool) (port : String) (r : SplitDialResult) (ips : Outcome (List String))
      (w : W)
      → (dial_looked_up net resolver picks port r ips w).0.1 ≢ nothing
  unfolding dial_looked_up dial_targets
  dial_looked_up_total picks port r (failed e) w = λ q. cc
  dial_looked_up_total picks port r (got []) w = λ q. cc
  dial_looked_up_total picks port r (got (ip ∷ ips)) w =
      dial_tcp_happy_eyeballs_total picks (join_dial_targets net (ip ∷ ips) port) _

  dial_host_total :
      (picks : List Bool) (address : String) (hp : Outcome (String × String)) (w : W)
      → (dial_host net resolver picks address hp w).0.1 ≢ nothing
  unfolding dial_host dial_targets
  dial_host_total picks address (failed e) w = λ q. cc
  dial_host_total picks address (got (host, port)) w =
      elim (Bool-cases (is_literal_ip_host net host)) [
        | inl e ↦ rw e (dial_tcp_happy_eyeballs_total picks (address ∷ []) _)
        | inr e ↦ rw e (dial_looked_up_total picks port _ _ _)
      ]

-- A dial returns a connection or an error.
pub dial_total :
    {W : Type 0} (net : Sockets W) (resolver : Resolver) (picks : List Bool) (address : String)
    (w : W)
    → (dial_tcp_with_split_phases net resolver picks address w).0.1 ≢ nothing
unfolding dial_tcp_with_split_phases
dial_total net resolver picks address w =
    dial_host_total net resolver picks address (net.split_host_port address) w
