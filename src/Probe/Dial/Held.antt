-- ===== src/Probe/Dial/Held.antt =====
-- The connections that the dialing of internal/probe/prober.go opens and closes.
use netsonar.Base.{
  ℕ, ◌≡◌, refl, inl, inr, sym, ap, ◌∙◌, Bool, String, List, [], ◌∷◌, Option, none, some, is_empty,
  arith, Bool-cases,
}
use netsonar.Probe.Resolve.{Resolver}
use netsonar.Probe.Sockets.{Outcome, Outcome-cases, got, failed, Sockets}
use netsonar.Probe.Dial.Race.{Alive, race_rule}
use netsonar.Probe.Dial.{
  Dialed, connected, refused, nothing, Worker, waiting, dialing, done, SplitDialResult, last_error,
  dial_tcp_addresses, step_worker, finish, race, await_results, dial_tcp_happy_eyeballs,
  dial_targets, dial_looked_up, dial_host, dial_tcp_with_split_phases, settle, split_dial_families,
  join_dial_targets, is_literal_ip_host, no_dial,
}

-- The open connections once the dialing has ended so.
abbrev pub after_dial : Dialed → List ℕ → List ℕ
after_dial (connected c) cs = c ∷ cs
after_dial (refused e) cs = cs
after_dial nothing cs = cs

-- A worker that has ended holds its connection.
abbrev worker_held : Worker → List ℕ → List ℕ
worker_held (done d) cs = after_dial d cs
worker_held (waiting ts) cs = cs
worker_held (dialing ts last) cs = cs

after-last_error : (last : Option String) (cs : List ℕ) → after_dial (last_error last) cs ≡ cs
after-last_error none cs = refl
after-last_error (some e) cs = refl

module _ {W : Type 0} (net : Sockets W) (resolver : Resolver) where
  dial_tcp_addresses-held :
      (ts : List String) (last : Option String) (w : W)
      → let (d, w') = dial_tcp_addresses net resolver ts last w in
        net.held w' ≡ after_dial d (net.held w)
  unfolding dial_tcp_addresses
  dial_tcp_addresses-held [] last w = sym (after-last_error last (net.held w))
  dial_tcp_addresses-held (t ∷ ts) last w = elim (Outcome-cases (net.dial resolver t w).0) [
    | inl (c, e) ↦ ground (arith, net.held-dial resolver t w)
    | inr (m, e) ↦ ground (
      arith,
      net.held-dial resolver t w,
      dial_tcp_addresses-held ts (some m) (net.dial resolver t w).1,
    )
  ]

  step_worker-held :
      (k : Worker) (w : W)
      → (cs : List ℕ) → net.held w ≡ worker_held k cs
      → let (k', w') = step_worker net resolver k w in net.held w' ≡ worker_held k' cs
  unfolding step_worker
  step_worker-held (waiting ts) w cs h = ground (arith, net.held-timer w)
  step_worker-held (dialing [] last) w cs h = h ∙ sym (after-last_error last cs)
  step_worker-held (dialing (t ∷ ts) last) w cs h = elim (Outcome-cases (net.dial resolver t w).0) [
    | inl (c, e) ↦ ground (arith, net.held-dial resolver t w)
    | inr (m, e) ↦ ground (arith, net.held-dial resolver t w)
  ]
  step_worker-held (done d) w cs h = h

  pub finish-held :
      (k : Worker) (w : W)
      → Alive k
      → let (d, w') = finish net resolver k w in net.held w' ≡ after_dial d (net.held w)
  unfolding finish
  finish-held (waiting ts) w a = elim (Bool-cases (net.fallback_timer w).0) [
    | inl e ↦
        rw e (dial_tcp_addresses-held ts none (net.fallback_timer w).1 ∙ rw (net.held-timer w))
    | inr e ↦ rw e (net.held-timer w)
  ]
  finish-held (dialing ts last) w a = dial_tcp_addresses-held ts last w
  finish-held (done d) w a = absurd a

  -- While they race, at most one worker has ended.
  abbrev OneAlive : Worker → Worker → Type 0
  OneAlive (done d) f = Alive f
  OneAlive (waiting ts) f = Unit
  OneAlive (dialing ts last) f = Unit

  OneAlive-left : (p f : Worker) → Alive p → OneAlive p f
  OneAlive-left (done d) f a = absurd a
  OneAlive-left (waiting ts) f a = tt
  OneAlive-left (dialing ts last) f a = tt

  OneAlive-right : (p f : Worker) → Alive f → OneAlive p f
  OneAlive-right (done d) f a = a
  OneAlive-right (waiting ts) f a = tt
  OneAlive-right (dialing ts last) f a = tt

  Alive-held : (k : Worker) (cs : List ℕ) → Alive k → worker_held k cs ≡ cs
  Alive-held (done d) cs a = absurd a
  Alive-held (waiting ts) cs a = refl
  Alive-held (dialing ts last) cs a = refl

  abbrev Racing : List ℕ → Worker → Worker → W → Type 0
  Racing cs p f w = OneAlive p f × (net.held w ≡ worker_held p (worker_held f cs))

  -- What the race leaves: the first outcome holds what it won, and the other worker still runs.
  abbrev Raced : List ℕ → (Dialed × Worker) × W → Type 0
  Raced cs ((d, other), w) = (net.held w ≡ after_dial d cs) × Alive other

  race_step_left :
      (cs : List ℕ) (p f : Worker) (w : W)
      → Alive p
      → Alive f
      → Racing cs p f w
      → let (p', w') = step_worker net resolver p w in Racing cs p' f w'
  race_step_left cs p f w a b (_, h) =
      (OneAlive-right _ f b, step_worker-held p w (worker_held f cs) h)

  race_step_right :
      (cs : List ℕ) (p f : Worker) (w : W)
      → Alive p
      → Alive f
      → Racing cs p f w
      → let (f', w') = step_worker net resolver f w in Racing cs p f' w'
  race_step_right cs p f w a b (_, h) =
      let s = step_worker net resolver f w in
      let k = step_worker-held f w cs (h ∙ Alive-held p _ a) in
      (OneAlive-left p s.0 a, k ∙ sym (Alive-held p _ a))

  race-Raced :
      (picks : List Bool) (p f : Worker) (w : W) (cs : List ℕ)
      → Racing cs p f w
      → Raced cs (race net resolver picks p f w)
  race-Raced picks p f w cs =
      race_rule net resolver (Racing cs) (Raced cs) (race_step_left cs) (race_step_right cs)
        (λ d g v (a, h). (h ∙ ap (after_dial d) (Alive-held g cs a), a))
        (λ q d v a (_, h). (h ∙ Alive-held q _ a, a))
        (λ q g v a b (_, h).
          (finish-held q v a ∙ ap (after_dial _) (h ∙ Alive-held q _ a ∙ Alive-held g cs b), b))
        picks p f w

  -- No worker is pending, or one that has not ended.
  abbrev pub IsPending : Option Worker → Type 0
  IsPending none = Unit
  IsPending (some k) = Alive k

  abbrev pub IsDialed : List ℕ → (Dialed × Option Worker) × W → Type 0
  IsDialed cs ((d, pending), w) = (net.held w ≡ after_dial d cs) × IsPending pending

  await_results-IsDialed :
      (d : Dialed) (other : Worker) (w : W) (cs : List ℕ)
      → net.held w ≡ after_dial d cs
      → Alive other
      → IsDialed cs (await_results net resolver (d, other) w)
  unfolding await_results
  await_results-IsDialed (connected c) other w cs h a = (h, a)
  await_results-IsDialed nothing other w cs h a = (h, a)
  await_results-IsDialed (refused e) other w cs h a = (finish-held other w a ∙ rw h, tt)

  dial_tcp_happy_eyeballs-IsDialed :
      (picks : List Bool) (ts : List String) (w : W)
      → IsDialed (net.held w) (dial_tcp_happy_eyeballs net resolver picks ts w)
  unfolding dial_tcp_happy_eyeballs
  dial_tcp_happy_eyeballs-IsDialed picks [] w = (refl, tt)
  dial_tcp_happy_eyeballs-IsDialed picks (t ∷ ts) w =
      let (primary, fallback) = split_dial_families net (t ∷ ts) in
      elim (Bool-cases (is_empty fallback)) [
        | inl e ↦ rw e (dial_tcp_addresses-held primary none w, tt)
        | inr e ↦
            let raced = race net resolver picks (dialing primary none) (waiting fallback) w in
            let (h, a) =
              race-Raced picks (dialing primary none) (waiting fallback) w (net.held w)
                (tt, refl) in
            rw e (await_results-IsDialed raced.0.0 raced.0.1 raced.1 (net.held w) h a)
      ]

  -- The same for the whole dial: what it returns, with the worker that it leaves behind.
  abbrev pub IsSplitDialed : List ℕ → (SplitDialResult × Dialed) × W → Type 0
  IsSplitDialed cs ((r, d), w) = (net.held w ≡ after_dial d cs) × IsPending r.pending

  dial_targets-IsSplitDialed :
      (picks : List Bool) (r : SplitDialResult) (ts : List String) (w : W)
      → IsSplitDialed (net.held w) (dial_targets net resolver picks r ts w)
  unfolding dial_targets
  dial_targets-IsSplitDialed picks r ts w =
      let w1 = (net.env.now w).1 in
      let (h, a) = dial_tcp_happy_eyeballs-IsDialed picks ts w1 in
      (net.held-now _ ∙ h ∙ rw (net.held-now w), a)

  dial_looked_up-IsSplitDialed :
      (picks : List Bool) (port : String) (r : SplitDialResult) (ips : Outcome (List String))
      (w : W)
      → IsPending r.pending
      → IsSplitDialed (net.held w) (dial_looked_up net resolver picks port r ips w)
  unfolding dial_looked_up
  dial_looked_up-IsSplitDialed picks port r (failed e) w a = (refl, a)
  dial_looked_up-IsSplitDialed picks port r (got []) w a = (refl, a)
  dial_looked_up-IsSplitDialed picks port r (got (ip ∷ ips)) w a =
      dial_targets-IsSplitDialed picks r (join_dial_targets net (ip ∷ ips) port) w

  dial_host-IsSplitDialed :
      (picks : List Bool) (address : String) (hp : Outcome (String × String)) (w : W)
      → IsSplitDialed (net.held w) (dial_host net resolver picks address hp w)
  unfolding dial_host
  dial_host-IsSplitDialed picks address (failed e) w = (refl, tt)
  dial_host-IsSplitDialed picks address (got (host, port)) w =
      elim (Bool-cases (is_literal_ip_host net host)) [
        | inl e ↦ rw e (dial_targets-IsSplitDialed picks no_dial (address ∷ []) w)
        | inr e ↦
            let (start, w1) = net.env.now w in
            let (ips, w2) = net.lookup_ip_addr resolver host w1 in
            let (end, w3) = net.env.now w2 in
            let kept : net.held w3 ≡ net.held w =
              net.held-now w2 ∙ net.held-lookup resolver host w1 ∙ net.held-now w in
            rw e (rw (sym kept) (dial_looked_up-IsSplitDialed picks port _ ips w3 tt))
      ]

  pub dial-IsSplitDialed :
      (picks : List Bool) (address : String) (w : W)
      → IsSplitDialed (net.held w) (dial_tcp_with_split_phases net resolver picks address w)
  unfolding dial_tcp_with_split_phases
  dial-IsSplitDialed picks address w =
      dial_host-IsSplitDialed picks address (net.split_host_port address) w

  -- What a pending worker wins is closed.
  settled :
      (d : Dialed) (w : W) (cs : List ℕ)
      → net.held w ≡ after_dial d cs
      → net.held (elim d [ connected c ↦ net.close c w | refused e ↦ w | nothing ↦ w ]) ≡ cs
  settled (connected c) w cs h = net.held-close c w ∙ rw h (ground arith)
  settled (refused e) w cs h = h
  settled nothing w cs h = h

  pub settle-held :
      (pending : Option Worker) (w : W)
      → IsPending pending
      → net.held (settle net resolver pending w) ≡ net.held w
  unfolding settle
  settle-held none w a = refl
  settle-held (some k) w a =
      let f = finish net resolver k w in settled f.0 f.1 (net.held w) (finish-held k w a)
