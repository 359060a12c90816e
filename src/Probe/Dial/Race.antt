-- ===== src/Probe/Dial/Race.antt =====
-- The rule of induction for the race of the two workers of dialTCPHappyEyeballs in
-- internal/probe/prober.go.
use netsonar.Base.{Bool, true, false, List, [], ◌∷◌}
use netsonar.Probe.Resolve.{Resolver}
use netsonar.Probe.Sockets.{Sockets}
use netsonar.Probe.Dial.{Dialed, Worker, waiting, dialing, done, step_worker, finish, race}

-- A worker that has not ended.
abbrev pub Alive : Worker → Type 0
Alive (done d) = ⊥
Alive (waiting ts) = Unit
Alive (dialing ts last) = Unit

module _ {W : Type 0} (net : Sockets W) (resolver : Resolver) (P : Worker → Worker → W → Type 0)
    (Q : (Dialed × Worker) × W → Type 0) where
  -- What the steps of either worker keep holds when the first has ended.
  pub race_rule :
      ((p f : Worker) (w : W)
        → Alive p
        → Alive f
        → P p f w
        → P (step_worker net resolver p w).0 f (step_worker net resolver p w).1)
      → ((p f : Worker) (w : W)
          → Alive p
          → Alive f
          → P p f w
          → P p (step_worker net resolver f w).0 (step_worker net resolver f w).1)
      → ((d : Dialed) (f : Worker) (w : W) → P (done d) f w → Q ((d, f), w))
      → ((p : Worker) (d : Dialed) (w : W) → Alive p → P p (done d) w → Q ((d, p), w))
      → ((p f : Worker) (w : W)
          → Alive p
          → Alive f
          → P p f w
          → Q (((finish net resolver p w).0, f), (finish net resolver p w).1))
      → (picks : List Bool) (p f : Worker) (w : W) → P p f w
      → Q (race net resolver picks p f w)
  unfolding race
  race_rule left right el er last picks (done d) f w h = el d f w h
  race_rule left right el er last picks (waiting ts) (done d) w h = er (waiting ts) d w tt h
  race_rule left right el er last picks (dialing ts m) (done d) w h = er (dialing ts m) d w tt h
  race_rule left right el er last [] (waiting ts) (waiting us) w h =
      last (waiting ts) (waiting us) w tt tt h
  race_rule left right el er last [] (waiting ts) (dialing us l) w h =
      last (waiting ts) (dialing us l) w tt tt h
  race_rule left right el er last [] (dialing ts m) (waiting us) w h =
      last (dialing ts m) (waiting us) w tt tt h
  race_rule left right el er last [] (dialing ts m) (dialing us l) w h =
      last (dialing ts m) (dialing us l) w tt tt h
  race_rule left right el er last (true ∷ picks) (waiting ts) (waiting us) w h =
      race_rule left right el er last picks _ (waiting us) _
        (left (waiting ts) (waiting us) w tt tt h)
  race_rule left right el er last (true ∷ picks) (waiting ts) (dialing us l) w h =
      race_rule left right el er last picks _ (dialing us l) _
        (left (waiting ts) (dialing us l) w tt tt h)
  race_rule left right el er last (true ∷ picks) (dialing ts m) (waiting us) w h =
      race_rule left right el er last picks _ (waiting us) _
        (left (dialing ts m) (waiting us) w tt tt h)
  race_rule left right el er last (true ∷ picks) (dialing ts m) (dialing us l) w h =
      race_rule left right el er last picks _ (dialing us l) _
        (left (dialing ts m) (dialing us l) w tt tt h)
  race_rule left right el er last (false ∷ picks) (waiting ts) (waiting us) w h =
      race_rule left right el er last picks (waiting ts) _ _
        (right (waiting ts) (waiting us) w tt tt h)
  race_rule left right el er last (false ∷ picks) (waiting ts) (dialing us l) w h =
      race_rule left right el er last picks (waiting ts) _ _
        (right (waiting ts) (dialing us l) w tt tt h)
  race_rule left right el er last (false ∷ picks) (dialing ts m) (waiting us) w h =
      race_rule left right el er last picks (dialing ts m) _ _
        (right (dialing ts m) (waiting us) w tt tt h)
  race_rule left right el er last (false ∷ picks) (dialing ts m) (dialing us l) w h =
      race_rule left right el er last picks (dialing ts m) _ _
        (right (dialing ts m) (dialing us l) w tt tt h)
