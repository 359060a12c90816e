-- ===== src/Probe/Http/Phases.antt =====
-- buildPhases and laterOf of internal/probe/http.go, and the snapshot of internal/probe/http_trace.go. A
-- time that is zero is `none`.
use netsonar.Base.{
  ℕ, ◌+◌, ◌-◌, ◌^◌, ◌≤◌, ◌<◌, ◌≡◌, List, [], ◌∷◌, Option, none, some, if◌then◌else◌, is_none, arith,
}
use netsonar.Base.Int.{ℤ, pos, pos_part, sub64, ◌-ℤ◌, wrap64, ltb_ℤ}
use netsonar.Probe.Result.{
  Phase, dns_resolve, tcp_connect, tls_handshake, request_write, ttfb, transfer,
}
use netsonar.Probe.Resolve.{safe_sub, add_observed_phase}

pub record HttpTraceTimingsSnapshot : Type 0 where
  pub dns_start : Option ℤ
  pub dns_end : Option ℤ
  pub connect_start : Option ℤ
  pub connect_end : Option ℤ
  pub tls_start : Option ℤ
  pub tls_end : Option ℤ
  pub wrote_request : Option ℤ
  pub got_first_byte : Option ℤ

-- The zero time is before every other.
unfoldable pub later_of : Option ℤ → Option ℤ → Option ℤ
later_of none b = b
later_of (some a) none = some a
later_of (some a) (some b) = if ltb_ℤ b a then some a else some b

unfoldable pub build_phases : HttpTraceTimingsSnapshot → Option ℤ → List (Phase × ℤ)
unfolding later_of add_observed_phase
build_phases s transfer_end =
    let request_ready = later_of s.tls_end s.connect_end in
    let ttfb_start = if is_none s.wrote_request then request_ready else s.wrote_request in
    let p1 = add_observed_phase [] dns_resolve s.dns_end s.dns_start in
    let p2 = add_observed_phase p1 tcp_connect s.connect_end s.connect_start in
    let p3 = add_observed_phase p2 tls_handshake s.tls_end s.tls_start in
    let p4 = add_observed_phase p3 request_write s.wrote_request request_ready in
    let p5 = add_observed_phase p4 ttfb s.got_first_byte ttfb_start in
    add_observed_phase p5 transfer transfer_end s.got_first_byte

-- The sum of the durations.
abbrev pub total : List (Phase × ℤ) → ℕ
total [] = 0
total ((p, d) ∷ ps) = pos_part d + total ps

-- What happened in a request that was answered: a lookup unless the host was an address, a connection, a
-- handshake if it was https.
pub record Timeline : Type 0 where
  pub lookup : Option (ℕ × ℕ)
  pub connect : ℕ × ℕ
  pub handshake : Option (ℕ × ℕ)
  pub wrote : ℕ
  pub first_byte : ℕ
  pub transfer_end : ℕ

abbrev at : Option (ℕ × ℕ) → Option ℤ × Option ℤ
at none = (none, none)
at (some (a, b)) = (some (pos a), some (pos b))

abbrev pub snapshot_of : Timeline → HttpTraceTimingsSnapshot
snapshot_of t = record {
  dns_start = (at t.lookup).0;
  dns_end = (at t.lookup).1;
  connect_start = some (pos t.connect.0);
  connect_end = some (pos t.connect.1);
  tls_start = (at t.handshake).0;
  tls_end = (at t.handshake).1;
  wrote_request = some (pos t.wrote);
  got_first_byte = some (pos t.first_byte);
}

-- The time when a step that may be left out has ended, and that it did not run backwards.
abbrev ended : ℕ → Option (ℕ × ℕ) → ℕ
ended start none = start
ended start (some (a, b)) = b

abbrev Forward : ℕ → Option (ℕ × ℕ) → Type 0
Forward start none = Unit {0}
Forward start (some (a, b)) = (start ≤ a) × (a ≤ b)

-- The times from the start on, each no sooner than the one before.
abbrev pub IsOrdered : ℕ → Timeline → Type 0
IsOrdered start t =
    Forward start t.lookup
    × (ended start t.lookup ≤ t.connect.0)
    × (t.connect.0 ≤ t.connect.1)
    × Forward t.connect.1 t.handshake
    × (ended t.connect.1 t.handshake ≤ t.wrote)
    × (t.wrote ≤ t.first_byte)
    × (t.first_byte ≤ t.transfer_end)
    × (t.transfer_end < 2 ^ 63)

safe_sub_pos : (a b : ℕ) → a ≤ b → b < 2 ^ 63 → safe_sub (pos b) (pos a) ≡ pos (b - a)
unfolding safe_sub sub64 ◌-ℤ◌ wrap64
safe_sub_pos a b h k = ground arith

later_of-handshake : (c h : ℕ) → c ≤ h → later_of (some (pos h)) (some (pos c)) ≡ some (pos h)
unfolding later_of
later_of-handshake c h k = ground arith

-- The duration of one observed phase.
abbrev spent : ℕ → ℕ → ℕ
spent a b = pos_part (safe_sub (pos b) (pos a))

spent_eq : (a b : ℕ) → a ≤ b → b < 2 ^ 63 → spent a b ≡ b - a
spent_eq a b h k = ground (arith, safe_sub_pos a b)

within :
    (start : ℕ) (lookup : Option (ℕ × ℕ)) (c d : ℕ) (handshake : Option (ℕ × ℕ)) (w f e : ℕ)
    → let t : Timeline = record {
      lookup = lookup;
      connect = (c, d);
      handshake = handshake;
      wrote = w;
      first_byte = f;
      transfer_end = e;
    } in
      IsOrdered start t → total (build_phases (snapshot_of t) (some (pos e))) + start ≤ e
unfolding build_phases
within start none c d none w f e o =
    omega (arith, spent_eq c d, spent_eq d w, spent_eq w f, spent_eq f e)
within start (some (a, b)) c d none w f e o =
    omega (arith, spent_eq a b, spent_eq c d, spent_eq d w, spent_eq w f, spent_eq f e)
within start none c d (some (g, h)) w f e o =
    rw (later_of-handshake d h (omega arith))
      (omega (arith, spent_eq c d, spent_eq g h, spent_eq h w, spent_eq w f, spent_eq f e))
within start (some (a, b)) c d (some (g, h)) w f e o = rw (later_of-handshake d h (omega arith)) (
    omega
      (arith, spent_eq a b, spent_eq c d, spent_eq g h, spent_eq h w, spent_eq w f, spent_eq f e))

-- The phases of a request that was answered do not overlap: where no time lies before the one that it
-- follows, their durations together are at most the time from the start to the end of the transfer, with
-- or without a lookup and a TLS handshake.
pub build_phases-within :
    (start : ℕ) (t : Timeline)
    → IsOrdered start t
    → total (build_phases (snapshot_of t) (some (pos t.transfer_end))) + start ≤ t.transfer_end
build_phases-within start t o =
    within start t.lookup t.connect.0 t.connect.1 t.handshake t.wrote t.first_byte t.transfer_end o
