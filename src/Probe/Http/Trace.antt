-- ===== src/Probe/Http/Trace.antt =====
-- httpTraceTimings of internal/probe/http_trace.go. The lock is not modelled: a callback of the trace is one
-- assignment under it, so the times are what the callbacks so far have set, one after the other.
use netsonar.Base.{ℕ, ◌+◌, ◌≤◌, ◌≡◌, refl, List, [], ◌∷◌, Option, none, some}
use netsonar.Base.Int.{ℤ, pos}
use netsonar.Probe.Result.{Phase}
use netsonar.Probe.Http.Phases.{
  HttpTraceTimingsSnapshot, build_phases, total, Timeline, snapshot_of, IsOrdered,
  build_phases-within,
}

-- The callbacks of ClientTrace that `trace` sets.
pub data TraceEvent : Type 0 where
  on_dns_start : TraceEvent
  on_dns_done : TraceEvent
  on_connect_start : TraceEvent
  on_connect_done : TraceEvent
  on_tls_handshake_start : TraceEvent
  on_tls_handshake_done : TraceEvent
  on_wrote_request : TraceEvent
  on_got_first_response_byte : TraceEvent

abbrev pub zero_timings : HttpTraceTimingsSnapshot
zero_timings = record {
  dns_start = none;
  dns_end = none;
  connect_start = none;
  connect_end = none;
  tls_start = none;
  tls_end = none;
  wrote_request = none;
  got_first_byte = none;
}

-- The assignment of a callback that is called at a time.
unfoldable pub set : TraceEvent → ℤ → HttpTraceTimingsSnapshot → HttpTraceTimingsSnapshot
set on_dns_start now t = record t { dns_start = some now }
set on_dns_done now t = record t { dns_end = some now }
set on_connect_start now t = record t { connect_start = some now }
set on_connect_done now t = record t { connect_end = some now }
set on_tls_handshake_start now t = record t { tls_start = some now }
set on_tls_handshake_done now t = record t { tls_end = some now }
set on_wrote_request now t = record t { wrote_request = some now }
set on_got_first_response_byte now t = record t { got_first_byte = some now }

-- The callbacks, from the first.
unfoldable pub set_all : List (TraceEvent × ℤ) → HttpTraceTimingsSnapshot → HttpTraceTimingsSnapshot
unfolding set
set_all [] t = t
set_all ((e, now) ∷ es) t = set_all es (set e now t)

unfoldable pub snapshot : List (TraceEvent × ℤ) → HttpTraceTimingsSnapshot
unfolding set_all
snapshot es = set_all es zero_timings

unfoldable pub build_phases_from_snapshot : HttpTraceTimingsSnapshot → Option ℤ → List (Phase × ℤ)
unfolding build_phases
build_phases_from_snapshot s transfer_end = build_phases s transfer_end

-- The callbacks of a request that was answered, in the order of what happened.
abbrev around :
    TraceEvent → TraceEvent → Option (ℕ × ℕ) → List (TraceEvent × ℤ) → List (TraceEvent × ℤ)
around before after none es = es
around before after (some (a, b)) es = (before, pos a) ∷ (after, pos b) ∷ es

abbrev pub callbacks : Timeline → List (TraceEvent × ℤ)
callbacks t = around on_dns_start on_dns_done t.lookup (
    around on_connect_start on_connect_done (some t.connect) (
      around on_tls_handshake_start on_tls_handshake_done t.handshake
        ((on_wrote_request, pos t.wrote) ∷ (on_got_first_response_byte, pos t.first_byte) ∷ [])))

snapshot_lem :
    (lookup : Option (ℕ × ℕ)) (connect : ℕ × ℕ) (handshake : Option (ℕ × ℕ)) (w f e : ℕ)
    → let t : Timeline = record {
      lookup = lookup;
      connect = connect;
      handshake = handshake;
      wrote = w;
      first_byte = f;
      transfer_end = e;
    } in
      snapshot (callbacks t) ≡ snapshot_of t
unfolding snapshot
snapshot_lem none connect none w f e = refl
snapshot_lem (some l) connect none w f e = refl
snapshot_lem none connect (some h) w f e = refl
snapshot_lem (some l) connect (some h) w f e = refl

snapshot-callbacks : (t : Timeline) → snapshot (callbacks t) ≡ snapshot_of t
snapshot-callbacks t =
    snapshot_lem t.lookup t.connect t.handshake t.wrote t.first_byte t.transfer_end

-- The phases that are reported of a request that was answered do not overlap: where no callback comes at a
-- time before that of the one that it follows, their durations together are at most the time from the start
-- to the end of the transfer, with or without a lookup and a TLS handshake.
pub build_phases_from_snapshot-within :
    (start : ℕ) (t : Timeline)
    → IsOrdered start t
    → total (build_phases_from_snapshot (snapshot (callbacks t)) (some (pos t.transfer_end)))
        + start
      ≤ t.transfer_end
unfolding build_phases_from_snapshot
build_phases_from_snapshot-within start t o =
    rw (snapshot-callbacks t) (build_phases-within start t o)
