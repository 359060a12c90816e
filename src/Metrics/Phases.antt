-- ===== src/Metrics/Phases.antt =====
-- The phase series of Record (internal/metrics/metrics.go): all deleted, then those of the result set.
use netsonar.Base.{
  ℕ, ◌≡◌, refl, ◌∙◌, ap, Bool, true, false, ◌||◌, str_eq, List, [], ◌∷◌, Option, none, some,
  if◌then◌else◌, ◌==◌, arith,
}
use netsonar.Base.Int.{ℤ}
use netsonar.Config.Types.{TargetConfig, ProbeType, tcp}
use netsonar.Probe.Result.{ProbeResult, Phase, phase_text, all_phases}
use netsonar.Metrics.Vec.{Labels, labels_eq, labels_eq-set_label, Value, seconds, VecOps}
use netsonar.Metrics.Series.{probe_phase_duration, build_labels, phase_labels}
use netsonar.Metrics.Exporter.{
  MetricsExporter, on, put, drop, drop_partial, put_or_drop, put_if, record_tls_result,
  record_http_tls, clear_tls_result, record_mtu_result, record_icmp_avg_rtt, record_icmp_stddev_rtt,
  record_http_status, delete_phases, set_phases, record_result, record_type, record_phases,
  record_proxy_connect, record_common,
}

abbrev pub phase_index : Phase → ℕ
phase_index Phase.dns_resolve = 0
phase_index Phase.tcp_connect = 1
phase_index Phase.tls_handshake = 2
phase_index Phase.request_write = 3
phase_index Phase.ttfb = 4
phase_index Phase.transfer = 5
phase_index Phase.proxy_dial = 6
phase_index Phase.proxy_tls = 7
phase_index Phase.proxy_connect = 8

abbrev pub phase_eq : Phase → Phase → Bool
phase_eq p q = phase_index p == phase_index q

text_eq : (p q : Phase) → str_eq (phase_text p) (phase_text q) ≡ phase_eq p q
unfolding phase_text
text_eq Phase.dns_resolve Phase.dns_resolve = refl
text_eq Phase.dns_resolve _ = refl
text_eq Phase.tcp_connect Phase.dns_resolve = refl
text_eq Phase.tcp_connect _ = refl
text_eq Phase.tls_handshake Phase.dns_resolve = refl
text_eq Phase.tls_handshake _ = refl
text_eq Phase.request_write Phase.dns_resolve = refl
text_eq Phase.request_write _ = refl
text_eq Phase.ttfb Phase.dns_resolve = refl
text_eq Phase.ttfb _ = refl
text_eq Phase.transfer Phase.dns_resolve = refl
text_eq Phase.transfer _ = refl
text_eq Phase.proxy_dial Phase.dns_resolve = refl
text_eq Phase.proxy_dial _ = refl
text_eq Phase.proxy_tls Phase.dns_resolve = refl
text_eq Phase.proxy_tls _ = refl
text_eq Phase.proxy_connect Phase.dns_resolve = refl
text_eq Phase.proxy_connect _ = refl

-- The phase labels of one target tell the phases apart.
phase_labels-eq :
    (p q : Phase) (l : Labels) → labels_eq (phase_labels p l) (phase_labels q l) ≡ phase_eq p q
phase_labels-eq p q l = labels_eq-set_label "phase" (phase_text p) (phase_text q) l ∙ text_eq p q

pub phase_mem : Phase → List Phase → Bool
phase_mem q [] = false
phase_mem q (p ∷ ps) = phase_eq p q || phase_mem q ps

pub all_phases-phase_mem : (q : Phase) → phase_mem q all_phases ≡ true
unfolding phase_mem
all_phases-phase_mem Phase.dns_resolve = refl
all_phases-phase_mem _ = refl

-- The duration that a result's map of phases holds for a phase, or `d`.
abbrev pub phase_duration : Phase → List (Phase × ℤ) → Option Value → Option Value
phase_duration q [] d = d
phase_duration q ((p, x) ∷ ps) d =
    phase_duration q ps (if phase_eq p q then some (seconds x) else d)

module _ {V : Type 0} (ops : VecOps V) (l : Labels) (q : Phase) where
  pub delete_phases-get :
      (ps : List Phase) (v : V)
      → ops.get (delete_phases ops ps l v) (phase_labels q l)
        ≡ (if phase_mem q ps then none else ops.get v (phase_labels q l))
  unfolding delete_phases phase_mem
  delete_phases-get [] v = refl
  delete_phases-get (p ∷ ps) v = ground (
    arith,
    delete_phases-get ps (ops.delete (phase_labels p l) v),
    ops.get-delete v (phase_labels p l) (phase_labels q l),
    phase_labels-eq p q l,
  )

  set_phases-get :
      (ps : List (Phase × ℤ)) (v : V)
      → ops.get (set_phases ops ps l v) (phase_labels q l)
        ≡ phase_duration q ps (ops.get v (phase_labels q l))
  unfolding set_phases
  set_phases-get [] v = refl
  set_phases-get ((p, x) ∷ ps) v =
      set_phases-get ps (ops.set (phase_labels p l) (seconds x) v)
      ∙ ap (phase_duration q ps) (
          rw (
            ops.get-set v (phase_labels p l) (phase_labels q l) (seconds x),
            phase_labels-eq p q l,
          ))

module _ {V : Type 0} (ops : VecOps V) (target : TargetConfig) (r : ProbeResult) (l : Labels) where
  record_type-phases :
      (ty : ProbeType) (e : MetricsExporter V)
      → (record_type ops ty target r l e).vec probe_phase_duration ≡ e.vec probe_phase_duration
  unfolding record_type on put drop drop_partial put_or_drop put_if record_tls_result
      record_http_tls clear_tls_result record_mtu_result record_icmp_avg_rtt record_icmp_stddev_rtt
      record_http_status
  record_type-phases tcp e = refl
  record_type-phases _ e = ground arith

  record_phases-vec :
      (e : MetricsExporter V)
      → (record_phases ops r l e).vec probe_phase_duration
        ≡ set_phases ops r.phases l (delete_phases ops all_phases l (e.vec probe_phase_duration))
  unfolding record_phases on
  record_phases-vec e = refl

-- After Record, the series of each phase shows the duration that the result holds for that phase,
-- and there is no such series if the result holds none, whatever the series showed before.
pub record_result-phases :
    {V : Type 0} (ops : VecOps V) (target : TargetConfig) (r : ProbeResult) (e : MetricsExporter V)
    (q : Phase)
    → ops.get
        ((record_result ops target r e).vec probe_phase_duration)
        (phase_labels q (build_labels e.tag_keys target))
      ≡ phase_duration q r.phases none
unfolding record_result
record_result-phases ops target r e q =
    let l = build_labels e.tag_keys target in
    let before = record_proxy_connect ops target.probe_type r l (record_common ops r l e) in
    let v = before.vec probe_phase_duration in
    ap (λ w. ops.get w (phase_labels q l))
      (record_type-phases ops target r l target.probe_type (record_phases ops r l before)
        ∙ record_phases-vec ops target r l before)
    ∙ set_phases-get ops l q r.phases (delete_phases ops all_phases l v)
    ∙ ap (phase_duration q r.phases)
        (rw (delete_phases-get ops l q all_phases v, all_phases-phase_mem q))
