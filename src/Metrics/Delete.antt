-- ===== src/Metrics/Delete.antt =====
-- DeleteTarget of internal/metrics/metrics.go leaves no series of the target, and no other alone.
use netsonar.Base.{◌≡◌, refl, ◌≢◌, ◌∙◌, true, false, List, [], ◌∷◌, none, arith, All}
use netsonar.Config.Types.{TargetConfig}
use netsonar.Probe.Result.{Phase, all_phases}
use netsonar.Metrics.Vec.{Labels, labels_eq, sub_labels, labels_eq_refl, VecOps}
use netsonar.Metrics.Series.{
  Metric, probe_success, probe_phase_duration, tls_cert_chain_expiry, mtu_state, build_info,
  config_info, target_proxy_info, build_labels, phase_labels,
}
use netsonar.Metrics.Exporter.{
  MetricsExporter, on, drop, drop_partial, delete_phases, delete_target_proxy_info, delete_target,
}
use netsonar.Metrics.Phases.{delete_phases-get, all_phases-phase_mem}

-- How DeleteTarget treats a vector: one exact delete, a partial delete, the phases, the proxy info,
-- or not at all.
pub data Treatment : Type 0 where
  exact partial phases proxy_info untouched : Treatment

abbrev pub treatment : Metric → Treatment
treatment tls_cert_chain_expiry = partial
treatment mtu_state = partial
treatment probe_phase_duration = phases
treatment target_proxy_info = proxy_info
treatment build_info = untouched
treatment config_info = untouched
treatment _ = exact

module _ {V : Type 0} (ops : VecOps V) (target : TargetConfig) (e : MetricsExporter V) where
  abbrev pub l : Labels
  l = build_labels e.tag_keys target

  abbrev pub treated : Treatment → V → V
  treated exact v = ops.delete l v
  treated partial v = ops.delete_partial_match l v
  treated phases v = delete_phases ops all_phases l v
  treated proxy_info v = (delete_target_proxy_info ops target e).vec target_proxy_info
  treated untouched v = v

  pub delete_target-vec :
      (m : Metric) → (delete_target ops target e).vec m ≡ treated (treatment m) (e.vec m)
  unfolding delete_target on drop drop_partial delete_target_proxy_info
  delete_target-vec probe_success = ground arith
  delete_target-vec _ = ground arith

  delete_phases-other :
      (ps : List Phase) (k : Labels) (v : V)
      → All (λ p. labels_eq (phase_labels p l) k ≡ false) ps
      → ops.get (delete_phases ops ps l v) k ≡ ops.get v k
  unfolding delete_phases
  delete_phases-other [] k v h = refl
  delete_phases-other (p ∷ ps) k v h =
      delete_phases-other ps k (ops.delete (phase_labels p l) v) h.1
      ∙ ops.get-delete v (phase_labels p l) k
      ∙ rw h.0

  clears_exact : (v : V) → ops.get (ops.delete l v) l ≡ none
  clears_exact v = rw (ops.get-delete v l l, labels_eq_refl l)

  clears_partial :
      (v : V) (k : Labels) → sub_labels l k ≡ true → ops.get (ops.delete_partial_match l v) k ≡ none
  clears_partial v k h = rw (ops.get-delete_partial_match v l k, h)

  clears_phases :
      (v : V) (q : Phase) → ops.get (delete_phases ops all_phases l v) (phase_labels q l) ≡ none
  clears_phases v q = rw (delete_phases-get ops l q all_phases v, all_phases-phase_mem q)

-- The labels of another target, as far as DeleteTarget can tell: neither those of this one, nor with
-- a phase added, nor any that include them.
abbrev pub AreOther : Labels → Labels → Type 0
AreOther l k =
    (labels_eq l k ≡ false)
    × (sub_labels l k ≡ false)
    × All (λ p. labels_eq (phase_labels p l) k ≡ false) all_phases

-- After DeleteTarget the vectors of probe metrics, the proxy mapping apart, have no series of the
-- target left: none under its own labels, none in the vectors of certificate chains and MTU states
-- under labels that include its own, none of any phase.
pub delete_target-clears :
    {V : Type 0} (ops : VecOps V) (target : TargetConfig) (e : MetricsExporter V) (m : Metric)
    → let l = build_labels e.tag_keys target in
      let after = (delete_target ops target e).vec m in
      (treatment m ≡ exact → ops.get after l ≡ none)
      × (treatment m ≡ partial → (k : Labels) → sub_labels l k ≡ true → ops.get after k ≡ none)
      × (treatment m ≡ phases → (q : Phase) → ops.get after (phase_labels q l) ≡ none)
delete_target-clears ops target e m = (
  (λ t. rw (delete_target-vec ops target e m, t) (clears_exact ops target e (e.vec m))),
  (λ t k h. rw (delete_target-vec ops target e m, t) (clears_partial ops target e (e.vec m) k h)),
  λ t q. rw (delete_target-vec ops target e m, t) (clears_phases ops target e (e.vec m) q),
)

-- DeleteTarget keeps every series with other labels, in every vector but that of the proxy mapping.
pub delete_target-frame :
    {V : Type 0} (ops : VecOps V) (target : TargetConfig) (e : MetricsExporter V) (m : Metric)
    (k : Labels)
    → treatment m ≢ proxy_info
    → AreOther (build_labels e.tag_keys target) k
    → ops.get ((delete_target ops target e).vec m) k ≡ ops.get (e.vec m) k
delete_target-frame ops target e m k n o =
    rw (delete_target-vec ops target e m) (kept (treatment m) n)
  where
    kept :
        (t : Treatment)
        → t ≢ proxy_info
        → ops.get (treated ops target e t (e.vec m)) k ≡ ops.get (e.vec m) k
    kept exact c = rw (ops.get-delete (e.vec m) (build_labels e.tag_keys target) k, o.0)
    kept partial c =
        rw (ops.get-delete_partial_match (e.vec m) (build_labels e.tag_keys target) k, o.1)
    kept phases c = delete_phases-other ops target e all_phases k (e.vec m) o.2
    kept proxy_info c = absurd (c refl)
    kept untouched c = refl
