-- ===== src/Probe/Mtu/Run/Outcome.antt =====
-- What every result of MTUProber.Probe promises: internal/probe/mtu.go, its postconditions.
use netsonar.Base.{
  ◌≡◌, refl, subst, ◌≢◌, ◌⊎◌, inl, inr, true, false, String, NonEmpty, NonEmpty-<>, List, [], ◌∷◌,
  ◌++◌, Option, none, some, arith, All, All-append, Bool-cases, Option-cases, is_some, is_empty,
}
use netsonar.Base.Int.{ℤ, pos, ◌≤ℤ◌, ◌<ℤ◌}
use netsonar.Config.Types.{TargetConfig}
use netsonar.Probe.Resolve.{Env, resolve_ipv4, resolver_for}
use netsonar.Probe.Result.{MtuState, ProbeResult}
use netsonar.Probe.Mtu.Classify.{
  MtuPayloadStatus, success, unreachable, error, MtuPayloadResult, is_permission_error,
  split_at_success, classify_mtu_result, set_mtu_inconclusive, clear_observed_icmp_rtt,
}
use netsonar.Probe.Mtu.Sanity.{sanity_by_status, apply_sanity_failure}
use netsonar.Probe.Mtu.Run.Attempts.{
  Backend, probe_payload_with_df_retries, probe_small_icmp_echo_with_retries,
}
use netsonar.Probe.Mtu.Run.{
  classified, below_minimum, judge_status, all_sizes_failed, inconclusive, add_sample,
  timed_out_and_done, step_down, measure, probe_body, probe,
}

-- A success has no error text, the state `ok` and an MTU that meets the expected minimum; a failure
-- has an error text and another state.
abbrev pub IsReported : ℤ → ProbeResult → Type 0
IsReported expected r =
    ((r.success ≡ true)
      × (r.error ≡ "")
      × (r.mtu_state ≡ MtuState.ok)
      × (pos 0 <ℤ expected → expected ≤ℤ r.path_mtu))
    ⊎ ((r.success ≡ false) × NonEmpty r.error × (r.mtu_state ≢ MtuState.ok))

-- The result before a verdict.
abbrev IsFresh : ProbeResult → Type 0
IsFresh r = (r.success ≡ false) × (r.error ≡ "")

abbrev pub NoSuccess : List MtuPayloadResult → Type 0
NoSuccess = All (λ p. p.status ≢ success)

-- A failure with a text and a state other than `ok`.
failure :
    (expected : ℤ) (r : ProbeResult)
    → r.success ≡ false
    → NonEmpty r.error
    → r.mtu_state ≢ MtuState.ok
    → IsReported expected r
failure expected r n t m = inr (n, t, m)

abbrev AllOption {ℓ κ} : {A : Type ℓ} → (A → Type κ) → Option A → Type κ
AllOption P none = Unit
AllOption P (some a) = P a

module _ {W : Type 0} (env : Env W) where
  inconclusive-IsReported :
      (expected : ℤ) (r : ProbeResult) (samples : List ℤ) (w : W)
      → IsReported expected (inconclusive env r samples w).0
  unfolding inconclusive set_mtu_inconclusive
  inconclusive-IsReported expected r samples w = elim (Option-cases (env.ctx_err w).0) [
    | inl e ↦ rw e (inr (refl, refl, λ h. cc))
    | inr (t, e) ↦ rw e (inr (refl, NonEmpty-<> "mtu probe inconclusive: " t refl, λ h. cc))
  ]

module _ (expected : ℤ) (r : ProbeResult) (fresh : r.success ≡ false) where
  sanity_by_status-IsReported :
      (s : MtuPayloadStatus) (p : MtuPayloadResult)
      → AllOption (IsReported expected) (sanity_by_status s r p)
  unfolding sanity_by_status
  sanity_by_status-IsReported success p = tt
  sanity_by_status-IsReported unreachable p = inr (fresh, refl, λ h. cc)
  sanity_by_status-IsReported error p = elim (Bool-cases (is_permission_error p.err)) [
    | inl e ↦ rw e (inr (fresh, refl, λ h. cc))
    | inr e ↦ rw e (inr (fresh, NonEmpty-<> "mtu sanity check error: " _ refl, λ h. cc))
  ]
  sanity_by_status-IsReported _ p = inr (fresh, refl, λ h. cc)

pub split_at_success-none : (l : List MtuPayloadResult) → NoSuccess l → split_at_success l ≡ none
unfolding split_at_success
split_at_success-none [] h = refl
split_at_success-none (p ∷ l) h = ground (arith, split_at_success-none l h.1)

all_sizes_failed-IsReported :
    (expected : ℤ) (r : ProbeResult) (l : List MtuPayloadResult) (samples : List ℤ)
    → NoSuccess l
    → IsReported expected (all_sizes_failed r l samples expected)
unfolding all_sizes_failed classify_mtu_result
all_sizes_failed-IsReported expected r l samples n =
    rw (split_at_success-none l n, classify_mtu_result) (inr (refl, refl, λ h. cc))

-- What a classification with a success in it says.
classify_mtu_result-state :
    (l : List MtuPayloadResult) (expected : ℤ)
    → let c = classify_mtu_result l expected in
      ((c.success ≡ true) × (c.state ≡ MtuState.ok) × (pos 0 <ℤ expected → expected ≤ℤ c.path_mtu))
      ⊎ ((c.success ≡ false) × (c.state ≢ MtuState.ok))
unfolding classify_mtu_result
classify_mtu_result-state l expected = ground arith

module _ (expected : ℤ) (r : ProbeResult) (fresh : (r.success ≡ false) × (r.error ≡ "")) where
  below_minimum-IsReported :
      (l : List MtuPayloadResult) (samples : List ℤ)
      → IsReported expected (below_minimum (classified r l samples expected) expected)
  unfolding below_minimum
  below_minimum-IsReported l samples = elim (classify_mtu_result-state l expected) [
    | inl (ok, state, enough) ↦ rw ok (inl (refl, fresh.1, state, enough))
    | inr (low, state) ↦ rw low (inr (refl, NonEmpty-<> "path MTU " _ refl, state))
  ]

  judge_status-IsReported :
      (s : MtuPayloadStatus) (p : MtuPayloadResult) (l : List MtuPayloadResult) (samples : List ℤ)
      → AllOption (IsReported expected) (judge_status s r p l samples expected)
  unfolding judge_status
  judge_status-IsReported success p l samples = below_minimum-IsReported l samples
  judge_status-IsReported unreachable p l samples = inr (fresh.0, refl, λ h. cc)
  judge_status-IsReported error p l samples = elim (Bool-cases (is_permission_error p.err)) [
    | inl e ↦ rw e (inr (fresh.0, refl, λ h. cc))
    | inr e ↦ rw e (inr (fresh.0, NonEmpty-<> "mtu probe error: " _ refl, λ h. cc))
  ]
  judge_status-IsReported _ p l samples = tt

  judge_status-none :
      (s : MtuPayloadStatus) (p : MtuPayloadResult) (l : List MtuPayloadResult) (samples : List ℤ)
      → judge_status s r p l samples expected ≡ none
      → s ≢ success
  unfolding judge_status
  judge_status-none s p l samples h = ground arith

module _ {W : Type 0} (env : Env W) (backend : Backend W) (dst : String)
    (timeout retries expected : ℤ) where
  step_down-IsReported :
      (sizes : List ℤ) (l : List MtuPayloadResult) (samples : List ℤ) (r : ProbeResult) (w : W)
      → (r.success ≡ false) × (r.error ≡ "")
      → NoSuccess l
      → IsReported expected
          (step_down env backend dst timeout retries expected sizes l samples r w).0
  unfolding step_down
  step_down-IsReported [] l samples r w fresh n = all_sizes_failed-IsReported expected r l samples n
  step_down-IsReported (size ∷ sizes) l samples r w fresh n =
      let (e, w1) = env.ctx_err w in
      let (p, w2) = probe_payload_with_df_retries env backend dst size timeout retries w1 in
      let l' = l ++ p ∷ [] in
      let samples' = add_sample samples p in
      let (done, w3) = timed_out_and_done env p w2 in
      let ih = step_down-IsReported sizes l' samples' r w3 fresh in
      elim (Bool-cases (is_some e)) [
        | inl c ↦ rw c (inconclusive-IsReported env expected r samples w1)
        | inr c ↦ rw c (elim (Bool-cases done) [
          | inl d ↦ rw d (inconclusive-IsReported env expected r samples' w3)
          | inr d ↦ rw d (elim (Option-cases (judge_status p.status r p l' samples' expected)) [
            | inl j ↦ rw j (
                ih (
                  All-append (λ q. q.status ≢ success) l (p ∷ []) n
                    (judge_status-none expected r fresh p.status p l' samples' j, tt)))
            | inr (f, j) ↦ rw j (
                subst (AllOption (IsReported expected)) j
                  (judge_status-IsReported expected r fresh p.status p l' samples'))
          ])
        ])
      ]

  measure-IsReported :
      (sizes : List ℤ) (r : ProbeResult) (w : W)
      → (r.success ≡ false) × (r.error ≡ "")
      → IsReported expected (measure env backend dst timeout retries expected sizes r w).0
  unfolding measure apply_sanity_failure
  measure-IsReported sizes r w fresh =
      let (sanity, w1) = probe_small_icmp_echo_with_retries env backend dst timeout retries w in
      let (done, w2) = timed_out_and_done env sanity w1 in
      elim (Bool-cases done) [
        | inl d ↦ rw d (inconclusive-IsReported env expected r [] w2)
        | inr d ↦ rw d (elim (Option-cases (sanity_by_status sanity.status r sanity)) [
          | inl j ↦ rw j (step_down-IsReported sizes [] (add_sample [] sanity) r w2 fresh tt)
          | inr (f, j) ↦ rw j (
              subst (AllOption (IsReported expected)) j
                (sanity_by_status-IsReported expected r fresh.0 sanity.status sanity))
        ])
      ]

module _ {W : Type 0} (env : Env W) (backend : Backend W) (target : TargetConfig) where
  probe_body-IsReported :
      (w : W) → IsReported target.probe_opts.expected_min_mtu (probe_body env backend target w).0
  unfolding probe_body clear_observed_icmp_rtt
  probe_body-IsReported w =
      let (resolved, w1) = resolve_ipv4 env (resolver_for target.dns_resolver) target.address w in
      let (e, w2) = env.ctx_err w1 in
      elim (Bool-cases (is_empty target.probe_opts.icmp_payload_sizes)) [
        | inl d ↦ rw d (inr (refl, refl, λ h. cc))
        | inr d ↦ rw d (elim (Option-cases resolved.1) [
          | inr (t, f) ↦ rw f (inr (refl, NonEmpty-<> "resolve IPv4 address: " t refl, λ h. cc))
          | inl f ↦ rw f (elim (Bool-cases (is_some e)) [
            | inl c ↦ rw c (inconclusive-IsReported env _ _ [] w2)
            | inr c ↦
                rw c (measure-IsReported env backend resolved.0.addr _ _ _ _ _ w2 (refl, refl))
          ])
        ])
      ]

-- Whatever the backend, the resolver, the context and the clock answer, a result of Probe is a
-- success with no error text, MTU state `ok` and a path MTU that is at least the expected minimum
-- (where that is positive), or it is a failure with a non-empty error text and another MTU state.
pub probe-IsReported :
    {W : Type 0} (env : Env W) (default_backend : Backend W) (own : Option (Backend W))
    (target : TargetConfig) (w : W)
    → IsReported target.probe_opts.expected_min_mtu (probe env default_backend own target w).0
unfolding probe
probe-IsReported env default_backend own target w = probe_body-IsReported env _ target (env.now w).1
