-- ===== src/Probe/Mtu/Run/Largest.antt =====
-- Which size the step-down loop of internal/probe/mtu.go reports, on a path that answers each size in
-- one way.
use netsonar.Base.{
  ◌≤◌, ◌≡◌, refl, sym, ap, ◌≢◌, ◌∙◌, ◌⊎◌, inl, inr, true, false, String, List, [], ◌∷◌, ◌++◌,
  Option, none, some, arith, All-append, Bool-cases, is_empty,
}
use netsonar.Base.Int.{ℤ, pos, negsuc, add64, pos_part}
use netsonar.Config.Types.{TargetConfig}
use netsonar.Probe.Resolve.{Env, ipv4, resolve_ipv4, Resolver, no_addr, resolver_for, dns_phases}
use netsonar.Probe.Result.{ProbeResult, zero_result}
use netsonar.Probe.Mtu.Classify.{
  MtuPayloadStatus, success, unreachable, error, MtuPayloadResult, classify_payload_attempts,
  split_at_success, classify_mtu_result, is_permission_error, effective_mtu_retries,
  effective_mtu_per_attempt_timeout, clear_observed_icmp_rtt,
}
use netsonar.Probe.Mtu.Sanity.{sanity_by_status, apply_sanity_failure}
use netsonar.Probe.Mtu.Run.Attempts.{
  probe_small_icmp_echo_with_retries, Backend, attempt_loop, probe_payload_with_df_retries,
}
use netsonar.Probe.Mtu.Run.Outcome.{NoSuccess, split_at_success-none}
use netsonar.Probe.Mtu.Run.{
  classified, below_minimum, judge_status, all_sizes_failed, add_sample, timed_out_and_done,
  step_down, measure, probe_body, probe,
}
use netsonar.Probe.Mtu.Run.Steady.{
  Same, classify_payload_attempts-All, attempt_loop-Same, attempt_loop-length,
}

-- What a size and the sizes after it yield, by its status.
abbrev pub or_next : MtuPayloadStatus → ℤ → Option ℤ → Option ℤ
or_next success size rest = some size
or_next unreachable size rest = none
or_next error size rest = none
or_next _ size rest = rest

-- The first size that gets through, if no error or unreachable host comes before.
abbrev pub first_success : (ℤ → MtuPayloadStatus) → List ℤ → Option ℤ
first_success answer [] = none
first_success answer (size ∷ sizes) = or_next (answer size) size (first_success answer sizes)

-- The MTU of a path on which this size is the largest.
abbrev pub mtu_of : Option ℤ → ℤ
mtu_of none = negsuc 0
mtu_of (some size) = add64 size (pos 28)

split_at_success-snoc :
    (l : List MtuPayloadResult) (p : MtuPayloadResult)
    → NoSuccess l
    → p.status ≡ success
    → split_at_success (l ++ p ∷ []) ≡ some (l, p)
unfolding split_at_success
split_at_success-snoc [] p n h = ground arith
split_at_success-snoc (q ∷ l) p n h = ground (arith, split_at_success-snoc l p n.1 h)

all_sizes_failed-mtu :
    (expected : ℤ) (r : ProbeResult) (l : List MtuPayloadResult) (samples : List ℤ)
    → NoSuccess l
    → (all_sizes_failed r l samples expected).path_mtu ≡ negsuc 0
unfolding all_sizes_failed classify_mtu_result
all_sizes_failed-mtu expected r l samples n =
    rw (split_at_success-none l n, classify_mtu_result) refl

below_minimum-path_mtu :
    (r : ProbeResult) (expected : ℤ) → (below_minimum r expected).path_mtu ≡ r.path_mtu
unfolding below_minimum
below_minimum-path_mtu r expected = ground arith

below_minimum-mtu :
    (expected : ℤ) (r : ProbeResult) (l : List MtuPayloadResult) (p : MtuPayloadResult)
    (samples : List ℤ)
    → NoSuccess l
    → p.status ≡ success
    → (below_minimum (classified r (l ++ p ∷ []) samples expected) expected).path_mtu
      ≡ add64 p.payload_size (pos 28)
unfolding classify_mtu_result
below_minimum-mtu expected r l p samples n h =
    below_minimum-path_mtu (classified r (l ++ p ∷ []) samples expected) expected
    ∙ rw (split_at_success-snoc l p n h, classify_mtu_result) refl

-- The verdict on one size: it ends the loop with an MTU, or the loop goes on past a failure.
judge_status-mtu :
    (expected : ℤ) (r : ProbeResult)
    → r.path_mtu ≡ negsuc 0
    → (s : MtuPayloadStatus) (size : ℤ) (p : MtuPayloadResult) (l : List MtuPayloadResult)
      (samples : List ℤ)
    → NoSuccess l
    → Same s size p
    → ((judge_status s r p (l ++ p ∷ []) samples expected ≡ none)
        × ((rest : Option ℤ) → or_next s size rest ≡ rest)
        × (s ≢ success))
      ⊎ ((f : ProbeResult) × (judge_status s r p (l ++ p ∷ []) samples expected ≡ some f)
          × ((rest : Option ℤ) → mtu_of (or_next s size rest) ≡ f.path_mtu))
unfolding judge_status
judge_status-mtu expected r m success size p l samples n h = inr (
  below_minimum (classified r (l ++ p ∷ []) samples expected) expected,
  refl,
  λ rest. rw (sym h.1) (sym (below_minimum-mtu expected r l p samples n h.0)),
)
judge_status-mtu expected r m unreachable size p l samples n h = inr (_, refl, λ rest. sym m)
judge_status-mtu expected r m error size p l samples n h =
    elim (Bool-cases (is_permission_error p.err)) [
      | inl c ↦ rw c (inr (_, refl, λ rest. sym m))
      | inr c ↦ rw c (inr (_, refl, λ rest. sym m))
    ]
judge_status-mtu expected r m _ size p l samples n h = inl (refl, λ rest. refl, λ c. cc c)

timed_out_and_done-alive :
    {W : Type 0} (env : Env W)
    → ((w : W) → (env.ctx_err w).0 ≡ none)
    → (p : MtuPayloadResult) (w : W) → (timed_out_and_done env p w).0 ≡ false
unfolding timed_out_and_done
timed_out_and_done-alive env alive p w = ground (arith, alive w)

module _ {W : Type 0} (env : Env W) (backend : Backend W) (dst : String)
    (per_attempt retries expected : ℤ) (answer : ℤ → MtuPayloadStatus)
    (alive : (w : W) → (env.ctx_err w).0 ≡ none) (retried : 1 ≤ pos_part retries)
    (steady : (size : ℤ) (w : W)
      → Same (answer size) size (backend.probe_payload_with_df per_attempt dst size size w).0) where
  retries-Same :
      (size : ℤ) (w : W)
      → Same
          (answer size)
          size
          (probe_payload_with_df_retries env backend dst size per_attempt retries w).0
  unfolding probe_payload_with_df_retries
  retries-Same size w =
      let send = backend.probe_payload_with_df per_attempt dst size size in
      classify_payload_attempts-All (answer size) size
        (attempt_loop env send (pos_part retries) w).0
        (attempt_loop-length env send (pos_part retries) w retried)
        (attempt_loop-Same env send (answer size) size (pos_part retries) w (steady size))

  step_down-first :
      (sizes : List ℤ) (l : List MtuPayloadResult) (samples : List ℤ) (r : ProbeResult) (w : W)
      → r.path_mtu ≡ negsuc 0
      → NoSuccess l
      → (step_down env backend dst per_attempt retries expected sizes l samples r w).0.path_mtu
        ≡ mtu_of (first_success answer sizes)
  unfolding step_down
  step_down-first [] l samples r w m n = all_sizes_failed-mtu expected r l samples n
  step_down-first (size ∷ sizes) l samples r w m n =
      let (e, w1) = env.ctx_err w in
      let (p, w2) = probe_payload_with_df_retries env backend dst size per_attempt retries w1 in
      let l' = l ++ p ∷ [] in
      let samples' = add_sample samples p in
      let (done, w3) = timed_out_and_done env p w2 in
      let same = retries-Same size w1 in
      let told = judge_status-mtu expected r m (answer size) size p l samples' n same in
      rw (alive w) (
        rw (timed_out_and_done-alive env alive p w2) (elim told [
          | inl (j, pass, failed) ↦
              let go = step_down-first sizes l' samples' r w3 m (
                All-append (λ q. q.status ≢ success) l (p ∷ []) n
                  (λ c. failed (sym same.0 ∙ c), tt)) in
              rw (same.0, j, pass (first_success answer sizes)) go
          | inr (f, j, found) ↦ rw (same.0, j) (sym (found (first_success answer sizes)))
        ]))

  measure-first :
      (sizes : List ℤ) (r : ProbeResult) (w : W)
      → r.path_mtu ≡ negsuc 0
      → ((w : W)
          → Same success (pos 64) (backend.probe_small_echo per_attempt dst (pos 64) (pos 0) w).0)
      → (measure env backend dst per_attempt retries expected sizes r w).0.path_mtu
        ≡ mtu_of (first_success answer sizes)
  unfolding measure apply_sanity_failure probe_small_icmp_echo_with_retries
  measure-first sizes r w m echo =
      let send = backend.probe_small_echo per_attempt dst (pos 64) (pos 0) in
      let (attempts, w1) = attempt_loop env send (pos_part retries) w in
      let sanity = classify_payload_attempts attempts in
      let (done, w2) = timed_out_and_done env sanity w1 in
      let fine =
        classify_payload_attempts-All success (pos 64) attempts
          (attempt_loop-length env send (pos_part retries) w retried)
          (attempt_loop-Same env send success (pos 64) (pos_part retries) w echo) in
      let go = step_down-first sizes [] (add_sample [] sanity) r w2 m tt in
      rw (timed_out_and_done-alive env alive sanity w1)
        (rw (ap (λ s. sanity_by_status s r sanity) fine.0, sanity_by_status) go)

effective_mtu_retries_positive : (n : ℤ) → 1 ≤ pos_part (effective_mtu_retries n)
unfolding effective_mtu_retries
effective_mtu_retries_positive (pos n) = ground arith
effective_mtu_retries_positive (negsuc n) = ground arith

first_success-is_empty :
    (answer : ℤ → MtuPayloadStatus) (sizes : List ℤ)
    → is_empty sizes ≡ true
    → negsuc 0 ≡ mtu_of (first_success answer sizes)
first_success-is_empty answer [] h = refl
first_success-is_empty answer (size ∷ sizes) h = absurd (cc h)

resolve_ipv4-ipv4 :
    {W : Type 0} (env : Env W) (resolver : Resolver) (address dst : String) (w : W)
    → env.parse_ip address ≡ some (ipv4 dst)
    → resolve_ipv4 env resolver address w ≡ ((record no_addr { addr = dst }, none), w)
unfolding resolve_ipv4
resolve_ipv4-ipv4 env resolver address dst w h = rw (resolve_ipv4, h) refl

-- For a target whose address is the text of an IPv4 address, on a path whose host answers the sanity echo
-- and which answers each payload size in one way, while the context stays alive, Probe reports the MTU of the first configured size that gets through, or
-- -1 if there is none or an error or an unreachable host comes before it.
pub probe-first_success :
    {W : Type 0} (env : Env W) (default_backend backend : Backend W) (target : TargetConfig)
    (dst : String) (answer : ℤ → MtuPayloadStatus)
    → env.parse_ip target.address ≡ some (ipv4 dst)
    → ((w : W) → (env.ctx_err w).0 ≡ none)
    → ((t : ℤ) (w : W)
        → Same success (pos 64) (backend.probe_small_echo t dst (pos 64) (pos 0) w).0)
    → ((t size : ℤ) (w : W)
        → Same (answer size) size (backend.probe_payload_with_df t dst size size w).0)
    → (w : W)
    → (probe env default_backend (some backend) target w).0.path_mtu
      ≡ mtu_of (first_success answer target.probe_opts.icmp_payload_sizes)
unfolding probe probe_body clear_observed_icmp_rtt
probe-first_success env default_backend backend target dst answer numeric alive echo steady w =
    let v = (env.now w).1 in
    let opts = target.probe_opts in
    elim (Bool-cases (is_empty opts.icmp_payload_sizes)) [
      | inl e ↦ rw e (first_success-is_empty answer opts.icmp_payload_sizes e)
      | inr e ↦
          let resolver = resolver_for target.dns_resolver in
          let resolved = resolve_ipv4 env resolver target.address v in
          let eq = resolve_ipv4-ipv4 env resolver target.address dst v numeric in
          let go =
            measure-first env backend dst
              (effective_mtu_per_attempt_timeout opts.mtu_per_attempt_timeout)
              (effective_mtu_retries opts.mtu_retries) opts.expected_min_mtu answer alive
              (effective_mtu_retries_positive opts.mtu_retries) (steady _) opts.icmp_payload_sizes
              (record zero_result { path_mtu = negsuc 0; phases = dns_phases resolved.0.0 })
              (env.ctx_err resolved.1).1 refl (echo _) in
          rw (e, ap (λ q. q.0.1) eq) (rw (alive resolved.1) (rw (ap (λ q. q.0.0.addr) eq) go))
    ]
