-- ===== src/Probe/Mtu/Run/Steady.antt =====
-- The attempts of internal/probe/mtu.go when all of them end the same way.
use netsonar.Base.{
  ℕ, zero, suc, ◌≤◌, ◌≡◌, refl, inl, inr, false, List, [], ◌∷◌, none, some, arith, All, Bool-cases,
  is_some, length,
}
use netsonar.Base.Int.{ℤ}
use netsonar.Probe.Resolve.{Env}
use netsonar.Probe.Mtu.Classify.{
  MtuPayloadStatus, success, too_large, local_too_large, timeout, unreachable, error, status_eq,
  MtuPayloadResult, attempt_with, classify_payload_attempts,
}
use netsonar.Probe.Mtu.Classify.Priority.{status_eq_self}
use netsonar.Probe.Mtu.Run.Attempts.{attempt_loop, is_final}

abbrev pub Same : MtuPayloadStatus → ℤ → MtuPayloadResult → Type 0
Same s size p = (p.status ≡ s) × (p.payload_size ≡ size)

attempt_with-other :
    (s t : MtuPayloadStatus) (size : ℤ) (l : List MtuPayloadResult)
    → status_eq s t ≡ false
    → All (Same s size) l
    → attempt_with t l ≡ none
unfolding attempt_with
attempt_with-other s t size [] n h = refl
attempt_with-other s t size (a ∷ l) n h = ground (arith, attempt_with-other s t size l n h.1)

attempt_with-first :
    (s : MtuPayloadStatus) (a : MtuPayloadResult) (l : List MtuPayloadResult)
    → a.status ≡ s
    → attempt_with s (a ∷ l) ≡ some a
unfolding attempt_with
attempt_with-first s a l h = rw (h, status_eq_self s) refl

-- Attempts that all end the same way are classified that way.
classify_payload_attempts-Same :
    (s : MtuPayloadStatus) (size : ℤ) (a : MtuPayloadResult) (l : List MtuPayloadResult)
    → All (Same s size) (a ∷ l)
    → Same s size (classify_payload_attempts (a ∷ l))
unfolding classify_payload_attempts
classify_payload_attempts-Same success size a l h = rw (attempt_with-first success a l h.0.0) h.0
classify_payload_attempts-Same too_large size a l h =
    rw
      (
        attempt_with-other too_large success size (a ∷ l) refl h,
        attempt_with-other too_large unreachable size (a ∷ l) refl h,
        attempt_with-other too_large error size (a ∷ l) refl h,
        attempt_with-other too_large local_too_large size (a ∷ l) refl h,
        attempt_with-first too_large a l h.0.0,
      )
      h.0
classify_payload_attempts-Same local_too_large size a l h =
    rw
      (
        attempt_with-other local_too_large success size (a ∷ l) refl h,
        attempt_with-other local_too_large unreachable size (a ∷ l) refl h,
        attempt_with-other local_too_large error size (a ∷ l) refl h,
        attempt_with-first local_too_large a l h.0.0,
      )
      h.0
classify_payload_attempts-Same timeout size a l h =
    rw
      (
        attempt_with-other timeout success size (a ∷ l) refl h,
        attempt_with-other timeout unreachable size (a ∷ l) refl h,
        attempt_with-other timeout error size (a ∷ l) refl h,
        attempt_with-other timeout local_too_large size (a ∷ l) refl h,
        attempt_with-other timeout too_large size (a ∷ l) refl h,
      )
      (refl, h.0.1)
classify_payload_attempts-Same unreachable size a l h =
    rw
      (
        attempt_with-other unreachable success size (a ∷ l) refl h,
        attempt_with-first unreachable a l h.0.0,
      )
      h.0
classify_payload_attempts-Same error size a l h =
    rw
      (
        attempt_with-other error success size (a ∷ l) refl h,
        attempt_with-other error unreachable size (a ∷ l) refl h,
        attempt_with-first error a l h.0.0,
      )
      h.0

module _ {W : Type 0} (env : Env W) where
  pub attempt_loop-Same :
      (send : W → MtuPayloadResult × W) (s : MtuPayloadStatus) (size : ℤ) (n : ℕ) (w : W)
      → ((v : W) → Same s size (send v).0)
      → All (Same s size) (attempt_loop env send n w).0
  unfolding attempt_loop
  attempt_loop-Same send s size zero w h = tt
  attempt_loop-Same send s size (suc n) w h =
      let (r, w1) = send w in
      let (e, w2) = env.ctx_err w1 in
      let ih = attempt_loop-Same send s size n w2 h in
      elim (Bool-cases (is_final r.status)) [
        | inl f ↦ rw f (h w, tt)
        | inr f ↦
            rw f (elim (Bool-cases (is_some e)) [ inl c ↦ rw c (h w, tt) | inr c ↦ rw c (h w, ih) ])
      ]

pub classify_payload_attempts-All :
    (s : MtuPayloadStatus) (size : ℤ) (l : List MtuPayloadResult)
    → 1 ≤ length l
    → All (Same s size) l
    → Same s size (classify_payload_attempts l)
classify_payload_attempts-All s size [] n h = absurd (omega (arith, n))
classify_payload_attempts-All s size (a ∷ l) n h = classify_payload_attempts-Same s size a l h

pub attempt_loop-length :
    {W : Type 0} (env : Env W) (send : W → MtuPayloadResult × W) (n : ℕ) (w : W)
    → 1 ≤ n
    → 1 ≤ length (attempt_loop env send n w).0
unfolding attempt_loop
attempt_loop-length env send zero w h = absurd (omega (arith, h))
attempt_loop-length env send (suc n) w h = ground arith
