-- ===== src/Probe/Mtu/Classify/Priority.antt =====
-- classifyPayloadAttempts of internal/probe/mtu.go against an order on the statuses.
use mathlib.Core.List.{Memᴰ}
use netsonar.Base.{
  ℕ, suc, ◌≤◌, ◌≡◌, refl, sym, ◌≢◌, ◌⊎◌, inl, inr, true, List, [], ◌∷◌, none, some, arith, All,
  Option-cases, Bool-cases,
}
use netsonar.Probe.Mtu.Classify.{
  MtuPayloadStatus, success, too_large, local_too_large, timeout, unreachable, error,
  MtuPayloadResult, status_eq, attempt_with, or_else, classify_payload_attempts,
}

-- The order in which a set of attempts is judged: the lowest rank decides.
abbrev pub rank : MtuPayloadStatus → ℕ
rank success = 0
rank unreachable = 1
rank error = 2
rank local_too_large = 3
rank too_large = 4
rank timeout = 5

status_eq_sound : (s t : MtuPayloadStatus) → status_eq s t ≡ true → s ≡ t
status_eq_sound s t h = ground arith

pub status_eq_self : (s : MtuPayloadStatus) → status_eq s s ≡ true
status_eq_self s = ground arith

pub attempt_with-some :
    (s : MtuPayloadStatus) (l : List MtuPayloadResult) (a : MtuPayloadResult)
    → attempt_with s l ≡ some a
    → (a.status ≡ s) × Memᴰ a l
unfolding attempt_with
attempt_with-some s [] a h = cc
attempt_with-some s (x ∷ l) a h = elim (Bool-cases (status_eq x.status s)) [
  | inl e ↦
      let x≡a : x ≡ a = ground arith in
      (rw (← x≡a) (status_eq_sound x.status s e), Memᴰ.head (sym x≡a))
  | inr e ↦ let found = attempt_with-some s l a (ground arith) in (found.0, Memᴰ.tail found.1)
]

pub attempt_with-none :
    (s : MtuPayloadStatus) (l : List MtuPayloadResult)
    → attempt_with s l ≡ none
    → All (λ a. a.status ≢ s) l
unfolding attempt_with
attempt_with-none s [] h = tt
attempt_with-none s (x ∷ l) h =
    ((λ e. ground (arith, status_eq_self s)), attempt_with-none s l (ground (arith)))

abbrev AtLeast : ℕ → List MtuPayloadResult → Type 0
AtLeast k l = All (λ x. k ≤ rank x.status) l

raise :
    (s : MtuPayloadStatus) (k : ℕ)
    → ((x : MtuPayloadStatus) → k ≤ rank x → x ≢ s → suc k ≤ rank x)
    → (l : List MtuPayloadResult) → AtLeast k l
    → All (λ a. a.status ≢ s) l
    → AtLeast (suc k) l
raise s k f [] h n = tt
raise s k f (x ∷ l) h n = (f x.status h.0 n.0, raise s k f l h.1 n.1)

AtLeast-zero : (l : List MtuPayloadResult) → AtLeast 0 l
AtLeast-zero [] = tt
AtLeast-zero (x ∷ l) = (omega arith, AtLeast-zero l)

-- One of the loops, and what follows it.
or_else_cases {ℓ} :
    (P : MtuPayloadResult → Type ℓ) (s : MtuPayloadStatus) (l : List MtuPayloadResult)
    (b : MtuPayloadResult)
    → ((a : MtuPayloadResult) → a.status ≡ s → Memᴰ a l → P a)
    → (All (λ a. a.status ≢ s) l → P b)
    → P (or_else (attempt_with s l) b)
or_else_cases P s l b found missing = elim (Option-cases (attempt_with s l)) [
  | inl e ↦ rw e (missing (attempt_with-none s l e))
  | inr (a, e) ↦ rw e (let w = attempt_with-some s l a e in found a w.0 w.1)
]

-- `r` has the lowest rank of all in `l`, and is one of them or the timeout that stands for attempts
-- which all timed out.
abbrev pub IsBest : List MtuPayloadResult → MtuPayloadResult → Type 0
IsBest l r = AtLeast (rank r.status) l × (Memᴰ r l ⊎ (r.status ≡ timeout))

module _ (l : List MtuPayloadResult) where
  hit :
      (s : MtuPayloadStatus)
      → AtLeast (rank s) l
      → (a : MtuPayloadResult) → a.status ≡ s
      → Memᴰ a l
      → IsBest l a
  hit s h a e m = (rw e h, inl m)

  IsBest-or_else :
      (b : MtuPayloadResult)
      → b.status ≡ timeout
      → IsBest l (
          or_else (attempt_with success l) (
            or_else (attempt_with unreachable l) (
              or_else
                (attempt_with error l)
                (or_else (attempt_with local_too_large l) (or_else (attempt_with too_large l) b)))))
  IsBest-or_else b t =
      let h0 = AtLeast-zero l in
      or_else_cases (IsBest l) success l _ (hit success h0) λ n0.
        let h1 = raise success 0 (λ x h n. ground arith) l h0 n0 in
        or_else_cases (IsBest l) unreachable l _ (hit unreachable h1) λ n1.
          let h2 = raise unreachable 1 (λ x h n. ground arith) l h1 n1 in
          or_else_cases (IsBest l) error l _ (hit error h2) λ n2.
            let h3 = raise error 2 (λ x h n. ground arith) l h2 n2 in
            or_else_cases (IsBest l) local_too_large l _ (hit local_too_large h3) λ n3.
              let h4 = raise local_too_large 3 (λ x h n. ground arith) l h3 n3 in
              or_else_cases (IsBest l) too_large l _ (hit too_large h4)
                λ n4. let h5 = raise too_large 4 (λ x h n. ground arith) l h4 n4 in (rw t h5, inr t)

-- In the order success, unreachable, error, local_too_large, too_large, timeout, the status that
-- attempts are classified as ranks no higher than that of any attempt; and the result is one of the
-- attempts, or its status is timeout.
pub classify_payload_attempts-IsBest :
    (l : List MtuPayloadResult) → IsBest l (classify_payload_attempts l)
unfolding classify_payload_attempts
classify_payload_attempts-IsBest [] = (tt, inr refl)
classify_payload_attempts-IsBest (a ∷ rest) = IsBest-or_else (a ∷ rest) _ refl
