-- ===== src/Scheduler/Diff/Named.antt =====
-- Lists of targets seen as maps by name.
use netsonar.Base.{
  ◌≡◌, refl, subst, Bool, String, str_eq, str_eq_iff, List, [], ◌∷◌, ◌++◌, Option, none, some,
  if◌then◌else◌, arith, Bool-cases, inl, inr,
}
use netsonar.Config.Types.{TargetConfig}

-- `m[name]`.
unfoldable pub find_name : String → List TargetConfig → Option TargetConfig
find_name n [] = none
find_name n (t ∷ ts) = if str_eq t.name n then some t else find_name n ts

-- `m[t.Name] = t`.
unfoldable pub put_name : TargetConfig → List TargetConfig → List TargetConfig
put_name t [] = t ∷ []
put_name t (u ∷ us) = if str_eq u.name t.name then t ∷ us else u ∷ put_name t us

-- The targets that pass a test.
unfoldable pub keep : (TargetConfig → Bool) → List TargetConfig → List TargetConfig
keep p [] = []
keep p (t ∷ ts) = if p t then t ∷ keep p ts else keep p ts

-- No two targets of one name.
abbrev pub Distinct : List TargetConfig → Type 0
Distinct [] = Unit
Distinct (t ∷ ts) = (find_name t.name ts ≡ none) × Distinct ts

pub find_name-put_name :
    (n : String) (t : TargetConfig) (ts : List TargetConfig)
    → find_name n (put_name t ts) ≡ (if str_eq t.name n then some t else find_name n ts)
unfolding find_name put_name
find_name-put_name n t [] = refl
find_name-put_name n t (u ∷ us) = ground (
  arith,
  find_name-put_name n t us,
  str_eq_iff u.name t.name,
  str_eq_iff u.name n,
  str_eq_iff t.name n,
)

pub put_name-Distinct :
    (t : TargetConfig) (ts : List TargetConfig) → Distinct ts → Distinct (put_name t ts)
unfolding find_name put_name
put_name-Distinct t [] h = (refl, tt)
put_name-Distinct t (u ∷ us) h = ground (
  arith,
  put_name-Distinct t us h.1,
  find_name-put_name u.name t us,
  str_eq_iff u.name t.name,
  str_eq_iff t.name u.name,
)

pub find_name-name :
    (n : String) (ts : List TargetConfig) (t : TargetConfig) → find_name n ts ≡ some t → t.name ≡ n
unfolding find_name
find_name-name n [] t h = cc
find_name-name n (u ∷ us) t h = ground (arith, find_name-name n us t, str_eq_iff u.name n)

abbrev pub or_else : Option TargetConfig → Option TargetConfig → Option TargetConfig
or_else none b = b
or_else (some a) b = some a

pub find_name-append :
    (n : String) (xs ys : List TargetConfig)
    → find_name n (xs ++ ys) ≡ or_else (find_name n xs) (find_name n ys)
unfolding find_name
find_name-append n [] ys = refl
find_name-append n (x ∷ xs) ys = ground (arith, find_name-append n xs ys)

-- `append(xs, t)`, under the name of `t` and under another.
pub find_name-snoc :
    (n : String) (xs : List TargetConfig) (t : TargetConfig)
    → find_name n (xs ++ t ∷ [])
      ≡ or_else (find_name n xs) (if str_eq t.name n then some t else none)
unfolding find_name
find_name-snoc n xs t = find_name-append n xs (t ∷ [])

abbrev pub filtered : (TargetConfig → Bool) → Option TargetConfig → Option TargetConfig
filtered p none = none
filtered p (some t) = if p t then some t else none

pub find_name-keep :
    (n : String) (p : TargetConfig → Bool) (ts : List TargetConfig)
    → Distinct ts
    → find_name n (keep p ts) ≡ filtered p (find_name n ts)
unfolding find_name keep
find_name-keep n p [] h = refl
find_name-keep n p (t ∷ ts) h = elim (Bool-cases (str_eq t.name n)) [
  | inl e ↦
      let gone : find_name n ts ≡ none =
        subst (λ m. find_name m ts ≡ none) ((str_eq_iff t.name n).0 e) h.0 in
      ground (arith, find_name-keep n p ts h.1)
  | inr e ↦ ground (arith, find_name-keep n p ts h.1)
]
