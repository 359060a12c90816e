-- ===== src/Probe/Http/Body/Matches.antt =====
-- matchBody of internal/probe/http_body.go, without its search: what a match is.
use netsonar.Base.{
  ℕ, ◌≡◌, refl, ap, Bool, true, String, List, [], ◌∷◌, ◌++◌, Option, none, some, is_blank, false,
  ==_iff, arith, Bool-cases, inl, inr, &&_split,
}
use netsonar.Config.Types.{ProbeOptions}
use netsonar.Config.Checks.{codes}
use netsonar.Probe.Http.Body.{has_prefix, has_infix, match_body}

-- The pattern accepts the body, or, without a pattern, the text that is configured stands in it.
abbrev pub Matches : Option (String → Bool) → ProbeOptions → String → Type 0
Matches (some accepts) o body = accepts body ≡ true
Matches none o body =
    (is_blank o.body_match_string ≡ false)
    × (before : List ℕ) × (after : List ℕ) × (codes body
        ≡ before ++ (codes o.body_match_string ++ after))

has_prefix-split :
    (ps cs : List ℕ) → has_prefix ps cs ≡ true → (after : List ℕ) × (cs ≡ ps ++ after)
unfolding has_prefix
has_prefix-split [] cs h = (cs, refl)
has_prefix-split (p ∷ ps) [] h = absurd (cc)
has_prefix-split (p ∷ ps) (c ∷ cs) h =
    let (e, k) = &&_split _ _ h in
    let (after, q) = has_prefix-split ps cs k in
    (after, rw ((==_iff p c).0 e) (ap (λ xs. c ∷ xs) q))

has_infix-split :
    (ps cs : List ℕ)
    → has_infix ps cs ≡ true
    → (before : List ℕ) × (after : List ℕ) × (cs ≡ before ++ (ps ++ after))
unfolding has_infix
has_infix-split [] [] h = ([], [], refl)
has_infix-split (p ∷ ps) [] h = absurd (cc)
has_infix-split ps (c ∷ cs) h = elim (Bool-cases (has_prefix ps (c ∷ cs))) [
  | inl e ↦ let (after, q) = has_prefix-split ps (c ∷ cs) e in ([], after, q)
  | inr e ↦
      let (before, after, q) = has_infix-split ps cs (ground (arith)) in
      (c ∷ before, after, ap (λ xs. c ∷ xs) q)
]

pub match_body-Matches :
    (body : String) (o : ProbeOptions) (regex : Option (String → Bool))
    → match_body body o regex ≡ true
    → Matches regex o body
unfolding match_body
match_body-Matches body o (some accepts) h = h
match_body-Matches body o none h = elim (Bool-cases (is_blank o.body_match_regex)) [
  | inr e ↦ absurd (ground arith)
  | inl e ↦
      let both = &&_split _ _ (rw e at h) in
      let (before, after, q) = has_infix-split (codes o.body_match_string) (codes body) both.1 in
      (ground arith, before, after, q)
]
