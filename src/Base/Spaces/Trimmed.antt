-- ===== src/Base/Spaces/Trimmed.antt =====
-- What strings.TrimSpace leaves: the text without the spaces at its ends.
use Prim.Native.Char.{code}
use netsonar.Base.{
  ◌≡◌, refl, ap, sym, ◌∙◌, true, false, ◌&&◌, String, ◌<>◌, is_blank, if◌then◌else◌, arith,
  Bool-cases, inl, inr, &&_split,
}
use netsonar.Base.Spaces.{is_space, trim_left, trim_right, trim_space, IsBlankSpace}
use text.Mathlib.TextLemmas.{cons-append, nil-append}

-- A text that does not begin with a space, and one that does not end with one.
abbrev pub BeginsSolid : String → Type 0
BeginsSolid String.[] = Unit
BeginsSolid (String.◌∷◌ c s) = is_space (code c) ≡ false

abbrev pub EndsSolid : String → Type 0
EndsSolid String.[] = Unit
EndsSolid (String.◌∷◌ c s) = if is_blank s then is_space (code c) ≡ false else EndsSolid s

pub blank-nil : (s : String) → is_blank s ≡ true → s ≡ ""
blank-nil String.[] h = refl
blank-nil (String.◌∷◌ c s) h = absurd (cc)

trim_left-split :
    (s : String)
    → (before : String) × (s ≡ before <> trim_left s)
      × IsBlankSpace before
      × BeginsSolid (trim_left s)
unfolding trim_left ◌<>◌
trim_left-split String.[] = ("", sym (nil-append ""), tt, tt)
trim_left-split (String.◌∷◌ c s) = elim (Bool-cases (is_space (code c))) [
  | inl e ↦
      let (before, q, b, k) = trim_left-split s in
      rw e (
        String.◌∷◌ c before,
        ap (λ t. String.◌∷◌ c t) q ∙ sym (cons-append c before (trim_left s)),
        (e, b),
        k,
      )
  | inr e ↦ rw e ("", sym (nil-append (String.◌∷◌ c s)), tt, e)
]

trim_right-split :
    (s : String)
    → (after : String) × (s ≡ trim_right s <> after) × IsBlankSpace after × EndsSolid (trim_right s)
unfolding trim_right ◌<>◌
trim_right-split String.[] = ("", sym (nil-append ""), tt, tt)
trim_right-split (String.◌∷◌ c s) =
    let (after, q, b, k) = trim_right-split s in
    elim (Bool-cases (is_space (code c) && is_blank (trim_right s))) [
      | inl e ↦
          let (space, blank) = &&_split _ _ e in
          let all : s ≡ after =
            q ∙ ap (λ t. t <> after) (blank-nil (trim_right s) blank) ∙ nil-append after in
          rw e (
            String.◌∷◌ c after,
            ap (λ t. String.◌∷◌ c t) all ∙ sym (nil-append (String.◌∷◌ c after)),
            (space, b),
            tt,
          )
      | inr e ↦ rw e (
        after,
        ap (λ t. String.◌∷◌ c t) q ∙ sym (cons-append c (trim_right s) after),
        b,
        elim (Bool-cases (is_blank (trim_right s))) [
          | inl z ↦ rw z (ground arith)
          | inr z ↦ rw z k
        ],
      )
    ]

trim_right-BeginsSolid : (s : String) → BeginsSolid s → BeginsSolid (trim_right s)
unfolding trim_right
trim_right-BeginsSolid String.[] h = tt
trim_right-BeginsSolid (String.◌∷◌ c s) h = rw h h

-- The text without its spaces at both ends.
pub record IsTrimmed (s core : String) : Type 0 where
  pub before : String
  pub after : String
  pub whole : s ≡ before <> (core <> after)
  pub spaces : IsBlankSpace before × IsBlankSpace after
  pub solid : BeginsSolid core × EndsSolid core

pub trim_space-IsTrimmed : (s : String) → IsTrimmed s (trim_space s)
unfolding trim_space
trim_space-IsTrimmed s =
    let (before, q, b, k) = trim_left-split s in
    let (after, r, c, l) = trim_right-split (trim_left s) in
    record {
      before = before;
      after = after;
      whole = q ∙ ap (λ t. before <> t) r;
      spaces = (b, c);
      solid = (trim_right-BeginsSolid (trim_left s) k, l);
    }
