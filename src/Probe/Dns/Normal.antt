-- ===== src/Probe/Dns/Normal.antt =====
-- When matchExpected of internal/probe/dns.go takes two values for the same: what their normal form is.
use Prim.Native.Char.{code}
use netsonar.Base.{
  ◌≡◌, ◌∷◌, ◌⊎◌, refl, ap, sym, ◌∙◌, false, ◌&&◌, String, ◌<>◌, is_blank, if◌then◌else◌, ◌==◌,
  ==_iff, Bool-cases, inl, inr, &&_split,
}
use netsonar.Config.Checks.{codes}
use netsonar.Config.TagKeys.Order.{codes_inj}
use netsonar.Base.Spaces.{trim_space}
use netsonar.Base.Spaces.Trimmed.{IsTrimmed, trim_space-IsTrimmed, blank-nil}
use netsonar.Probe.Dns.{DnsOps, trim_dot, normalize_one}
use text.Mathlib.TextLemmas.{cons-append, nil-append}

abbrev pub NoFinalDot : String → Type 0
NoFinalDot String.[] = Unit
NoFinalDot (String.◌∷◌ c s) = if is_blank s then (code c == b'.') ≡ false else NoFinalDot s

-- One final dot was taken away, if there was one.
abbrev pub IsUndotted : String → String → Type 0
IsUndotted s t = (s ≡ t <> ".") ⊎ ((s ≡ t) × NoFinalDot t)

trim_dot-IsUndotted : (s : String) → IsUndotted s (trim_dot s)
unfolding trim_dot ◌<>◌
trim_dot-IsUndotted String.[] = inr (refl, tt)
trim_dot-IsUndotted (String.◌∷◌ c s) = elim (Bool-cases (is_blank s && code c == b'.')) [
  | inl e ↦
      let (blank, dot) = &&_split (is_blank s) (code c == b'.') e in
      let single : String.◌∷◌ c s ≡ "." = codes_inj (String.◌∷◌ c s) "." (
        ap (λ n. n ∷ codes s) ((==_iff (code c) b'.').0 dot)
        ∙ ap (λ t. b'.' ∷ codes t) (blank-nil s blank)) in
      rw e (inl (single ∙ sym (nil-append ".")))
  | inr e ↦ rw e (elim (Bool-cases (is_blank s)) [
    | inl z ↦
        let nothing = blank-nil s z in
        let kept : trim_dot s ≡ "" = ap trim_dot nothing in
        rw kept (inr (ap (λ t. String.◌∷◌ c t) nothing, rw z at e))
    | inr z ↦ elim (trim_dot-IsUndotted s) [
      | inl q ↦ inl (ap (λ t. String.◌∷◌ c t) q ∙ sym (cons-append c (trim_dot s) "."))
      | inr (q, n) ↦
          let full : is_blank (trim_dot s) ≡ false = ap is_blank (sym q) ∙ z in
          inr (ap (λ t. String.◌∷◌ c t) q, rw full n)
    ]
  ])
]

-- The normal form of a value: without the spaces at its ends, in lower case, without one final dot.
pub record IsNormal (to_lower : String → String) (v n : String) : Type 0 where
  pub core : String
  pub trimmed : IsTrimmed v core
  pub undotted : IsUndotted (to_lower core) n

pub normalize_one-IsNormal :
    {W : Type 0} (ops : DnsOps W) (v : String) → IsNormal ops.to_lower v (normalize_one ops v)
unfolding normalize_one
normalize_one-IsNormal ops v = record {
  core = trim_space v;
  trimmed = trim_space-IsTrimmed v;
  undotted = trim_dot-IsUndotted (ops.to_lower (trim_space v));
}
