-- ===== src/Base/Spaces.antt =====
-- strings.TrimSpace and strings.Fields: spaces are the code points that unicode.IsSpace accepts.
pub mod Trimmed
use Prim.Native.Char.{code}
use netsonar.Base.{
  ℕ, ◌≡◌, refl, Bool, true, false, ◌&&◌, ◌||◌, String, ◌<>◌, is_blank, NonEmpty, List, [], ◌∷◌,
  if◌then◌else◌, leb, ◌==◌,
}
use text.Mathlib.TextLemmas.{cons-append, nil-append, append-nil}

unfoldable pub is_space : ℕ → Bool
is_space c =
    (leb 9 c && leb c 13)
    || c == 32
    || c == 0x85
    || c == 0xa0
    || c == 0x1680
    || (leb 0x2000 c && leb c 0x200a)
    || c == 0x2028
    || c == 0x2029
    || c == 0x202f
    || c == 0x205f
    || c == 0x3000

unfoldable pub trim_left : String → String
trim_left String.[] = ""
trim_left (String.◌∷◌ c s) = if is_space (code c) then trim_left s else String.◌∷◌ c s

unfoldable pub trim_right : String → String
trim_right String.[] = ""
trim_right (String.◌∷◌ c s) =
    let rest = trim_right s in if is_space (code c) && is_blank rest then "" else String.◌∷◌ c rest

unfoldable pub trim_space : String → String
unfolding trim_left trim_right is_space
trim_space s = trim_right (trim_left s)

-- A word that may be empty, before others.
abbrev pub push_word : String → List String → List String
push_word w ws = if is_blank w then ws else w ∷ ws

-- What stands before the first space, and the words after it.
unfoldable pub split_words : String → String × List String
split_words String.[] = ("", [])
split_words (String.◌∷◌ c s) =
    let rest = split_words s in
    if is_space (code c) then ("", push_word rest.0 rest.1) else (String.◌∷◌ c rest.0, rest.1)

unfoldable pub fields : String → List String
unfolding split_words is_space
fields s = let (w, ws) = split_words s in push_word w ws

-- A text of spaces alone, and one without any.
abbrev pub IsBlankSpace : String → Type 0
IsBlankSpace String.[] = Unit
IsBlankSpace (String.◌∷◌ c s) = (is_space (code c) ≡ true) × IsBlankSpace s

abbrev pub NoSpace : String → Type 0
NoSpace String.[] = Unit
NoSpace (String.◌∷◌ c s) = (is_space (code c) ≡ false) × NoSpace s

pub NoSpace-<> : (a b : String) → NoSpace a → NoSpace b → NoSpace (a <> b)
unfolding ◌<>◌
NoSpace-<> String.[] b h k = rw (nil-append b) k
NoSpace-<> (String.◌∷◌ c a) b h k = rw (cons-append c a b) (h.0, NoSpace-<> a b h.1 k)

<>-nil : (a : String) → (a <> "") ≡ a
unfolding ◌<>◌
<>-nil a = append-nil a

-- The words of what follows some spaces.
split_words-spaces :
    (a t : String)
    → NonEmpty a
    → IsBlankSpace a
    → split_words (a <> t) ≡ ("", push_word (split_words t).0 (split_words t).1)
unfolding split_words ◌<>◌
split_words-spaces String.[] t n h = absurd (cc)
split_words-spaces (String.◌∷◌ c String.[]) t n h =
    rw (cons-append c "" t) (rw (nil-append t) (rw h.0 refl))
split_words-spaces (String.◌∷◌ c (String.◌∷◌ d a)) t n h =
    rw (cons-append c (String.◌∷◌ d a) t)
      (rw h.0 (rw (split_words-spaces (String.◌∷◌ d a) t refl h.1) refl))

split_words-word :
    (a t : String) → NoSpace a → split_words (a <> t) ≡ (a <> (split_words t).0, (split_words t).1)
unfolding split_words ◌<>◌
split_words-word String.[] t h = rw (nil-append t) (rw (nil-append (split_words t).0) refl)
split_words-word (String.◌∷◌ c a) t h =
    rw (cons-append c a t)
      (rw h.0 (rw (split_words-word a t h.1) (rw (cons-append c a (split_words t).0) refl)))

split_words-blank : (s : String) → IsBlankSpace s → split_words s ≡ ("", [])
unfolding split_words
split_words-blank String.[] h = refl
split_words-blank (String.◌∷◌ c s) h = rw h.0 (rw (split_words-blank s h.1) refl)

-- Two words with spaces about them, as the fields of their line.
pub fields_of_two :
    (a gap b end : String)
    → NonEmpty a
    → NoSpace a
    → NonEmpty gap
    → IsBlankSpace gap
    → NonEmpty b
    → NoSpace b
    → IsBlankSpace end
    → fields (a <> (gap <> (b <> end))) ≡ a ∷ b ∷ []
unfolding fields
fields_of_two a gap b end na sa ng sg nb sb se = rw (split_words-word a (gap <> (b <> end)) sa) (
    rw (split_words-spaces gap (b <> end) ng sg) (
      rw (split_words-word b end sb)
        (rw (split_words-blank end se) (rw (<>-nil a) (rw (<>-nil b) (rw nb (rw na refl)))))))
