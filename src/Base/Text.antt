-- ===== src/Base/Text.antt =====
-- Texts: equality as a test, membership, and the decimal form of a number.
use Prim.Native.Nat.{ℕ, zero, suc, ◌/◌, ◌%◌}
use Prim.Native.String.{String, ◌++◌}
use text.Mathlib.Text.{◌==◌ as str_eq_test}
use text.Mathlib.TextEquality.{eq_iff}
use text.Mathlib.TextLemmas.{cons-append}
use mathlib.Core.Path.{◌≡◌, refl, sym}
use mathlib.Core.Logic.{◌↔◌}
use mathlib.Core.Bool.{Bool, true, false, ◌||◌, false≢true}
use mathlib.Core.List.{List, [], ◌∷◌}

abbrev pub str_eq : String → String → Bool
str_eq s t = str_eq_test s t

pub str_eq_iff : (s t : String) → (str_eq s t ≡ true) ↔ (s ≡ t)
str_eq_iff s t = eq_iff s t

pub str_eq_refl : (s : String) → str_eq s s ≡ true
str_eq_refl s = (eq_iff s s).1 refl

abbrev pub str_mem : String → List String → Bool
str_mem s [] = false
str_mem s (t ∷ ts) = str_eq s t || str_mem s ts

-- `a + b` on strings.
infixr 60 ◌<>◌
unfoldable pub ◌<>◌ : String → String → String
s <> t = s ++ t

-- `s == ""`.
abbrev pub is_blank : String → Bool
is_blank String.[] = true
is_blank (String.◌∷◌ c s) = false

abbrev pub NonEmpty : String → Type 0
NonEmpty s = is_blank s ≡ false

pub NonEmpty-<> : (s t : String) → NonEmpty s → NonEmpty (s <> t)
unfolding ◌<>◌
NonEmpty-<> String.[] t h = absurd (false≢true (sym h))
NonEmpty-<> (String.◌∷◌ c s) t h = rw (cons-append c s t)

digit : ℕ → String
digit zero = "0"
digit (suc zero) = "1"
digit (suc (suc zero)) = "2"
digit (suc (suc (suc zero))) = "3"
digit (suc (suc (suc (suc zero)))) = "4"
digit (suc (suc (suc (suc (suc zero))))) = "5"
digit (suc (suc (suc (suc (suc (suc zero)))))) = "6"
digit (suc (suc (suc (suc (suc (suc (suc zero))))))) = "7"
digit (suc (suc (suc (suc (suc (suc (suc (suc zero)))))))) = "8"
digit _ = "9"

-- A number below 10 ^ fuel has at most that many digits; 20 hold every 64-bit number.
decimal : ℕ → ℕ → String
decimal zero n = digit n
decimal (suc f) n =
    let rest = decimal f (n / 10) in
    elim (n / 10) [ zero ↦ digit n | suc _ ↦ rest <> digit (n % 10) ]

-- `%d` of a number that fits 64 bits.
unfoldable pub show_ℕ : ℕ → String
unfolding decimal digit
show_ℕ n = decimal 20 n
