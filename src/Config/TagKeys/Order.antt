-- ===== src/Config/TagKeys/Order.antt =====
-- sort.Strings forgets the order of what it sorts, and only that.
use mathlib.Core.List.{Perm}
use mathlib.Core.List.Perm as P
use mathlib.Core.List.{Permᴰ}
use Prim.Native.Char.{code}
use text.Mathlib.TextEquality.{Char-path}
use netsonar.Base.{
  ℕ, ◌≡◌, inl, inr, refl, ap, ◌∙◌, Bool, true, false, String, List, [], ◌∷◌, if◌then◌else◌, arith,
  Bool-cases,
}
use netsonar.Config.Checks.{codes}
use netsonar.Config.TagKeys.{leb_codes, insert_string, sort_strings}

leb_codes_total : (xs ys : List ℕ) → leb_codes xs ys ≡ false → leb_codes ys xs ≡ true
unfolding leb_codes
leb_codes_total [] ys h = absurd (cc)
leb_codes_total (x ∷ xs) [] h = refl
leb_codes_total (x ∷ xs) (y ∷ ys) h = ground (arith, leb_codes_total xs ys)

leb_codes_antisym : (xs ys : List ℕ) → leb_codes xs ys ≡ true → leb_codes ys xs ≡ true → xs ≡ ys
unfolding leb_codes
leb_codes_antisym [] [] h k = refl
leb_codes_antisym [] (y ∷ ys) h k = absurd (cc)
leb_codes_antisym (x ∷ xs) [] h k = absurd (cc)
leb_codes_antisym (x ∷ xs) (y ∷ ys) h k = ground (arith, leb_codes_antisym xs ys)

leb_codes_trans :
    (xs ys zs : List ℕ) → leb_codes xs ys ≡ true → leb_codes ys zs ≡ true → leb_codes xs zs ≡ true
unfolding leb_codes
leb_codes_trans [] ys zs h k = refl
leb_codes_trans (x ∷ xs) [] zs h k = absurd (cc)
leb_codes_trans (x ∷ xs) (y ∷ ys) [] h k = absurd (cc)
leb_codes_trans (x ∷ xs) (y ∷ ys) (z ∷ zs) h k = ground (arith, leb_codes_trans xs ys zs)

pub codes_inj : (s t : String) → codes s ≡ codes t → s ≡ t
codes_inj String.[] String.[] h = refl
codes_inj String.[] (String.◌∷◌ d t) h = absurd (cc)
codes_inj (String.◌∷◌ c s) String.[] h = absurd (cc)
codes_inj (String.◌∷◌ c s) (String.◌∷◌ d t) h =
    let e : code c ≡ code d = cc in
    let k : codes s ≡ codes t = cc in cc (Char-path c d e, codes_inj s t k)

-- `a <= b` on texts, which a proof reads by its laws.
leb_text : String → String → Bool
leb_text a b = leb_codes (codes a) (codes b)

leb_text_total : (a b : String) → leb_text a b ≡ false → leb_text b a ≡ true
unfolding leb_text
leb_text_total a b h = leb_codes_total (codes a) (codes b) h

leb_text_antisym : (a b : String) → leb_text a b ≡ true → leb_text b a ≡ true → a ≡ b
unfolding leb_text
leb_text_antisym a b h k = codes_inj a b (leb_codes_antisym (codes a) (codes b) h k)

leb_text_trans : (a b c : String) → leb_text a b ≡ true → leb_text b c ≡ true → leb_text a c ≡ true
unfolding leb_text
leb_text_trans a b c h k = leb_codes_trans (codes a) (codes b) (codes c) h k

insert_string_nil : (a : String) → insert_string a [] ≡ a ∷ []
unfolding insert_string
insert_string_nil a = refl

insert_string_cons :
    (a s : String) (ss : List String)
    → insert_string a (s ∷ ss) ≡ (if leb_text a s then a ∷ (s ∷ ss) else s ∷ insert_string a ss)
unfolding insert_string leb_text
insert_string_cons a s ss = refl

-- Two texts go in by either order.
insert_string_comm :
    (a b : String) (ss : List String)
    → insert_string a (insert_string b ss) ≡ insert_string b (insert_string a ss)
insert_string_comm a b [] = ground (
  arith,
  insert_string_nil a,
  insert_string_nil b,
  insert_string_cons a b [],
  insert_string_cons b a [],
  leb_text_total a b,
  leb_text_antisym a b,
)
insert_string_comm a b (s ∷ ss) = ground (
  arith,
  insert_string_cons a s ss,
  insert_string_cons b s ss,
  insert_string_cons a b (s ∷ ss),
  insert_string_cons b a (s ∷ ss),
  insert_string_cons a s (insert_string b ss),
  insert_string_cons b s (insert_string a ss),
  insert_string_comm a b ss,
  leb_text_total a b,
  leb_text_antisym a b,
  leb_text_trans a b s,
  leb_text_trans b a s,
)

pub sort_strings-perm : (ss ts : List String) → Permᴰ ss ts → sort_strings ss ≡ sort_strings ts
unfolding sort_strings
sort_strings-perm [] [] Permᴰ.nil = refl
sort_strings-perm (a ∷ ss) (b ∷ ts) (Permᴰ.cons e p) =
    rw e (ap (insert_string b) (sort_strings-perm ss ts p))
sort_strings-perm (a ∷ (b ∷ ss)) (c ∷ (d ∷ ts)) (Permᴰ.swap e f) =
    rw e (rw f (insert_string_comm d c (sort_strings ss)))
sort_strings-perm ss us (Permᴰ.trans {l₂ = ts} p q) =
    sort_strings-perm ss ts p ∙ sort_strings-perm ts us q

insert_string-perm : (a : String) (ss : List String) → Perm (insert_string a ss) (a ∷ ss)
insert_string-perm a [] = rw (insert_string_nil a) (P.refl (a ∷ []))
insert_string-perm a (s ∷ ss) = elim (Bool-cases (leb_text a s)) [
  | inl t ↦ rw (insert_string_cons a s ss) (rw t (P.refl (a ∷ (s ∷ ss))))
  | inr f ↦
      rw (insert_string_cons a s ss)
        (rw f (P.trans (P.cons s (insert_string-perm a ss)) (P.swap a s ss)))
]

sorted-perm : (ss : List String) → Perm (sort_strings ss) ss
unfolding sort_strings
sorted-perm [] = P.refl []
sorted-perm (s ∷ ss) = P.trans (insert_string-perm s (sort_strings ss)) (P.cons s (sorted-perm ss))

pub perm_of_sort_strings-eq : (ss ts : List String) → sort_strings ss ≡ sort_strings ts → Perm ss ts
perm_of_sort_strings-eq ss ts e = P.trans (P.symm (sorted-perm ss)) (rw e (sorted-perm ts))
