-- ===== src/Metrics/Vec.antt =====
-- What internal/metrics/metrics.go uses of a prometheus.GaugeVec or CounterVec: the interface with
-- its documented behaviour. Labels are a map: its pairs, in the order in which the exporter adds them,
-- so two equal maps of one exporter are equal lists.
use netsonar.Base.{
  ◌≡◌, refl, Bool, true, false, ◌&&◌, String, str_eq, str_eq_refl, List, [], ◌∷◌, Option, none,
  some, if◌then◌else◌, arith,
}
use netsonar.Base.Int.{ℤ, pos}
use netsonar.Probe.Result.{Ratio}

abbrev pub Labels : Type 0
Labels = List (String × String)

-- `labels[key] = val`.
unfoldable pub set_label : String → String → Labels → Labels
set_label k v [] = (k, v) ∷ []
set_label k v ((j, u) ∷ l) = if str_eq j k then (j, v) ∷ l else (j, u) ∷ set_label k v l

unfoldable pub labels_eq : Labels → Labels → Bool
labels_eq [] [] = true
labels_eq ((j, u) ∷ l) ((k, v) ∷ m) = str_eq j k && (str_eq u v && labels_eq l m)
labels_eq _ _ = false

unfoldable pub has_pair : String → String → Labels → Bool
has_pair k v [] = false
has_pair k v ((j, u) ∷ l) = if str_eq j k then str_eq u v else has_pair k v l

-- Every pair of the first map is in the second.
unfoldable pub sub_labels : Labels → Labels → Bool
sub_labels [] m = true
sub_labels ((k, v) ∷ l) m = has_pair k v m && sub_labels l m

pub labels_eq_refl : (l : Labels) → labels_eq l l ≡ true
unfolding labels_eq
labels_eq_refl [] = refl
labels_eq_refl ((k, v) ∷ l) = ground (arith, str_eq_refl k, str_eq_refl v, labels_eq_refl l)

-- Two maps that differ in one label at most are equal exactly if that label is.
pub labels_eq-set_label :
    (k v w : String) (l : Labels) → labels_eq (set_label k v l) (set_label k w l) ≡ str_eq v w
unfolding labels_eq set_label
labels_eq-set_label k v w [] = ground (arith, str_eq_refl k)
labels_eq-set_label k v w ((j, u) ∷ l) =
    ground (arith, str_eq_refl j, str_eq_refl u, labels_eq_refl l, labels_eq-set_label k v w l)

-- The float64 that is set, before rounding: a number, a duration in nanoseconds given in seconds, or
-- a ratio.
pub data Value : Type 0 where
  number : ℤ → Value
  seconds : ℤ → Value
  ratio : Ratio → Value

abbrev pub flag : Bool → Value
flag true = number (pos 1)
flag false = number (pos 0)

-- client_golang is not part of the program: a vector is any type with these operations and laws.
pub record VecOps (V : Type 0) : Type 0 where
  pub get : V → Labels → Option Value
  pub set : Labels → Value → V → V
  pub delete : Labels → V → V
  pub delete_partial_match : Labels → V → V
  pub reset : V → V
  pub get-set :
      (v : V) (l k : Labels) (x : Value)
      → get (set l x v) k ≡ (if labels_eq l k then some x else get v k)
  pub get-delete :
      (v : V) (l k : Labels) → get (delete l v) k ≡ (if labels_eq l k then none else get v k)
  pub get-delete_partial_match :
      (v : V) (l k : Labels)
      → get (delete_partial_match l v) k ≡ (if sub_labels l k then none else get v k)
  pub get-reset : (v : V) (k : Labels) → get (reset v) k ≡ none
