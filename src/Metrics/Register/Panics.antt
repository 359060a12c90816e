-- ===== src/Metrics/Register/Panics.antt =====
-- When the registration of internal/metrics/metrics.go panics over the keys of tags.
use netsonar.Base.{
  ◌≡◌, refl, sym, ap, ◌∙◌, Bool, true, false, ◌&&◌, ◌||◌, not, String, str_eq, str_eq_iff, str_mem,
  List, [], ◌∷◌, ◌++◌, is_none, any, arith,
}
use mathlib.Core.List.{append-nil}
use netsonar.Config.Checks.{fixed_labels}
use netsonar.Metrics.Series.{build_info, config_info, target_proxy_info}
use netsonar.Metrics.Register.{
  Registry, unique, is_plain, base_labels, label_names, new_metrics_exporter,
}

str_mem-append :
    (s : String) (xs ys : List String) → str_mem s (xs ++ ys) ≡ (str_mem s xs || str_mem s ys)
str_mem-append s [] ys = refl
str_mem-append s (x ∷ xs) ys = ground (arith, str_mem-append s xs ys)

any-append : (p : String → Bool) (xs ys : List String) → any p (xs ++ ys) ≡ (any p xs || any p ys)
any-append p [] ys = refl
any-append p (x ∷ xs) ys = ground (arith, any-append p xs ys)

-- Some name of the first list stands in the second.
abbrev meets : List String → List String → Bool
meets xs ys = any (λ x. str_mem x ys) xs

unique-append :
    (xs ys : List String) → unique (xs ++ ys) ≡ (unique xs && (unique ys && not (meets xs ys)))
unique-append [] ys = ground arith
unique-append (x ∷ xs) ys = ground (arith, unique-append xs ys, str_mem-append x xs ys)

str_eq_sym : (s t : String) → str_eq s t ≡ str_eq t s
str_eq_sym s t = ground (arith, str_eq_iff s t, str_eq_iff t s)

-- The names that NewMetricsExporter adds to the common labels of some vectors.
abbrev pub extra_labels : List String
extra_labels = "phase" ∷ "cert_index" ∷ "cert_role" ∷ "state" ∷ "detail" ∷ []

-- What validateAllowedTagKeys and validateTagKeys make sure of, and that no key has the reserved prefix.
pub record AreTagKeys (keys : List String) : Type 0 where
  pub no_repetition : unique keys ≡ true
  pub free : any (λ k. str_mem k fixed_labels) keys ≡ false
  pub plain : any (λ k. not (is_plain k)) keys ≡ false

meets_cons :
    (xs : List String) (y : String) (ys : List String)
    → meets xs (y ∷ ys) ≡ (str_mem y xs || meets xs ys)
meets_cons [] y ys = refl
meets_cons (x ∷ xs) y ys = ground (arith, meets_cons xs y ys, str_eq_sym x y)

meets_nil : (xs : List String) → meets xs [] ≡ false
meets_nil [] = refl
meets_nil (x ∷ xs) = ground (arith, meets_nil xs)

-- A name of the base is in no list that these two do not have it in.
absent :
    (s : String) (keys extra : List String)
    → str_mem s keys ≡ false
    → str_mem s extra ≡ false
    → str_mem s (keys ++ extra) ≡ false
absent s keys extra h k = rw (str_mem-append s keys extra, h, k)

-- No key is a name of the base.
free_base :
    (keys : List String)
    → AreTagKeys keys
    → (str_mem "target" keys ≡ false)
      × (str_mem "target_name" keys ≡ false)
      × (str_mem "probe_type" keys ≡ false)
      × (str_mem "proxy_name" keys ≡ false)
free_base keys v = ground (
  arith,
  meets_cons keys "target" ("target_name" ∷ "probe_type" ∷ "proxy_name" ∷ "proxy_endpoint" ∷ []),
  meets_cons keys "target_name" ("probe_type" ∷ "proxy_name" ∷ "proxy_endpoint" ∷ []),
  meets_cons keys "probe_type" ("proxy_name" ∷ "proxy_endpoint" ∷ []),
  meets_cons keys "proxy_name" ("proxy_endpoint" ∷ []),
)

-- A key is one of the added names exactly if some vector adds it.
meets_extra :
    (keys : List String)
    → meets keys extra_labels ≡ (
        meets keys ("phase" ∷ [])
        || (meets keys ("cert_index" ∷ ("cert_role" ∷ []))
            || meets keys ("state" ∷ ("detail" ∷ []))))
meets_extra [] = refl
meets_extra (k ∷ keys) = ground (arith, meets_extra keys)

module _ {V : Type 0} (reg : Registry V) (keys : List String) (v : AreTagKeys keys) where
  -- The labels of one vector are accepted unless a key is one of the names that are added.
  accepts_extra :
      (extra : List String)
      → any (λ k. not (is_plain k)) extra ≡ false
      → unique extra ≡ true
      → meets base_labels extra ≡ false
      → reg.accepts (base_labels ++ (keys ++ extra)) ≡ not (meets keys extra)
  unfolding is_plain
  accepts_extra extra p u m =
      let (f1, f2, f3, f4) = free_base keys v in
      let plain : any (λ k. not (is_plain k)) (base_labels ++ (keys ++ extra)) ≡ false =
        any-append _ keys extra ∙ rw (v.plain, p) in
      let apart : meets base_labels (keys ++ extra) ≡ false = ground (
        arith,
        absent "target" keys extra f1,
        absent "target_name" keys extra f2,
        absent "probe_type" keys extra f3,
        absent "proxy_name" keys extra f4,
      ) in
      reg.accepts_unique _ plain
      ∙ unique-append base_labels (keys ++ extra)
      ∙ ground (arith, apart, unique-append keys extra, v.no_repetition)

  accepts_common : reg.accepts (base_labels ++ keys) ≡ true
  accepts_common =
      let e : reg.accepts (base_labels ++ (keys ++ [])) ≡ not (meets keys []) =
        accepts_extra [] refl refl refl in
      rw (sym (append-nil keys)) (e ∙ ap not (meets_nil keys))

  accepts_fixed :
      (ls : List String)
      → any (λ k. not (is_plain k)) ls ≡ false
      → unique ls ≡ true
      → reg.accepts ls ≡ true
  accepts_fixed ls p u = reg.accepts_unique ls p ∙ u

  -- With keys that the configuration accepts, and that have no reserved prefix, the registration panics
  -- exactly if one of them is a name that some vector adds: phase, cert_index, cert_role, state, detail.
  pub new_metrics_exporter-panics :
      is_none (new_metrics_exporter reg keys) ≡ any (λ k. str_mem k extra_labels) keys
  unfolding new_metrics_exporter is_plain
  new_metrics_exporter-panics = ground (
    arith,
    accepts_common,
    accepts_extra ("phase" ∷ []) refl refl refl,
    accepts_extra ("cert_index" ∷ ("cert_role" ∷ [])) refl refl refl,
    accepts_extra ("state" ∷ ("detail" ∷ [])) refl refl refl,
    accepts_fixed (label_names keys build_info) refl refl,
    accepts_fixed (label_names keys config_info) refl refl,
    accepts_fixed (label_names keys target_proxy_info) refl refl,
    meets_extra keys,
  )
