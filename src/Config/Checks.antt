-- ===== src/Config/Checks.antt =====
-- The result of a validation in internal/config/config.go, and the checks on single texts. An error is
-- the rule that is broken with the name that it is about; the wording is left out.
use Prim.Native.Char.{code}
use netsonar.Base.{
  ℕ, ◌≡◌, refl, Bool, true, false, ◌&&◌, ◌||◌, not, String, str_eq, str_mem, List, [], ◌∷◌,
  if◌then◌else◌, ltb, leb, ◌==◌, length, any,
}
use netsonar.Base.Spaces.{is_space}

pub data ConfigError : Type 0 where
  invalid_log_level invalid_log_format invalid_metrics_path negative_jitter : ConfigError
  invalid_default_sizes too_many_allowed_tag_keys jitter_exceeds_interval too_many_tag_keys :
      ConfigError
  invalid_dns_resolver dns_resolver_port invalid_dns_server : String → ConfigError
  duplicate_tag_key invalid_label_name fixed_label : String → ConfigError
  missing_name : ConfigError
  missing_address duplicate_name invalid_probe_type invalid_interval invalid_timeout :
      String → ConfigError
  timeout_exceeds_interval too_many_tags : String → ConfigError
  tag_not_allowed : String → String → ConfigError
  -- An option that does not fit the probe type, by the name of the option.
  unsupported_option : String → String → ConfigError
  invalid_option : String → String → ConfigError
  invalid_target_address proxy_not_supported missing_proxy invalid_proxy_name : String → ConfigError
  no_proxy_registry unknown_proxy : String → ConfigError
  too_many_proxies : ConfigError
  -- What is wrong with a proxy, by the name of the field.
  invalid_proxy : String → String → ConfigError
  duplicate_endpoint : String → String → ConfigError

pub data Checked {ℓ} (A : Type ℓ) : Type ℓ where
  ok : A → Checked A
  err : ConfigError → Checked A

infixl 5 ◌>>=◌ ◌>>◌
abbrev pub ◌>>=◌ {ℓ κ} : {A : Type ℓ} {B : Type κ} → Checked A → (A → Checked B) → Checked B
ok a >>= f = f a
err e >>= f = err e

abbrev pub ◌>>◌ {ℓ} : {B : Type ℓ} → Checked (Unit {0}) → Checked B → Checked B
m >> k = m >>= λ _. k

-- `if bad { return error }`.
abbrev pub reject_if : Bool → ConfigError → Checked (Unit {0})
reject_if true e = err e
reject_if false e = ok tt

-- A check that was passed, before more that were passed.
pub reject_if-ok {ℓ} :
    {B : Type ℓ} (bad : Bool) (e : ConfigError) (k : Checked B) {x : B}
    → (reject_if bad e >> k) ≡ ok x
    → (bad ≡ false) × (k ≡ ok x)
reject_if-ok true e k h = absurd (cc h)
reject_if-ok false e k h = (refl, h)

pub >>-ok {ℓ} :
    {B : Type ℓ} (m : Checked (Unit {0})) (k : Checked B) {x : B}
    → (m >> k) ≡ ok x
    → (m ≡ ok tt) × (k ≡ ok x)
>>-ok (ok t) k h = (refl, h)
>>-ok (err e) k h = absurd (cc h)

pub >>=-ok {ℓ κ} :
    {A : Type ℓ} {B : Type κ} (m : Checked A) (f : A → Checked B) {b : B}
    → (m >>= f) ≡ ok b
    → (a : A) × (m ≡ ok a) × (f a ≡ ok b)
>>=-ok (ok a) f h = (a, refl, h)
>>=-ok (err e) f h = absurd (cc h)

-- The code points of a text.
abbrev pub codes : String → List ℕ
codes String.[] = []
codes (String.◌∷◌ c s) = code c ∷ codes s

abbrev between : ℕ → ℕ → ℕ → Bool
between lo hi c = leb lo c && leb c hi

abbrev is_lower : ℕ → Bool
is_lower c = between b'a' b'z' c

abbrev is_digit : ℕ → Bool
is_digit c = between b'0' b'9' c

-- prometheusLabelRe: [a-zA-Z_][a-zA-Z0-9_]*.
unfoldable pub is_label_start : ℕ → Bool
is_label_start c = is_lower c || (between b'A' b'Z' c || c == b'_')

unfoldable pub is_label_char : ℕ → Bool
unfolding is_label_start
is_label_char c = is_label_start c || is_digit c

unfoldable pub matches_label : List ℕ → Bool
unfolding is_label_start is_label_char
matches_label [] = false
matches_label (c ∷ cs) = is_label_start c && not (any (λ d. not (is_label_char d)) cs)

-- proxyNameRe: [a-z0-9]([a-z0-9-]{0,61}[a-z0-9])?.
is_proxy_end : ℕ → Bool
is_proxy_end c = is_lower c || is_digit c

-- What may follow the first character: nothing, or characters of which the last is no dash.
proxy_tail : List ℕ → Bool
unfolding is_proxy_end
proxy_tail [] = true
proxy_tail (c ∷ []) = is_proxy_end c
proxy_tail (c ∷ (d ∷ cs)) = (is_proxy_end c || c == b'-') && proxy_tail (d ∷ cs)

matches_proxy_name : List ℕ → Bool
unfolding proxy_tail
matches_proxy_name [] = false
matches_proxy_name (c ∷ cs) = is_proxy_end c && (leb (length cs) 62 && proxy_tail cs)

-- unicode.IsControl.
unfoldable pub is_control : ℕ → Bool
is_control c = leb c 31 || between 0x7f 0x9f c

unfoldable pub begins_with_slash : List ℕ → Bool
begins_with_slash [] = false
begins_with_slash (c ∷ cs) = c == b'/'

unfoldable pub validate_metrics_path : String → Checked (Unit {0})
unfolding begins_with_slash is_space is_control
validate_metrics_path path = do
  reject_if (not (begins_with_slash (codes path))) invalid_metrics_path
  reject_if (str_eq path "/healthz" || str_eq path "/readyz") invalid_metrics_path
  reject_if (any (λ c. c == b'{' || c == b'}') (codes path)) invalid_metrics_path
  reject_if (any (λ c. is_space c || is_control c) (codes path)) invalid_metrics_path

abbrev pub fixed_labels : List String
fixed_labels = "target" ∷ "target_name" ∷ "probe_type" ∷ "proxy_name" ∷ "proxy_endpoint" ∷ []

unfoldable pub validate_label_name : String → Checked (Unit {0})
unfolding matches_label
validate_label_name k = do
  reject_if (not (matches_label (codes k))) (invalid_label_name k)
  reject_if (str_mem k fixed_labels) (fixed_label k)

-- proxyNameRe.MatchString.
unfoldable pub is_proxy_name : String → Bool
unfolding matches_proxy_name
is_proxy_name s = matches_proxy_name (codes s)

-- The loop of validateAllowedTagKeys, with the keys seen so far.
unfoldable pub allowed_keys_loop : List String → List String → Checked (Unit {0})
allowed_keys_loop seen [] = ok tt
allowed_keys_loop seen (k ∷ keys) =
    let rest = allowed_keys_loop (k ∷ seen) keys in
    (do reject_if (str_mem k seen) (duplicate_tag_key k); validate_label_name k; rest)

unfoldable pub validate_allowed_tag_keys : List String → Checked (Unit {0})
validate_allowed_tag_keys keys = do
  reject_if (ltb 30 (length keys)) too_many_allowed_tag_keys
  allowed_keys_loop [] keys

-- validateTagKeys over the keys of one target's tags.
unfoldable pub validate_tag_keys :
    String → List (String × String) → Bool → List String → Checked (Unit {0})
validate_tag_keys name [] allowlist_mode allowlist = ok tt
validate_tag_keys name ((k, v) ∷ tags) allowlist_mode allowlist =
    let rest = validate_tag_keys name tags allowlist_mode allowlist in
    if allowlist_mode
    then (do reject_if (not (str_mem k allowlist)) (tag_not_allowed name k); rest)
    else (do validate_label_name k; rest)
