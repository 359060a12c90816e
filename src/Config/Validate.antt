-- ===== src/Config/Validate.antt =====
-- validate and CollectTagKeys of internal/config/config.go. A configuration that passes is returned
-- with its proxies resolved; the source writes them in place.
pub mod Sound
use netsonar.Base.{
  ℕ, ◌≡◌, Bool, true, false, ◌&&◌, ◌||◌, not, String, str_mem, is_blank, List, [], ◌∷◌, Option,
  none, some, if◌then◌else◌, ltb, length, is_empty, any,
}
use netsonar.Base.Int.{ℤ, pos, ltb_ℤ, leb_ℤ, eq_ℤ}
use netsonar.Config.Types.{
  ProbeType, tcp, unknown, TargetConfig, ProxyConfig, AgentConfig, Config, max_tags_per_target,
  max_global_tag_keys,
}
use netsonar.Config.Checks.{
  Checked, ok, err, ◌>>=◌, ◌>>◌, reject_if, invalid_log_level, invalid_log_format, negative_jitter,
  invalid_default_sizes, jitter_exceeds_interval, too_many_tag_keys, missing_name, missing_address,
  duplicate_name, invalid_probe_type, invalid_interval, invalid_timeout, timeout_exceeds_interval,
  too_many_tags, validate_metrics_path, validate_allowed_tag_keys, validate_tag_keys,
}
use netsonar.Config.Rules.{Net, validate_dns_resolver, not_descending}
use netsonar.Config.Options.{validate_probe_opts}
use netsonar.Config.Credentials.{Sources, validate_proxies}

abbrev log_levels : List String
log_levels = "debug" ∷ "info" ∷ "warn" ∷ "error" ∷ []

abbrev log_formats : List String
log_formats = "text" ∷ "json" ∷ []

-- `!ValidProbeTypes[t.ProbeType]`.
abbrev pub is_unknown : ProbeType → Bool
is_unknown (unknown s) = true
is_unknown _ = false

-- `shortestInterval` after a target.
unfoldable pub shorter : ℤ → ℤ → ℤ
shorter shortest interval =
    if eq_ℤ shortest (pos 0) || ltb_ℤ interval shortest then interval else shortest

-- The checks of one target that come before its tags and its options.
unfoldable pub check_fields : List String → TargetConfig → Checked (Unit {0})
check_fields seen t = do
  reject_if (is_blank t.name) missing_name
  reject_if (is_blank t.address) (missing_address t.name)
  reject_if (str_mem t.name seen) (duplicate_name t.name)
  reject_if (is_unknown t.probe_type) (invalid_probe_type t.name)
  reject_if (leb_ℤ t.interval (pos 0)) (invalid_interval t.name)
  reject_if (leb_ℤ t.timeout (pos 0)) (invalid_timeout t.name)
  reject_if (ltb_ℤ t.interval t.timeout) (timeout_exceeds_interval t.name)
  reject_if (ltb max_tags_per_target (length t.tags)) (too_many_tags t.name)

unfoldable pub check_target_resolver : Net → Option String → Checked (Unit {0})
check_target_resolver net none = ok tt
check_target_resolver net (some s) = validate_dns_resolver net s

unfoldable pub check_target :
    Net
    → List (String × ProxyConfig)
    → List String
    → List String
    → TargetConfig
    → Checked TargetConfig
unfolding check_target_resolver
check_target net proxies allowlist seen t = do
  check_fields seen t
  validate_tag_keys t.name t.tags (not (is_empty allowlist)) allowlist
  check_target_resolver net t.dns_resolver
  validate_probe_opts net proxies t

-- The loop over the targets, with the names seen so far. It yields the targets and `shortestInterval`.
unfoldable pub check_targets :
    Net
    → List (String × ProxyConfig)
    → List String
    → List String
    → ℤ
    → List TargetConfig
    → Checked (List TargetConfig × ℤ)
unfolding shorter check_target
check_targets net proxies allowlist seen shortest [] = ok ([], shortest)
check_targets net proxies allowlist seen shortest (t ∷ ts) =
    let rest =
      check_targets net proxies allowlist (t.name ∷ seen) (shorter shortest t.interval) ts in
    (do t' ← check_target net proxies allowlist seen t; r ← rest; ok (t' ∷ r.0, r.1))

-- `seen[k] = true` for the keys of the tags.
unfoldable pub add_keys : List (String × String) → List String → List String
add_keys [] seen = seen
add_keys ((k, v) ∷ tags) seen = add_keys tags (if str_mem k seen then seen else k ∷ seen)

-- collectDynamicTagKeys, before the keys are sorted.
unfoldable pub collect_dynamic_tag_keys : List TargetConfig → List String → List String
unfolding add_keys
collect_dynamic_tag_keys [] seen = seen
collect_dynamic_tag_keys (t ∷ ts) seen = collect_dynamic_tag_keys ts (add_keys t.tags seen)

-- What follows the loop over the targets.
unfoldable pub check_global : AgentConfig → List TargetConfig → ℤ → Checked (Unit {0})
unfolding collect_dynamic_tag_keys
check_global a ts shortest = do
  reject_if
      (ltb_ℤ (pos 0) a.initial_probe_jitter
        && (ltb_ℤ (pos 0) shortest && ltb_ℤ shortest a.initial_probe_jitter))
      jitter_exceeds_interval
  reject_if
      (is_empty a.allowed_tag_keys
        && ltb max_global_tag_keys (length (collect_dynamic_tag_keys ts [])))
      too_many_tag_keys

-- The checks of the agent's own section, before and after those of the proxies.
unfoldable pub check_agent : Net → AgentConfig → Checked (Unit {0})
check_agent net a = do
  reject_if (not (str_mem a.log_level log_levels)) invalid_log_level
  reject_if (not (str_mem a.log_format log_formats)) invalid_log_format
  validate_metrics_path a.metrics_path
  reject_if (ltb_ℤ a.initial_probe_jitter (pos 0)) negative_jitter
  validate_dns_resolver net a.dns_resolver

unfoldable pub check_agent_lists : AgentConfig → Checked (Unit {0})
check_agent_lists a = do
  reject_if (any (λ v. leb_ℤ v (pos 0)) a.default_icmp_payload_sizes) invalid_default_sizes
  reject_if (not_descending a.default_icmp_payload_sizes) invalid_default_sizes
  validate_allowed_tag_keys a.allowed_tag_keys

unfoldable pub validate : Net → Sources → Config → Checked Config
unfolding check_agent check_agent_lists check_targets check_global
validate net src cfg = do
  check_agent net cfg.agent
  proxies ← validate_proxies src cfg.proxies
  check_agent_lists cfg.agent
  r ← check_targets net proxies cfg.agent.allowed_tag_keys [] (pos 0) cfg.targets
  check_global cfg.agent r.0 r.1
  ok (record cfg { proxies = proxies; targets = r.0 })
