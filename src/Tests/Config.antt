-- ===== src/Tests/Config.antt =====
-- A configuration that is accepted, its defaults, and the credentials of a proxy.
use netsonar.Base.{◌≡◌, refl, true, false, [], ◌∷◌, none, some, All}
use netsonar.Base.Int.{pos, add64, ◌+ℤ◌, wrap64}
use netsonar.Base.Spaces.{is_space}
use netsonar.Config.Types.{Config, ProxyConfig}
use netsonar.Config.Checks.{
  ok, validate_metrics_path, begins_with_slash, is_control, validate_allowed_tag_keys,
  allowed_keys_loop, validate_tag_keys, validate_label_name, matches_label, is_label_start,
  is_label_char,
}
use netsonar.Config.Options.{validate_probe_opts, check_option_types, check_probe_type}
use netsonar.Config.Rules.{
  Net, v4, validate_icmp_payload_sizes, sizes_checks, mtu_limits, not_descending,
  validate_dns_resolver, validate_proxy_name_unsupported, validate_ipv4_only_address,
}
use netsonar.Config.Rules.Sizes.{validate_icmp_payload_sizes-ok, IsProbable}
use netsonar.Config.Credentials.{Sources, validate_proxies, check_proxies}
use netsonar.Config.Validate.{
  validate, check_agent, check_agent_lists, check_targets, check_target, check_fields,
  check_target_resolver, check_global, shorter, add_keys, collect_dynamic_tag_keys,
}
use netsonar.Config.Validate.Sound.{validate_sound, IsSane}
use netsonar.Scheduler.Diff.Named.{Distinct}
use netsonar.Scheduler.State.{Scheduler, start, new, reload, stop}
use netsonar.Scheduler.State.Entries.{entry_targets}
use netsonar.Scheduler.State.History.{started, reloaded, History-stop}
use netsonar.Tests.Samples.{Vec, vec_ops, exporter, hash, path, second_config}

validate_icmp_payload_sizes-ok_example : IsProbable path path.probe_opts.icmp_payload_sizes
unfolding validate_icmp_payload_sizes sizes_checks mtu_limits not_descending add64 ◌+ℤ◌ wrap64
validate_icmp_payload_sizes-ok_example = validate_icmp_payload_sizes-ok path refl

-- Every host:port is 10.0.0.1:443, every address IPv4, every expression compiles.
abbrev pub net : Net
net = record {
  split_host_port = λ s. none;
  join_host_port = λ h p. h;
  parse_ip = λ s. some v4;
  atoi = λ s. some (pos 443);
  compiles = λ s. true;
  has_scheme = λ s. false;
  in_brackets = λ s. none;
}

abbrev pub sources : Sources
sources = record {
  lookup_env = λ s. some "secret";
  read_file = λ s. none;
  is_abs = λ s. true;
  parse_proxy_url = λ s. none;
  sorted = λ ps. ps;
}

abbrev proxy : ProxyConfig
proxy = record {
  url = "http://proxy:3128";
  endpoint = "";
  tls_skip_verify = false;
  username = "monitor";
  username_env = "";
  username_file = "";
  password_env = "PROXY_PASSWORD";
  password_file = "";
  credentials = record { username = ""; password = "" };
}

abbrev pub path_config : Config
path_config = record second_config { targets = path ∷ [] }

pub path_config-accepted : validate net sources path_config ≡ ok path_config
unfolding validate check_agent check_agent_lists check_targets check_target check_fields
    check_target_resolver check_global shorter add_keys collect_dynamic_tag_keys
    validate_metrics_path begins_with_slash is_space is_control validate_dns_resolver
    validate_proxies check_proxies not_descending validate_allowed_tag_keys allowed_keys_loop
    validate_tag_keys validate_label_name matches_label is_label_start is_label_char
    validate_probe_opts check_option_types check_probe_type validate_proxy_name_unsupported
    validate_ipv4_only_address validate_icmp_payload_sizes sizes_checks mtu_limits add64 ◌+ℤ◌ wrap64
path_config-accepted = refl

validate_sound_example : Distinct path_config.targets × All IsSane path_config.targets
validate_sound_example = validate_sound net sources path_config path_config path_config-accepted

-- Start, and one Reload.
abbrev reached : Scheduler Vec
reached = reload vec_ops hash path_config (start vec_ops path_config (new vec_ops exporter))

History-stop_example :
    Distinct (entry_targets reached.probes)
    × (stop vec_ops reached ≡ some (record reached { probes = []; goroutines = [] }))
History-stop_example = History-stop vec_ops hash net sources exporter (
    reloaded path_config path_config path_config-accepted
      (started path_config path_config path_config-accepted))
