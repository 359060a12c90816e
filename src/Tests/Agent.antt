-- ===== src/Tests/Agent.antt =====
-- The agent started with a flag, a reload of its own file, and its end.
use netsonar.Base.{◌≡◌, ◌⊎◌, refl, true, [], ◌∷◌, none, some, is_none, str_eq_iff}
use netsonar.Base.Int.{pos}
use netsonar.Config.Types.{Config}
use netsonar.Config.Defaults.{apply_defaults}
use netsonar.Config.Validate.{collect_dynamic_tag_keys, add_keys}
use netsonar.Config.TagKeys.{collect_tag_keys}
use netsonar.Metrics.Exporter.{MetricsExporter}
use netsonar.Metrics.Register.{Registry, unique, is_plain, new_metrics_exporter}
use netsonar.Metrics.Register.Panics.{AreTagKeys, new_metrics_exporter-panics}
use netsonar.Agent.{
  Agent, World, sighup, sigterm, server_closed, startup_of, load_config, launch,
  override_listen_addr, start_agent, handle_reload, serve,
}
use netsonar.Agent.Reload.{Applied, Refused, handle_reload-Applied}
use netsonar.Agent.Run.{
  start_agent-IsNumbered, start_agent-Kept, override_blocks_reload, start_agent-serves, EndsAs,
}
use netsonar.Tests.Samples.{Vec, vec_ops, hash}
use netsonar.Tests.Config.{net, sources, path_config, path_config-accepted}

abbrev registry : Registry Vec
registry = record {
  empty = λ l. none;
  accepts = unique;
  accepts_unique = λ ls h. refl;
  rejects_repeated = λ ls h. h;
}

abbrev world : World Vec
world = record {
  ops = vec_ops;
  registry = registry;
  net = net;
  sources = sources;
  hash = hash;
  compute_hash = λ cfg. some "abc";
  build = record { version = "1"; revision = "r"; build_date = "d" };
}

-- A key of a tag that one vector has already.
phase_key-AreTagKeys : AreTagKeys ("phase" ∷ "site" ∷ [])
unfolding is_plain
phase_key-AreTagKeys = record { no_repetition = refl; free = refl; plain = refl }

new_metrics_exporter-panics_example :
    is_none (new_metrics_exporter registry ("phase" ∷ "site" ∷ [])) ≡ true
new_metrics_exporter-panics_example =
    new_metrics_exporter-panics registry ("phase" ∷ "site" ∷ []) phase_key-AreTagKeys

path_config-loaded : load_config world (some path_config) ≡ some path_config
unfolding load_config apply_defaults
path_config-loaded = rw (path_config-accepted, load_config)

-- Started with `--listen-addr :9000`, while the file says :9275.
abbrev metrics : MetricsExporter Vec
metrics = record {
  tag_keys = "site" ∷ [];
  vec = λ m l. none;
  targets_total = pos 0;
  config_reload_ts = pos 0;
}

abbrev flagged : Agent Vec
flagged = launch world (override_listen_addr world ":9000" path_config) metrics (pos 5)

flagged-started : start_agent world ":9000" (some path_config) (pos 5) ≡ some flagged
unfolding start_agent new_metrics_exporter override_listen_addr collect_tag_keys
    collect_dynamic_tag_keys add_keys
flagged-started = rw (path_config-loaded, start_agent)

override_blocks_reload_example : handle_reload world (some path_config) (pos 9) flagged ≡ flagged
override_blocks_reload_example =
    override_blocks_reload world ":9000" (some path_config) (pos 5) refl flagged-started
      (some path_config) (pos 9) path_config-loaded (λ e. cc ((str_eq_iff ":9275" ":9000").1 e))

start_agent-serves_example :
    EndsAs world
      (some 0)
      (serve world (server_closed ∷ (sighup none (pos 7) ∷ (sigterm true ∷ []))) flagged)
start_agent-serves_example =
    start_agent-serves world ":9000" (some path_config) (pos 5)
      (server_closed ∷ (sighup none (pos 7) ∷ (sigterm true ∷ []))) flagged-started

handle_reload-Applied_example :
    (Refused world (load_config world (some path_config)) flagged
      × (handle_reload world (some path_config) (pos 9) flagged ≡ flagged))
    ⊎ ((cfg : Config) × (load_config world (some path_config) ≡ some cfg)
        × (startup_of cfg ≡ flagged.startup)
        × Applied world cfg
            (pos 9)
            flagged
            (handle_reload world (some path_config) (pos 9) flagged))
handle_reload-Applied_example =
    handle_reload-Applied world (some path_config) (pos 9) flagged
      (start_agent-Kept world ":9000" (some path_config) (pos 5) flagged-started).0
      (start_agent-IsNumbered world ":9000" (some path_config) (pos 5) flagged-started)
