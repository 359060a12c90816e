-- ===== src/Config/Defaults/Complete.antt =====
-- What applyDefaults (internal/config/config.go) fills in stays filled in.
use netsonar.Base.{◌≡◌, refl, List, [], ◌∷◌, map, arith}
use netsonar.Config.Types.{AgentConfig, ProbeOptions, TargetConfig, Config}
use netsonar.Config.Defaults.{default_agent, default_mtu_opts, default_target, apply_defaults}

default_mtu_opts_idem :
    (a : AgentConfig) (o : ProbeOptions)
    → default_mtu_opts a (default_mtu_opts a o) ≡ default_mtu_opts a o
unfolding default_mtu_opts
default_mtu_opts_idem a o = ground arith

default_target_idem :
    (a : AgentConfig) (t : TargetConfig)
    → default_target a (default_target a t) ≡ default_target a t
unfolding default_target
default_target_idem a t = ground (arith, default_mtu_opts_idem a t.probe_opts)

default_agent_idem : (a : AgentConfig) → default_agent (default_agent a) ≡ default_agent a
unfolding default_agent
default_agent_idem a = ground arith

targets_idem :
    (a : AgentConfig) (ts : List TargetConfig)
    → map (default_target a) (map (default_target a) ts) ≡ map (default_target a) ts
targets_idem a [] = refl
targets_idem a (t ∷ ts) = rw (default_target_idem a t, targets_idem a ts)

-- Applying the defaults a second time changes nothing.
pub apply_defaults_idem : (cfg : Config) → apply_defaults (apply_defaults cfg) ≡ apply_defaults cfg
unfolding apply_defaults
apply_defaults_idem cfg =
    rw (default_agent_idem cfg.agent, targets_idem (default_agent cfg.agent) cfg.targets)
