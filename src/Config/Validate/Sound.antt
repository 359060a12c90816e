-- ===== src/Config/Validate/Sound.antt =====
-- What a configuration that validate (internal/config/config.go) accepts has.
use netsonar.Base.{
  ◌≤◌, ◌≡◌, refl, Bool, true, false, not, String, str_mem, str_eq, str_eq_iff, str_eq_refl, List,
  [], ◌∷◌, none, length, NonEmpty, ap, subst, sym, arith, Bool-cases, inl, inr, All, is_empty,
}
use netsonar.Base.Int.{ℤ, pos, ◌<ℤ◌, ◌≤ℤ◌}
use netsonar.Config.Types.{
  ProbeType, tcp, http, icmp, mtu, dns, tls_cert, http_body, proxy_connect, unknown, TargetConfig,
  ProxyConfig, Config,
}
use netsonar.Config.Checks.{ok, validate_tag_keys, >>-ok, >>=-ok}
use netsonar.Config.Rules.{
  Net, resolve_target_proxy, validate_http_method, validate_http_request_body, validate_host_port,
}
use netsonar.Config.Options.{
  validate_probe_opts, check_option_types, check_probe_type, check_any_http, check_proxy_connect,
}
use netsonar.Config.Credentials.{Sources, validate_proxies}
use netsonar.Config.Validate.{
  check_fields, check_target, check_targets, check_target_resolver, validate, check_agent,
  check_agent_lists, check_global, shorter, is_unknown,
}
use netsonar.Scheduler.Diff.Named.{Distinct, find_name}

-- A target with its proxy resolved is the target but for that field.
abbrev Kept : TargetConfig → TargetConfig → Type 0
Kept t t' = t' ≡ record t { resolved_proxy = t'.resolved_proxy }

resolve_target_proxy-Kept :
    (t : TargetConfig) (proxies : List (String × ProxyConfig)) (required : Bool) (t' : TargetConfig)
    → resolve_target_proxy t proxies required ≡ ok t'
    → Kept t t'
unfolding resolve_target_proxy
resolve_target_proxy-Kept t proxies required t' h = ground arith

module _ (net : Net) (proxies : List (String × ProxyConfig)) where
  check_any_http-Kept : (t t' : TargetConfig) → check_any_http net proxies t ≡ ok t' → Kept t t'
  unfolding check_any_http
  check_any_http-Kept t t' h =
      let (r, kept, h1) = >>=-ok (resolve_target_proxy t proxies false) _ h in
      let (_, h2) = >>-ok (validate_http_method r) _ h1 in
      let (_, h3) = >>-ok (validate_http_request_body r) _ h2 in
      let same : r ≡ t' = ground arith in
      resolve_target_proxy-Kept t proxies false t' (rw (kept, same))

  check_proxy_connect-Kept :
      (t t' : TargetConfig) → check_proxy_connect net proxies t ≡ ok t' → Kept t t'
  unfolding check_proxy_connect
  check_proxy_connect-Kept t t' h =
      let (r, kept, h1) = >>=-ok (resolve_target_proxy t proxies true) _ h in
      let (_, h2) = >>-ok (validate_host_port net r) _ h1 in
      let same : r ≡ t' = ground arith in
      resolve_target_proxy-Kept t proxies true t' (rw (kept, same))

  check_probe_type-Kept :
      (ty : ProbeType) (t t' : TargetConfig) → check_probe_type net proxies ty t ≡ ok t' → Kept t t'
  unfolding check_probe_type
  check_probe_type-Kept tcp t t' h = ground arith
  check_probe_type-Kept http t t' h = check_any_http-Kept t t' h
  check_probe_type-Kept http_body t t' h = check_any_http-Kept t t' h
  check_probe_type-Kept icmp t t' h = ground arith
  check_probe_type-Kept mtu t t' h = ground arith
  check_probe_type-Kept dns t t' h = ground arith
  check_probe_type-Kept tls_cert t t' h = resolve_target_proxy-Kept t proxies false t' h
  check_probe_type-Kept proxy_connect t t' h = check_proxy_connect-Kept t t' h
  check_probe_type-Kept (unknown s) t t' h = ground arith

-- The fields of a target are in order.
abbrev pub IsSane : TargetConfig → Type 0
IsSane t =
    NonEmpty t.name
    × NonEmpty t.address
    × (is_unknown t.probe_type ≡ false)
    × (pos 0 <ℤ t.interval)
    × (pos 0 <ℤ t.timeout)
    × (t.timeout ≤ℤ t.interval)
    × (length t.tags ≤ 20)

check_fields_lem :
    (seen : List String) (t : TargetConfig)
    → check_fields seen t ≡ ok tt
    → (str_mem t.name seen ≡ false) × IsSane t
unfolding check_fields
check_fields_lem seen t h = ground arith

-- The names are new: none among those seen, none twice.
abbrev NewNames : List String → List TargetConfig → Type 0
NewNames seen [] = Unit
NewNames seen (t ∷ ts) = (str_mem t.name seen ≡ false) × NewNames (t.name ∷ seen) ts

module _ (net : Net) (proxies : List (String × ProxyConfig)) (allowlist : List String) where
  check_target_lem :
      (seen : List String) (t t' : TargetConfig)
      → check_target net proxies allowlist seen t ≡ ok t'
      → (t'.name ≡ t.name) × (str_mem t'.name seen ≡ false) × IsSane t'
  unfolding check_target validate_probe_opts
  check_target_lem seen t t' h =
      let (a, h1) = >>-ok (check_fields seen t) _ h in
      let (_, h2) =
        >>-ok (validate_tag_keys t.name t.tags (not (is_empty allowlist)) allowlist) _ h1 in
      let (_, h3) = >>-ok (check_target_resolver net t.dns_resolver) _ h2 in
      let (_, h4) = >>-ok (check_option_types t.name t.probe_type t.probe_opts) _ h3 in
      let kept = check_probe_type-Kept net proxies t.probe_type t t' h4 in
      let (new, sane) = check_fields_lem seen t a in
      let same : t'.name ≡ t.name = ap (λ u. u.name) kept in
      (same, rw (same, new), subst IsSane (sym kept) sane)

  check_targets_lem :
      (seen : List String) (shortest : ℤ) (ts : List TargetConfig) (r : List TargetConfig × ℤ)
      → check_targets net proxies allowlist seen shortest ts ≡ ok r
      → NewNames seen r.0 × All IsSane r.0
  unfolding check_targets
  check_targets_lem seen shortest [] r h =
      let eq : ([], shortest) ≡ r = ground arith in
      subst (λ q. NewNames seen q.0 × All IsSane q.0) eq (tt, tt)
  check_targets_lem seen shortest (t ∷ ts) r h =
      let (t', a, h1) = >>=-ok (check_target net proxies allowlist seen t) _ h in
      let (q, b, h2) =
        >>=-ok
          (check_targets net proxies allowlist (t.name ∷ seen) (shorter shortest t.interval) ts) _
          h1 in
      let (same, new, sane) = check_target_lem seen t t' a in
      let (news, sanes) = check_targets_lem (t.name ∷ seen) (shorter shortest t.interval) ts q b in
      let eq : (t' ∷ q.0, q.1) ≡ r = ground arith in
      let news' = subst (λ n. NewNames (n ∷ seen) q.0) (sym same) news in
      subst (λ p. NewNames seen p.0 × All IsSane p.0) eq ((new, news'), (sane, sanes))

-- A name that is seen is not the name of a target that comes later.
NewNames-find :
    (n : String) (seen : List String) (ts : List TargetConfig)
    → str_mem n seen ≡ true
    → NewNames seen ts
    → find_name n ts ≡ none
unfolding find_name
NewNames-find n seen [] m h = refl
NewNames-find n seen (t ∷ ts) m h = elim (Bool-cases (str_eq t.name n)) [
  | inl e ↦
      let eq : t.name ≡ n = (str_eq_iff t.name n).0 e in
      let clash = subst (λ x. str_mem x seen ≡ false) eq h.0 in absurd (cc (m, clash))
  | inr e ↦
      let later = NewNames-find n (t.name ∷ seen) ts (ground (arith, m)) h.1 in
      rw (find_name, e, later)
]

NewNames-Distinct : (seen : List String) (ts : List TargetConfig) → NewNames seen ts → Distinct ts
NewNames-Distinct seen [] h = tt
NewNames-Distinct seen (t ∷ ts) h = (
  NewNames-find t.name (t.name ∷ seen) ts (ground (arith, str_eq_refl t.name)) h.1,
  NewNames-Distinct (t.name ∷ seen) ts h.1,
)

-- A configuration that is accepted has targets with distinct names, and each has a name and an
-- address, a known probe type, a positive interval, a positive timeout within it, and at most 20 tags.
pub validate_sound :
    (net : Net) (src : Sources) (cfg cfg' : Config)
    → validate net src cfg ≡ ok cfg'
    → Distinct cfg'.targets × All IsSane cfg'.targets
unfolding validate
validate_sound net src cfg cfg' h =
    let (_, h1) = >>-ok (check_agent net cfg.agent) _ h in
    let (proxies, _, h2) = >>=-ok (validate_proxies src cfg.proxies) _ h1 in
    let (_, h3) = >>-ok (check_agent_lists cfg.agent) _ h2 in
    let (r, a, h4) =
      >>=-ok (check_targets net proxies cfg.agent.allowed_tag_keys [] (pos 0) cfg.targets) _ h3 in
    let (_, h5) = >>-ok (check_global cfg.agent r.0 r.1) _ h4 in
    let (new, sane) =
      check_targets_lem net proxies cfg.agent.allowed_tag_keys [] (pos 0) cfg.targets r a in
    let eq : r.0 ≡ cfg'.targets = ground arith in
    subst (λ ts. Distinct ts × All IsSane ts) eq (NewNames-Distinct [] r.0 new, sane)
