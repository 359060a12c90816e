-- ===== src/Probe/Resolve.antt =====
-- internal/probe/resolver.go, and resolveIPv4, safeSub and addObservedPhase of
-- internal/probe/prober.go. What the operating system answers is an environment over a state `W`.
use netsonar.Base.{
  Bool, true, false, String, ◌<>◌, str_eq, List, [], ◌∷◌, ◌++◌, Option, none, some, if◌then◌else◌,
}
use netsonar.Base.Int.{ℤ, pos, sub64, ltb_ℤ}
use netsonar.Probe.Result.{Phase}

-- What net.ParseIP returns: an address that To4() accepts (IPv4-mapped IPv6 too), or another.
pub data Ip : Type 0 where
  ipv4 : String → Ip
  ipv6 : String → Ip

-- net.DefaultResolver, or a resolver that dials one server.
pub data Resolver : Type 0 where
  system : Resolver
  custom : String → Resolver

-- An `error`: its text, and whether errors.Is finds os.ErrPermission in it.
pub record GoError : Type 0 where
  pub text : String
  pub is_permission : Bool

-- Each observation of the context, the clock or the resolver may move the world on.
pub record Env (W : Type 0) : Type 0 where
  pub ctx_err : W → Option String × W
  pub now : W → ℤ × W
  pub parse_ip : String → Option Ip
  pub lookup_ip4 : Resolver → String → W → (Option (List Ip) × String) × W

unfoldable pub build_resolver : String → Resolver
build_resolver addr = if str_eq addr "" then system else custom addr

unfoldable pub resolver_for : Option String → Resolver
unfolding build_resolver
resolver_for none = system
resolver_for (some addr) = build_resolver addr

pub record Ipv4ResolveResult : Type 0 where
  pub addr : String
  pub dns_start : Option ℤ
  pub dns_end : Option ℤ

abbrev is_ipv4 : Ip → Bool
is_ipv4 (ipv4 a) = true
is_ipv4 (ipv6 a) = false

-- The first address that To4() accepts.
unfoldable pub first_ipv4 : List Ip → Option String
first_ipv4 [] = none
first_ipv4 (ipv4 a ∷ ips) = some a
first_ipv4 (ipv6 a ∷ ips) = first_ipv4 ips

abbrev pub no_addr : Ipv4ResolveResult
no_addr = record { addr = ""; dns_start = none; dns_end = none }

module _ {W : Type 0} (env : Env W) where
  lookup_ipv4 : Resolver → String → W → (Ipv4ResolveResult × Option String) × W
  unfolding first_ipv4
  lookup_ipv4 resolver address w =
      let (start, w1) = env.now w in
      let (answer, w2) = env.lookup_ip4 resolver address w1 in
      let (end, w3) = env.now w2 in
      let looked : Ipv4ResolveResult = record {
        addr = "";
        dns_start = some start;
        dns_end = some end;
      } in
      elim answer.0 [
        | none ↦ ((looked, some answer.1), w3)
        | some ips ↦ elim (first_ipv4 ips) [
          | some a ↦ ((record looked { addr = a }, none), w3)
          | none ↦ ((looked, some ("no IPv4 address found for " <> address)), w3)
        ]
      ]

  unfoldable pub resolve_ipv4 : Resolver → String → W → (Ipv4ResolveResult × Option String) × W
  unfolding lookup_ipv4
  resolve_ipv4 resolver address w = elim (env.parse_ip address) [
    | some (ipv4 a) ↦ ((record no_addr { addr = a }, none), w)
    | some (ipv6 a) ↦
        ((no_addr, some ("IPv6 literal " <> address <> " is not supported (IPv4-only prober)")), w)
    | none ↦ lookup_ipv4 resolver address w
  ]

unfoldable pub safe_sub : ℤ → ℤ → ℤ
safe_sub end start = let d = sub64 end start in if ltb_ℤ d (pos 0) then pos 0 else d

unfoldable pub add_observed_phase :
    List (Phase × ℤ) → Phase → Option ℤ → Option ℤ → List (Phase × ℤ)
unfolding safe_sub
add_observed_phase phases phase (some end) (some start) = phases ++ (phase, safe_sub end start) ∷ []
add_observed_phase phases phase _ _ = phases

-- The lines of ICMPProber.Probe and MTUProber.Probe that fill `phases` from a resolution.
unfoldable pub dns_phases : Ipv4ResolveResult → List (Phase × ℤ)
unfolding add_observed_phase
dns_phases r = add_observed_phase [] Phase.dns_resolve r.dns_end r.dns_start
