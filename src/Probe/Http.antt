-- ===== src/Probe/Http.antt =====
-- The HTTP probes: internal/probe/http.go, http_body.go and http_proxy_path.go. This file has what they
-- use of net/http and net/url beyond `Sockets`.
pub mod Redirect
pub mod Exchange
pub mod Loop
pub mod ViaProxy
pub mod Body
pub mod Trace
pub mod Direct
pub mod Phases
use netsonar.Base.{ℕ, ◌≡◌, Bool, String, str_eq, List, [], ◌∷◌, Option, none, some, if◌then◌else◌}
use netsonar.Base.Int.{ℤ}
use netsonar.Proxyurl.{Parts}
use netsonar.Probe.Result.{Phase, phase_text}
use netsonar.Probe.Resolve.{safe_sub}
use netsonar.Probe.Sockets.{Outcome, Sockets}

-- Headers, as the pairs that are set.
abbrev pub Headers : Type 0
Headers = List (String × String)

-- A request: `body_bytes` is the length of its body, 0 for none; `proxy_auth` is given where it is written
-- in the form for a proxy.
pub record Request : Type 0 where
  pub method : String
  pub url : Parts
  pub headers : Headers
  pub body_bytes : ℤ
  pub proxy_auth : Option String

-- A response, with the connection that its body is read from; `location` is "" without that header.
pub record Response : Type 0 where
  pub status_code : ℤ
  pub location : String
  pub conn : ℕ

pub record HttpOps {W : Type 0} (net : Sockets W) : Type 0 where
  pub parse_url : String → Outcome Parts
  -- `base.Parse(location)`.
  pub resolve_reference : Parts → String → Outcome Parts
  pub canonical_header_key : String → String
  -- SetDeadline with the zero time.
  pub clear_deadline : ℕ → W → W
  -- What NewRequestWithContext says of a method and a URL.
  pub check_request : String → Parts → Outcome (Unit {0})
  pub write_request : ℕ → Request → W → Outcome (Unit {0}) × W
  -- ReadResponse, and when the first byte came, if one did.
  pub read_http : ℕ → W → (Outcome (ℤ × String) × Option ℤ) × W
  -- The bytes read of the body, up to a limit.
  pub copy_body : ℤ → ℕ → W → Outcome ℤ × W
  -- The body, up to a limit, and its length.
  pub read_body : ℤ → ℕ → W → Outcome (String × ℤ) × W
  pub held-clear : (c : ℕ) (w : W) → net.held (clear_deadline c w) ≡ net.held w
  pub held-write_request :
      (c : ℕ) (q : Request) (w : W) → net.held (write_request c q w).1 ≡ net.held w
  pub held-read_http : (c : ℕ) (w : W) → net.held (read_http c w).1 ≡ net.held w
  pub held-copy_body : (n : ℤ) (c : ℕ) (w : W) → net.held (copy_body n c w).1 ≡ net.held w
  pub held-read_body : (n : ℤ) (c : ℕ) (w : W) → net.held (read_body n c w).1 ≡ net.held w

-- `phases[phase] = d`.
unfoldable pub put_phase : Phase → ℤ → List (Phase × ℤ) → List (Phase × ℤ)
put_phase p d [] = (p, d) ∷ []
put_phase p d ((q, e) ∷ ps) =
    if str_eq (phase_text q) (phase_text p) then (q, d) ∷ ps else (q, e) ∷ put_phase p d ps

-- addObservedPhase on a map that may have the phase already.
unfoldable pub put_observed_phase :
    List (Phase × ℤ) → Phase → Option ℤ → Option ℤ → List (Phase × ℤ)
unfolding put_phase safe_sub
put_observed_phase phases phase (some end) (some start) =
    put_phase phase (safe_sub end start) phases
put_observed_phase phases phase _ _ = phases
