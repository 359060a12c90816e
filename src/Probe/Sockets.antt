-- ===== src/Probe/Sockets.antt =====
-- What internal/probe uses of net, crypto/tls and net/http to open, use and close connections. A
-- connection is a number; `held` are those that are open. The operations may move the world on as they
-- like, but only `dial` opens a connection, and only `close` closes one.
use netsonar.Base.{ℕ, ◌≡◌, refl, ◌⊎◌, inl, inr, Bool, String, List, [], ◌∷◌, if◌then◌else◌, ◌==◌}
use netsonar.Base.Int.{ℤ}
use netsonar.Probe.Result.{Certificate}
use netsonar.Probe.Resolve.{Env, Resolver}

-- A Go result with an error: the value, or the text of the error.
pub data Outcome (A : Type 0) : Type 0 where
  got : A → Outcome A
  failed : String → Outcome A

pub Outcome-cases :
    {A : Type 0} (r : Outcome A) → ((a : A) × (r ≡ got a)) ⊎ ((e : String) × (r ≡ failed e))
Outcome-cases (got a) = inl (a, refl)
Outcome-cases (failed e) = inr (e, refl)

-- The fields of tls.Config that the probes set.
pub record TlsConfig : Type 0 where
  pub server_name : String
  pub insecure_skip_verify : Bool

abbrev pub remove : ℕ → List ℕ → List ℕ
remove c [] = []
remove c (d ∷ ds) = if d == c then ds else d ∷ remove c ds

abbrev pub opened : Outcome ℕ → List ℕ → List ℕ
opened (got c) cs = c ∷ cs
opened (failed e) cs = cs

pub record Sockets (W : Type 0) : Type 0 where
  pub env : Env W
  pub split_host_port : String → Outcome (String × String)
  pub join_host_port : String → String → String
  -- resolver.LookupIPAddr, each address as its text.
  pub lookup_ip_addr : Resolver → String → W → Outcome (List String) × W
  pub dial : Resolver → String → W → Outcome ℕ × W
  -- Whether the delay of the fallback passes before the context of the dialing is done.
  pub fallback_timer : W → Bool × W
  pub close : ℕ → W → W
  -- HandshakeContext on the connection; the certificates of the peer.
  pub handshake : ℕ → TlsConfig → W → Outcome (List Certificate) × W
  -- SetDeadline with the deadline of the context, `got` where it has none.
  pub set_deadline : ℕ → W → Outcome (Unit {0}) × W
  -- A CONNECT request to the destination with the authorization, and its answer.
  pub write_connect : ℕ → String → String → W → Outcome (Unit {0}) × W
  pub read_response : ℕ → W → Outcome ℤ × W
  pub held : W → List ℕ
  pub held-now : (w : W) → held (env.now w).1 ≡ held w
  pub held-lookup :
      (r : Resolver) (host : String) (w : W) → held (lookup_ip_addr r host w).1 ≡ held w
  pub held-dial :
      (r : Resolver) (target : String) (w : W)
      → held (dial r target w).1 ≡ opened (dial r target w).0 (held w)
  pub held-timer : (w : W) → held (fallback_timer w).1 ≡ held w
  pub held-close : (c : ℕ) (w : W) → held (close c w) ≡ remove c (held w)
  pub held-handshake : (c : ℕ) (t : TlsConfig) (w : W) → held (handshake c t w).1 ≡ held w
  pub held-deadline : (c : ℕ) (w : W) → held (set_deadline c w).1 ≡ held w
  pub held-write :
      (c : ℕ) (dest auth : String) (w : W) → held (write_connect c dest auth w).1 ≡ held w
  pub held-read : (c : ℕ) (w : W) → held (read_response c w).1 ≡ held w
