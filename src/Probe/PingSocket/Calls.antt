-- ===== src/Probe/PingSocket/Calls.antt =====
-- The system calls of internal/probe/mtu_backend_linux.go, and pollTimeout and openMTUPingSocket, which
-- make some of them.
use netsonar.Base.{
  ℕ, ◌-◌, ◌≤◌, ◌<◌, ◌≡◌, Bool, true, false, String, ◌<>◌, List, ◌∷◌, Option, none, some, is_some,
  if◌then◌else◌,
}
use netsonar.Base.Int.{ℤ, pos, sub64, leb_ℤ, ltb_ℤ, quot}
use netsonar.Probe.Resolve.{Env, GoError}
use netsonar.Probe.Sockets.{Outcome, remove}
use netsonar.Probe.PingSocket.Queue.{Kernel}
use netsonar.Probe.Icmp.Echo.{Message}

-- The result of a system call: a value, or the number of its error.
pub data SysResult (A : Type 0) : Type 0 where
  done : A → SysResult A
  fault : ℕ → SysResult A

pub data SocketOption : Type 0 where
  recv_err mtu_discover_probe : SocketOption

-- What Poll reports of one descriptor: how many are ready, and POLLERR and POLLIN of its events.
pub record Polled : Type 0 where
  pub ready : ℕ
  pub pollerr : Bool
  pub pollin : Bool

-- A message of Recvmsg on the error queue, with the flags MSG_CTRUNC and MSG_TRUNC.
pub record Received : Type 0 where
  pub quoted : List ℕ
  pub oob : List ℕ
  pub ctrunc : Bool
  pub trunc : Bool

abbrev pub opened_fd : SysResult ℕ → List ℕ → List ℕ
opened_fd (done fd) fds = fd ∷ fds
opened_fd (fault x) fds = fds

-- `entries` is how many messages the error queue of a socket holds; reading takes one away. `polls` is how
-- often poll may still return before the context is done: it has a deadline, and each poll waits for an
-- event, of which there are finitely many, or lets time pass.
pub record SocketOps (W : Type 0) : Type 0 where
  pub env : Env W
  pub ctx_deadline : W → Option ℤ × W
  -- net.IP.To4, as the address of a socket.
  pub to4 : String → Option (List ℕ)
  pub marshal : ℤ → ℤ → Outcome (List ℕ)
  pub parse_message : List ℕ → Option Message
  pub socket : W → SysResult ℕ × W
  pub setsockopt : ℕ → SocketOption → W → SysResult (Unit {0}) × W
  pub connect : ℕ → List ℕ → W → SysResult (Unit {0}) × W
  pub set_nonblock : ℕ → W → SysResult (Unit {0}) × W
  pub close : ℕ → W → W
  pub write : ℕ → List ℕ → W → SysResult (Unit {0}) × W
  pub poll : ℕ → ℤ → W → SysResult Polled × W
  pub recvmsg : ℕ → W → SysResult Received × W
  pub read : ℕ → W → SysResult (List ℕ) × W
  pub held : W → List ℕ
  pub entries : ℕ → W → ℕ
  pub polls : W → ℕ
  pub held-err : (w : W) → held (env.ctx_err w).1 ≡ held w
  pub held-now : (w : W) → held (env.now w).1 ≡ held w
  pub held-deadline : (w : W) → held (ctx_deadline w).1 ≡ held w
  pub held-socket : (w : W) → held (socket w).1 ≡ opened_fd (socket w).0 (held w)
  pub held-setsockopt : (fd : ℕ) (o : SocketOption) (w : W) → held (setsockopt fd o w).1 ≡ held w
  pub held-connect : (fd : ℕ) (a : List ℕ) (w : W) → held (connect fd a w).1 ≡ held w
  pub held-set_nonblock : (fd : ℕ) (w : W) → held (set_nonblock fd w).1 ≡ held w
  pub held-close : (fd : ℕ) (w : W) → held (close fd w) ≡ remove fd (held w)
  pub held-write : (fd : ℕ) (b : List ℕ) (w : W) → held (write fd b w).1 ≡ held w
  pub held-poll : (fd : ℕ) (t : ℤ) (w : W) → held (poll fd t w).1 ≡ held w
  pub held-recvmsg : (fd : ℕ) (w : W) → held (recvmsg fd w).1 ≡ held w
  pub held-read : (fd : ℕ) (w : W) → held (read fd w).1 ≡ held w
  pub entries-recvmsg :
      (fd : ℕ) (w : W) (m : Received)
      → (recvmsg fd w).0 ≡ done m
      → entries fd (recvmsg fd w).1 < entries fd w
  pub polls-err : (w : W) → polls (env.ctx_err w).1 ≤ polls w
  pub polls-now : (w : W) → polls (env.now w).1 ≤ polls w
  pub polls-deadline : (w : W) → polls (ctx_deadline w).1 ≤ polls w
  pub polls-recvmsg : (fd : ℕ) (w : W) → polls (recvmsg fd w).1 ≤ polls w
  pub polls-read : (fd : ℕ) (w : W) → polls (read fd w).1 ≤ polls w
  pub polls-done : (w : W) → polls w ≡ 0 → is_some (env.ctx_err w).0 ≡ true
  pub polls-poll : (fd : ℕ) (t : ℤ) (w : W) → polls (poll fd t w).1 ≤ polls w - 1

-- An error of a call with the words of the source before it.
unfoldable pub wrapped : Kernel → String → ℕ → GoError
wrapped k s x = record (k.errno_error x) { text = s <> (k.errno_error x).text }

module _ {W : Type 0} (k : Kernel) (ops : SocketOps W) where
  -- `unix.Close(fd)` before an error.
  unfoldable pub close_with : ℕ → GoError → W → (Option ℕ × Option GoError) × W
  close_with fd e w = ((none, some e), ops.close fd w)

  -- The steps after Socket.
  unfoldable pub configure : ℕ → List ℕ → W → (Option ℕ × Option GoError) × W
  unfolding close_with wrapped
  configure fd addr w =
      let (r1, w1) = ops.setsockopt fd recv_err w in
      let (r2, w2) = ops.setsockopt fd mtu_discover_probe w1 in
      let (r3, w3) = ops.connect fd addr w2 in
      let (r4, w4) = ops.set_nonblock fd w3 in
      elim r1 [
        | fault x ↦ close_with fd (wrapped k "set IP_RECVERR: " x) w1
        | done _ ↦ elim r2 [
          | fault x ↦ close_with fd (wrapped k "set IP_MTU_DISCOVER: " x) w2
          | done _ ↦ elim r3 [
            | fault x ↦ close_with fd (wrapped k "connect ping socket: " x) w3
            | done _ ↦ elim r4 [
              | fault x ↦ close_with fd (wrapped k "set nonblock: " x) w4
              | done _ ↦ ((some fd, none), w4)
            ]
          ]
        ]
      ]

  unfoldable pub open_mtu_ping_socket : String → W → (Option ℕ × Option GoError) × W
  unfolding configure
  open_mtu_ping_socket dst w =
      let (opened, w1) = ops.socket w in
      elim (ops.to4 dst) [
        | none ↦
            ((none, some (record { text = "destination is not IPv4"; is_permission = false })), w)
        | some addr ↦ elim opened [
          | fault x ↦ ((none, some (k.errno_error x)), w1)
          | done fd ↦ configure fd addr w1
        ]
      ]

module _ {W : Type 0} (ops : SocketOps W) where
  -- Milliseconds to wait, at most 200 and at most what the deadline leaves; whether it has passed.
  unfoldable pub poll_timeout_until : Option ℤ → W → (ℤ × Bool) × W
  poll_timeout_until none w = ((pos 200, false), w)
  poll_timeout_until (some deadline) w =
      let (now, w1) = ops.env.now w in
      let remaining = sub64 deadline now in
      if leb_ℤ remaining (pos 0) then ((pos 0, true), w1) else (
        (
          quot (if ltb_ℤ remaining (pos 200_000_000) then remaining else pos 200_000_000) 1_000_000,
          false,
        ),
        w1,
      )

  unfoldable pub poll_timeout : W → (ℤ × Bool) × W
  unfolding poll_timeout_until
  poll_timeout w = let (deadline, w1) = ops.ctx_deadline w in poll_timeout_until deadline w1
