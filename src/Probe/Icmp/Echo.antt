-- ===== src/Probe/Icmp/Echo.antt =====
-- sendEcho of internal/probe/icmp.go: one echo request and the wait for its reply. The socket, the
-- messages of golang.org/x/net/icmp and the context are parameters.
pub mod Returns
use netsonar.Base.{
  ℕ, zero, suc, ◌≤◌, ◌<◌, ◌≡◌, Bool, true, false, ◌&&◌, String, ◌<>◌, List, [], ◌∷◌, Option, none,
  some, if◌then◌else◌, is_some, ◌==◌,
}
use netsonar.Base.Int.{ℤ, pos, sub64, add64}
use netsonar.Probe.Resolve.{Env}
use netsonar.Probe.Sockets.{Outcome, got, failed, opened, remove}

-- An echo message with so many bytes of payload.
pub record Echo : Type 0 where
  pub id : ℕ
  pub seq : ℕ
  pub payload : ℕ

-- A message that was parsed: whether it is an echo reply, and the number of an Echo body.
pub record Message : Type 0 where
  pub is_echo_reply : Bool
  pub echo_seq : Option ℕ

-- What ReadFrom returns; `peer` is the IP of the address, if it is one of UDP or IP.
pub record Packet : Type 0 where
  pub bytes : List ℕ
  pub peer : Option String

pub record EchoResult : Type 0 where
  pub rtt : ℤ
  pub sent : Bool
  pub err : Option String

-- `bounded` says that a deadline is set on the socket, which a set deadline stays until the next. `pending`
-- is how many datagrams a socket with a deadline still delivers before it, after which a read fails: reading
-- takes one away, and nothing else adds one. Of a read without a deadline nothing is said.
pub record IcmpOps (W : Type 0) : Type 0 where
  pub env : Env W
  pub listen : W → Outcome ℕ × W
  pub close : ℕ → W → W
  pub ctx_deadline : W → Option ℤ × W
  pub set_deadline : ℕ → ℤ → W → Outcome (Unit {0}) × W
  pub marshal : Echo → Outcome (List ℕ)
  pub write_to : ℕ → List ℕ → String → W → Outcome (Unit {0}) × W
  pub read_from : ℕ → W → Outcome Packet × W
  pub parse_message : List ℕ → Option Message
  pub equal_ip : String → String → Bool
  -- Whether the timer fires before the context is done.
  pub timer : ℤ → W → Bool × W
  pub held : W → List ℕ
  pub bounded : ℕ → W → Bool
  pub pending : ℕ → W → ℕ
  pub held-err : (w : W) → held (env.ctx_err w).1 ≡ held w
  pub held-now : (w : W) → held (env.now w).1 ≡ held w
  pub held-lookup_ip4 : (r : _) (host : String) (w : W) → held (env.lookup_ip4 r host w).1 ≡ held w
  pub held-listen : (w : W) → held (listen w).1 ≡ opened (listen w).0 (held w)
  pub held-close : (c : ℕ) (w : W) → held (close c w) ≡ remove c (held w)
  pub held-ctx_deadline : (w : W) → held (ctx_deadline w).1 ≡ held w
  pub held-set_deadline : (c : ℕ) (t : ℤ) (w : W) → held (set_deadline c t w).1 ≡ held w
  pub held-write :
      (c : ℕ) (b : List ℕ) (dst : String) (w : W) → held (write_to c b dst w).1 ≡ held w
  pub held-read : (c : ℕ) (w : W) → held (read_from c w).1 ≡ held w
  pub held-timer : (d : ℤ) (w : W) → held (timer d w).1 ≡ held w
  pub bounded-set_deadline :
      (c : ℕ) (t : ℤ) (w : W)
      → (set_deadline c t w).0 ≡ got tt
      → bounded c (set_deadline c t w).1 ≡ true
  pub bounded-err : (c : ℕ) (w : W) → bounded c w ≡ true → bounded c (env.ctx_err w).1 ≡ true
  pub bounded-now : (c : ℕ) (w : W) → bounded c w ≡ true → bounded c (env.now w).1 ≡ true
  pub bounded-write :
      (c : ℕ) (b : List ℕ) (dst : String) (w : W)
      → bounded c w ≡ true
      → bounded c (write_to c b dst w).1 ≡ true
  pub bounded-read : (c : ℕ) (w : W) → bounded c w ≡ true → bounded c (read_from c w).1 ≡ true
  pub pending-err : (c : ℕ) (w : W) → pending c (env.ctx_err w).1 ≤ pending c w
  pub pending-now : (c : ℕ) (w : W) → pending c (env.now w).1 ≤ pending c w
  pub pending-read :
      (c : ℕ) (w : W) (p : Packet)
      → bounded c w ≡ true
      → (read_from c w).0 ≡ got p
      → pending c (read_from c w).1 < pending c w

unfoldable pub has_seq : Option ℕ → ℕ → Bool
has_seq none seq = false
has_seq (some n) seq = n == seq

unfoldable pub is_reply_message : Option Message → ℕ → Bool
unfolding has_seq
is_reply_message none seq = false
is_reply_message (some m) seq = m.is_echo_reply && has_seq m.echo_seq seq

unfoldable pub unsent : String → EchoResult
unsent e = record { rtt = pos 0; sent = false; err = some e }

module _ {W : Type 0} (ops : IcmpOps W) where
  unfoldable pub is_peer : Option String → String → Bool
  is_peer none dst = false
  is_peer (some a) dst = ops.equal_ip a dst

  -- The tests of the read loop that end in `continue`, on one packet.
  unfoldable pub accepts_reply : String → ℕ → Packet → Bool
  unfolding is_reply_message is_peer
  accepts_reply dst seq p = is_reply_message (ops.parse_message p.bytes) seq && is_peer p.peer dst

  -- The read loop; the first number is fuel, and `none` means that it ran out, as it may where a
  -- read may wait for ever.
  unfoldable pub read_reply : ℕ → ℕ → String → ℕ → ℤ → W → Option (EchoResult × W)
  read_reply zero c dst seq start w = none
  read_reply (suc n) c dst seq start w =
      let (e, w1) = ops.env.ctx_err w in
      let (read, w2) = ops.read_from c w1 in
      let (now, w3) = ops.env.now w2 in
      let next = read_reply n c dst seq start w3 in
      if is_some e then some (record { rtt = pos 0; sent = true; err = e }, w1) else elim read [
        | failed x ↦ some (record { rtt = pos 0; sent = true; err = some ("read icmp: " <> x) }, w2)
        | got p ↦
            if accepts_reply dst seq p
            then some (record { rtt = sub64 now start; sent = true; err = none }, w3)
            else next
      ]

  -- From the time of sending on.
  unfoldable pub write_and_read : ℕ → String → ℕ → List ℕ → W → Option (EchoResult × W)
  unfolding read_reply unsent
  write_and_read c dst seq bytes w =
      let (start, w1) = ops.env.now w in
      let (written, w2) = ops.write_to c bytes dst w1 in
      elim written [
        | failed x ↦ some (unsent ("write icmp: " <> x), w2)
        | got t ↦ read_reply (suc (ops.pending c w2)) c dst seq start w2
      ]

  -- The deadline of the context, or five seconds from now.
  unfoldable pub echo_deadline : Option ℤ × W → ℤ × W
  echo_deadline (some t, w) = (t, w)
  echo_deadline (none, w) = let (now, w1) = ops.env.now w in (add64 now (pos 5_000_000_000), w1)

  unfoldable pub send_echo : ℕ → String → ℕ → W → Option (EchoResult × W)
  unfolding write_and_read echo_deadline unsent
  send_echo c dst seq w =
      let (deadline, w1) = echo_deadline (ops.ctx_deadline w) in
      let (set, w2) = ops.set_deadline c deadline w1 in
      elim (ops.marshal (record { id = 0; seq = seq; payload = 56 })) [
        | failed x ↦ some (unsent ("marshal icmp: " <> x), w)
        | got bytes ↦ elim set [
          | failed x ↦ some (unsent ("set deadline: " <> x), w2)
          | got t ↦ write_and_read c dst seq bytes w2
        ]
      ]
