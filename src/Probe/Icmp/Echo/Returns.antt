-- ===== src/Probe/Icmp/Echo/Returns.antt =====
-- sendEcho of internal/probe/icmp.go always returns, and what a reply is.
use netsonar.Base.{
  ℕ, zero, suc, ◌<◌, ◌≡◌, refl, ap, ◌∙◌, true, String, List, Option, none, some, ==_iff, arith,
  Bool-cases, Option-cases, &&_split, inl, inr,
}
use netsonar.Base.Int.{ℤ}
use netsonar.Probe.Sockets.{got, Outcome-cases}
use netsonar.Probe.Icmp.Echo.{
  Message, Packet, EchoResult, IcmpOps, has_seq, is_reply_message, is_peer, accepts_reply,
  read_reply, write_and_read, echo_deadline, send_echo, unsent,
}

has_seq-eq : (o : Option ℕ) (seq : ℕ) → has_seq o seq ≡ true → o ≡ some seq
unfolding has_seq
has_seq-eq none seq h = absurd (cc)
has_seq-eq (some n) seq h = ap some ((==_iff n seq).0 h)

message_of :
    (m : Option Message) (seq : ℕ)
    → is_reply_message m seq ≡ true
    → (n : Message) × (m ≡ some n) × (n.is_echo_reply ≡ true) × (n.echo_seq ≡ some seq)
unfolding is_reply_message has_seq
message_of none seq h = absurd (cc)
message_of (some m) seq h = (m, refl, ground arith, has_seq-eq m.echo_seq seq (ground arith))

peer_of :
    {W : Type 0} (ops : IcmpOps W) (peer : Option String) (dst : String)
    → is_peer ops peer dst ≡ true
    → (a : String) × (peer ≡ some a) × (ops.equal_ip a dst ≡ true)
unfolding is_peer
peer_of ops none dst h = absurd (cc)
peer_of ops (some a) dst h = (a, refl, h)

module _ {W : Type 0} (ops : IcmpOps W) where
  -- An echo reply with the number, from the destination.
  pub record IsReplyTo (dst : String) (seq : ℕ) (p : Packet) : Type 0 where
    pub message : Message
    pub parsed : ops.parse_message p.bytes ≡ some message
    pub reply : message.is_echo_reply ≡ true
    pub numbered : message.echo_seq ≡ some seq
    pub sender : String
    pub from : p.peer ≡ some sender
    pub same : ops.equal_ip sender dst ≡ true

  accepts_reply-IsReplyTo :
      (dst : String) (seq : ℕ) (p : Packet)
      → accepts_reply ops dst seq p ≡ true
      → IsReplyTo dst seq p
  unfolding accepts_reply
  accepts_reply-IsReplyTo dst seq p h =
      let (r, q) = &&_split _ _ h in
      let (m, parsed, reply, numbered) = message_of (ops.parse_message p.bytes) seq r in
      let (a, from, same) = peer_of ops p.peer dst q in
      record {
        message = m;
        parsed = parsed;
        reply = reply;
        numbered = numbered;
        sender = a;
        from = from;
        same = same;
      }

  -- A result of sendEcho: it has an error, or the request was sent and a reply to it was read.
  pub data IsEchoed (c : ℕ) (dst : String) (seq : ℕ) : EchoResult → Type 0 where
    unanswered : {r : EchoResult} (e : String) → r.err ≡ some e → IsEchoed c dst seq r
    answered :
        {r : EchoResult} (p : Packet) (v : W)
        → r.err ≡ none
        → r.sent ≡ true
        → (ops.read_from c v).0 ≡ got p
        → IsReplyTo dst seq p
        → IsEchoed c dst seq r

  -- What sendEcho hands back from a world.
  pub record Returned (c : ℕ) (dst : String) (seq : ℕ) (cs : List ℕ) (o : Option (EchoResult × W))
      : Type 0 where
    pub result : EchoResult
    pub world : W
    pub returns : o ≡ some (result, world)
    pub echoed : IsEchoed c dst seq result
    pub keeps : ops.held world ≡ cs

  returned :
      {c seq : ℕ} {dst : String} {cs : List ℕ} (r : EchoResult) (w : W)
      → IsEchoed c dst seq r
      → ops.held w ≡ cs
      → Returned c dst seq cs (some (r, w))
  returned r w e h = record { result = r; world = w; returns = refl; echoed = e; keeps = h }

  read_reply-Returned :
      (n c : ℕ) (dst : String) (seq : ℕ) (start : ℤ) (w : W) (cs : List ℕ)
      → ops.pending c w < n
      → ops.bounded c w ≡ true
      → ops.held w ≡ cs
      → Returned c dst seq cs (read_reply ops n c dst seq start w)
  unfolding read_reply
  read_reply-Returned zero c dst seq start w cs f b h = elim f [ ]
  read_reply-Returned (suc n) c dst seq start w cs f b h =
      let w1 = (ops.env.ctx_err w).1 in
      let w2 = (ops.read_from c w1).1 in
      let h1 : ops.held w1 ≡ cs = ops.held-err w ∙ h in
      let h2 : ops.held w2 ≡ cs = ops.held-read c w1 ∙ h1 in
      let w3 = (ops.env.now w2).1 in
      let b1 = ops.bounded-err c w b in
      let b3 = ops.bounded-now c w2 (ops.bounded-read c w1 b1) in
      let h3 : ops.held w3 ≡ cs = ops.held-now w2 ∙ h2 in
      elim (Option-cases (ops.env.ctx_err w).0) [
        | inr (e, q) ↦ rw q (returned _ w1 (unanswered e refl) h1)
        | inl q ↦ elim (Outcome-cases (ops.read_from c w1).0) [
          | inr (x, k) ↦ rw q (rw k (returned _ w2 (unanswered _ refl) h2))
          | inl (p, k) ↦ rw q (
              rw k (elim (Bool-cases (accepts_reply ops dst seq p)) [
                | inl y ↦ rw y (
                    returned _ w3 (answered p w1 refl refl k (accepts_reply-IsReplyTo dst seq p y))
                      h3)
                | inr x ↦ rw x (
                    read_reply-Returned n c dst seq start w3 cs
                      (omega (
                        arith,
                        ops.pending-now c w2,
                        ops.pending-read c w1 p b1 k,
                        ops.pending-err c w,
                      ))
                      b3 h3)
              ]))
        ]
      ]

  write_and_read-Returned :
      (c : ℕ) (dst : String) (seq : ℕ) (bytes : List ℕ) (w : W) (cs : List ℕ)
      → ops.bounded c w ≡ true
      → ops.held w ≡ cs
      → Returned c dst seq cs (write_and_read ops c dst seq bytes w)
  unfolding write_and_read unsent
  write_and_read-Returned c dst seq bytes w cs b h =
      let w1 = (ops.env.now w).1 in
      let w2 = (ops.write_to c bytes dst w1).1 in
      let b2 = ops.bounded-write c bytes dst w1 (ops.bounded-now c w b) in
      let h2 : ops.held w2 ≡ cs = ops.held-write c bytes dst w1 ∙ (ops.held-now w ∙ h) in
      elim (Outcome-cases (ops.write_to c bytes dst w1).0) [
        | inr (x, k) ↦ rw (k, write_and_read) (returned _ w2 (unanswered _ refl) h2)
        | inl (t, k) ↦
            rw (k, write_and_read)
              (read_reply-Returned (suc (ops.pending c w2)) c dst seq (ops.env.now w).0 w2 cs
                (omega arith) b2 h2)
      ]

  echo_deadline-held : (d : Option ℤ) (w : W) → ops.held (echo_deadline ops (d, w)).1 ≡ ops.held w
  unfolding echo_deadline
  echo_deadline-held (some t) w = refl
  echo_deadline-held none w = ops.held-now w

-- sendEcho returns, since it sets a deadline, however many datagrams that it does not want are on their way: with an error, or
-- after it sent its request and read a packet that is an echo reply with its number from the
-- destination. It opens and closes no socket.
pub send_echo-Returned :
    {W : Type 0} (ops : IcmpOps W) (c : ℕ) (dst : String) (seq : ℕ) (w : W)
    → Returned ops c dst seq (ops.held w) (send_echo ops c dst seq w)
unfolding send_echo unsent
send_echo-Returned ops c dst seq w =
    let (d, w0) = ops.ctx_deadline w in
    let (deadline, w1) = echo_deadline ops (d, w0) in
    let w2 = (ops.set_deadline c deadline w1).1 in
    let h2 : ops.held w2 ≡ ops.held w =
      ops.held-set_deadline c deadline w1
      ∙ (echo_deadline-held ops d w0 ∙ ops.held-ctx_deadline w) in
    elim (Outcome-cases (ops.marshal (record { id = 0; seq = seq; payload = 56 }))) [
      | inr (x, k) ↦ rw (k, send_echo) (returned ops _ w (unanswered _ refl) refl)
      | inl (bytes, k) ↦ elim (Outcome-cases (ops.set_deadline c deadline w1).0) [
        | inr (x, l) ↦ rw (k, send_echo) (rw l (returned ops _ w2 (unanswered _ refl) h2))
        | inl (t, l) ↦
            rw (k, send_echo)
              (rw l (
                write_and_read-Returned ops c dst seq bytes w2 (ops.held w)
                  (ops.bounded-set_deadline c deadline w1 l) h2))
      ]
    ]
