-- ===== src/Probe/PingSocket/Ping/Drained.antt =====
-- drainMTUErrorQueue of internal/probe/mtu_backend_linux.go returns, and never tells of a success.
use netsonar.Base.{
  ℕ, zero, suc, ◌≤◌, ◌<◌, ◌≡◌, ◌≢◌, refl, ◌∙◌, ◌⊎◌, subst, Bool, ◌&&◌, not, List, [], ◌∷◌, Option,
  none, some, arith, Bool-cases, Option-cases, inl, inr,
}
use netsonar.Base.Int.{ℤ}
use netsonar.Probe.Sockets.{Outcome-cases}
use netsonar.Probe.Mtu.Classify.{success}
use netsonar.Probe.PingSocket.Queue.{
  MtuErrQueueEvent, ControlMessage, Kernel, event_of_message, is_recverr, classify_messages,
  classify_mtu_error_queue_message, parse_sock_extended_err, quoted_packet_has_wrong_sequence,
}
use netsonar.Probe.PingSocket.Queue.Status.{event_of-Means}
use netsonar.Probe.PingSocket.Calls.{SysResult, done, fault, SocketOps}
use netsonar.Probe.PingSocket.Ping.{drain_mtu_error_queue, drain, would_block}

pub SysResult-cases :
    {A : Type 0} (r : SysResult A) → ((a : A) × (r ≡ done a)) ⊎ ((x : ℕ) × (r ≡ fault x))
SysResult-cases (done a) = inl (a, refl)
SysResult-cases (fault x) = inr (x, refl)

-- An event that does not say success.
abbrev pub IsNoSuccess : Option MtuErrQueueEvent → Type 0
IsNoSuccess none = Unit
IsNoSuccess (some v) = v.status ≢ success

module _ (k : Kernel) where
  event_of_message-IsNoSuccess :
      (quoted : List ℕ) (complete : Bool) (seq : ℤ) (m : ControlMessage)
      → IsNoSuccess (event_of_message k quoted complete seq m)
  unfolding event_of_message
  event_of_message-IsNoSuccess quoted complete seq m =
      elim (Option-cases (parse_sock_extended_err k.little_endian m.bytes)) [
        | inl q ↦ rw (q, event_of_message) tt
        | inr (e, q) ↦
            elim (Bool-cases (complete && quoted_packet_has_wrong_sequence k quoted seq)) [
              | inl b ↦ rw (q, event_of_message) (rw b tt)
              | inr b ↦ rw (q, event_of_message) (rw b ((event_of-Means k e).no_answer.0))
            ]
      ]

  classify_messages-IsNoSuccess :
      (quoted : List ℕ) (complete : Bool) (seq : ℤ) (ms : List ControlMessage)
      → IsNoSuccess (classify_messages k quoted complete seq ms)
  unfolding classify_messages
  classify_messages-IsNoSuccess quoted complete seq [] = tt
  classify_messages-IsNoSuccess quoted complete seq (m ∷ ms) = elim (Bool-cases (is_recverr k m)) [
    | inl q ↦ rw q (event_of_message-IsNoSuccess quoted complete seq m)
    | inr q ↦ rw q (classify_messages-IsNoSuccess quoted complete seq ms)
  ]

  classify-IsNoSuccess :
      (oob quoted : List ℕ) (complete : Bool) (seq : ℤ)
      → IsNoSuccess (classify_mtu_error_queue_message k oob quoted complete seq)
  unfolding classify_mtu_error_queue_message
  classify-IsNoSuccess oob quoted complete seq = elim (Outcome-cases (k.parse_control oob)) [
    | inr (e, q) ↦ rw (q, classify_mtu_error_queue_message) (λ h. cc)
    | inl (ms, q) ↦
        rw (q, classify_mtu_error_queue_message)
          (classify_messages-IsNoSuccess quoted complete seq ms)
  ]

module _ {W : Type 0} (k : Kernel) (ops : SocketOps W) where
  -- What draining the queue comes to.
  pub record Drained (w : W) (o : Option (Option MtuErrQueueEvent × W)) : Type 0 where
    pub event : Option MtuErrQueueEvent
    pub world : W
    pub returns : o ≡ some (event, world)
    pub keeps : ops.held world ≡ ops.held w
    pub waits : ops.polls world ≤ ops.polls w
    pub no_success : IsNoSuccess event

  drained :
      {v : W} (e : Option MtuErrQueueEvent) (w : W)
      → ops.held w ≡ ops.held v
      → ops.polls w ≤ ops.polls v
      → IsNoSuccess e
      → Drained v (some (e, w))
  drained e w h p n = record {
    event = e;
    world = w;
    returns = refl;
    keeps = h;
    waits = p;
    no_success = n;
  }

  after_entry :
      {v w : W} {o : Option (Option MtuErrQueueEvent × W)}
      → ops.held w ≡ ops.held v
      → ops.polls w ≤ ops.polls v
      → Drained w o
      → Drained v o
  after_entry h p d = record {
    event = d.event;
    world = d.world;
    returns = d.returns;
    keeps = d.keeps ∙ h;
    waits = omega (arith, d.waits);
    no_success = d.no_success;
  }

  drain_queue-Drained :
      (n fd : ℕ) (seq : ℤ) (w : W)
      → ops.entries fd w < n
      → Drained w (drain_mtu_error_queue k ops n fd seq w)
  unfolding drain_mtu_error_queue
  drain_queue-Drained zero fd seq w f = elim f [ ]
  drain_queue-Drained (suc n) fd seq w f =
      let w1 = (ops.recvmsg fd w).1 in
      let h : ops.held w1 ≡ ops.held w = ops.held-recvmsg fd w in
      let p : ops.polls w1 ≤ ops.polls w = ops.polls-recvmsg fd w in
      elim (SysResult-cases (ops.recvmsg fd w).0) [
        | inr (x, q) ↦ elim (Bool-cases (would_block k x)) [
          | inl b ↦ rw (q, drain_mtu_error_queue) (rw b (drained none w1 h p tt))
          | inr b ↦ rw (q, drain_mtu_error_queue) (rw b (drained _ w1 h p (λ s. cc)))
        ]
        | inl (m, q) ↦
            let rest =
              after_entry h p
                (drain_queue-Drained n fd seq w1 (omega (arith, ops.entries-recvmsg fd w m q))) in
            elim (Bool-cases m.ctrunc) [
              | inl c ↦ rw (q, drain_mtu_error_queue) (rw c rest)
              | inr c ↦
                  elim (Option-cases
                    (classify_mtu_error_queue_message k m.oob m.quoted (not m.trunc) seq)) [
                      | inl z ↦ rw (q, drain_mtu_error_queue) (rw c (rw z rest))
                      | inr (e, z) ↦
                          rw (q, drain_mtu_error_queue)
                            (rw c (
                              rw z (
                                drained (some e) w1 h p (
                                  subst IsNoSuccess z
                                    (classify-IsNoSuccess k m.oob m.quoted (not m.trunc) seq)))))
                    ]
            ]
      ]

  pub drain-Drained : (fd : ℕ) (seq : ℤ) (w : W) → Drained w (drain k ops fd seq w)
  unfolding drain
  drain-Drained fd seq w = drain_queue-Drained (suc (ops.entries fd w)) fd seq w (omega arith)
