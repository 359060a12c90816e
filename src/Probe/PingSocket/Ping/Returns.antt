-- ===== src/Probe/PingSocket/Ping/Returns.antt =====
-- probePingSocket of internal/probe/mtu_backend_linux.go returns, closes its socket, and reports a success
-- only for an echo reply that it read.
use netsonar.Base.{
  ℕ, zero, suc, ◌≤◌, ◌<◌, ◌≡◌, ◌≢◌, refl, ◌∙◌, Bool, true, List, Option, none, some, ◌==◌, arith,
  Bool-cases, Option-cases, inl, inr,
}
use netsonar.Base.Int.{ℤ, pos, negsuc}
use netsonar.Probe.Mtu.Classify.{success, MtuPayloadResult}
use netsonar.Probe.Icmp.Echo.{Message}
use netsonar.Probe.PingSocket.Queue.{MtuErrQueueEvent, Kernel}
use netsonar.Probe.PingSocket.Calls.{
  SysResult, done, fault, Polled, SocketOps, poll_timeout, poll_timeout_until,
}
use netsonar.Probe.PingSocket.Ping.{
  echo_has_seq, echo_reply_matches_sequence, drain, take_reply, after_drain, after_poll,
  await_reply, would_block,
}
use netsonar.Probe.PingSocket.Ping.Drained.{SysResult-cases, IsNoSuccess, drain-Drained}

has_seq-eq :
    (o : Option ℕ) (seq : ℤ) → echo_has_seq o seq ≡ true → (n : ℕ) × (o ≡ some n) × (pos n ≡ seq)
unfolding echo_has_seq
has_seq-eq none seq h = absurd (cc)
has_seq-eq (some n) (pos m) h = (n, refl, ground arith)
has_seq-eq (some n) (negsuc m) h = absurd (ground arith)

-- A message that is an echo reply with the number.
abbrev pub IsEchoReply : Option Message → ℤ → Type 0
IsEchoReply o seq =
    (m : Message) × (o ≡ some m)
    × (m.is_echo_reply ≡ true)
    × ((n : ℕ) × (m.echo_seq ≡ some n) × (pos n ≡ seq))

matches-IsEchoReply :
    (o : Option Message) (seq : ℤ) → echo_reply_matches_sequence o seq ≡ true → IsEchoReply o seq
unfolding echo_reply_matches_sequence
matches-IsEchoReply none seq h = absurd (cc)
matches-IsEchoReply (some m) seq h = elim (Bool-cases m.is_echo_reply) [
  | inl b ↦ (m, refl, b, has_seq-eq m.echo_seq seq (ground arith))
  | inr b ↦ absurd (ground arith)
]

module _ {W : Type 0} (k : Kernel) (ops : SocketOps W) where
  -- A result for the size: a success only if an echo reply with the number was read.
  pub record IsPinged (size seq : ℤ) (r : MtuPayloadResult) : Type 0 where
    pub sized : r.payload_size ≡ size
    pub heard :
        r.status ≡ success
        → (fd : ℕ) × (v : W) × (b : List ℕ) × ((ops.read fd v).0 ≡ done b)
          × IsEchoReply (ops.parse_message b) seq

  -- A probe that returned, with these sockets open.
  pub record Returned (size seq : ℤ) (fds : List ℕ) (o : Option (MtuPayloadResult × W))
      : Type 0 where
    pub result : MtuPayloadResult
    pub world : W
    pub returns : o ≡ some (result, world)
    pub keeps : ops.held world ≡ fds
    pub pinged : IsPinged size seq result

  pub unheard :
      {size seq : ℤ} {fds : List ℕ} (r : MtuPayloadResult) (w : W)
      → ops.held w ≡ fds
      → r.payload_size ≡ size
      → r.status ≢ success
      → Returned size seq fds (some (r, w))
  unheard r w h s n = record {
    result = r;
    world = w;
    returns = refl;
    keeps = h;
    pinged = record { sized = s; heard = λ e. absurd (n e) };
  }

  module _ (fd : ℕ) (size seq start : ℤ) (fds : List ℕ) (limit : ℕ)
      (next : W → Option (MtuPayloadResult × W))
      (goes_on : (v : W)
        → ops.polls v < limit
        → ops.held v ≡ fds
        → Returned size seq fds (next v)) where
    take_reply-Returned :
        (pollin : Bool) (w : W)
        → ops.polls w < limit
        → ops.held w ≡ fds
        → Returned size seq fds (take_reply k ops fd size seq start next pollin w)
    unfolding take_reply
    take_reply-Returned pollin w p h =
        let w1 = (ops.read fd w).1 in
        let h1 : ops.held w1 ≡ fds = ops.held-read fd w ∙ h in
        let p1 : ops.polls w1 < limit = omega (arith, ops.polls-read fd w) in
        elim (Bool-cases pollin) [
          | inr c ↦ rw c (goes_on w p h)
          | inl c ↦ elim (SysResult-cases (ops.read fd w).0) [
            | inr (x, q) ↦ elim (Bool-cases (would_block k x)) [
              | inl b ↦ rw c (rw q (rw b (goes_on w1 p1 h1)))
              | inr b ↦ rw c (rw q (rw b (unheard _ w1 h1 refl (λ s. cc))))
            ]
            | inl (b, q) ↦
                elim (Bool-cases (echo_reply_matches_sequence (ops.parse_message b) seq)) [
                  | inr m ↦ rw c (rw q (rw m (goes_on w1 p1 h1)))
                  | inl m ↦ rw c (
                      rw q (
                        rw m record {
                          result = _;
                          world = (ops.env.now w1).1;
                          returns = refl;
                          keeps = ops.held-now w1 ∙ h1;
                          pinged = record {
                            sized = refl;
                            heard =
                                λ s. (fd, w, b, q, matches-IsEchoReply (ops.parse_message b) seq m);
                          };
                        }))
                ]
          ]
        ]

    after_event-Returned :
        (pollin : Bool) (event : Option MtuErrQueueEvent) (w : W)
        → IsNoSuccess event
        → ops.polls w < limit
        → ops.held w ≡ fds
        → Returned size seq fds (after_drain k ops fd size seq start next pollin (some (event, w)))
    unfolding after_drain
    after_event-Returned pollin none w n p h = take_reply-Returned pollin w p h
    after_event-Returned pollin (some v) w n p h = unheard _ w h refl n

    drained-Returned :
        (pollin : Bool) (w : W)
        → ops.polls w < limit
        → ops.held w ≡ fds
        → Returned size seq fds
            (after_drain k ops fd size seq start next pollin (drain k ops fd seq w))
    drained-Returned pollin w p h =
        let d = drain-Drained k ops fd seq w in
        rw d.returns (
          after_event-Returned pollin d.event d.world d.no_success (omega (arith, d.waits))
            (d.keeps ∙ h))

    after_poll-Returned :
        (polled : SysResult Polled) (w : W)
        → ops.polls w < limit
        → ops.held w ≡ fds
        → Returned size seq fds (after_poll k ops fd size seq start next polled w)
    unfolding after_poll
    after_poll-Returned (fault x) w p h = elim (Bool-cases (x == k.eintr)) [
      | inl b ↦ rw b (goes_on w p h)
      | inr b ↦ rw b (unheard _ w h refl (λ s. cc))
    ]
    after_poll-Returned (done o) w p h =
        let w1 = (ops.env.ctx_err w).1 in
        let h1 : ops.held w1 ≡ fds = ops.held-err w ∙ h in
        let p1 : ops.polls w1 < limit = omega (arith, ops.polls-err w) in
        elim (Option-cases (ops.env.ctx_err w).0) [
          | inr (x, q) ↦ rw (q, after_poll) (unheard _ w1 h1 refl (λ s. cc))
          | inl q ↦ elim (Bool-cases (o.ready == 0)) [
            | inl z ↦ rw (q, after_poll) (rw z (goes_on w1 p1 h1))
            | inr z ↦ elim (Bool-cases o.pollerr) [
              | inl e ↦ rw (q, after_poll) (rw z (rw e (drained-Returned o.pollin w1 p1 h1)))
              | inr e ↦ rw (q, after_poll) (rw z (rw e (take_reply-Returned o.pollin w1 p1 h1)))
            ]
          ]
        ]

  poll_timeout_until-kept :
      (t : Option ℤ) (w : W)
      → (ops.held (poll_timeout_until ops t w).1 ≡ ops.held w)
        × (ops.polls (poll_timeout_until ops t w).1 ≤ ops.polls w)
  unfolding poll_timeout_until
  poll_timeout_until-kept none w = (refl, omega arith)
  poll_timeout_until-kept (some t) w = ground (arith, ops.held-now w, ops.polls-now w)

  poll_timeout-kept :
      (w : W)
      → (ops.held (poll_timeout ops w).1 ≡ ops.held w)
        × (ops.polls (poll_timeout ops w).1 ≤ ops.polls w)
  unfolding poll_timeout
  poll_timeout-kept w =
      let (t, w1) = ops.ctx_deadline w in
      let (h, p) = poll_timeout_until-kept t w1 in
      (h ∙ ops.held-deadline w, omega (arith, ops.polls-deadline w))

  pub await_reply-Returned :
      (fd : ℕ) (size seq start : ℤ) (fds : List ℕ) (n : ℕ) (w : W)
      → ops.polls w < n
      → ops.held w ≡ fds
      → Returned size seq fds (await_reply k ops fd size seq start n w)
  unfolding await_reply
  await_reply-Returned fd size seq start fds zero w f h = elim f [ ]
  await_reply-Returned fd size seq start fds (suc n) w f h =
      let w1 = (ops.env.ctx_err w).1 in
      let (wait, w2) = poll_timeout ops w1 in
      let w3 = (ops.poll fd wait.0 w2).1 in
      let h1 : ops.held w1 ≡ fds = ops.held-err w ∙ h in
      let (h2, p2) = poll_timeout-kept w1 in
      let h3 : ops.held w3 ≡ fds = ops.held-poll fd wait.0 w2 ∙ (h2 ∙ h1) in
      elim (Option-cases (ops.env.ctx_err w).0) [
        | inr (x, q) ↦ rw (q, await_reply) (unheard _ w1 h1 refl (λ s. cc))
        | inl q ↦
            let live : ops.polls w ≢ 0 = λ z. absurd (ground (arith, ops.polls-done w z)) in
            elim (Bool-cases wait.1) [
              | inl z ↦ rw (q, await_reply) (rw z (unheard _ w2 (h2 ∙ h1) refl (λ s. cc)))
              | inr z ↦
                  rw (q, await_reply)
                    (rw z (
                      after_poll-Returned fd size seq start fds (ops.polls w)
                        (await_reply k ops fd size seq start n)
                        (λ v p g. await_reply-Returned fd size seq start fds n v (omega arith) g)
                        (ops.poll fd wait.0 w2).0 w3
                        (omega (arith, ops.polls-poll fd wait.0 w2, ops.polls-err w)) h3))
            ]
      ]
