-- ===== src/Probe/PingSocket/Ping/Closed.antt =====
-- probePingSocket of internal/probe/mtu_backend_linux.go returns and leaves no socket open.
use netsonar.Base.{
  ℕ, suc, ◌≡◌, refl, ap, ◌∙◌, String, List, ◌∷◌, Option, none, some, ◌==◌, arith, Bool-cases,
  Option-cases, inl, inr,
}
use netsonar.Base.Int.{ℤ}
use netsonar.Probe.Resolve.{GoError}
use netsonar.Probe.Sockets.{Outcome, got, failed, remove}
use netsonar.Probe.Mtu.Classify.{MtuPayloadResult}
use netsonar.Probe.PingSocket.Queue.{Kernel}
use netsonar.Probe.PingSocket.Calls.{
  recv_err, mtu_discover_probe, SysResult, done, fault, SocketOps, close_with, configure,
  open_mtu_ping_socket, opened_fd,
}
use netsonar.Probe.PingSocket.Ping.{
  drain, after_write, ping_with, closing, opened_ping, probe_ping_socket,
}
use netsonar.Probe.PingSocket.Ping.Drained.{SysResult-cases, drain-Drained}
use netsonar.Probe.PingSocket.Ping.Returns.{Returned, unheard, await_reply-Returned}

module _ {W : Type 0} (k : Kernel) (ops : SocketOps W) where
  -- A socket that was opened, or an error and none.
  abbrev Opens : List ℕ → (Option ℕ × Option GoError) × W → Type 0
  Opens fds ((some fd, none), w) = ops.held w ≡ fd ∷ fds
  Opens fds ((none, some e), w) = ops.held w ≡ fds
  Opens fds ((some fd, some e), w) = ⊥
  Opens fds ((none, none), w) = ⊥

  closed_now :
      (fd : ℕ) (w : W) (fds : List ℕ) → ops.held w ≡ fd ∷ fds → ops.held (ops.close fd w) ≡ fds
  closed_now fd w fds h = ops.held-close fd w ∙ ap (remove fd) h ∙ ground arith

  configure-Opens :
      (fd : ℕ) (addr : List ℕ) (w : W) (fds : List ℕ)
      → ops.held w ≡ fd ∷ fds
      → Opens fds (configure k ops fd addr w)
  unfolding configure close_with
  configure-Opens fd addr w fds h =
      let w1 = (ops.setsockopt fd recv_err w).1 in
      let w2 = (ops.setsockopt fd mtu_discover_probe w1).1 in
      let w3 = (ops.connect fd addr w2).1 in
      let w4 = (ops.set_nonblock fd w3).1 in
      let h1 : ops.held w1 ≡ fd ∷ fds = ops.held-setsockopt fd recv_err w ∙ h in
      let h2 : ops.held w2 ≡ fd ∷ fds = ops.held-setsockopt fd mtu_discover_probe w1 ∙ h1 in
      let h3 : ops.held w3 ≡ fd ∷ fds = ops.held-connect fd addr w2 ∙ h2 in
      let h4 : ops.held w4 ≡ fd ∷ fds = ops.held-set_nonblock fd w3 ∙ h3 in
      elim (SysResult-cases (ops.setsockopt fd recv_err w).0) [
        | inr (x, a) ↦ rw (a, configure) (closed_now fd w1 fds h1)
        | inl (t, a) ↦ elim (SysResult-cases (ops.setsockopt fd mtu_discover_probe w1).0) [
          | inr (x, b) ↦ rw (a, configure) (rw b (closed_now fd w2 fds h2))
          | inl (t, b) ↦ elim (SysResult-cases (ops.connect fd addr w2).0) [
            | inr (x, c) ↦ rw (a, configure) (rw b (rw c (closed_now fd w3 fds h3)))
            | inl (t, c) ↦ elim (SysResult-cases (ops.set_nonblock fd w3).0) [
              | inr (x, d) ↦ rw (a, configure) (rw b (rw c (rw d (closed_now fd w4 fds h4))))
              | inl (t, d) ↦ rw (a, configure) (rw b (rw c (rw d h4)))
            ]
          ]
        ]
      ]

  open-Opens : (dst : String) (w : W) → Opens (ops.held w) (open_mtu_ping_socket k ops dst w)
  unfolding open_mtu_ping_socket
  open-Opens dst w =
      let w1 = (ops.socket w).1 in
      elim (Option-cases (ops.to4 dst)) [
        | inl q ↦ rw (q, open_mtu_ping_socket) refl
        | inr (addr, q) ↦ elim (SysResult-cases (ops.socket w).0) [
          | inr (x, s) ↦
              rw (q, open_mtu_ping_socket)
                (rw s (ops.held-socket w ∙ ap (λ r. opened_fd r (ops.held w)) s))
          | inl (fd, s) ↦
              rw (q, open_mtu_ping_socket)
                (rw s (
                  configure-Opens fd addr w1 (ops.held w)
                    (ops.held-socket w ∙ ap (λ r. opened_fd r (ops.held w)) s)))
        ]
      ]

  module _ (fd : ℕ) (size seq : ℤ) (fds : List ℕ) where
    after_write-Returned :
        (start : ℤ) (r : SysResult (Unit {0})) (w : W)
        → ops.held w ≡ fds
        → Returned k ops size seq fds (after_write k ops fd size seq start r w)
    unfolding after_write
    after_write-Returned start (done t) w h =
        await_reply-Returned k ops fd size seq start fds (suc (ops.polls w)) w (omega arith) h
    after_write-Returned start (fault x) w h = elim (Bool-cases (x == k.emsgsize)) [
      | inr b ↦ rw b (unheard k ops _ w h refl (λ s. cc))
      | inl b ↦
          let d = drain-Drained k ops fd seq w in
          rw b (rw (d.returns, drain) (unheard k ops _ d.world (d.keeps ∙ h) refl (λ s. cc)))
    ]

    ping_with-Returned :
        (wire : Outcome (List ℕ)) (w : W)
        → ops.held w ≡ fds
        → Returned k ops size seq fds (ping_with k ops fd size seq wire w)
    unfolding ping_with
    ping_with-Returned (failed e) w h = unheard k ops _ w h refl (λ s. cc)
    ping_with-Returned (got wire) w h =
        let w1 = (ops.env.now w).1 in
        let (written, w2) = ops.write fd wire w1 in
        after_write-Returned (ops.env.now w).0 written w2
          (ops.held-write fd wire w1 ∙ (ops.held-now w ∙ h))

  closing-Returned :
      (fd : ℕ) (size seq : ℤ) (fds : List ℕ) (o : Option (MtuPayloadResult × W))
      → Returned k ops size seq (fd ∷ fds) o
      → Returned k ops size seq fds (closing k ops fd o)
  unfolding closing
  closing-Returned fd size seq fds o r =
      rw (r.returns, closing)
        record {
          result = r.result;
          world = ops.close fd r.world;
          returns = refl;
          keeps = closed_now fd r.world fds r.keeps;
          pinged = r.pinged;
        }

  opened_ping-Returned :
      (size seq : ℤ) (fds : List ℕ) (o : Option ℕ) (e : Option GoError) (w : W)
      → Opens fds ((o, e), w)
      → Returned k ops size seq fds (opened_ping k ops size seq ((o, e), w))
  unfolding opened_ping
  opened_ping-Returned size seq fds (some fd) none w h =
      closing-Returned fd size seq fds _
        (ping_with-Returned fd size seq (fd ∷ fds) (ops.marshal seq size) w h)
  opened_ping-Returned size seq fds none (some e) w h = unheard k ops _ w h refl (λ s. cc)
  opened_ping-Returned size seq fds (some fd) (some e) w h = absurd h
  opened_ping-Returned size seq fds none none w h = absurd h

-- A probe by a ping socket returns, whatever the kernel answers, as the context ends after finitely many
-- polls and the error queue has finitely many entries. Every socket that it opened is closed then, its
-- result is for the size that was asked for, and it is a success only if an echo reply with the number of
-- the probe was read from a socket.
pub probe_ping_socket-Returned :
    {W : Type 0} (k : Kernel) (ops : SocketOps W) (dst : String) (size seq : ℤ) (w : W)
    → Returned k ops size seq (ops.held w) (probe_ping_socket k ops dst size seq w)
unfolding probe_ping_socket
probe_ping_socket-Returned k ops dst size seq w =
    let o = open_mtu_ping_socket k ops dst w in
    opened_ping-Returned k ops size seq (ops.held w) o.0.0 o.0.1 o.1 (open-Opens k ops dst w)
