-- ===== src/Probe/PingSocket/Ping.antt =====
-- drainMTUErrorQueue and probePingSocket of internal/probe/mtu_backend_linux.go.
pub mod Drained
pub mod Returns
pub mod Closed
use netsonar.Base.{
  ℕ, zero, suc, Bool, true, false, ◌||◌, not, String, ◌<>◌, List, Option, none, some, is_some,
  if◌then◌else◌, ◌==◌,
}
use netsonar.Base.Int.{ℤ, pos, sub64, eq_ℤ}
use netsonar.Probe.Resolve.{GoError}
use netsonar.Probe.Sockets.{Outcome, got, failed}
use netsonar.Probe.Mtu.Classify.{
  MtuPayloadStatus, success, local_too_large, timeout, error, MtuPayloadResult,
}
use netsonar.Probe.Icmp.Echo.{Message}
use netsonar.Probe.PingSocket.Queue.{Kernel, MtuErrQueueEvent, classify_mtu_error_queue_message}
use netsonar.Probe.PingSocket.Calls.{
  SysResult, done, fault, Polled, Received, SocketOps, wrapped, open_mtu_ping_socket, poll_timeout,
}

unfoldable pub echo_has_seq : Option ℕ → ℤ → Bool
echo_has_seq none seq = false
echo_has_seq (some n) seq = eq_ℤ (pos n) seq

unfoldable pub echo_reply_matches_sequence : Option Message → ℤ → Bool
unfolding echo_has_seq
echo_reply_matches_sequence none seq = false
echo_reply_matches_sequence (some m) seq =
    if not m.is_echo_reply then false else echo_has_seq m.echo_seq seq

abbrev pub ended_as : MtuPayloadStatus → ℤ → GoError → MtuPayloadResult
ended_as s size e = record { status = s; payload_size = size; rtt = pos 0; err = some e }

-- An error that is a plain_error text, as of a context.
abbrev pub plain_error : String → GoError
plain_error s = record { text = s; is_permission = false }

unfoldable pub would_block : Kernel → ℕ → Bool
would_block k x = x == k.eagain || x == k.ewouldblock

module _ {W : Type 0} (k : Kernel) (ops : SocketOps W) where
  -- The first number is fuel, and `none` outside means that it ran out; inside, that there is no event.
  unfoldable pub drain_mtu_error_queue : ℕ → ℕ → ℤ → W → Option (Option MtuErrQueueEvent × W)
  unfolding would_block
  drain_mtu_error_queue zero fd seq w = none
  drain_mtu_error_queue (suc n) fd seq w =
      let (received, w1) = ops.recvmsg fd w in
      let next = drain_mtu_error_queue n fd seq w1 in
      elim received [
        | fault x ↦
            if would_block k x
            then some (none, w1)
            else some (
              some (record { status = error; err = some (wrapped k "recvmsg error queue: " x) }),
              w1,
            )
        | done m ↦
            if m.ctrunc
            then next
            else elim (classify_mtu_error_queue_message k m.oob m.quoted (not m.trunc) seq) [
              | some event ↦ some (some event, w1)
              | none ↦ next
            ]
      ]

  -- As many rounds as there are entries, and one that finds none.
  unfoldable pub drain : ℕ → ℤ → W → Option (Option MtuErrQueueEvent × W)
  unfolding drain_mtu_error_queue
  drain fd seq w = drain_mtu_error_queue (suc (ops.entries fd w)) fd seq w

  module _ (fd : ℕ) (size seq start : ℤ) where
    -- The end of a round, from the test of POLLIN on; `next` is the round after it.
    unfoldable pub take_reply :
        (W → Option (MtuPayloadResult × W)) → Bool → W → Option (MtuPayloadResult × W)
    unfolding would_block
    take_reply next pollin w =
        let (bytes, w1) = ops.read fd w in
        let (now, w2) = ops.env.now w1 in
        if not pollin then next w else elim bytes [
          | fault x ↦
              if would_block k x
              then next w1
              else some (ended_as error size (wrapped k "read icmp: " x), w1)
          | done b ↦
              if echo_reply_matches_sequence (ops.parse_message b) seq
              then some (
                record { status = success; payload_size = size; rtt = sub64 now start; err = none },
                w2,
              )
              else next w1
        ]

    -- What the error queue gave, before that.
    unfoldable pub after_drain :
        (W → Option (MtuPayloadResult × W))
        → Bool
        → Option (Option MtuErrQueueEvent × W)
        → Option (MtuPayloadResult × W)
    unfolding take_reply
    after_drain next pollin none = none
    after_drain next pollin (some (some event, w)) =
        some
          (record { status = event.status; payload_size = size; rtt = pos 0; err = event.err }, w)
    after_drain next pollin (some (none, w)) = take_reply next pollin w

    -- From the return of Poll on.
    unfoldable pub after_poll :
        (W → Option (MtuPayloadResult × W)) → SysResult Polled → W → Option (MtuPayloadResult × W)
    unfolding after_drain drain
    after_poll next (fault x) w =
        if x == k.eintr then next w else some (ended_as error size (wrapped k "poll: " x), w)
    after_poll next (done p) w =
        let (e, w1) = ops.env.ctx_err w in
        elim e [
          | some x ↦ some (ended_as timeout size (plain_error x), w1)
          | none ↦
              if p.ready == 0
              then next w1
              else if p.pollerr
              then after_drain next p.pollin (drain fd seq w1)
              else take_reply next p.pollin w1
        ]

    -- The loop; the number is fuel.
    unfoldable pub await_reply : ℕ → W → Option (MtuPayloadResult × W)
    unfolding after_poll
    await_reply zero w = none
    await_reply (suc n) w =
        let (e, w1) = ops.env.ctx_err w in
        let (wait, w2) = poll_timeout ops w1 in
        let (polled, w3) = ops.poll fd wait.0 w2 in
        elim e [
          | some x ↦ some (ended_as timeout size (plain_error x), w1)
          | none ↦
              if wait.1
              then some (ended_as timeout size (plain_error "context deadline exceeded"), w2)
              else after_poll (await_reply n) polled w3
        ]

    -- After Write: what the queue says of a local limit is read and dropped.
    unfoldable pub after_write : SysResult (Unit {0}) → W → Option (MtuPayloadResult × W)
    unfolding await_reply drain
    after_write (done _) w = await_reply (suc (ops.polls w)) w
    after_write (fault x) w =
        if x == k.emsgsize
        then elim (drain fd seq w) [
          | none ↦ none
          | some (event, w1) ↦ some (ended_as local_too_large size (k.errno_error x), w1)
        ]
        else some (ended_as error size (k.errno_error x), w)

  -- From the marshalled message on.
  unfoldable pub ping_with : ℕ → ℤ → ℤ → Outcome (List ℕ) → W → Option (MtuPayloadResult × W)
  unfolding after_write
  ping_with fd size seq (failed e) w =
      some (ended_as error size (plain_error ("marshal icmp: " <> e)), w)
  ping_with fd size seq (got wire) w =
      let (start, w1) = ops.env.now w in
      let (written, w2) = ops.write fd wire w1 in after_write fd size seq start written w2

  -- The deferred Close.
  unfoldable pub closing : ℕ → Option (MtuPayloadResult × W) → Option (MtuPayloadResult × W)
  closing fd none = none
  closing fd (some (r, w)) = some (r, ops.close fd w)

  -- After the opening, by its descriptor and its error.
  unfoldable pub opened_ping :
      ℤ → ℤ → (Option ℕ × Option GoError) × W → Option (MtuPayloadResult × W)
  unfolding ping_with closing
  opened_ping size seq ((some fd, none), w) =
      closing fd (ping_with fd size seq (ops.marshal seq size) w)
  opened_ping size seq ((fd, e), w) =
      some (record { status = error; payload_size = size; rtt = pos 0; err = e }, w)

  unfoldable pub probe_ping_socket : String → ℤ → ℤ → W → Option (MtuPayloadResult × W)
  unfolding opened_ping
  probe_ping_socket dst size seq w = opened_ping size seq (open_mtu_ping_socket k ops dst w)
