-- ===== src/Probe/PingSocket/Queue.antt =====
-- The pure part of internal/probe/mtu_backend_linux.go: what an entry of a socket's error queue says. A
-- byte is a number below 256.
pub mod Status
use netsonar.Base.{
  ℕ, ◌+◌, ◌*◌, ◌≢◌, Bool, true, false, ◌&&◌, ◌||◌, not, String, ◌<>◌, List, [], ◌∷◌, Option, none,
  some, if◌then◌else◌, ltb, ◌==◌, length, get_or, show_ℕ,
}
use netsonar.Base.Int.{ℤ, pos, eq_ℤ}
use netsonar.Probe.Resolve.{GoError}
use netsonar.Probe.Sockets.{Outcome, got, failed}
use netsonar.Probe.Mtu.Classify.{MtuPayloadStatus, too_large, local_too_large, unreachable, error}

pub record SockExtendedErr : Type 0 where
  pub errno : ℕ
  pub origin : ℕ
  pub typ : ℕ
  pub code : ℕ
  pub info : ℕ
  pub data_word : ℕ

pub record MtuErrQueueEvent : Type 0 where
  pub status : MtuPayloadStatus
  pub err : Option GoError

-- A control message of the socket.
pub record ControlMessage : Type 0 where
  pub level : ℕ
  pub typ : ℕ
  pub bytes : List ℕ

-- The numbers of the system, the order of its bytes, unix.ParseSocketControlMessage, and the error of a
-- syscall.Errno.
pub record Kernel : Type 0 where
  pub ipproto_ip : ℕ
  pub ip_recverr : ℕ
  pub origin_icmp : ℕ
  pub origin_local : ℕ
  pub emsgsize : ℕ
  pub eagain : ℕ
  pub ewouldblock : ℕ
  pub eintr : ℕ
  pub icmp_type_echo : ℕ
  pub little_endian : Bool
  pub parse_control : List ℕ → Outcome (List ControlMessage)
  pub errno_error : ℕ → GoError
  pub origins_differ : origin_icmp ≢ origin_local

-- binary.NativeEndian.Uint32 and binary.BigEndian.Uint16 of the bytes from an index.
unfoldable pub uint32_at : Bool → List ℕ → ℕ → ℕ
uint32_at little bytes i =
    let b0 = get_or bytes i 0 in
    let b1 = get_or bytes (i + 1) 0 in
    let b2 = get_or bytes (i + 2) 0 in
    let b3 = get_or bytes (i + 3) 0 in
    if little
    then b0 + 256 * b1 + 65536 * b2 + 16777216 * b3
    else b3 + 256 * b2 + 65536 * b1 + 16777216 * b0

unfoldable pub parse_sock_extended_err : Bool → List ℕ → Option SockExtendedErr
unfolding uint32_at
parse_sock_extended_err little bytes =
    if ltb (length bytes) 16
    then none
    else some (record {
      errno = uint32_at little bytes 0;
      origin = get_or bytes 4 0;
      typ = get_or bytes 5 0;
      code = get_or bytes 6 0;
      info = uint32_at little bytes 8;
      data_word = uint32_at little bytes 12;
    })

module _ (k : Kernel) where
  unfoldable pub quoted_packet_has_wrong_sequence : List ℕ → ℤ → Bool
  quoted_packet_has_wrong_sequence bytes seq =
      if ltb (length bytes) 8
        || (not (get_or bytes 0 0 == k.icmp_type_echo) || not (get_or bytes 1 0 == 0))
      then false
      else not (eq_ℤ (pos (256 * get_or bytes 6 0 + get_or bytes 7 0)) seq)

  -- The `switch` on an extended error.
  unfoldable pub event_of : SockExtendedErr → MtuErrQueueEvent
  event_of ee =
      if ee.origin == k.origin_icmp && (ee.typ == 3 && (ee.code == 4 && ee.errno == k.emsgsize))
      then record { status = too_large; err = some (k.errno_error k.emsgsize) }
      else if ee.origin == k.origin_local && ee.errno == k.emsgsize
      then record { status = local_too_large; err = some (k.errno_error k.emsgsize) }
      else if ee.origin == k.origin_icmp && ee.typ == 3
      then record { status = unreachable; err = some (k.errno_error ee.errno) }
      else record {
        status = error;
        err = some (record {
          text =
              "unexpected error queue event: origin="
              <> (show_ℕ ee.origin
                  <> (" type="
                      <> (show_ℕ ee.typ
                          <> (" code=" <> (show_ℕ ee.code <> (" errno=" <> show_ℕ ee.errno))))));
          is_permission = false;
        });
      }

  -- What follows the tests of level and type of a message.
  unfoldable pub event_of_message : List ℕ → Bool → ℤ → ControlMessage → Option MtuErrQueueEvent
  unfolding parse_sock_extended_err event_of quoted_packet_has_wrong_sequence
  event_of_message quoted complete seq m = elim (parse_sock_extended_err k.little_endian m.bytes) [
    | none ↦ none
    | some ee ↦
        if complete && quoted_packet_has_wrong_sequence quoted seq then none else some (event_of ee)
  ]

  unfoldable pub is_recverr : ControlMessage → Bool
  is_recverr m = not (not (m.level == k.ipproto_ip) || not (m.typ == k.ip_recverr))

  -- The loop over the control messages, which the first of the error queue ends.
  unfoldable pub classify_messages :
      List ℕ → Bool → ℤ → List ControlMessage → Option MtuErrQueueEvent
  unfolding event_of_message is_recverr
  classify_messages quoted complete seq [] = none
  classify_messages quoted complete seq (m ∷ ms) =
      let rest = classify_messages quoted complete seq ms in
      if not (is_recverr m) then rest else event_of_message quoted complete seq m

  unfoldable pub classify_mtu_error_queue_message :
      List ℕ → List ℕ → Bool → ℤ → Option MtuErrQueueEvent
  unfolding classify_messages
  classify_mtu_error_queue_message oob quoted complete seq = elim (k.parse_control oob) [
    | failed e ↦ some (record {
      status = error;
      err = some (record { text = "parse socket control message: " <> e; is_permission = false });
    })
    | got ms ↦ classify_messages quoted complete seq ms
  ]
