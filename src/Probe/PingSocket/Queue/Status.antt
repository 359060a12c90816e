-- ===== src/Probe/PingSocket/Queue/Status.antt =====
-- The entries of the error queue as the kernel writes them, read by internal/probe/mtu_backend_linux.go.
use netsonar.Base.{
  ℕ, ◌+◌, ◌*◌, ◌/◌, ◌%◌, ◌≡◌, ◌≢◌, ◌↔◌, refl, sym, ◌∙◌, Bool, true, false, ◌&&◌, List, [], ◌∷◌,
  ◌++◌, Option, none, some, if◌then◌else◌, arith, All,
}
use netsonar.Base.Int.{ℤ}
use netsonar.Probe.Sockets.{got}
use netsonar.Probe.Mtu.Classify.{
  MtuPayloadStatus, success, timeout, too_large, local_too_large, unreachable,
}
use netsonar.Probe.PingSocket.Queue.{
  SockExtendedErr, MtuErrQueueEvent, ControlMessage, Kernel, uint32_at, parse_sock_extended_err,
  quoted_packet_has_wrong_sequence, event_of, event_of_message, is_recverr, classify_messages,
  classify_mtu_error_queue_message,
}

-- A 32-bit word in memory.
abbrev pub word : Bool → ℕ → List ℕ
word little n =
    let b0 = n % 256 in
    let b1 = n / 256 % 256 in
    let b2 = n / 65536 % 256 in
    let b3 = n / 16777216 in if little then b0 ∷ b1 ∷ b2 ∷ b3 ∷ [] else b3 ∷ b2 ∷ b1 ∷ b0 ∷ []

-- struct sock_extended_err: the number, origin, type and code, a byte of padding, and two words.
abbrev pub written : Bool → SockExtendedErr → ℕ → List ℕ
written little e pad =
    word little e.errno
    ++ (e.origin ∷ (e.typ ∷ (e.code ∷ (pad ∷ (word little e.info ++ word little e.data_word)))))

word_value :
    (n : ℕ)
    → n % 256 + 256 * (n / 256 % 256) + 65536 * (n / 65536 % 256) + 16777216 * (n / 16777216) ≡ n
word_value n = omega arith

parse_sock_extended_err-written :
    (little : Bool) (e : SockExtendedErr) (pad : ℕ) (rest : List ℕ)
    → parse_sock_extended_err little (written little e pad ++ rest) ≡ some e
unfolding parse_sock_extended_err uint32_at
parse_sock_extended_err-written true e pad rest =
    ground (arith, word_value e.errno, word_value e.info, word_value e.data_word)
parse_sock_extended_err-written false e pad rest =
    ground (arith, word_value e.errno, word_value e.info, word_value e.data_word)

module _ (k : Kernel) where
  -- What an error means for the size that was sent: a router wants fragments, the own host does, the
  -- destination cannot be reached, or something else is wrong.
  pub record Means (e : SockExtendedErr) (s : MtuPayloadStatus) : Type 0 where
    pub means_too_large :
        (s ≡ too_large)
        ↔ (e.origin ≡ k.origin_icmp) × (e.typ ≡ 3) × (e.code ≡ 4) × (e.errno ≡ k.emsgsize)
    pub means_local : (s ≡ local_too_large) ↔ (e.origin ≡ k.origin_local) × (e.errno ≡ k.emsgsize)
    pub means_unreachable :
        (s ≡ unreachable)
        ↔ (e.origin ≡ k.origin_icmp) × (e.typ ≡ 3) × ¬ ((e.code ≡ 4) × (e.errno ≡ k.emsgsize))
    pub no_answer : (s ≢ success) × (s ≢ timeout)

  origins_apart : (e : SockExtendedErr) → e.origin ≡ k.origin_local → e.origin ≢ k.origin_icmp
  origins_apart e h q = k.origins_differ (sym q ∙ h)

  pub event_of-Means : (e : SockExtendedErr) → Means e (event_of k e).status
  unfolding event_of
  event_of-Means e = record {
    means_too_large = (λ h. ground arith, λ h. ground arith);
    means_local = (λ h. ground arith, λ h. ground (arith, origins_apart e h.0));
    means_unreachable = (λ h. ground arith, λ h. ground (arith, origins_apart e));
    no_answer = (λ h. ground arith, λ h. ground arith);
  }

  -- A message of the error queue that the kernel writes for an error.
  abbrev pub queued : SockExtendedErr → ℕ → List ℕ → ControlMessage
  queued e pad rest = record {
    level = k.ipproto_ip;
    typ = k.ip_recverr;
    bytes = written k.little_endian e pad ++ rest;
  }

  abbrev pub IsOther : ControlMessage → Type 0
  IsOther m = ¬ ((m.level ≡ k.ipproto_ip) × (m.typ ≡ k.ip_recverr))

  IsOther-skipped : (m : ControlMessage) → IsOther m → is_recverr k m ≡ false
  unfolding is_recverr
  IsOther-skipped m h = ground arith

  -- What is read of the messages: nothing if the quoted packet is of another probe, else the meaning.
  abbrev pub Tells : SockExtendedErr → Bool → Option MtuErrQueueEvent → Type 0
  Tells e other o =
      (other ≡ true → o ≡ none)
      × (other ≡ false → (v : MtuErrQueueEvent) × (o ≡ some v) × Means e v.status)

  queued-is_recverr :
      (e : SockExtendedErr) (pad : ℕ) (rest : List ℕ) → is_recverr k (queued e pad rest) ≡ true
  unfolding is_recverr
  queued-is_recverr e pad rest = ground arith

  event_of_message-queued :
      (e : SockExtendedErr) (pad : ℕ) (rest quoted : List ℕ) (complete : Bool) (seq : ℤ)
      → event_of_message k quoted complete seq (queued e pad rest) ≡ (
          if complete && quoted_packet_has_wrong_sequence k quoted seq
          then none
          else some (event_of k e))
  unfolding event_of_message
  event_of_message-queued e pad rest quoted complete seq =
      rw (parse_sock_extended_err-written k.little_endian e pad rest, event_of_message) refl

  classify_messages-Tells :
      (e : SockExtendedErr) (pad : ℕ) (rest quoted : List ℕ) (complete : Bool) (seq : ℤ)
      (others later : List ControlMessage)
      → All IsOther others
      → Tells e
          (complete && quoted_packet_has_wrong_sequence k quoted seq)
          (classify_messages k quoted complete seq (others ++ (queued e pad rest ∷ later)))
  unfolding classify_messages
  classify_messages-Tells e pad rest quoted complete seq (o ∷ others) later h =
      rw (IsOther-skipped o h.0)
        (classify_messages-Tells e pad rest quoted complete seq others later h.1)
  classify_messages-Tells e pad rest quoted complete seq [] later h =
      rw (queued-is_recverr e pad rest) (
        rw (event_of_message-queued e pad rest quoted complete seq)
          (λ q. rw q refl, λ q. rw q (event_of k e, refl, event_of-Means e)))

-- What is read of the error queue is what the kernel wrote there: an extended error, in either order of
-- bytes, after messages of other kinds and before any, gives no event if the whole packet is quoted and
-- is that of another number, and else the status that its number, origin, type and code stand for.
pub classify_queue-Tells :
    (k : Kernel) (e : SockExtendedErr) (pad : ℕ) (rest oob quoted : List ℕ) (complete : Bool)
    (seq : ℤ) (others later : List ControlMessage)
    → k.parse_control oob ≡ got (others ++ (queued k e pad rest ∷ later))
    → All (IsOther k) others
    → Tells k e
        (complete && quoted_packet_has_wrong_sequence k quoted seq)
        (classify_mtu_error_queue_message k oob quoted complete seq)
unfolding classify_mtu_error_queue_message
classify_queue-Tells k e pad rest oob quoted complete seq others later q h =
    rw (q, classify_mtu_error_queue_message)
      (classify_messages-Tells k e pad rest quoted complete seq others later h)
