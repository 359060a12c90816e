-- ===== src/Probe/Icmp/Sequence/Tallied.antt =====
-- What runICMPEchoSequence of internal/probe/icmp.go counts and reports.
use netsonar.Base.{
  ℕ, zero, suc, ◌+◌, ◌-◌, ◌≤◌, ◌<◌, ◌≡◌, ◌↔◌, refl, ◌∙◌, true, ◌||◌, not, is_blank, List, [], ◌∷◌,
  All, if◌then◌else◌, none, is_some, ◌==◌, arith, Bool-cases, Option-cases, inl, inr,
}
use netsonar.Base.Int.{ℤ, pos}
use netsonar.Probe.Result.{ProbeResult}
use netsonar.Probe.Icmp.Echo.{EchoResult, IcmpOps}
use netsonar.Probe.Icmp.Sequence.{
  Float, Tally, count_reply, count_echo, wait_for_ping, echo_loop, summarize,
}

-- How many of the results have no error, and how many were sent.
abbrev pub replies_in : List EchoResult → ℕ
replies_in [] = 0
replies_in (r ∷ rs) = if is_some r.err then replies_in rs else suc (replies_in rs)

abbrev pub sent_in : List EchoResult → ℕ
sent_in [] = 0
sent_in (r ∷ rs) = if r.sent then suc (sent_in rs) else sent_in rs

-- The report of an ICMP probe on the results of its requests: the replies are those without
-- an error, the loss is the part of the requests sent that had none (all, if none was sent), a success is a
-- reply, and then not all is lost, with an error text otherwise; a deviation only of two replies or more.
pub record IsIcmpReported (limit : ℕ) (results : List EchoResult) (r : ProbeResult) : Type 0 where
  pub observed : r.icmp_replies_observed ≡ replies_in results
  pub loss :
      0 < sent_in results
      → (r.packet_loss.num ≡ pos (sent_in results - replies_in results))
        × (r.packet_loss.den ≡ sent_in results)
  pub lost_some :
      (n : ℕ) × (r.packet_loss.num ≡ pos n)
      × (n ≤ r.packet_loss.den)
      × ((r.success ≡ true) ↔ (n < r.packet_loss.den))
  pub loss_defined : 0 < r.packet_loss.den
  pub sent_at_most : r.packet_loss.den ≤ limit
  pub replied : (r.success ≡ true) ↔ (0 < replies_in results)
  pub explained : is_blank r.error ≡ r.success
  pub deviates : replies_in results < 2 → r.icmp_stddev_rtt ≡ pos 0

-- A tally of results of at most so many pings.
pub record IsTallied {F : Type 0} (limit : ℕ) (results : List EchoResult) (t : Tally F)
    : Type 0 where
  pub replies : t.received ≡ replies_in results
  pub sends : t.actual_sent ≡ sent_in results
  pub within : replies_in results ≤ sent_in results
  pub sent_within : sent_in results ≤ limit

module _ {F : Type 0} (float : Float F) where
  pub summarize-IsIcmpReported :
      (limit : ℕ) (rs : List EchoResult) (t : Tally F)
      → 0 < limit
      → IsTallied limit rs t
      → IsIcmpReported limit rs (summarize float t)
  unfolding summarize
  summarize-IsIcmpReported limit rs t p i =
      let c = i.replies in
      let d = i.sends in
      let h0 = i.within in
      elim (Bool-cases (t.actual_sent == 0)) [
        | inl z ↦ rw z record {
          observed = ground (arith);
          loss = λ h. (ground (arith), ground (arith));
          lost_some = (1, refl, omega arith, (λ h. absurd (cc), λ h. absurd (omega arith)));
          loss_defined = omega arith;
          sent_at_most = omega arith;
          replied = (λ h. absurd (cc), λ h. absurd (ground arith));
          explained = refl;
          deviates = λ h. ground arith;
        }
        | inr nz ↦ elim (Bool-cases (t.received == 0)) [
          | inl z ↦ rw nz (
              rw z record {
                observed = ground (arith);
                loss = λ h. (ground (arith), ground (arith));
                lost_some = (
                  t.actual_sent - t.received,
                  ground arith,
                  omega arith,
                  (λ h. absurd (cc), λ h. absurd (ground arith)),
                );
                loss_defined = ground arith;
                sent_at_most = ground arith;
                replied = (λ h. absurd (cc), λ h. absurd (ground arith));
                explained = refl;
                deviates = λ h. ground arith;
              })
          | inr k ↦ rw nz (
              rw k record {
                observed = ground (arith);
                loss = λ h. (ground (arith), ground (arith));
                lost_some = (
                  t.actual_sent - t.received,
                  ground arith,
                  omega arith,
                  (λ h. ground arith, λ h. refl),
                );
                loss_defined = ground arith;
                sent_at_most = ground arith;
                replied = (λ h. ground arith, λ h. refl);
                explained = refl;
                deviates = λ h. ground arith;
              })
        ]
      ]

-- A sender with results of a kind, that has sent what it has an answer to, and opens and closes nothing.
pub record IsSound {W : Type 0} (ops : IcmpOps W) (Echo : EchoResult → Type 0)
    (send : ℕ → W → EchoResult × W) : Type 0 where
  pub echoes : (seq : ℕ) (w : W) → Echo (send seq w).0
  pub sends : (seq : ℕ) (w : W) → (send seq w).0.err ≡ none → (send seq w).0.sent ≡ true
  pub keeps : (seq : ℕ) (w : W) → ops.held (send seq w).1 ≡ ops.held w

wait_for_ping-held :
    {W : Type 0} (ops : IcmpOps W) (interval : ℤ) (seq : ℕ) (w : W)
    → ops.held (wait_for_ping ops interval seq w).1 ≡ ops.held w
unfolding wait_for_ping
wait_for_ping-held ops interval zero w = refl
wait_for_ping-held ops interval (suc n) w = ops.held-timer interval w

-- What the loop adds to its tally, from the results of its requests.
pub record IsCounted {F : Type 0} (limit : ℕ) (Echo : EchoResult → Type 0) (rs : List EchoResult)
    (t u : Tally F) : Type 0 where
  pub each : All Echo rs
  pub replies : u.received ≡ t.received + replies_in rs
  pub sends : u.actual_sent ≡ t.actual_sent + sent_in rs
  pub within : replies_in rs ≤ sent_in rs
  pub sent_within : sent_in rs ≤ limit

module _ {F : Type 0} (float : Float F) (Echo : EchoResult → Type 0) where
  tally-IsCounted : (limit : ℕ) (t : Tally F) → IsCounted limit Echo [] t t
  tally-IsCounted limit t = record {
    each = tt;
    replies = omega arith;
    sends = omega arith;
    within = omega arith;
    sent_within = omega arith;
  }

  count_echo-IsCounted :
      (limit : ℕ) (t u : Tally F) (r : EchoResult) (rs : List EchoResult)
      → (r.err ≡ none → r.sent ≡ true)
      → Echo r
      → IsCounted limit Echo rs (count_echo float t r) u
      → IsCounted (suc limit) Echo (r ∷ rs) t u
  unfolding count_echo count_reply
  count_echo-IsCounted limit t u r rs h e i =
      let c = i.replies in
      let d = i.sends in
      let k = i.within in
      let l = i.sent_within in
      elim (Option-cases r.err) [
        | inl q ↦
            let sent = h q in
            record {
              each = (e, i.each);
              replies = ground (arith, q, sent);
              sends = ground (arith, q, sent);
              within = ground (arith, q, sent);
              sent_within = ground (arith, q, sent);
            }
        | inr (x, q) ↦ record {
          each = (e, i.each);
          replies = ground (arith, q);
          sends = ground (arith, q);
          within = ground (arith, q);
          sent_within = ground (arith, q);
        }
      ]

module _ {W : Type 0} (ops : IcmpOps W) (interval : ℤ) (send : ℕ → W → EchoResult × W) where
  -- What the sender returned of each ping: the loop without its tally.
  unfoldable pub echo_results : ℕ → ℕ → W → List EchoResult
  echo_results zero seq w = []
  echo_results (suc n) seq w =
      let (e, w1) = ops.env.ctx_err w in
      let (go, w2) = wait_for_ping ops interval seq w1 in
      let (r, w3) = send seq w2 in
      let rest = echo_results n (suc seq) w3 in if is_some e || not go then [] else r ∷ rest

module _ {W F : Type 0} (float : Float F) (ops : IcmpOps W) (Echo : EchoResult → Type 0) where
  module _ (interval : ℤ) (send : ℕ → W → EchoResult × W) where
    pub echo_loop-IsCounted :
        (n seq : ℕ) (t : Tally F) (w : W)
        → IsSound ops Echo send
        → IsCounted n Echo
            (echo_results ops interval send n seq w)
            t
            (echo_loop float ops interval send n seq t w).0
          × (ops.held (echo_loop float ops interval send n seq t w).1 ≡ ops.held w)
    unfolding echo_loop echo_results
    echo_loop-IsCounted zero seq t w sound = (tally-IsCounted float Echo zero t, refl)
    echo_loop-IsCounted (suc n) seq t w sound =
        let w1 = (ops.env.ctx_err w).1 in
        let (go, w2) = wait_for_ping ops interval seq w1 in
        let (r, w3) = send seq w2 in
        let h2 : ops.held w2 ≡ ops.held w =
          wait_for_ping-held ops interval seq w1 ∙ ops.held-err w in
        elim (Bool-cases (is_some (ops.env.ctx_err w).0)) [
          | inl q ↦ rw q (tally-IsCounted float Echo (suc n) t, ops.held-err w)
          | inr q ↦ elim (Bool-cases go) [
            | inr l ↦ rw q (rw l (tally-IsCounted float Echo (suc n) t, h2))
            | inl l ↦
                let (j, held) = echo_loop-IsCounted n (suc seq) (count_echo float t r) w3 sound in
                rw q (
                  rw l (
                    count_echo-IsCounted float Echo n t _ r _ (sound.sends seq w2)
                        (sound.echoes seq w2) j,
                    held ∙ (sound.keeps seq w2 ∙ h2),
                  ))
          ]
        ]
