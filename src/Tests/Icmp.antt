-- ===== src/Tests/Icmp.antt =====
-- The ICMP probe on a host that answers once, and a ping socket that gets a reply.
use netsonar.Base.{ℕ, zero, suc, ◌-◌, ◌<◌, ◌≡◌, refl, true, false, List, [], ◌∷◌, none, some, arith}
use netsonar.Base.Int.{pos}
use netsonar.Config.Types.{TargetConfig, icmp}
use netsonar.Probe.Resolve.{Env, ipv4}
use netsonar.Probe.Sockets.{Outcome, got, failed, remove}
use netsonar.Probe.Icmp.Echo.{Packet, IcmpOps, send_echo}
use netsonar.Probe.Icmp.Echo.Returns.{Returned, send_echo-Returned}
use netsonar.Probe.Icmp.Sequence.{Float}
use netsonar.Tests.Samples.{web, no_options}

-- The open sockets, and the datagrams that are on their way.
abbrev Wire : Type 0
Wire = List ℕ × ℕ

abbrev reply : Packet
reply = record { bytes = []; peer = some "10.0.0.9" }

abbrev deliver : ℕ → Wire → Outcome Packet × Wire
deliver c (cs, zero) = (failed "timeout", (cs, zero))
deliver c (cs, suc n) = (got reply, (cs, n))

deliver-held : (c : ℕ) (w : Wire) → (deliver c w).1.0 ≡ w.0
deliver-held c (cs, zero) = refl
deliver-held c (cs, suc n) = refl

deliver-pending :
    (c : ℕ) (w : Wire) (p : Packet) → (deliver c w).0 ≡ got p → (deliver c w).1.1 < w.1
deliver-pending c (cs, zero) p h = absurd (cc)
deliver-pending c (cs, suc n) p h = omega arith

abbrev env : Env Wire
env = record {
  ctx_err = λ w. (none, w);
  now = λ w. (pos 5, w);
  parse_ip = λ s. some (ipv4 s);
  lookup_ip4 = λ r s w. ((none, "no such host"), w);
}

abbrev ops : IcmpOps Wire
ops = record {
  env = env;
  listen = λ (cs, n). (got 3, (3 ∷ cs, n));
  close = λ c (cs, n). (remove c cs, n);
  ctx_deadline = λ w. (some (pos 900), w);
  set_deadline = λ c t w. (got tt, w);
  marshal = λ e. got [];
  write_to = λ c b dst w. (got tt, w);
  read_from = deliver;
  parse_message = λ b. some (record { is_echo_reply = true; echo_seq = some 0 });
  equal_ip = λ a b. true;
  timer = λ d w. (true, w);
  held = λ w. w.0;
  bounded = λ c w. true;
  pending = λ c w. w.1;
  held-err = λ w. refl;
  held-now = λ w. refl;
  held-lookup_ip4 = λ r h w. refl;
  held-listen = λ w. refl;
  held-close = λ c w. refl;
  held-ctx_deadline = λ w. refl;
  held-set_deadline = λ c t w. refl;
  held-write = λ c b d w. refl;
  held-read = deliver-held;
  held-timer = λ d w. refl;
  bounded-set_deadline = λ c t w h. refl;
  bounded-err = λ c w h. refl;
  bounded-now = λ c w h. refl;
  bounded-write = λ c b d w h. refl;
  bounded-read = λ c w h. refl;
  pending-err = λ c w. omega arith;
  pending-now = λ c w. omega arith;
  pending-read = λ c w p b h. deliver-pending c w p h;
}

-- Whole numbers in place of floats.
abbrev whole : Float ℕ
whole = record {
  nought = 0;
  of_int = λ n. n;
  seconds = λ d. 1;
  add = λ a b. a;
  sub = λ a b. a - b;
  mul = λ a b. a;
  div = λ a b. a;
  is_negative = λ a. false;
  sqrt = λ a. a;
  to_duration = λ a. pos a;
}

abbrev host : TargetConfig
host = record web {
  name = "host";
  address = "10.0.0.9";
  probe_type = icmp;
  probe_opts = record no_options { ping_count = pos 3 };
}

send_echo-Returned_example :
    Returned ops 3 "10.0.0.9" 0 (3 ∷ []) (send_echo ops 3 "10.0.0.9" 0 (3 ∷ [], 1))
send_echo-Returned_example = send_echo-Returned ops 3 "10.0.0.9" 0 (3 ∷ [], 1)
