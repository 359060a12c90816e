-- ===== src/Tests/Socket.antt =====
-- A ping socket that gets an echo reply, with an error in its queue.
use netsonar.Base.{
  ℕ, zero, suc, ◌-◌, ◌≤◌, ◌<◌, ◌≡◌, refl, true, false, ◌&&◌, String, List, [], ◌∷◌, Option, none,
  some, is_some, arith,
}
use netsonar.Base.Int.{pos}
use netsonar.Probe.Resolve.{Env, ipv4}
use netsonar.Probe.Sockets.{got, remove}
use netsonar.Probe.PingSocket.Queue.{
  SockExtendedErr, ControlMessage, Kernel, quoted_packet_has_wrong_sequence,
  classify_mtu_error_queue_message,
}
use netsonar.Probe.PingSocket.Queue.Status.{Tells, classify_queue-Tells}
use netsonar.Probe.PingSocket.Calls.{SysResult, done, fault, Received, SocketOps}
use netsonar.Probe.PingSocket.Ping.{probe_ping_socket}
use netsonar.Probe.PingSocket.Ping.Returns.{Returned}
use netsonar.Probe.PingSocket.Ping.Closed.{probe_ping_socket-Returned}

-- ICMP's answer that a packet is too large, behind a message of another level.
abbrev too_big : SockExtendedErr
too_big = record { errno = 90; origin = 2; typ = 3; code = 4; info = 1400; data_word = 0 }

abbrev other : ControlMessage
other = record { level = 1; typ = 29; bytes = [] }

abbrev bytes_of_error : List ℕ
bytes_of_error = 90 ∷ 0 ∷ 0 ∷ 0 ∷ 2 ∷ 3 ∷ 4 ∷ 0 ∷ 120 ∷ 5 ∷ 0 ∷ 0 ∷ 0 ∷ 0 ∷ 0 ∷ 0 ∷ []

abbrev kernel : Kernel
kernel = record {
  ipproto_ip = 0;
  ip_recverr = 11;
  origin_icmp = 2;
  origin_local = 1;
  emsgsize = 90;
  eagain = 11;
  ewouldblock = 11;
  eintr = 4;
  icmp_type_echo = 8;
  little_endian = true;
  parse_control = λ b. got (other ∷ (record { level = 0; typ = 11; bytes = bytes_of_error }) ∷ []);
  errno_error = λ x. record { text = "errno"; is_permission = false };
  origins_differ = λ h. omega arith;
}

classify_queue-Tells_example :
    Tells kernel too_big
      (true
        && quoted_packet_has_wrong_sequence kernel
            (8 ∷ 0 ∷ 0 ∷ 0 ∷ 0 ∷ 0 ∷ 5 ∷ 192 ∷ [])
            (pos 1472))
      (classify_mtu_error_queue_message kernel []
        (8 ∷ 0 ∷ 0 ∷ 0 ∷ 0 ∷ 0 ∷ 5 ∷ 192 ∷ [])
        true
        (pos 1472))
classify_queue-Tells_example =
    classify_queue-Tells kernel too_big 0 [] [] (8 ∷ 0 ∷ 0 ∷ 0 ∷ 0 ∷ 0 ∷ 5 ∷ 192 ∷ []) true
      (pos 1472) (other ∷ []) [] refl ((λ h. absurd (omega arith)), tt)

-- The open sockets, the entries of the queue, and the polls before the deadline.
abbrev Host : Type 0
Host = List ℕ × ℕ × ℕ

abbrev expired : Host → Option String
expired (fds, n, zero) = some "context deadline exceeded"
expired (fds, n, suc m) = none

expired-done : (w : Host) → w.2 ≡ 0 → is_some (expired w) ≡ true
expired-done (fds, n, zero) h = refl
expired-done (fds, n, suc m) h = absurd (omega arith)

abbrev receive : Host → SysResult Received × Host
receive (fds, zero, m) = (fault 11, (fds, zero, m))
receive (fds, suc n, m) =
    (done (record { quoted = []; oob = []; ctrunc = true; trunc = false }), (fds, n, m))

receive-held : (w : Host) → (receive w).1.0 ≡ w.0
receive-held (fds, zero, m) = refl
receive-held (fds, suc n, m) = refl

receive-polls : (w : Host) → (receive w).1.2 ≤ w.2
receive-polls (fds, zero, m) = omega arith
receive-polls (fds, suc n, m) = omega arith

receive-entries : (w : Host) (r : Received) → (receive w).0 ≡ done r → (receive w).1.1 < w.1
receive-entries (fds, zero, m) r h = absurd (cc)
receive-entries (fds, suc n, m) r h = omega arith

abbrev env : Env Host
env = record {
  ctx_err = λ w. (expired w, w);
  now = λ w. (pos 5, w);
  parse_ip = λ s. some (ipv4 s);
  lookup_ip4 = λ r s w. ((none, "no such host"), w);
}

abbrev sockets : SocketOps Host
sockets = record {
  env = env;
  ctx_deadline = λ w. (some (pos 900), w);
  to4 = λ s. some (10 ∷ 0 ∷ 0 ∷ 9 ∷ []);
  marshal = λ seq size. got [];
  parse_message = λ b. some (record { is_echo_reply = true; echo_seq = some 1472 });
  socket = λ (fds, n, m). (done 7, (7 ∷ fds, n, m));
  setsockopt = λ fd o w. (done tt, w);
  connect = λ fd a w. (done tt, w);
  set_nonblock = λ fd w. (done tt, w);
  close = λ fd (fds, n, m). (remove fd fds, n, m);
  write = λ fd b w. (done tt, w);
  poll = λ fd t (fds, n, m).
      (done (record { ready = 1; pollerr = true; pollin = true }), (fds, n, m - 1));
  recvmsg = λ fd w. receive w;
  read = λ fd w. (done [], w);
  held = λ w. w.0;
  entries = λ fd w. w.1;
  polls = λ w. w.2;
  held-err = λ w. refl;
  held-now = λ w. refl;
  held-deadline = λ w. refl;
  held-socket = λ w. refl;
  held-setsockopt = λ fd o w. refl;
  held-connect = λ fd a w. refl;
  held-set_nonblock = λ fd w. refl;
  held-close = λ fd w. refl;
  held-write = λ fd b w. refl;
  held-poll = λ fd t w. refl;
  held-recvmsg = λ fd w. receive-held w;
  held-read = λ fd w. refl;
  entries-recvmsg = λ fd w r h. receive-entries w r h;
  polls-err = λ w. omega arith;
  polls-now = λ w. omega arith;
  polls-deadline = λ w. omega arith;
  polls-recvmsg = λ fd w. receive-polls w;
  polls-read = λ fd w. omega arith;
  polls-done = expired-done;
  polls-poll = λ fd t w. omega arith;
}

probe_ping_socket-Returned_example :
    Returned kernel sockets
      (pos 1472)
      (pos 1472)
      []
      (probe_ping_socket kernel sockets "10.0.0.9" (pos 1472) (pos 1472) ([], 1, 3))
probe_ping_socket-Returned_example =
    probe_ping_socket-Returned kernel sockets "10.0.0.9" (pos 1472) (pos 1472) ([], 1, 3)
