-- ===== src/Probe/PingSocket.antt =====
-- internal/probe/mtu_backend_linux.go: the backend of the MTU probe that uses ping sockets, and that of
-- internal/probe/mtu_backend_other.go. An attempt has its own context, by its timeout.
pub mod Queue
pub mod Calls
pub mod Ping
use netsonar.Base.{ℕ, false, String, Option, none, some}
use netsonar.Base.Int.{ℤ, pos}
use netsonar.Probe.Mtu.Classify.{error, MtuPayloadResult}
use netsonar.Probe.Mtu.Run.Attempts.{Backend}
use Queue.{Kernel}
use Calls.{SocketOps}
use Ping.{probe_ping_socket}

-- What a probe returned; the other case is that of loops with too little fuel.
unfoldable pub returned_payload :
    {W : Type 0} → W → Option (MtuPayloadResult × W) → MtuPayloadResult × W
returned_payload w (some r) = r
returned_payload w none =
    (record { status = error; payload_size = pos 0; rtt = pos 0; err = none }, w)

unfoldable pub ping_socket_backend : {W : Type 0} (k : Kernel) → (ℤ → SocketOps W) → Backend W
unfolding returned_payload
ping_socket_backend k within = record {
  probe_small_echo = λ timeout dst size seq w.
      returned_payload w (probe_ping_socket k (within timeout) dst size seq w);
  probe_payload_with_df = λ timeout dst size seq w.
      returned_payload w (probe_ping_socket k (within timeout) dst size seq w);
}

unfoldable pub unsupported_mtu_backend : {W : Type 0} → Backend W
unsupported_mtu_backend =
    let refused : MtuPayloadResult = record {
      status = error;
      payload_size = pos 0;
      rtt = pos 0;
      err =
          some (record { text = "mtu probing is supported on Linux only"; is_permission = false });
    } in
    record {
      probe_small_echo = λ timeout dst size seq w. (refused, w);
      probe_payload_with_df = λ timeout dst size seq w. (refused, w);
    }
