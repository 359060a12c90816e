-- ===== src/Probe/Result.antt =====
-- internal/probe/prober.go: the constants, the phases and ProbeResult.
use netsonar.Base.{ℕ, Bool, false, String, List, [], ◌∷◌, Option}
use netsonar.Base.Int.{ℤ, pos}

-- The values of MTUState; `unset` is the zero value "" of the field.
pub data MtuState : Type 0 where
  unset ok degraded unreachable error : MtuState

pub data MtuDetail : Type 0 where
  unset largest_size_confirmed fragmentation_needed larger_sizes_timed_out : MtuDetail
  below_min_tested all_sizes_timed_out sanity_check_failed destination_unreachable : MtuDetail
  local_message_too_large permission_denied resolve_error internal_error inconclusive : MtuDetail

unfoldable pub mtu_state_text : MtuState → String
mtu_state_text unset = ""
mtu_state_text ok = "ok"
mtu_state_text degraded = "degraded"
mtu_state_text unreachable = "unreachable"
mtu_state_text error = "error"

unfoldable pub mtu_detail_text : MtuDetail → String
mtu_detail_text unset = ""
mtu_detail_text largest_size_confirmed = "largest_size_confirmed"
mtu_detail_text fragmentation_needed = "fragmentation_needed"
mtu_detail_text larger_sizes_timed_out = "larger_sizes_timed_out"
mtu_detail_text below_min_tested = "below_min_tested"
mtu_detail_text all_sizes_timed_out = "all_sizes_timed_out"
mtu_detail_text sanity_check_failed = "sanity_check_failed"
mtu_detail_text destination_unreachable = "destination_unreachable"
mtu_detail_text local_message_too_large = "local_message_too_large"
mtu_detail_text permission_denied = "permission_denied"
mtu_detail_text resolve_error = "resolve_error"
mtu_detail_text internal_error = "internal_error"
mtu_detail_text inconclusive = "inconclusive"

pub data Phase : Type 0 where
  dns_resolve tcp_connect tls_handshake request_write ttfb transfer : Phase
  proxy_dial proxy_tls proxy_connect : Phase

unfoldable pub phase_text : Phase → String
phase_text dns_resolve = "dns_resolve"
phase_text tcp_connect = "tcp_connect"
phase_text tls_handshake = "tls_handshake"
phase_text request_write = "request_write"
phase_text ttfb = "ttfb"
phase_text transfer = "transfer"
phase_text proxy_dial = "proxy_dial"
phase_text proxy_tls = "proxy_tls"
phase_text proxy_connect = "proxy_connect"

-- AllPhases.
abbrev pub all_phases : List Phase
all_phases =
    dns_resolve ∷ tcp_connect ∷ tls_handshake ∷ request_write ∷ ttfb ∷ transfer ∷ proxy_dial
    ∷ proxy_tls ∷ proxy_connect ∷ []

-- The float64 `num / den`, before rounding.
pub record Ratio : Type 0 where
  pub num : ℤ
  pub den : ℕ

-- What the exporter reads of an x509.Certificate.
pub record Certificate : Type 0 where
  pub raw_issuer : String
  pub raw_subject : String
  pub not_after : ℤ

-- A time.Duration is its nanoseconds and a time.Time its Unix seconds. `phases` has distinct keys;
-- the nil map is the empty list.
pub record ProbeResult : Type 0 where
  pub success : Bool
  pub duration : ℤ
  pub timed_out : Bool
  pub phases : List (Phase × ℤ)
  pub status_code : ℤ
  pub http_response_received : Bool
  pub proxy_connect_status_code : ℤ
  pub proxy_connect_response_received : Bool
  pub cert_expiry : ℤ
  pub cert_observed : Bool
  pub tls_certificates : List (Option Certificate)
  pub path_mtu : ℤ
  pub mtu_state : MtuState
  pub mtu_detail : MtuDetail
  pub packet_loss : Ratio
  pub icmp_replies_observed : ℕ
  pub icmp_avg_rtt : ℤ
  pub icmp_stddev_rtt : ℤ
  pub dns_resolve_time : ℤ
  pub dns_match_evaluated : Bool
  pub dns_matched : Bool
  pub http_response_truncated : Bool
  pub http_truncation_evaluated : Bool
  pub body_match : Bool
  pub http_body_evaluated : Bool
  pub error : String

-- The zero value that a named result starts from.
abbrev pub zero_result : ProbeResult
zero_result = record {
  success = false;
  duration = pos 0;
  timed_out = false;
  phases = [];
  status_code = pos 0;
  http_response_received = false;
  proxy_connect_status_code = pos 0;
  proxy_connect_response_received = false;
  cert_expiry = pos 0;
  cert_observed = false;
  tls_certificates = [];
  path_mtu = pos 0;
  mtu_state = MtuState.unset;
  mtu_detail = MtuDetail.unset;
  packet_loss = record { num = pos 0; den = 1 };
  icmp_replies_observed = 0;
  icmp_avg_rtt = pos 0;
  icmp_stddev_rtt = pos 0;
  dns_resolve_time = pos 0;
  dns_match_evaluated = false;
  dns_matched = false;
  http_response_truncated = false;
  http_truncation_evaluated = false;
  body_match = false;
  http_body_evaluated = false;
  error = "";
}
