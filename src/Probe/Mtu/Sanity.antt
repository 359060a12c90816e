-- ===== src/Probe/Mtu/Sanity.antt =====
-- applySanityFailure of internal/probe/mtu.go: `none` is its `false`, a result its `true`.
use netsonar.Base.{String, ◌<>◌, Option, none, some, if◌then◌else◌}
use netsonar.Base.Int.{negsuc}
use netsonar.Probe.Result.{MtuState, MtuDetail, ProbeResult}
use netsonar.Probe.Mtu.Classify.{
  MtuPayloadStatus, success, unreachable, error, MtuPayloadResult, clear_observed_icmp_rtt,
  is_permission_error, err_text, mtu_permission_denied_error,
}

-- What every failure writes before its own fields.
abbrev pub failed_at_sanity : ProbeResult → String → MtuState → MtuDetail → ProbeResult
failed_at_sanity r text state detail = record (clear_observed_icmp_rtt r) {
  path_mtu = negsuc 0;
  error = text;
  mtu_state = state;
  mtu_detail = detail;
}

unfoldable pub sanity_by_status :
    MtuPayloadStatus → ProbeResult → MtuPayloadResult → Option ProbeResult
unfolding clear_observed_icmp_rtt is_permission_error err_text
sanity_by_status success r sanity = none
sanity_by_status unreachable r sanity = some (
    failed_at_sanity r "sanity check destination unreachable" MtuState.unreachable
      MtuDetail.destination_unreachable)
sanity_by_status error r sanity = some (
    if is_permission_error sanity.err
    then failed_at_sanity r mtu_permission_denied_error MtuState.error MtuDetail.permission_denied
    else failed_at_sanity r ("mtu sanity check error: " <> err_text sanity.err) MtuState.error
        MtuDetail.internal_error)
sanity_by_status _ r sanity =
    some
      (failed_at_sanity r "sanity check failed" MtuState.unreachable MtuDetail.sanity_check_failed)

unfoldable pub apply_sanity_failure : ProbeResult → MtuPayloadResult → Option ProbeResult
unfolding sanity_by_status
apply_sanity_failure r sanity = sanity_by_status sanity.status r sanity
