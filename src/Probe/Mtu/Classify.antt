-- ===== src/Probe/Mtu/Classify.antt =====
-- The pure part of internal/probe/mtu.go: payload results, their classification, the average.
pub mod Priority
pub mod Average
use netsonar.Base.{
  ℕ, zero, suc, ◌+◌, ◌≡◌, refl, Bool, true, false, ◌&&◌, String, ◌<>◌, List, [], ◌∷◌, ◌++◌, Option,
  none, some, if◌then◌else◌, any, find?, length, arith,
}
use netsonar.Base.Int.{ℤ, pos, negsuc, add64, quot, ltb_ℤ, leb_ℤ}
use netsonar.Config.Types.{default_mtu_retries, default_mtu_per_attempt_timeout}
use netsonar.Probe.Resolve.{GoError}
use netsonar.Probe.Result.{MtuState, MtuDetail, ProbeResult}

pub data MtuPayloadStatus : Type 0 where
  success too_large local_too_large timeout unreachable error : MtuPayloadStatus

pub record MtuPayloadResult : Type 0 where
  pub status : MtuPayloadStatus
  pub payload_size : ℤ
  pub rtt : ℤ
  pub err : Option GoError

pub record MtuClassification : Type 0 where
  pub state : MtuState
  pub detail : MtuDetail
  pub path_mtu : ℤ
  pub success : Bool

unfoldable pub effective_mtu_retries : ℤ → ℤ
effective_mtu_retries retries = if ltb_ℤ retries (pos 1) then default_mtu_retries else retries

unfoldable pub effective_mtu_per_attempt_timeout : ℤ → ℤ
effective_mtu_per_attempt_timeout configured =
    if leb_ℤ configured (pos 0) then default_mtu_per_attempt_timeout else configured

-- The loop of avgRTT.
unfoldable pub sum_rtt : ℤ → List ℤ → ℤ
sum_rtt total [] = total
sum_rtt total (s ∷ samples) = sum_rtt (add64 total s) samples

unfoldable pub avg_rtt : List ℤ → ℤ
unfolding sum_rtt
avg_rtt [] = pos 0
avg_rtt (s ∷ samples) = quot (sum_rtt (pos 0) (s ∷ samples)) (length (s ∷ samples))

-- `a == b` on statuses.
abbrev pub status_eq : MtuPayloadStatus → MtuPayloadStatus → Bool
status_eq success success = true
status_eq too_large too_large = true
status_eq local_too_large local_too_large = true
status_eq timeout timeout = true
status_eq unreachable unreachable = true
status_eq error error = true
status_eq _ _ = false

-- A loop `for _, attempt := range attempts { if attempt.status == s { return attempt } }`.
unfoldable pub attempt_with : MtuPayloadStatus → List MtuPayloadResult → Option MtuPayloadResult
attempt_with s [] = none
attempt_with s (a ∷ attempts) =
    let rest = attempt_with s attempts in if status_eq a.status s then some a else rest

abbrev pub or_else : Option MtuPayloadResult → MtuPayloadResult → MtuPayloadResult
or_else (some a) b = a
or_else none b = b

abbrev pub timed_out_payload : ℤ → MtuPayloadResult
timed_out_payload size = record { status = timeout; payload_size = size; rtt = pos 0; err = none }

unfoldable pub classify_payload_attempts : List MtuPayloadResult → MtuPayloadResult
classify_payload_attempts [] = timed_out_payload (pos 0)
classify_payload_attempts (a ∷ rest) =
    let attempts = a ∷ rest in
    or_else (attempt_with success attempts) (
      or_else (attempt_with unreachable attempts) (
        or_else (attempt_with error attempts) (
          or_else (attempt_with local_too_large attempts)
            (or_else (attempt_with too_large attempts) (timed_out_payload a.payload_size)))))

unfoldable pub has_payload_status : List MtuPayloadResult → MtuPayloadStatus → Bool
has_payload_status [] status = false
has_payload_status (r ∷ results) status =
    let rest = has_payload_status results status in if status_eq r.status status then true else rest

unfoldable pub detail_for_prior_payload_failures : List MtuPayloadResult → MtuDetail
detail_for_prior_payload_failures results =
    if has_payload_status results local_too_large
    then MtuDetail.local_message_too_large
    else if has_payload_status results too_large
    then MtuDetail.fragmentation_needed
    else if has_payload_status results timeout
    then MtuDetail.larger_sizes_timed_out
    else MtuDetail.largest_size_confirmed

unfoldable pub detail_for_failed_payloads : List MtuPayloadResult → MtuDetail
detail_for_failed_payloads results =
    if has_payload_status results local_too_large
    then MtuDetail.local_message_too_large
    else if has_payload_status results too_large
    then MtuDetail.below_min_tested
    else MtuDetail.all_sizes_timed_out

-- The first success and what stands before it: `results[successIndex]`, `results[:successIndex]`.
unfoldable pub split_at_success :
    List MtuPayloadResult → Option (List MtuPayloadResult × MtuPayloadResult)
split_at_success [] = none
split_at_success (r ∷ results) =
    let rest = split_at_success results in
    if status_eq r.status success
    then some ([], r)
    else elim rest [ none ↦ none | some (before, s) ↦ some (r ∷ before, s) ]

unfoldable pub classify_mtu_result : List MtuPayloadResult → ℤ → MtuClassification
unfolding split_at_success detail_for_prior_payload_failures detail_for_failed_payloads
classify_mtu_result results expected_min_mtu = elim (split_at_success results) [
  | some (before, s) ↦
      let path_mtu = add64 s.payload_size (pos 28) in
      let below = ltb_ℤ (pos 0) expected_min_mtu && ltb_ℤ path_mtu expected_min_mtu in
      record {
        state = if below then MtuState.degraded else MtuState.ok;
        detail = detail_for_prior_payload_failures before;
        path_mtu = path_mtu;
        success = if below then false else true;
      }
  | none ↦ record {
    state = MtuState.degraded;
    detail = detail_for_failed_payloads results;
    path_mtu = negsuc 0;
    success = false;
  }
]

unfoldable pub clear_observed_icmp_rtt : ProbeResult → ProbeResult
clear_observed_icmp_rtt r = record r { icmp_replies_observed = 0; icmp_avg_rtt = pos 0 }

unfoldable pub set_mtu_inconclusive : ProbeResult → List ℤ → Option String → ProbeResult
unfolding avg_rtt
set_mtu_inconclusive r rtt_samples err = record r {
  path_mtu = negsuc 0;
  success = false;
  mtu_state = MtuState.degraded;
  mtu_detail = MtuDetail.inconclusive;
  icmp_replies_observed = length rtt_samples;
  icmp_avg_rtt = avg_rtt rtt_samples;
  error = elim err [ some e ↦ "mtu probe inconclusive: " <> e | none ↦ "mtu probe inconclusive" ];
}

abbrev pub mtu_permission_denied_error : String
mtu_permission_denied_error =
    "permission denied: check net.ipv4.ping_group_range for the process effective or supplementary GID"

-- errors.Is(err, os.ErrPermission), false of nil.
unfoldable pub is_permission_error : Option GoError → Bool
is_permission_error none = false
is_permission_error (some e) = e.is_permission

-- `errText`.
unfoldable pub err_text : Option GoError → String
err_text none = "unknown error"
err_text (some e) = e.text
