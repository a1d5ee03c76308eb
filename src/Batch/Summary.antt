-- ===== src/Batch/Summary.antt =====
-- internal/batch/manager.go, `summarize`, and plan.go, `TargetIdentity`.
use Prim.Native.String.{◌++◌ as append, len, find, slice}
use tadori.Base.{
  ℕ, zero, suc, ◌+◌, ◌/◌, ◌%◌, String, Bool, true, false, List, [], ◌∷◌, ◌++◌, length, ltb, str_eq,
  if◌then◌else◌,
}
use tadori.Batch.Defs.{EntryState, ValidationOutcome, EntryResult}

pub record Summary : Type 0 where
  pub total : ℕ
  pub queued : ℕ
  pub running : ℕ
  pub completed : ℕ
  pub passed : ℕ
  pub failed : ℕ
  pub partial : ℕ
  pub unsupported : ℕ
  pub cancelled : ℕ
  pub captured_failure_count : ℕ
  pub validation_failure_count : ℕ
  pub failed_endpoint_ids : List String
  pub failed_identities : List String

abbrev pub service_scheme : String → String
service_scheme s =
    if str_eq s "http"
    then "http"
    else if str_eq s "https"
    then "https"
    else if str_eq s "smb"
    then "smb"
    else if str_eq s "rdp"
    then "rdp"
    else if str_eq s "ssh"
    then "ssh"
    else if str_eq s "dns"
    then "dns"
    else if str_eq s "custom_tcp"
    then "tcp"
    else if str_eq s "custom_tls"
    then "tls"
    else ""

-- `strconv.Itoa` on a port: five digits at most.
abbrev digits : ℕ → ℕ → String → String
digits zero n done = done
digits (suc fuel) n done =
    let here = append (slice "0123456789" (n % 10) (n % 10 + 1)) done in
    let more = digits fuel (n / 10) here in if ltb n 10 then here else more

abbrev is_in : String → String → Bool
is_in part text = ltb (find text part) (len text)

-- `net.JoinHostPort`
abbrev pub join_host_port : String → ℕ → String
join_host_port host port =
    let tail = append ":" (digits 5 port "") in
    if is_in ":" host then append "[" (append host (append "]" tail)) else append host tail

-- `TargetIdentity`, which reads these three fields only.
unfoldable pub target_identity : EntryResult → String
target_identity r =
    let authority = join_host_port r.requested_hostname r.port in
    if str_eq (service_scheme r.service_id) ""
    then authority
    else append (service_scheme r.service_id) (append "://" authority)

-- One turn of the loop, the switch on the state.
abbrev pub count_state : EntryState → Summary → Summary
count_state EntryState.queued s = record s { queued = s.queued + 1 }
count_state EntryState.running s = record s { running = s.running + 1 }
count_state _ s = record s { completed = s.completed + 1 }

-- The switch on the outcome.
abbrev pub count_outcome : EntryResult → ValidationOutcome → Summary → Summary
count_outcome r ValidationOutcome.passed s = record s { passed = s.passed + 1 }
count_outcome r ValidationOutcome.failed s = record s {
  failed = s.failed + 1;
  validation_failure_count = s.validation_failure_count + 1;
  failed_endpoint_ids = s.failed_endpoint_ids ++ r.id ∷ [];
  failed_identities = s.failed_identities ++ target_identity r ∷ [];
}
count_outcome r ValidationOutcome.partial s = record s { partial = s.partial + 1 }
count_outcome r ValidationOutcome.unsupported s = record s { unsupported = s.unsupported + 1 }
count_outcome r ValidationOutcome.cancelled s = record s { cancelled = s.cancelled + 1 }
count_outcome r ValidationOutcome.not_run s = s

abbrev pub count_capture : Bool → Summary → Summary
count_capture true s = record s { captured_failure_count = s.captured_failure_count + 1 }
count_capture false s = s

unfoldable pub summarize_from : Summary → List EntryResult → Summary
summarize_from s [] = s
summarize_from s (r ∷ rs) =
    summarize_from
      (count_outcome r r.outcome (count_capture r.capture_failed (count_state r.state s))) rs

abbrev pub empty_summary : ℕ → Summary
empty_summary total = record {
  total = total;
  queued = 0;
  running = 0;
  completed = 0;
  passed = 0;
  failed = 0;
  partial = 0;
  unsupported = 0;
  cancelled = 0;
  captured_failure_count = 0;
  validation_failure_count = 0;
  failed_endpoint_ids = [];
  failed_identities = [];
}

unfoldable pub summarize : List EntryResult → Summary
summarize results = summarize_from (empty_summary (length results)) results
