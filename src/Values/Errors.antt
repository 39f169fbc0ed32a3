-- ===== src/Values/Errors.antt =====
-- pkg/skald/errors.go. An `error` is a chain: `errors.As` looks for a type along it.
use Prim.Native.String.{◌++◌}
use skald.Prelude.{String, Bool, true, false, not, Option, none, some, if◌then◌else◌}
use skald.Values.Payload.{Payload}

pub data TimeoutKind : Type 0 where
  unspecified schedule_to_start start_to_close schedule_to_close heartbeat : TimeoutKind

unfoldable pub timeout_name : TimeoutKind → String
timeout_name unspecified = "UNSPECIFIED"
timeout_name schedule_to_start = "SCHEDULE_TO_START"
timeout_name start_to_close = "START_TO_CLOSE"
timeout_name schedule_to_close = "SCHEDULE_TO_CLOSE"
timeout_name heartbeat = "HEARTBEAT"

abbrev pub is_schedule_to_close : TimeoutKind → Bool
is_schedule_to_close schedule_to_close = true
is_schedule_to_close _ = false

-- The fields Type, Message, NonRetryable, Details, Cause and StackTrace, in this order.
mutual
  pub data ApplicationError : Type 0 where
    application_error : String → String → Bool → Option Payload → Cause → String → ApplicationError

  pub data Cause : Type 0 where
    no_cause : Cause
    caused_by : ApplicationError → Cause

abbrev pub error_type_of : ApplicationError → String
error_type_of (application_error typ message non_retryable details cause stack) = typ

abbrev pub non_retryable_of : ApplicationError → Bool
non_retryable_of (application_error typ message non_retryable details cause stack) = non_retryable

pub record TimeoutError : Type 0 where
  pub kind : TimeoutKind
  pub last_heartbeat_details : Option Payload

-- (*TimeoutError).Error
unfoldable pub timeout_message : TimeoutError → String
unfolding timeout_name
timeout_message e = "skald: activity timed out (" ++ timeout_name e.kind ++ ")"

-- `wrapped` is fmt.Errorf with %w; `other` is any error with no type of its own in this package.
pub data GoError : Type 0 where
  app : ApplicationError → GoError
  timeout : TimeoutError → GoError
  canceled : Option Payload → GoError
  terminated : String → GoError
  panicked : String → String → GoError
  wrapped : String → GoError → GoError
  other : String → GoError

-- errors.As with a *CanceledError; the causes of an ApplicationError are ApplicationErrors only.
unfoldable pub is_canceled : GoError → Bool
is_canceled (canceled d) = true
is_canceled (wrapped m e) = is_canceled e
is_canceled _ = false

unfoldable pub is_terminated : GoError → Bool
is_terminated (terminated r) = true
is_terminated (wrapped m e) = is_terminated e
is_terminated _ = false

unfoldable pub is_panicked : GoError → Bool
is_panicked (panicked v s) = true
is_panicked (wrapped m e) = is_panicked e
is_panicked _ = false

unfoldable pub as_app : GoError → Option ApplicationError
as_app (app e) = some e
as_app (wrapped m e) = as_app e
as_app _ = none

unfoldable pub as_timeout : GoError → Option TimeoutError
as_timeout (timeout e) = some e
as_timeout (wrapped m e) = as_timeout e
as_timeout _ = none

-- IsRetryable
unfoldable pub is_retryable : Option GoError → Bool
unfolding is_canceled is_terminated is_panicked as_app
is_retryable none = false
is_retryable (some e) =
    if is_canceled e
    then false
    else if is_terminated e
    then false
    else if is_panicked e
    then false
    else elim (as_app e) [ some a ↦ not (non_retryable_of a) | none ↦ true ]

-- ErrorType
unfoldable pub error_type : GoError → String
unfolding as_app as_timeout timeout_name
error_type e = elim (as_app e) [
  | some a ↦ error_type_of a
  | none ↦ elim (as_timeout e) [ some t ↦ "TimeoutError:" ++ timeout_name t.kind | none ↦ "" ]
]
