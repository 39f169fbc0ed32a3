-- ===== src/Values/Retry.antt =====
-- pkg/skald/retry.go. A nil *RetryPolicy is `none`; Clone is the identity on values.
pub mod Decision
use skald.Prelude.{
  String, Bool, false, Option, none, some, List, [], ◌∷◌, ◌==◌, string_eq, ◌&&◌, ◌||◌, not,
  if◌then◌else◌, Outcome, ok, err, panic,
}
use skald.Prelude.Int.{ℤ, pos, negsuc, ◌+ℤ◌, ◌*ℤ◌, ltb_ℤ, leb_ℤ, beq_ℤ, wrap_int64}
use skald.Values.Errors.{ApplicationError, GoError, app, is_retryable, error_type}
use skald.Values.Float.{Float64, Floats}

pub record RetryPolicy : Type 0 where
  pub initial_interval : ℤ
  pub backoff_coefficient : Float64
  pub maximum_interval : ℤ
  pub maximum_attempts : ℤ
  pub non_retryable_error_types : List String

abbrev pub default_initial_interval : ℤ
default_initial_interval = pos 1_000_000_000

abbrev pub default_maximum_interval : ℤ
default_maximum_interval = pos 100_000_000_000

-- What (*RetryPolicy).Validate refuses.
pub data RetryError : Type 0 where
  negative_interval small_coefficient small_maximum negative_attempts : RetryError

unfoldable pub contains : List String → String → Bool
contains [] t = false
contains (x ∷ xs) t = x == t || contains xs t

module _ (F : Floats) where
  open F use {of_int, to_int, add, mul, pow, min, is_inf, eq, lt, one_fifth}

  -- DefaultRetryPolicy; 2.0 is an integer.
  unfoldable pub default_retry_policy : RetryPolicy
  default_retry_policy = record {
    initial_interval = default_initial_interval;
    backoff_coefficient = of_int (pos 2);
    maximum_interval = default_maximum_interval;
    maximum_attempts = pos 0;
    non_retryable_error_types = [];
  }

  default_maximum : ℤ → ℤ
  default_maximum initial =
      to_int (min (of_int (wrap_int64 (pos 100 *ℤ initial))) (of_int default_maximum_interval))

  -- The part of Validate that fills defaults in.
  unfoldable pub normalize : RetryPolicy → RetryPolicy
  unfolding default_maximum wrap_int64
  normalize p =
      let initial =
        if beq_ℤ p.initial_interval (pos 0) then default_initial_interval else p.initial_interval in
      record p {
        initial_interval = initial;
        backoff_coefficient =
            if eq p.backoff_coefficient (of_int (pos 0))
            then of_int (pos 2)
            else p.backoff_coefficient;
        maximum_interval =
            if beq_ℤ p.maximum_interval (pos 0)
            then default_maximum initial
            else p.maximum_interval;
      }

  -- The `switch` of Validate.
  unfoldable pub check_policy : RetryPolicy → Outcome RetryError RetryPolicy
  check_policy p =
      if ltb_ℤ p.initial_interval (pos 0)
      then err negative_interval
      else if lt p.backoff_coefficient (of_int (pos 1))
      then err small_coefficient
      else if ltb_ℤ p.maximum_interval p.initial_interval
      then err small_maximum
      else if ltb_ℤ p.maximum_attempts (pos 0)
      then err negative_attempts
      else ok p

  -- (*RetryPolicy).Validate: the policy that it leaves, or its error.
  unfoldable pub validate_policy : Option RetryPolicy → Outcome RetryError (Option RetryPolicy)
  unfolding normalize check_policy
  validate_policy none = ok none
  validate_policy (some p) = elim (check_policy (normalize p)) [
    | ok q ↦ ok (some q)
    | err e ↦ err e
    | panic ↦ panic
  ]

  -- math.MaxInt64 as the duration that a larger product is cut to.
  cut_to_int64 : Float64 → ℤ
  cut_to_int64 f =
      if lt (of_int (pos 9223372036854775807)) f then pos 9223372036854775807 else to_int f

  clamp_unit : Float64 → Float64
  clamp_unit j =
      if lt j (of_int (pos 0))
      then of_int (pos 0)
      else if lt (of_int (pos 1)) j
      then of_int (pos 1)
      else j

  capped_interval : RetryPolicy → ℤ → Float64
  capped_interval p attempt =
      let at = if ltb_ℤ attempt (pos 1) then pos 1 else attempt in
      let interval =
        mul (of_int p.initial_interval) (pow p.backoff_coefficient (of_int (at +ℤ negsuc 0))) in
      if is_inf interval || lt (of_int p.maximum_interval) interval
      then of_int p.maximum_interval
      else interval

  -- (*RetryPolicy).backoff
  unfoldable pub backoff : RetryPolicy → ℤ → Float64 → ℤ
  unfolding cut_to_int64 clamp_unit capped_interval
  backoff p attempt jitter_seed = cut_to_int64 (
      mul (capped_interval p attempt)
        (add (of_int (pos 1)) (mul one_fifth (clamp_unit jitter_seed))))

  unfoldable pub attempts_left : RetryPolicy → ℤ → Bool
  attempts_left p attempt =
      not (ltb_ℤ (pos 0) p.maximum_attempts && leb_ℤ p.maximum_attempts attempt)

  unfoldable pub type_allowed : RetryPolicy → String → Bool
  unfolding contains
  type_allowed p t = t == "" || not (contains p.non_retryable_error_types t)

  -- (*RetryPolicy).ShouldRetry: the delay, or `none` for (0, false).
  unfoldable pub should_retry : Option RetryPolicy → ℤ → Option GoError → Float64 → Option ℤ
  unfolding is_retryable error_type attempts_left type_allowed default_retry_policy
  should_retry p attempt none seed = none
  should_retry p attempt (some e) seed =
      let policy : RetryPolicy = elim p [ none ↦ default_retry_policy | some q ↦ q ] in
      if not (is_retryable (some e))
      then none
      else if not (attempts_left policy attempt)
      then none
      else if type_allowed policy (error_type e)
      then some (backoff policy attempt seed)
      else none

  -- ShouldRetry on a *ApplicationError, which is an error even if the pointer is nil: IsRetryable
  -- then reads NonRetryable through it.
  unfoldable pub should_retry_failure :
      {E : Type 0}
      → Option RetryPolicy
      → ℤ
      → Option ApplicationError
      → Float64
      → Outcome E (Option ℤ)
  unfolding should_retry
  should_retry_failure p attempt none seed = panic
  should_retry_failure p attempt (some failure) seed =
      ok (should_retry p attempt (some (app failure)) seed)
