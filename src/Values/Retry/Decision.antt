-- ===== src/Values/Retry/Decision.antt =====
-- When a retry policy allows another attempt, and what Validate lets through.
use skald.Prelude.{◌≡◌, true, false, none, some, string_eq, arith, ◌⊎◌, ◌↔◌}
use text.Mathlib.TextEquality.{eq_iff}
use skald.Prelude.Int.{ℤ, pos, ◌≤ℤ◌, leb_ℤ}
use skald.Values.Errors.{GoError, is_retryable, error_type}
use skald.Values.Float.{Float64, Floats}
use skald.Values.Retry.{RetryPolicy, contains, should_retry, attempts_left, type_allowed, backoff}

-- ShouldRetry of a given policy on an error returns no delay or the backoff of the attempt. It
-- returns the backoff exactly if the error is retryable, the attempts are not used up and the
-- error's type is empty or not on the policy's list.
pub should_retry_iff :
    (F : Floats) (p : RetryPolicy) (attempt : ℤ) (e : GoError) (seed : Float64)
    → ((should_retry F (some p) attempt (some e) seed ≡ none)
        ⊎ (should_retry F (some p) attempt (some e) seed ≡ some (backoff F p attempt seed)))
      × ((should_retry F (some p) attempt (some e) seed ≡ some (backoff F p attempt seed)) ↔ (
          (is_retryable (some e) ≡ true)
          × ((p.maximum_attempts ≤ℤ pos 0) ⊎ (leb_ℤ p.maximum_attempts attempt ≡ false))
          × ((error_type e ≡ "") ⊎ (contains p.non_retryable_error_types (error_type e) ≡ false))))
unfolding should_retry attempts_left type_allowed
should_retry_iff F p attempt e seed = (
  ground arith,
  (
    (λ h. (ground arith, ground arith, ground (arith, eq_iff (error_type e) ""))),
    λ h. ground (arith, eq_iff (error_type e) ""),
  ),
)
