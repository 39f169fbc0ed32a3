-- ===== src/Examples/Values.antt =====
-- The theorems on values and on the text of event types, at concrete inputs.
use skald.Prelude.{
  ◌≡◌, refl, String, ◌==◌, if◌then◌else◌, ◌⊎◌, ◌↔◌, true, false, none, some, [], ◌∷◌,
}
use skald.Prelude.Int.{ℤ, int_eq, pos, ◌≤ℤ◌, leb_ℤ}
use skald.Values.Errors.{app, is_retryable, error_type}
use skald.Values.Retry.{RetryPolicy, should_retry, backoff, contains}
use skald.Values.Retry.Decision.{should_retry_iff}
use skald.History.EventType.{marshal_text, unmarshal_text, name_in, type_in, event_type_names}
use skald.History.EventType.Text.{is_named, unmarshal_text_iff}
use skald.Examples.Data.{whole_floats, declined}

-- Code 44 is ActivityTaskTimedOut; code 100 is reserved.
abbrev decimal : ℤ → String
decimal c = if c == pos 100 then "100" else ""

unmarshal_text_iff_example :
    ((unmarshal_text "ActivityTaskTimedOut" ≡ some (pos 44))
      ↔ ((is_named (pos 44) ≡ true) × ("ActivityTaskTimedOut" ≡ marshal_text decimal (pos 44))))
    × (unmarshal_text (marshal_text decimal (pos 44))
        ≡ (if is_named (pos 44) then some (pos 44) else none))
unmarshal_text_iff_example = unmarshal_text_iff decimal "ActivityTaskTimedOut" (pos 44)

reserved :
    (marshal_text decimal (pos 100) ≡ "EventType(100)")
    × (unmarshal_text "EventType(100)" ≡ none)
    × (unmarshal_text "ActivityTaskTimedOut" ≡ some (pos 44))
unfolding marshal_text unmarshal_text name_in type_in event_type_names
reserved = (refl, refl, refl)

abbrev policy : RetryPolicy
policy = record {
  initial_interval = pos 1_000;
  backoff_coefficient = 2;
  maximum_interval = pos 9_000;
  maximum_attempts = pos 3;
  non_retryable_error_types = "Fatal" ∷ [];
}

should_retry_iff_example :
    ((should_retry whole_floats (some policy) (pos 2) (some (app declined)) 0 ≡ none)
      ⊎ (should_retry whole_floats (some policy) (pos 2) (some (app declined)) 0
          ≡ some (backoff whole_floats policy (pos 2) 0)))
    × ((should_retry whole_floats (some policy) (pos 2) (some (app declined)) 0
          ≡ some (backoff whole_floats policy (pos 2) 0))
        ↔ ((is_retryable (some (app declined)) ≡ true)
            × ((policy.maximum_attempts ≤ℤ pos 0) ⊎ (leb_ℤ policy.maximum_attempts (pos 2) ≡ false))
            × ((error_type (app declined) ≡ "")
                ⊎ (contains policy.non_retryable_error_types (error_type (app declined)) ≡ false))))
should_retry_iff_example = should_retry_iff whole_floats policy (pos 2) (app declined) 0
