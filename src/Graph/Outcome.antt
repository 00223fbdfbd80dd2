-- ===== src/Graph/Outcome.antt =====
-- Responses, errors and the outcomes that the handlers of a check send (check.go,
-- resolve_check_response.go).
use mongopenfga.Prelude.{ℕ, Bool, true, false, not, ◌||◌, Text, ◌&&◌, List, [], ◌∷◌}

pub data CheckError : Type 0 where
  -- ErrResolutionDepthExceeded, ErrUnknownSetOperator, ctx.Err()
  resolution_depth_exceeded unknown_set_operator context_done : CheckError
  -- an undefined relation of an object type
  undefined_relation : Text → Text → CheckError
  -- a panic that was recovered
  panic : CheckError
  -- an error of the datastore, of the typesystem or of a condition, by a number
  external : ℕ → CheckError
  -- errors.Join
  join : CheckError → CheckError → CheckError
  -- the fuel of the model ran out; `resolve_check_terminates` of Graph.Check.Fuel bounds it
  out_of_fuel : CheckError

-- ResolveCheckResponse
pub record ResolveCheckResponse : Type 0 where
  pub allowed : Bool
  pub cycle_detected : Bool

-- checkOutcome: a response or an error
pub data CheckOutcome : Type 0 where
  responded : ResolveCheckResponse → CheckOutcome
  errored : CheckError → CheckOutcome

abbrev pub allow : CheckOutcome
allow = responded (record { allowed = true; cycle_detected = false })

abbrev pub deny : CheckOutcome
deny = responded (record { allowed = false; cycle_detected = false })

abbrev pub deny_cycle : CheckOutcome
deny_cycle = responded (record { allowed = false; cycle_detected = true })

abbrev pub is_allowed : CheckOutcome → Bool
is_allowed (responded r) = r.allowed
is_allowed (errored e) = false

abbrev pub is_error : CheckOutcome → Bool
is_error (responded r) = false
is_error (errored e) = true

abbrev pub has_cycle_flag : CheckOutcome → Bool
has_cycle_flag (responded r) = r.cycle_detected
has_cycle_flag (errored e) = false

-- A proper outcome does not allow with the cycle flag set.
abbrev pub is_proper : CheckOutcome → Bool
is_proper o = not (is_allowed o && has_cycle_flag o)

-- Does some, or every, outcome pass the test?
abbrev pub some_outcome : (CheckOutcome → Bool) → List CheckOutcome → Bool
some_outcome p [] = false
some_outcome p (o ∷ os) = p o || some_outcome p os

abbrev pub every_outcome : (CheckOutcome → Bool) → List CheckOutcome → Bool
every_outcome p [] = true
every_outcome p (o ∷ os) = p o && every_outcome p os
