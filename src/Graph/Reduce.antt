-- ===== src/Graph/Reduce.antt =====
-- The reducers union, intersection and exclusion (check.go). A reducer reads the outcomes of its
-- handlers in the order of their arrival; `interrupted` stands for the context that ends first.
use mongopenfga.Prelude.{Bool, false, not, ◌||◌, Option, none, some, List, [], ◌∷◌, if◌then◌else◌}
use mongopenfga.Graph.Outcome.{
  CheckError, context_done, join, CheckOutcome, responded, errored, allow, deny, deny_cycle,
}

pub data Event : Type 0 where
  arrived : CheckOutcome → Event
  interrupted : Event

-- what the loop returns after the last outcome
abbrev pub union_end : Option CheckError → Bool → CheckOutcome
union_end none cycle_detected =
    responded (record { allowed = false; cycle_detected = cycle_detected })
union_end (some e) cycle_detected = errored e

-- the loop of union
unfoldable pub union_loop : List Event → Option CheckError → Bool → CheckOutcome
union_loop [] el_err cycle_detected = union_end el_err cycle_detected
union_loop (interrupted ∷ es) el_err cycle_detected = errored context_done
union_loop (arrived (errored e) ∷ es) el_err cycle_detected = union_loop es (some e) cycle_detected
union_loop (arrived (responded r) ∷ es) el_err cycle_detected =
    let rest = union_loop es el_err (cycle_detected || r.cycle_detected) in
    if r.allowed then responded r else rest

unfoldable pub union : List Event → CheckOutcome
unfolding union_loop
union es = union_loop es none false

abbrev pub join_errors : Option CheckError → CheckError → CheckError
join_errors none e = e
join_errors (some f) e = join f e

abbrev pub intersection_end : Option CheckError → CheckOutcome
intersection_end none = allow
intersection_end (some e) = errored e

-- the loop of intersection
unfoldable pub intersection_loop : List Event → Option CheckError → CheckOutcome
intersection_loop [] el_err = intersection_end el_err
intersection_loop (interrupted ∷ es) el_err = errored context_done
intersection_loop (arrived (errored e) ∷ es) el_err =
    intersection_loop es (some (join_errors el_err e))
intersection_loop (arrived (responded r) ∷ es) el_err =
    let rest = intersection_loop es el_err in
    if r.cycle_detected || not r.allowed then responded r else rest

unfoldable pub intersection : List Event → CheckOutcome
unfolding intersection_loop
intersection [] = deny
intersection (e ∷ es) = intersection_loop (e ∷ es) none

-- Which of the two handlers of exclusion an outcome comes from.
pub data Operand : Type 0 where
  base sub : Operand

pub data Arrival : Type 0 where
  from : Operand → CheckOutcome → Arrival
  stopped : Arrival

abbrev pub exclusion_end : Option CheckError → Option CheckError → CheckOutcome
exclusion_end none none = allow
exclusion_end (some e) none = errored e
exclusion_end none (some f) = errored f
exclusion_end (some e) (some f) = errored (join e f)

-- the loop of exclusion
unfoldable pub exclusion_loop : List Arrival → Option CheckError → Option CheckError → CheckOutcome
exclusion_loop [] base_err sub_err = exclusion_end base_err sub_err
exclusion_loop (stopped ∷ arrivals) base_err sub_err = errored context_done
exclusion_loop (from base (errored e) ∷ arrivals) base_err sub_err =
    exclusion_loop arrivals (some e) sub_err
exclusion_loop (from base (responded r) ∷ arrivals) base_err sub_err =
    let rest = exclusion_loop arrivals base_err sub_err in
    if r.cycle_detected then deny_cycle else if not r.allowed then deny else rest
exclusion_loop (from sub (errored e) ∷ arrivals) base_err sub_err =
    exclusion_loop arrivals base_err (some e)
exclusion_loop (from sub (responded r) ∷ arrivals) base_err sub_err =
    let rest = exclusion_loop arrivals base_err sub_err in
    if r.cycle_detected then deny_cycle else if r.allowed then deny else rest

unfoldable pub exclusion : List Arrival → CheckOutcome
unfolding exclusion_loop
exclusion arrivals = exclusion_loop arrivals none none
