-- ===== src/Graph/Decide.antt =====
-- What the reducers decide, whatever the order in which outcomes arrive.
use mongopenfga.Prelude.{
  ◌≡◌, refl, Bool, true, false, not, ◌||◌, ◌&&◌, Option, none, some, List, [], ◌∷◌, arith, map,
}
use mongopenfga.Graph.Outcome.{
  CheckError, CheckOutcome, responded, errored, join, is_allowed, is_error, has_cycle_flag,
  is_proper, some_outcome, every_outcome,
}
use mongopenfga.Graph.Reduce.{
  arrived, union_loop, union, intersection_loop, intersection, from, base, sub, exclusion,
  join_errors,
}

is_some_error : Option CheckError → Bool
is_some_error none = false
is_some_error (some e) = true

union_loop_lem :
    (os : List CheckOutcome) (el_err : Option CheckError) (cycle : Bool)
    → every_outcome is_proper os ≡ true
    → (is_allowed (union_loop (map arrived os) el_err cycle) ≡ some_outcome is_allowed os)
      × (is_error (union_loop (map arrived os) el_err cycle) ≡ (
          not (some_outcome is_allowed os) && (is_some_error el_err || some_outcome is_error os)))
      × (has_cycle_flag (union_loop (map arrived os) el_err cycle) ≡ (
          not (some_outcome is_allowed os)
          && not (is_some_error el_err || some_outcome is_error os)
          && (cycle || some_outcome has_cycle_flag os)))
unfolding union_loop is_some_error
union_loop_lem [] none cycle h = ground arith
union_loop_lem [] (some e) cycle h = ground arith
union_loop_lem (responded r ∷ os) el_err cycle h =
    ground (arith, union_loop_lem os el_err (cycle || r.cycle_detected))
union_loop_lem (errored e ∷ os) el_err cycle h = ground (arith, union_loop_lem os (some e) cycle)

-- In whatever order the outcomes arrive, union allows exactly if one of them allows, errs exactly
-- if none allows and one is an error, and flags a cycle exactly if it neither allows nor errs and
-- one flags a cycle. The outcomes are such that none allows and flags a cycle at once.
pub union_decides :
    (os : List CheckOutcome)
    → every_outcome is_proper os ≡ true
    → (is_allowed (union (map arrived os)) ≡ some_outcome is_allowed os)
      × (is_error (union (map arrived os))
          ≡ (not (some_outcome is_allowed os) && some_outcome is_error os))
      × (has_cycle_flag (union (map arrived os)) ≡ (
          not (some_outcome is_allowed os)
          && not (some_outcome is_error os)
          && some_outcome has_cycle_flag os))
unfolding union is_some_error
union_decides os h = union_loop_lem os none false h

-- an error or an allowed response
abbrev pub passes : CheckOutcome → Bool
passes o = is_error o || is_allowed o

intersection_loop_lem :
    (os : List CheckOutcome) (el_err : Option CheckError)
    → every_outcome is_proper os ≡ true
    → (is_allowed (intersection_loop (map arrived os) el_err)
        ≡ (not (is_some_error el_err) && every_outcome is_allowed os))
      × (is_error (intersection_loop (map arrived os) el_err)
          ≡ ((is_some_error el_err || some_outcome is_error os) && every_outcome passes os))
unfolding intersection_loop is_some_error
intersection_loop_lem [] none h = ground arith
intersection_loop_lem [] (some e) h = ground arith
intersection_loop_lem (responded r ∷ os) el_err h = ground (arith, intersection_loop_lem os el_err)
intersection_loop_lem (errored e ∷ os) none h = ground (arith, intersection_loop_lem os (some e))
intersection_loop_lem (errored e ∷ os) (some f) h =
    ground (arith, intersection_loop_lem os (some (join f e)))

-- In whatever order the outcomes arrive, intersection allows exactly if there is an outcome and all
-- allow, and errs exactly if one is an error and every other one allows or is an error. So an error
-- does not end the reducer: a later denial overrides it.
pub intersection_decides :
    (o : CheckOutcome) (os : List CheckOutcome)
    → every_outcome is_proper (o ∷ os) ≡ true
    → (is_allowed (intersection (map arrived (o ∷ os))) ≡ every_outcome is_allowed (o ∷ os))
      × (is_error (intersection (map arrived (o ∷ os)))
          ≡ (some_outcome is_error (o ∷ os) && every_outcome passes (o ∷ os)))
unfolding intersection is_some_error
intersection_decides o os h = intersection_loop_lem (o ∷ os) none h

-- a response that neither allows nor flags a cycle
abbrev pub denies : CheckOutcome → Bool
denies o = not (is_error o || is_allowed o || has_cycle_flag o)

-- In either order of arrival, exclusion allows exactly if its base allows with no cycle and its
-- subtracted operand denies with no cycle. It errs exactly if one of the two is an error and the
-- other is an error too or does not decide by itself.
pub exclusion_decides :
    (b s : CheckOutcome)
    → (is_allowed (exclusion (from base b ∷ from sub s ∷ []))
        ≡ (is_allowed b && not (has_cycle_flag b) && denies s))
      × (is_allowed (exclusion (from sub s ∷ from base b ∷ []))
          ≡ (is_allowed b && not (has_cycle_flag b) && denies s))
      × (is_error (exclusion (from base b ∷ from sub s ∷ [])) ≡ (
          (is_error b || is_error s)
          && (is_error b || (is_allowed b && not (has_cycle_flag b)))
          && (is_error s || denies s)))
      × (is_error (exclusion (from sub s ∷ from base b ∷ []))
          ≡ is_error (exclusion (from base b ∷ from sub s ∷ [])))
unfolding exclusion
exclusion_decides (responded r) (responded s) = ground arith
exclusion_decides (responded r) (errored f) = ground arith
exclusion_decides (errored e) (responded s) = ground arith
exclusion_decides (errored e) (errored f) = ground arith

intersection_loop-proper :
    (os : List CheckOutcome) (el_err : Option CheckError)
    → every_outcome is_proper os ≡ true
    → is_proper (intersection_loop (map arrived os) el_err) ≡ true
unfolding intersection_loop
intersection_loop-proper [] none h = refl
intersection_loop-proper [] (some e) h = refl
intersection_loop-proper (responded r ∷ os) el_err h =
    ground (arith, intersection_loop-proper os el_err)
intersection_loop-proper (errored e ∷ os) el_err h =
    intersection_loop-proper os (some (join_errors el_err e)) h

pub intersection-proper :
    (os : List CheckOutcome)
    → every_outcome is_proper os ≡ true
    → is_proper (intersection (map arrived os)) ≡ true
unfolding intersection
intersection-proper [] h = refl
intersection-proper (o ∷ os) h = intersection_loop-proper (o ∷ os) none h

pub union-proper :
    (os : List CheckOutcome)
    → every_outcome is_proper os ≡ true
    → is_proper (union (map arrived os)) ≡ true
union-proper os h = ground (arith, union_decides os h)

pub exclusion-proper :
    (b s : CheckOutcome)
    → (is_proper (exclusion (from base b ∷ from sub s ∷ [])) ≡ true)
      × (is_proper (exclusion (from sub s ∷ from base b ∷ [])) ≡ true)
unfolding exclusion
exclusion-proper (responded r) (responded s) = ground arith
exclusion-proper (responded r) (errored f) = ground arith
exclusion-proper (errored e) (responded s) = ground arith
exclusion-proper (errored e) (errored f) = ground arith
