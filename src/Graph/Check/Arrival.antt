-- ===== src/Graph/Check/Arrival.antt =====
-- Orders of arrival, which change no reducer's decision.
use mathlib.Core.List.{Permᴰ}
use mongopenfga.Prelude.{
  ◌≡◌, refl, ◌∙◌, Bool, ◌&&◌, ◌||◌, Option, none, some, List, [], ◌∷◌, ◌++◌, map, arith,
}
use mongopenfga.Graph.Outcome.{
  CheckError, CheckOutcome, responded, errored, some_outcome, every_outcome,
}
use mongopenfga.Graph.Reduce.{arrived, union_loop}
use mongopenfga.Graph.Check.Env.{Request, Schedule}
use mongopenfga.Graph.Check.Direct.{consume_loop}

-- Every outcome arrives once.
abbrev pub IsFair : {C : Type 0} → Schedule C → Type 0
IsFair {C} schedule = (req : Request C) (os : List CheckOutcome) → Permᴰ os (schedule.arrive req os)

pub every_outcome_permuted :
    (p : CheckOutcome → Bool) {os os' : List CheckOutcome}
    → Permᴰ os os'
    → every_outcome p os ≡ every_outcome p os'
every_outcome_permuted p Permᴰ.nil = refl
every_outcome_permuted p (Permᴰ.cons e d) = rw (e, every_outcome_permuted p d) refl
every_outcome_permuted p (Permᴰ.swap e f) = rw (e, f) (ground arith)
every_outcome_permuted p (Permᴰ.trans d d') =
    every_outcome_permuted p d ∙ every_outcome_permuted p d'

pub some_outcome_permuted :
    (p : CheckOutcome → Bool) {os os' : List CheckOutcome}
    → Permᴰ os os'
    → some_outcome p os ≡ some_outcome p os'
some_outcome_permuted p Permᴰ.nil = refl
some_outcome_permuted p (Permᴰ.cons e d) = rw (e, some_outcome_permuted p d) refl
some_outcome_permuted p (Permᴰ.swap e f) = rw (e, f) (ground arith)
some_outcome_permuted p (Permᴰ.trans d d') = some_outcome_permuted p d ∙ some_outcome_permuted p d'

-- consumeDispatches decides as union does.
pub consume-union :
    (os : List CheckOutcome) (e : Option CheckError) (cycle : Bool)
    → consume_loop os e cycle ≡ union_loop (map arrived os) e cycle
unfolding consume_loop union_loop
consume-union [] none cycle = refl
consume-union [] (some e) cycle = refl
consume-union (errored e ∷ os) f cycle = consume-union os (some e) cycle
consume-union (responded r ∷ os) f cycle = rw (consume-union os f (cycle || r.cycle_detected)) refl

pub every_outcome-append :
    (p : CheckOutcome → Bool) (os os' : List CheckOutcome)
    → every_outcome p (os ++ os') ≡ (every_outcome p os && every_outcome p os')
every_outcome-append p [] os' = refl
every_outcome-append p (o ∷ os) os' = ground (arith, every_outcome-append p os os')
