-- ===== src/Typesystem/Cycle.antt =====
-- HasCycle: the detection of computed relations that lead back to themselves.
pub mod Follow
pub mod Clean
pub mod Found
pub mod Missing
pub mod Decide
use mongopenfga.Prelude.{
  ℕ, zero, suc, Bool, true, false, List, [], ◌∷◌, Text, ◌==◌, text_eq, if◌then◌else◌, is_key,
}
use mongopenfga.Tuple.{to_object_relation_string}
use mongopenfga.Storage.Iterators.Defs.{Answer, answer, failure}
use mongopenfga.Typesystem.Rewrite.{
  Rewrite, Rewrites, this, unset, computed_userset, tuple_to_userset, union_of, intersection_of,
  difference, no_child, child, RelationError,
}
use mongopenfga.Typesystem.Model.{TypeSystem, Relation, get_relation}

-- the answer of hasCycle; `no_fuel` is the model's
pub data CycleAnswer : Type 0 where
  has : Bool → CycleAnswer
  undefined : RelationError → CycleAnswer
  no_fuel : CycleAnswer

-- the rest of a loop over the children, after a child's answer
abbrev pub unless_cycle : CycleAnswer → CycleAnswer → CycleAnswer
unless_cycle (has false) rest = rest
unless_cycle (has true) rest = has true
unless_cycle (undefined e) rest = undefined e
unless_cycle no_fuel rest = no_fuel

-- the call for a computed relation
abbrev pub enter :
    (Text → Rewrite → List Text → CycleAnswer)
    → Text
    → List Text
    → Answer RelationError Relation
    → CycleAnswer
enter jump rewritten visited (failure e) = undefined e
enter jump rewritten visited (answer r) = jump rewritten r.rewrite visited

module _ {Cond : Type 0} (t : TypeSystem Cond) (object_type : Text) where
  abbrev pub path_key : Text → Text
  path_key relation = to_object_relation_string object_type relation

  unfoldable mutual
    -- hasCycle on a rewrite of the relation; `jump` is the call on another relation's rewrite
    pub cycle_in :
        (Text → Rewrite → List Text → CycleAnswer) → Text → Rewrite → List Text → CycleAnswer
    cycle_in jump relation this visited = has false
    cycle_in jump relation (tuple_to_userset tupleset computed) visited = has false
    cycle_in jump relation unset visited = has false
    cycle_in jump relation (computed_userset rewritten) visited =
        let visited' = path_key relation ∷ visited in
        if is_key (path_key rewritten) visited'
        then has true
        else enter jump rewritten visited' (get_relation t object_type rewritten)
    cycle_in jump relation (union_of rs) visited =
        cycle_in_children jump relation rs (path_key relation ∷ visited)
    cycle_in jump relation (intersection_of rs) visited =
        cycle_in_children jump relation rs (path_key relation ∷ visited)
    cycle_in jump relation (difference b s) visited =
        let visited' = path_key relation ∷ visited in
        unless_cycle (cycle_in jump relation b visited')
          (unless_cycle (cycle_in jump relation s visited') (has false))

    pub cycle_in_children :
        (Text → Rewrite → List Text → CycleAnswer) → Text → Rewrites → List Text → CycleAnswer
    cycle_in_children jump relation no_child visited = has false
    cycle_in_children jump relation (child r rs) visited =
        unless_cycle (cycle_in jump relation r visited) (cycle_in_children jump relation rs visited)

  -- hasCycle; the fuel bounds how many computed relations are followed
  unfoldable pub cycle_from : ℕ → Text → Rewrite → List Text → CycleAnswer
  cycle_from zero relation rewrite visited = no_fuel
  cycle_from (suc fuel) relation rewrite visited =
      cycle_in (cycle_from fuel) relation rewrite visited

  -- HasCycle
  unfoldable pub has_cycle : ℕ → Text → CycleAnswer
  has_cycle fuel relation =
      enter (cycle_from fuel) relation [] (get_relation t object_type relation)
