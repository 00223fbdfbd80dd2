-- ===== src/Typesystem/Involves.antt =====
-- RelationInvolvesIntersection and RelationInvolvesExclusion.
use mongopenfga.Prelude.{
  ℕ, zero, suc, ◌≡◌, refl, ap, Bool, true, false, not, Option, none, some, List, [], ◌∷◌, Text,
  ◌==◌, text_eq, if◌then◌else◌, is_key, All, text_beq,
}
use mongopenfga.Tuple.{to_object_relation_string}
use mongopenfga.Storage.Iterators.Defs.{Answer, answer, failure}
use mongopenfga.Typesystem.Rewrite.{
  Rewrite, Rewrites, this, unset, computed_userset, tuple_to_userset, union_of, intersection_of,
  difference, RelationError, RelationReference, relation_of,
}
use mongopenfga.Typesystem.Model.{TypeSystem, Relation, get_relation}
use mongopenfga.Typesystem.Walk.{Found, value, nothing, unexpected_rewrite, walk_userset_rewrite}

pub data SetOperator : Type 0 where
  intersection_operator exclusion_operator : SetOperator

abbrev pub is_intersection : SetOperator → Bool
is_intersection intersection_operator = true
is_intersection exclusion_operator = false

pub data InvolvesError : Type 0 where
  undefined : RelationError → InvolvesError
  -- a userset among the types of a tupleset relation
  invalid_type_restriction : RelationReference → InvolvesError
  unexpected_rewrite_type : InvolvesError

-- What relationInvolves answers. The panic is that of `result.(bool)` on an error.
pub data Involves : Type 0 where
  involves : Bool → Involves
  involves_error : InvolvesError → Involves
  type_assertion_panic no_fuel : Involves

abbrev Visited : Type 0
Visited = List Text

module _ {Cond : Type 0} (t : TypeSystem Cond) (target : SetOperator)
    (jump : Text → Text → List Text → Involves × List Text) where
  -- what the handler returns for a nested answer: `containsTarget` is returned only if true
  abbrev pub only_true : Involves × List Text → Option Involves × List Text
  only_true (involves true, visited) = (some (involves true), visited)
  only_true (involves false, visited) = (none, visited)
  only_true (involves_error e, visited) = (some (involves_error e), visited)
  only_true (type_assertion_panic, visited) = (some type_assertion_panic, visited)
  only_true (no_fuel, visited) = (some no_fuel, visited)

  abbrev pub unless_some :
      Option Involves × List Text
      → (List Text → Option Involves × List Text)
      → Option Involves × List Text
  unless_some (some a, visited) rest = (some a, visited)
  unless_some (none, visited) rest = rest visited

  abbrev pub of_computed :
      Text → List Text → Answer RelationError Relation → Option Involves × List Text
  of_computed object_type visited (failure e) = (some (involves_error (undefined e)), visited)
  of_computed object_type visited (answer r) = only_true (jump object_type r.name visited)

  abbrev pub of_type :
      Text → List Text → Answer RelationError Relation → Option Involves × List Text
  of_type related visited (failure e) = (none, visited)
  of_type related visited (answer r) = only_true (jump related r.name visited)

  -- the loop over the types of a tupleset relation
  unfoldable pub of_types : Text → List RelationReference → List Text → Option Involves × List Text
  of_types rewritten [] visited = (none, visited)
  of_types rewritten (ref ∷ refs) visited =
      let rest =
        unless_some (of_type ref.type_ visited (get_relation t ref.type_ rewritten))
          (of_types rewritten refs) in
      if not (relation_of ref.relation_or_wildcard == [])
      then (some (involves_error (invalid_type_restriction ref)), visited)
      else rest

  abbrev pub of_tupleset :
      Text → List Text → Answer RelationError Relation → Option Involves × List Text
  of_tupleset rewritten visited (failure e) = (some (involves_error (undefined e)), visited)
  of_tupleset rewritten visited (answer r) =
      of_types rewritten r.directly_related_user_types visited

  -- the handler that relationInvolves gives to WalkUsersetRewrite
  unfoldable pub involves_handler : Text → Rewrite → List Text → Option Involves × List Text
  unfolding of_types
  involves_handler object_type (computed_userset r) visited =
      of_computed object_type visited (get_relation t object_type r)
  involves_handler object_type (tuple_to_userset tupleset rewritten) visited =
      of_tupleset rewritten visited (get_relation t object_type tupleset)
  involves_handler object_type (intersection_of rs) visited =
      (some (involves (is_intersection target)), visited)
  involves_handler object_type (difference b s) visited =
      (some (involves (not (is_intersection target))), visited)
  involves_handler object_type this visited = (none, visited)
  involves_handler object_type unset visited = (none, visited)
  involves_handler object_type (union_of rs) visited = (none, visited)

  abbrev pub unless_true :
      Involves × List Text → (List Text → Involves × List Text) → Involves × List Text
  unless_true (involves true, visited) rest = (involves true, visited)
  unless_true (involves false, visited) rest = rest visited
  unless_true (involves_error e, visited) rest = (involves_error e, visited)
  unless_true (type_assertion_panic, visited) rest = (type_assertion_panic, visited)
  unless_true (no_fuel, visited) rest = (no_fuel, visited)

  -- the loop over the relation's type restrictions
  unfoldable pub of_restrictions : List RelationReference → List Text → Involves × List Text
  of_restrictions [] visited = (involves false, visited)
  of_restrictions (ref ∷ refs) visited =
      let relation = relation_of ref.relation_or_wildcard in
      let rest = of_restrictions refs visited in
      let nested = unless_true (jump ref.type_ relation visited) (of_restrictions refs) in
      if relation == []
      then rest
      else if is_key (to_object_relation_string ref.type_ relation) visited
      then rest
      else nested

  abbrev pub after_walk : List RelationReference → Found Involves × List Text → Involves × List Text
  after_walk refs (value (involves true), visited) = (involves true, visited)
  after_walk refs (value (involves false), visited) = of_restrictions refs visited
  after_walk refs (value (involves_error e), visited) = (type_assertion_panic, visited)
  after_walk refs (value type_assertion_panic, visited) = (type_assertion_panic, visited)
  after_walk refs (value no_fuel, visited) = (no_fuel, visited)
  after_walk refs (nothing, visited) = of_restrictions refs visited
  after_walk refs (unexpected_rewrite, visited) = (involves_error unexpected_rewrite_type, visited)

  abbrev pub of_relation : Text → List Text → Answer RelationError Relation → Involves × List Text
  of_relation object_type visited (failure e) = (involves_error (undefined e), visited)
  of_relation object_type visited (answer r) =
      after_walk r.directly_related_user_types
        (walk_userset_rewrite (involves_handler object_type) r.rewrite visited)

module _ {Cond : Type 0} (t : TypeSystem Cond) (target : SetOperator) where
  -- relationInvolves; the fuel bounds how deep its calls are nested
  unfoldable pub relation_involves : ℕ → Text → Text → List Text → Involves × List Text
  unfolding involves_handler of_restrictions walk_userset_rewrite
  relation_involves zero object_type relation visited = (no_fuel, visited)
  relation_involves (suc fuel) object_type relation visited =
      let key = to_object_relation_string object_type relation in
      if is_key key visited
      then (involves false, visited)
      else of_relation t target (relation_involves fuel) object_type (key ∷ visited)
          (get_relation t object_type relation)

  -- the references have no relation
  abbrev pub NoUserset : List RelationReference → Type 0
  NoUserset refs = All (λ ref. relation_of ref.relation_or_wildcard ≡ []) refs

  NoUserset-restrictions :
      (jump : Text → Text → List Text → Involves × List Text) (refs : List RelationReference)
      (visited : List Text)
      → NoUserset refs
      → of_restrictions t target jump refs visited ≡ (involves false, visited)
  unfolding of_restrictions text_beq
  NoUserset-restrictions jump [] visited h = refl
  NoUserset-restrictions jump (ref ∷ refs) visited h =
      rw (h.0) (NoUserset-restrictions jump refs visited h.1)

-- If a relation's rewrite is an intersection and no userset may be assigned to it,
-- RelationInvolvesExclusion answers no whatever the operands are, a difference among them or not: the
-- handler's `false` at the intersection ends the walk.
pub exclusion-hidden :
    {Cond : Type 0} (t : TypeSystem Cond) (fuel : ℕ) (object_type relation : Text) (r : Relation)
    (operands : Rewrites)
    → get_relation t object_type relation ≡ answer r
    → r.rewrite ≡ intersection_of operands
    → NoUserset t exclusion_operator r.directly_related_user_types
    → (relation_involves t exclusion_operator (suc fuel) object_type relation []).0 ≡ involves false
unfolding relation_involves involves_handler walk_userset_rewrite
exclusion-hidden t fuel object_type relation r operands h e none_is =
    let visited = to_object_relation_string object_type relation ∷ [] in
    let jump = relation_involves t exclusion_operator fuel in
    rw h (
      rw e (
        ap (λ (p : Involves × List Text). p.0)
          (NoUserset-restrictions t exclusion_operator jump r.directly_related_user_types visited
            none_is)))
