-- ===== src/Typesystem/Valid/Safe.antt =====
-- What a valid rewrite refers to is defined, and HasCycle meets no undefined relation.
use mongopenfga.Prelude.{
  ℕ, zero, suc, ◌≤◌, ◌≡◌, refl, ◌≢◌, Bool, true, false, Option, none, some, List, [], ◌∷◌, Text,
  text_eq, arith, if◌then◌else◌, is_key, length,
}
use mongopenfga.Storage.Iterators.Defs.{Answer, answer, failure}
use mongopenfga.Typesystem.Rewrite.{
  Rewrite, Rewrites, this, unset, computed_userset, tuple_to_userset, union_of, intersection_of,
  difference, no_child, child, RelationError,
}
use mongopenfga.Typesystem.Model.{TypeSystem, Relation, get_relation}
use mongopenfga.Typesystem.Cycle.{
  CycleAnswer, has, undefined, no_fuel, path_key, unless_cycle, enter, cycle_in, cycle_in_children,
  cycle_from, has_cycle,
}
use mongopenfga.Typesystem.Cycle.Decide.{names_of, Decided, has_cycle_decides}
use mongopenfga.Typesystem.Valid.{
  ModelError, unless_error, is_answer, is_userset_rewrite_valid, are_valid,
}

unless_error-none : (a b : Option ModelError) → unless_error a b ≡ none → (a ≡ none) × (b ≡ none)
unless_error-none none b h = (refl, h)
unless_error-none (some e) b h = absurd (ground (arith, h))

abbrev NoError : CycleAnswer → Type 0
NoError a = (e : RelationError) → a ≢ undefined e

has-NoError : (b : Bool) → NoError (has b)
has-NoError b e q = cc q

if-NoError : (b : Bool) (x y : CycleAnswer) → NoError x → NoError y → NoError (if b then x else y)
if-NoError true x y h k = h
if-NoError false x y h k = k

unless_cycle-NoError : (a b : CycleAnswer) → NoError a → NoError b → NoError (unless_cycle a b)
unless_cycle-NoError (has true) b h k = has-NoError true
unless_cycle-NoError (has false) b h k = k
unless_cycle-NoError (undefined f) b h k = h
unless_cycle-NoError no_fuel b h k = λ e q. cc q

module _ {Cond : Type 0} (t : TypeSystem Cond) (object_type : Text) where
  -- Every relation of the type has a valid rewrite.
  abbrev pub IsValidType : Type 0
  IsValidType =
      (r : Text) (d : Relation)
      → get_relation t object_type r ≡ answer d
      → is_userset_rewrite_valid t object_type r d.rewrite ≡ none

  abbrev Jump : Type 0
  Jump = Text → Rewrite → List Text → CycleAnswer

  -- the calls for relations of the type meet no undefined relation
  abbrev SafeJump : Jump → Type 0
  SafeJump jump =
      (r : Text) (d : Relation) (v : List Text)
      → get_relation t object_type r ≡ answer d
      → NoError (jump r d.rewrite v)

  enter-NoError :
      (jump : Jump) (r : Text) (v : List Text) (a : Answer RelationError Relation)
      → SafeJump jump
      → get_relation t object_type r ≡ a
      → is_answer a ≡ true
      → NoError (enter jump r v a)
  enter-NoError jump r v (failure f) safe q h = absurd (ground (arith, h))
  enter-NoError jump r v (answer d) safe q h = safe r d v q

  mutual
    unfolding cycle_in is_userset_rewrite_valid

    cycle_in-NoError :
        (jump : Jump) (r : Text) (rewrite : Rewrite) (v : List Text)
        → SafeJump jump
        → is_userset_rewrite_valid t object_type r rewrite ≡ none
        → NoError (cycle_in t object_type jump r rewrite v)
    cycle_in-NoError jump r this v safe h = has-NoError false
    cycle_in-NoError jump r unset v safe h = has-NoError false
    cycle_in-NoError jump r (tuple_to_userset a b) v safe h = has-NoError false
    cycle_in-NoError jump r (computed_userset c) v safe h =
        let v' = path_key t object_type r ∷ v in
        if-NoError (is_key (path_key t object_type c) v') (has true)
          (enter jump c v' (get_relation t object_type c)) (has-NoError true)
          (enter-NoError jump c v' (get_relation t object_type c) safe refl (ground (arith, h)))
    cycle_in-NoError jump r (union_of rs) v safe h =
        children-NoError jump r rs (path_key t object_type r ∷ v) safe h
    cycle_in-NoError jump r (intersection_of rs) v safe h =
        children-NoError jump r rs (path_key t object_type r ∷ v) safe h
    cycle_in-NoError jump r (difference b s) v safe h =
        let v' = path_key t object_type r ∷ v in
        let base = cycle_in t object_type jump r b v' in
        let sub = cycle_in t object_type jump r s v' in
        let parts =
          unless_error-none (is_userset_rewrite_valid t object_type r b)
            (unless_error (is_userset_rewrite_valid t object_type r s) none) h in
        unless_cycle-NoError base (unless_cycle sub (has false))
          (cycle_in-NoError jump r b v' safe parts.0)
          (unless_cycle-NoError sub (has false)
            (cycle_in-NoError jump r s v' safe
              (unless_error-none (is_userset_rewrite_valid t object_type r s) none parts.1).0)
            (has-NoError false))

    children-NoError :
        (jump : Jump) (r : Text) (rs : Rewrites) (v : List Text)
        → SafeJump jump
        → are_valid t object_type r rs ≡ none
        → NoError (cycle_in_children t object_type jump r rs v)
    children-NoError jump r no_child v safe h = has-NoError false
    children-NoError jump r (child x rs) v safe h =
        let parts =
          unless_error-none (is_userset_rewrite_valid t object_type r x)
            (are_valid t object_type r rs) h in
        unless_cycle-NoError (cycle_in t object_type jump r x v)
          (cycle_in_children t object_type jump r rs v) (cycle_in-NoError jump r x v safe parts.0)
          (children-NoError jump r rs v safe parts.1)

  cycle_from-SafeJump : (fuel : ℕ) → IsValidType → SafeJump (cycle_from t object_type fuel)
  unfolding cycle_from
  cycle_from-SafeJump zero valid r d v q = λ e p. cc p
  cycle_from-SafeJump (suc fuel) valid r d v q =
      cycle_in-NoError (cycle_from t object_type fuel) r d.rewrite v
        (cycle_from-SafeJump fuel valid) (valid r d q)

  has_cycle-NoError :
      (fuel : ℕ) (r : Text) (d : Relation)
      → IsValidType
      → get_relation t object_type r ≡ answer d
      → NoError (has_cycle t object_type fuel r)
  unfolding has_cycle
  has_cycle-NoError fuel r d valid q = rw q (cycle_from-SafeJump fuel valid r d [] q)

  Decided-total :
      (r : Text) (a : CycleAnswer)
      → Decided t object_type r a
      → NoError a
      → (b : Bool) × (a ≡ has b)
  Decided-total r (has b) d n = (b, refl)
  Decided-total r (undefined e) d n = absurd (n e refl)
  Decided-total r no_fuel d n = absurd d

  -- In a type all of whose relations have a rewrite that isUsersetRewriteValid accepts, HasCycle
  -- answers yes or no for each of them, with as much fuel as the type has relations.
  pub has_cycle_total :
      (fuel : ℕ) (r : Text) (d : Relation)
      → IsValidType
      → get_relation t object_type r ≡ answer d
      → length (names_of t object_type) ≤ fuel
      → (b : Bool) × (has_cycle t object_type fuel r ≡ has b)
  has_cycle_total fuel r d valid q l =
      Decided-total r (has_cycle t object_type fuel r) (has_cycle_decides t object_type fuel r l)
        (has_cycle-NoError fuel r d valid q)
