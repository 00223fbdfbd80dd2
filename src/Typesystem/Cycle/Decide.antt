-- ===== src/Typesystem/Cycle/Decide.antt =====
-- HasCycle decides, with enough fuel, whether computed relations lead into a cycle.
use mongopenfga.Prelude.{
  ℕ, zero, suc, ◌≤◌, ◌≡◌, refl, sym, ◌≢◌, inl, inr, some, Bool, true, false, List, [], ◌∷◌, Text,
  arith, text_eq, text_beq, text_beq_iff, if◌then◌else◌, is_key, In, Bool-cases, length, unvisited,
  unvisited-le, unvisited_drops, unvisited_mono,
}
use mongopenfga.Storage.GoMap.{GoMap, lookup}
use mongopenfga.Storage.Iterators.Defs.{Answer, answer, failure}
use mongopenfga.Typesystem.Rewrite.{
  Rewrite, Rewrites, this, unset, computed_userset, tuple_to_userset, union_of, intersection_of,
  difference, no_child, child, RelationError,
}
use mongopenfga.Typesystem.Model.{TypeSystem, Relation, get_relation, or_empty}
use mongopenfga.Typesystem.Cycle.{
  CycleAnswer, has, undefined, no_fuel, path_key, unless_cycle, enter, cycle_in, cycle_in_children,
  cycle_from, has_cycle,
}
use mongopenfga.Typesystem.Cycle.Follow.{Walk, Leads}
use mongopenfga.Typesystem.Cycle.Clean.{Clean-acyclic}
use mongopenfga.Typesystem.Cycle.Found.{Cycle, cycle_from-Honest, Inv-root}
use mongopenfga.Typesystem.Cycle.Missing.{Missing, cycle_from-Missing}

abbrev keys : {V : Type 0} → GoMap V → List Text
keys [] = []
keys ((name, value) ∷ rest) = name ∷ keys rest

In-keys : {V : Type 0} (m : GoMap V) (k : Text) (v : V) → lookup m k ≡ some v → In k (keys m)
unfolding lookup
In-keys [] k v h = cc
In-keys ((name, value) ∷ rest) k v h = elim (Bool-cases (text_beq name k)) [
  | inl e ↦ inl (sym ((text_beq_iff name k).0 e))
  | inr e ↦ inr (In-keys rest k v (ground (arith, h, e)))
]

module _ {Cond : Type 0} (t : TypeSystem Cond) (object_type : Text) where
  -- the relations of the type
  abbrev pub names_of : List Text
  names_of = keys (or_empty (lookup t.relations object_type))

  defined_lookup :
      (s : Text) (d : Relation)
      → get_relation t object_type s ≡ answer d
      → lookup (or_empty (lookup t.relations object_type)) s ≡ some d
  unfolding get_relation
  defined_lookup s d h = ground (arith, h)

  names_of-In : (s : Text) (d : Relation) → get_relation t object_type s ≡ answer d → In s names_of
  names_of-In s d h = In-keys (or_empty (lookup t.relations object_type)) s d (defined_lookup s d h)

  abbrev left : List Text → ℕ
  left v = unvisited (path_key t object_type) names_of v

  either_fuel : (a b : CycleAnswer) → a ≢ no_fuel → b ≢ no_fuel → unless_cycle a b ≢ no_fuel
  either_fuel (has true) b h k e = cc
  either_fuel (has false) b h k e = k e
  either_fuel (undefined x) b h k e = cc
  either_fuel no_fuel b h k e = h refl

  module _ (jump : Text → Rewrite → List Text → CycleAnswer) (n : ℕ)
      (fueled : (s : Text) (d : Relation) (v : List Text)
        → get_relation t object_type s ≡ answer d
        → is_key (path_key t object_type s) v ≡ false
        → left v ≤ n
        → jump s d.rewrite v ≢ no_fuel) where
    computed_fueled :
        (s : Text) (v : List Text) (a : Answer RelationError Relation)
        → get_relation t object_type s ≡ a
        → left v ≤ n
        → (b : Bool) → is_key (path_key t object_type s) v ≡ b
        → (if b then has true else enter jump s v a) ≢ no_fuel
    computed_fueled s v a q l true i e = cc
    computed_fueled s v (failure x) q l false i e = cc
    computed_fueled s v (answer d) q l false i e = fueled s d v q i l e

    twice :
        (r : Text) (v : List Text)
        → left (path_key t object_type r ∷ v) ≤ n
        → left (path_key t object_type r ∷ path_key t object_type r ∷ v) ≤ n
    twice r v l = omega (
      arith,
      unvisited_mono (path_key t object_type) (path_key t object_type r) names_of
          (path_key t object_type r ∷ v),
    )

    mutual
      unfolding cycle_in

      cycle_in_fueled :
          (r : Text) (rewrite : Rewrite) (v : List Text)
          → left (path_key t object_type r ∷ v) ≤ n
          → cycle_in t object_type jump r rewrite v ≢ no_fuel
      cycle_in_fueled r this v l e = cc
      cycle_in_fueled r unset v l e = cc
      cycle_in_fueled r (tuple_to_userset tupleset computed) v l e = cc
      cycle_in_fueled r (computed_userset s) v l e =
          let v' = path_key t object_type r ∷ v in
          computed_fueled s v' (get_relation t object_type s) refl l
            (is_key (path_key t object_type s) v') refl e
      cycle_in_fueled r (union_of rs) v l e =
          children_fueled r rs (path_key t object_type r ∷ v) (twice r v l) e
      cycle_in_fueled r (intersection_of rs) v l e =
          children_fueled r rs (path_key t object_type r ∷ v) (twice r v l) e
      cycle_in_fueled r (difference b u) v l e =
          let v' = path_key t object_type r ∷ v in
          either_fuel (cycle_in t object_type jump r b v')
            (unless_cycle (cycle_in t object_type jump r u v') (has false))
            (cycle_in_fueled r b v' (twice r v l))
            (either_fuel (cycle_in t object_type jump r u v') (has false)
              (cycle_in_fueled r u v' (twice r v l)) (λ x. cc))
            e

      children_fueled :
          (r : Text) (rs : Rewrites) (v : List Text)
          → left (path_key t object_type r ∷ v) ≤ n
          → cycle_in_children t object_type jump r rs v ≢ no_fuel
      children_fueled r no_child v l e = cc
      children_fueled r (child c rs) v l e =
          either_fuel (cycle_in t object_type jump r c v)
            (cycle_in_children t object_type jump r rs v) (cycle_in_fueled r c v l)
            (children_fueled r rs v l) e

  -- the fuel counts the relations that are left
  cycle_from_fueled :
      (fuel : ℕ) (s : Text) (d : Relation) (v : List Text)
      → get_relation t object_type s ≡ answer d
      → is_key (path_key t object_type s) v ≡ false
      → left v ≤ fuel
      → cycle_from t object_type fuel s d.rewrite v ≢ no_fuel
  unfolding cycle_from
  cycle_from_fueled zero s d v q i l e =
      absurd
        (omega (arith, unvisited_drops (path_key t object_type) s names_of v (names_of-In s d q) i))
  cycle_from_fueled (suc fuel) s d v q i l e =
      cycle_in_fueled (cycle_from t object_type fuel) fuel (cycle_from_fueled fuel) s d.rewrite v
        (omega (arith, unvisited_drops (path_key t object_type) s names_of v (names_of-In s d q) i))
        e

  -- what the answer of HasCycle says of the relation
  abbrev pub Decided : Text → CycleAnswer → Type 0
  Decided r (has true) = Cycle t object_type r
  Decided r (has false) = (s : Text) → Leads t object_type r s → ¬ Walk t object_type s s
  Decided r (undefined e) = Missing t object_type r e
  Decided r no_fuel = ⊥

  decided :
      (fuel : ℕ) (r : Text) (d : Relation) (answered : CycleAnswer)
      → length names_of ≤ fuel
      → get_relation t object_type r ≡ answer d
      → cycle_from t object_type fuel r d.rewrite [] ≡ answered
      → Decided r answered
  decided fuel r d (has true) l q h =
      cycle_from-Honest t object_type fuel r r d [] q (inl refl) (Inv-root t object_type r) h
  decided fuel r d (has false) l q h = λ s leads.
      Clean-acyclic t object_type fuel r s (record { definition = d; is_defined = q; clean = h })
        leads
  decided fuel r d (undefined e) l q h =
      cycle_from-Missing t object_type r e fuel r d [] q (inl refl) h
  decided fuel r d no_fuel l q h =
      cycle_from_fueled fuel r d [] q refl
        (omega (arith, unvisited-le (path_key t object_type) names_of [])) h

  entered_decides :
      (fuel : ℕ) (r : Text) (a : Answer RelationError Relation)
      → length names_of ≤ fuel
      → get_relation t object_type r ≡ a
      → Decided r (enter (cycle_from t object_type fuel) r [] a)
  entered_decides fuel r (failure e) l q = record {
    relation = r;
    reached = inl refl;
    is_missing = q;
  }
  entered_decides fuel r (answer d) l q =
      decided fuel r d (cycle_from t object_type fuel r d.rewrite []) l q refl

  -- HasCycle returns, with as much fuel as the type has relations: it answers yes only if computed
  -- relations lead from the relation to one from which they lead back to it, it answers no only if
  -- they lead to no such relation, and it gives an error only if they lead from the relation, in no
  -- step or more, to a relation whose lookup gives that error.
  pub has_cycle_decides :
      (fuel : ℕ) (r : Text) → length names_of ≤ fuel → Decided r (has_cycle t object_type fuel r)
  unfolding has_cycle
  has_cycle_decides fuel r l = entered_decides fuel r (get_relation t object_type r) l refl
