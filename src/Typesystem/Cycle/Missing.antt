-- ===== src/Typesystem/Cycle/Missing.antt =====
-- Where HasCycle ends with an error, computed relations lead to one that has it.
use mongopenfga.Prelude.{
  ℕ, zero, suc, ◌≡◌, refl, ◌∙◌, ap, ◌⊎◌, inl, inr, Bool, true, false, List, ◌∷◌, Text, text_eq,
  if◌then◌else◌, is_key,
}
use mongopenfga.Storage.Iterators.Defs.{Answer, answer, failure}
use mongopenfga.Typesystem.Rewrite.{
  Rewrite, Rewrites, this, unset, computed_userset, tuple_to_userset, union_of, intersection_of,
  difference, no_child, child, RelationError,
}
use mongopenfga.Typesystem.Model.{TypeSystem, Relation, get_relation}
use mongopenfga.Typesystem.Cycle.{
  CycleAnswer, has, undefined, no_fuel, path_key, unless_cycle, enter, cycle_in, cycle_in_children,
  cycle_from,
}
use mongopenfga.Typesystem.Cycle.Follow.{ComputedIn, ComputedInSome, Edge, Leads}
use mongopenfga.Typesystem.Cycle.Found.{join}

pub same_error : (e e' : RelationError) → undefined e ≡ undefined e' → e ≡ e'
same_error e e' h = cc

either_undefined :
    (a b : CycleAnswer) (e : RelationError)
    → unless_cycle a b ≡ undefined e
    → (a ≡ undefined e) ⊎ (b ≡ undefined e)
either_undefined (has true) b e h = cc
either_undefined (has false) b e h = inr h
either_undefined (undefined x) b e h = inl h
either_undefined no_fuel b e h = cc

module _ {Cond : Type 0} (t : TypeSystem Cond) (object_type : Text) (root : Text)
    (e : RelationError) where
  -- a relation to which computed relations lead, and whose lookup gives the error
  pub record Missing : Type 0 where
    pub relation : Text
    pub reached : Leads t object_type root relation
    pub is_missing : get_relation t object_type relation ≡ failure e

  abbrev Blames : (Text → Rewrite → List Text → CycleAnswer) → Type 0
  Blames jump =
      (s : Text) (d : Relation) (v : List Text)
      → get_relation t object_type s ≡ answer d
      → Leads t object_type root s
      → jump s d.rewrite v ≡ undefined e
      → Missing

  pub entered-Missing :
      (jump : Text → Rewrite → List Text → CycleAnswer) (s : Text) (v : List Text)
      (a : Answer RelationError Relation)
      → Blames jump
      → get_relation t object_type s ≡ a
      → Leads t object_type root s
      → enter jump s v a ≡ undefined e
      → Missing
  entered-Missing jump s v (failure x) blames q l h = record {
    relation = s;
    reached = l;
    is_missing = q ∙ ap failure (same_error x e h);
  }
  entered-Missing jump s v (answer d) blames q l h = blames s d v q l h

  module _ (jump : Text → Rewrite → List Text → CycleAnswer) (r : Text) (blames : Blames jump)
      (l : Leads t object_type root r) where
    computed-Missing :
        (s : Text) (v : List Text)
        → Edge t object_type r s
        → (b : Bool)
        → (if b then has true else enter jump s v (get_relation t object_type s)) ≡ undefined e
        → Missing
    computed-Missing s v edge true h = cc
    computed-Missing s v edge false h =
        entered-Missing jump s v (get_relation t object_type s) blames refl
          (inr (join t object_type s l edge)) h

    mutual
      unfolding cycle_in

      cycle_in-Missing :
          (rewrite : Rewrite) (v : List Text)
          → ((s : Text) → ComputedIn s rewrite → Edge t object_type r s)
          → cycle_in t object_type jump r rewrite v ≡ undefined e
          → Missing
      cycle_in-Missing this v edges h = cc
      cycle_in-Missing unset v edges h = cc
      cycle_in-Missing (tuple_to_userset tupleset computed) v edges h = cc
      cycle_in-Missing (computed_userset s) v edges h =
          let v' = path_key t object_type r ∷ v in
          computed-Missing s v' (edges s refl) (is_key (path_key t object_type s) v') h
      cycle_in-Missing (union_of rs) v edges h =
          children-Missing rs (path_key t object_type r ∷ v) edges h
      cycle_in-Missing (intersection_of rs) v edges h =
          children-Missing rs (path_key t object_type r ∷ v) edges h
      cycle_in-Missing (difference b u) v edges h =
          let v' = path_key t object_type r ∷ v in
          elim (either_undefined (cycle_in t object_type jump r b v')
            (unless_cycle (cycle_in t object_type jump r u v') (has false)) e h) [
              | inl k ↦ cycle_in-Missing b v' (λ s c. edges s (inl c)) k
              | inr k ↦
                  elim (either_undefined (cycle_in t object_type jump r u v') (has false) e k) [
                    | inl k' ↦ cycle_in-Missing u v' (λ s c. edges s (inr c)) k'
                    | inr k' ↦ cc
                  ]
            ]

      children-Missing :
          (rs : Rewrites) (v : List Text)
          → ((s : Text) → ComputedInSome s rs → Edge t object_type r s)
          → cycle_in_children t object_type jump r rs v ≡ undefined e
          → Missing
      children-Missing no_child v edges h = cc
      children-Missing (child c rs) v edges h =
          elim (either_undefined (cycle_in t object_type jump r c v)
            (cycle_in_children t object_type jump r rs v) e h) [
              | inl k ↦ cycle_in-Missing c v (λ s i. edges s (inl i)) k
              | inr k ↦ children-Missing rs v (λ s i. edges s (inr i)) k
            ]

  pub cycle_from-Missing : (fuel : ℕ) → Blames (cycle_from t object_type fuel)
  unfolding cycle_from
  cycle_from-Missing zero s d v q l h = cc
  cycle_from-Missing (suc fuel) s d v q l h =
      cycle_in-Missing (cycle_from t object_type fuel) s (cycle_from-Missing fuel) l d.rewrite v
        (λ u c. record { definition = d; is_defined = q; occurs = c }) h
