-- ===== src/Typesystem/Cycle/Follow.antt =====
-- The steps that HasCycle follows: one computed relation from another.
use mongopenfga.Prelude.{
  ◌≡◌, refl, sym, subst, ◌⊎◌, inl, inr, Bool, true, false, List, ◌∷◌, Text, arith, text_eq,
  if◌then◌else◌, is_key,
}
use mongopenfga.Storage.Iterators.Defs.{Answer, answer, failure}
use mongopenfga.Typesystem.Rewrite.{
  Rewrite, Rewrites, this, unset, computed_userset, tuple_to_userset, union_of, intersection_of,
  difference, no_child, child, RelationError,
}
use mongopenfga.Typesystem.Model.{TypeSystem, Relation, get_relation}
use mongopenfga.Typesystem.Cycle.{
  CycleAnswer, has, undefined, no_fuel, path_key, unless_cycle, enter, cycle_in, cycle_in_children,
}

-- The relation occurs as a computed relation in the rewrite, at any depth of set operations.
abbrev mutual
  pub ComputedIn : Text → Rewrite → Type 0
  ComputedIn s this = ⊥
  ComputedIn s unset = ⊥
  ComputedIn s (tuple_to_userset tupleset computed) = ⊥
  ComputedIn s (computed_userset r) = s ≡ r
  ComputedIn s (union_of rs) = ComputedInSome s rs
  ComputedIn s (intersection_of rs) = ComputedInSome s rs
  ComputedIn s (difference b r) = ComputedIn s b ⊎ ComputedIn s r

  pub ComputedInSome : Text → Rewrites → Type 0
  ComputedInSome s no_child = ⊥
  ComputedInSome s (child r rs) = ComputedIn s r ⊎ ComputedInSome s rs

abbrev pub Covers : List Text → List Text → Type 0
Covers v v' = (k : Text) → is_key k v ≡ true → is_key k v' ≡ true

pub covers_twice :
    (k a : Text) (v : List Text) → is_key k (a ∷ v) ≡ true → is_key k (a ∷ a ∷ v) ≡ true
covers_twice k a v h = ground arith

pub not_covered :
    (v v' : List Text) (k : Text) → Covers v v' → is_key k v' ≡ false → is_key k v ≡ false
not_covered v v' k c h = ground (arith, c k)

neither_cycles :
    (a b : CycleAnswer) → unless_cycle a b ≡ has false → (a ≡ has false) × (b ≡ has false)
neither_cycles (has true) b h = cc
neither_cycles (has false) b h = (refl, h)
neither_cycles (undefined e) b h = cc
neither_cycles no_fuel b h = cc

module _ {Cond : Type 0} (t : TypeSystem Cond) (object_type : Text) where
  -- The relation `s` is computed in the rewrite of `r`.
  pub record Edge (r s : Text) : Type 0 where
    pub definition : Relation
    pub is_defined : get_relation t object_type r ≡ answer definition
    pub occurs : ComputedIn s definition.rewrite

  -- one or more such steps
  pub data Walk : Text → Text → Type 0 where
    one : {r s : Text} → Edge r s → Walk r s
    more : {r s u : Text} → Edge r s → Walk s u → Walk r u

  -- none or more
  abbrev pub Leads : Text → Text → Type 0
  Leads r s = (r ≡ s) ⊎ Walk r s

  -- a computed relation that was followed, and led into no cycle
  pub record Followed (jump : Text → Rewrite → List Text → CycleAnswer) (v : List Text) (s : Text)
      : Type 0 where
    pub visited : List Text
    pub covers : Covers v visited
    pub fresh : is_key (path_key t object_type s) visited ≡ false
    pub definition : Relation
    pub is_defined : get_relation t object_type s ≡ answer definition
    pub clean : jump s definition.rewrite visited ≡ has false

  module _ (jump : Text → Rewrite → List Text → CycleAnswer) where
    passed_by :
        (b : Bool) (x : CycleAnswer)
        → (if b then has true else x) ≡ has false
        → (b ≡ false) × (x ≡ has false)
    passed_by true x h = cc
    passed_by false x h = (refl, h)

    entered :
        (v : List Text) (s : Text) (a : Answer RelationError Relation)
        → is_key (path_key t object_type s) v ≡ false
        → get_relation t object_type s ≡ a
        → enter jump s v a ≡ has false
        → Followed jump v s
    entered v s (failure e) f q h = cc
    entered v s (answer r) f q h = record {
      visited = v;
      covers = λ k i. i;
      fresh = f;
      definition = r;
      is_defined = q;
      clean = h;
    }

    covered : {v v' : List Text} {s : Text} → Covers v v' → Followed jump v' s → Followed jump v s
    covered c f = record {
      visited = f.visited;
      covers = λ k i. f.covers k (c k i);
      fresh = f.fresh;
      definition = f.definition;
      is_defined = f.is_defined;
      clean = f.clean;
    }

    mutual
      unfolding cycle_in

      pub follow :
          (r s : Text) (rewrite : Rewrite) (v : List Text)
          → cycle_in t object_type jump r rewrite v ≡ has false
          → ComputedIn s rewrite
          → Followed jump (path_key t object_type r ∷ v) s
      follow r s this v h c = absurd c
      follow r s unset v h c = absurd c
      follow r s (tuple_to_userset tupleset computed) v h c = absurd c
      follow r s (computed_userset u) v h c =
          let v' = path_key t object_type r ∷ v in
          let p =
            passed_by (is_key (path_key t object_type u) v')
              (enter jump u v' (get_relation t object_type u)) h in
          subst (Followed jump v') (sym c)
            (entered v' u (get_relation t object_type u) p.0 refl p.1)
      follow r s (union_of rs) v h c = follow_some r s rs (path_key t object_type r ∷ v) h c
      follow r s (intersection_of rs) v h c = follow_some r s rs (path_key t object_type r ∷ v) h c
      follow r s (difference b u) v h c =
          let v' = path_key t object_type r ∷ v in
          let p =
            neither_cycles (cycle_in t object_type jump r b v')
              (unless_cycle (cycle_in t object_type jump r u v') (has false)) h in
          let q = neither_cycles (cycle_in t object_type jump r u v') (has false) p.1 in
          elim c [
            | inl d ↦
                covered (λ k. covers_twice k (path_key t object_type r) v) (follow r s b v' p.0 d)
            | inr d ↦
                covered (λ k. covers_twice k (path_key t object_type r) v) (follow r s u v' q.0 d)
          ]

      follow_some :
          (r s : Text) (rs : Rewrites) (v : List Text)
          → cycle_in_children t object_type jump r rs v ≡ has false
          → ComputedInSome s rs
          → Followed jump v s
      follow_some r s no_child v h c = absurd c
      follow_some r s (child rewrite rs) v h c =
          let p =
            neither_cycles (cycle_in t object_type jump r rewrite v)
              (cycle_in_children t object_type jump r rs v) h in
          elim c [
            | inl d ↦ covered (λ k i. ground (arith, i)) (follow r s rewrite v p.0 d)
            | inr d ↦ follow_some r s rs v p.1 d
          ]
