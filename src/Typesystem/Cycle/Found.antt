-- ===== src/Typesystem/Cycle/Found.antt =====
-- Where HasCycle finds a cycle, there is one.
use mongopenfga.Prelude.{
  ℕ, zero, suc, ◌≡◌, refl, sym, subst, ◌⊎◌, inl, inr, Bool, true, false, List, [], ◌∷◌, ◌++◌, Text,
  arith, text_eq, text_beq_iff, if◌then◌else◌, is_key,
}
use mongopenfga.Storage.Iterators.Defs.{Answer, answer, failure}
use mongopenfga.Typesystem.Rewrite.{
  Rewrite, Rewrites, this, unset, computed_userset, tuple_to_userset, union_of, intersection_of,
  difference, no_child, child, RelationError,
}
use mongopenfga.Typesystem.Model.{TypeSystem, Relation, get_relation}
use mongopenfga.Typesystem.Cycle.{
  CycleAnswer, has, undefined, no_fuel, path_key, unless_cycle, enter, cycle_in, cycle_in_children,
  cycle_from,
}
use mongopenfga.Typesystem.Cycle.Follow.{ComputedIn, ComputedInSome, Edge, Walk, one, more, Leads}

append_cancel : (xs ys zs : Text) → xs ++ ys ≡ xs ++ zs → ys ≡ zs
append_cancel [] ys zs h = h
append_cancel (x ∷ xs) ys zs h = append_cancel xs ys zs (cc h)

module _ {Cond : Type 0} (t : TypeSystem Cond) (object_type : Text) where
  path_key_injective : (a b : Text) → path_key t object_type a ≡ path_key t object_type b → a ≡ b
  path_key_injective a b h = let e = append_cancel object_type (b'#' ∷ a) (b'#' ∷ b) h in cc e

  -- a cycle of computed relations to which the relation leads
  pub record Cycle (root : Text) : Type 0 where
    pub member : Text
    pub reached : Leads t object_type root member
    pub back : Walk t object_type member member

  extend : {a b c : Text} → Walk t object_type a b → Edge t object_type b c → Walk t object_type a c
  extend (one e) edge = more e (one edge)
  extend (more e w) edge = more e (extend w edge)

  pub join :
      {a b : Text} (c : Text)
      → Leads t object_type a b
      → Edge t object_type b c
      → Walk t object_type a c
  join c (inl e) edge = subst (λ x. Walk t object_type x c) (sym e) (one edge)
  join c (inr w) edge = extend w edge

  -- the relations whose paths were visited lie between the root and the current one
  pub record Between (root r k : Text) : Type 0 where
    pub relation : Text
    pub is_path : k ≡ path_key t object_type relation
    pub from_root : Leads t object_type root relation
    pub to_current : Leads t object_type relation r

  abbrev pub Inv : Text → Text → List Text → Type 0
  Inv root r v = (k : Text) → is_key k v ≡ true → Between root r k

  key-cases : (k a : Text) (v : List Text) → is_key k (a ∷ v) ≡ true → (k ≡ a) ⊎ (is_key k v ≡ true)
  key-cases k a v h = ground (arith, h, text_beq_iff k a)

  once : (k a : Text) (v : List Text) → is_key k (a ∷ a ∷ v) ≡ true → is_key k (a ∷ v) ≡ true
  once k a v h = ground (arith, h)

  Inv-twice :
      (root r : Text) (v : List Text)
      → Inv root r (path_key t object_type r ∷ v)
      → Inv root r (path_key t object_type r ∷ path_key t object_type r ∷ v)
  Inv-twice root r v inv k i = inv k (once k (path_key t object_type r) v i)

  Inv-step :
      (root r s : Text) (v : List Text)
      → Leads t object_type root r
      → Edge t object_type r s
      → Inv root r v
      → Inv root s (path_key t object_type s ∷ v)
  Inv-step root r s v l e inv k i = elim (key-cases k (path_key t object_type s) v i) [
    | inl q ↦ record {
      relation = s;
      is_path = q;
      from_root = inr (join s l e);
      to_current = inl refl;
    }
    | inr i' ↦
        let b = inv k i' in
        record {
          relation = b.relation;
          is_path = b.is_path;
          from_root = b.from_root;
          to_current = inr (join s b.to_current e);
        }
  ]

  closed :
      (root r s : Text)
      → Edge t object_type r s
      → Between root r (path_key t object_type s)
      → Cycle root
  closed root r s e b = record {
    member = b.relation;
    reached = b.from_root;
    back =
        subst (Walk t object_type b.relation) (path_key_injective s b.relation b.is_path)
          (join s b.to_current e);
  }

  -- the call on another relation finds only real cycles
  abbrev pub Honest : (Text → Rewrite → List Text → CycleAnswer) → Text → Type 0
  Honest jump root =
      (s : Text) (d : Relation) (v : List Text)
      → get_relation t object_type s ≡ answer d
      → Leads t object_type root s
      → Inv root s (path_key t object_type s ∷ v)
      → jump s d.rewrite v ≡ has true
      → Cycle root

  either_cycles :
      (a b : CycleAnswer) → unless_cycle a b ≡ has true → (a ≡ has true) ⊎ (b ≡ has true)
  either_cycles (has true) b h = inl refl
  either_cycles (has false) b h = inr h
  either_cycles (undefined e) b h = cc
  either_cycles no_fuel b h = cc

  module _ (jump : Text → Rewrite → List Text → CycleAnswer) (root r : Text)
      (honest : Honest jump root) (l : Leads t object_type root r) where
    computed-Cycle :
        (s : Text) (v : List Text) (a : Answer RelationError Relation)
        → get_relation t object_type s ≡ a
        → Edge t object_type r s
        → Inv root r v
        → (b : Bool) → is_key (path_key t object_type s) v ≡ b
        → (if b then has true else enter jump s v a) ≡ has true
        → Cycle root
    computed-Cycle s v a q e inv true i h = closed root r s e (inv (path_key t object_type s) i)
    computed-Cycle s v (failure x) q e inv false i h = cc
    computed-Cycle s v (answer d) q e inv false i h =
        honest s d v q (inr (join s l e)) (Inv-step root r s v l e inv) h

    mutual
      unfolding cycle_in

      pub cycle_in_honest :
          (rewrite : Rewrite) (v : List Text)
          → ((s : Text) → ComputedIn s rewrite → Edge t object_type r s)
          → Inv root r (path_key t object_type r ∷ v)
          → cycle_in t object_type jump r rewrite v ≡ has true
          → Cycle root
      cycle_in_honest this v edges inv h = cc
      cycle_in_honest unset v edges inv h = cc
      cycle_in_honest (tuple_to_userset tupleset computed) v edges inv h = cc
      cycle_in_honest (computed_userset s) v edges inv h =
          let v' = path_key t object_type r ∷ v in
          computed-Cycle s v' (get_relation t object_type s) refl (edges s refl) inv
            (is_key (path_key t object_type s) v') refl h
      cycle_in_honest (union_of rs) v edges inv h =
          children_honest rs (path_key t object_type r ∷ v) edges (Inv-twice root r v inv) h
      cycle_in_honest (intersection_of rs) v edges inv h =
          children_honest rs (path_key t object_type r ∷ v) edges (Inv-twice root r v inv) h
      cycle_in_honest (difference b u) v edges inv h =
          let v' = path_key t object_type r ∷ v in
          elim (either_cycles (cycle_in t object_type jump r b v')
            (unless_cycle (cycle_in t object_type jump r u v') (has false)) h) [
              | inl k ↦ cycle_in_honest b v' (λ s c. edges s (inl c)) (Inv-twice root r v inv) k
              | inr k ↦ elim (either_cycles (cycle_in t object_type jump r u v') (has false) k) [
                | inl k' ↦ cycle_in_honest u v' (λ s c. edges s (inr c)) (Inv-twice root r v inv) k'
                | inr k' ↦ cc
              ]
            ]

      children_honest :
          (rs : Rewrites) (v : List Text)
          → ((s : Text) → ComputedInSome s rs → Edge t object_type r s)
          → Inv root r (path_key t object_type r ∷ v)
          → cycle_in_children t object_type jump r rs v ≡ has true
          → Cycle root
      children_honest no_child v edges inv h = cc
      children_honest (child c rs) v edges inv h =
          elim (either_cycles (cycle_in t object_type jump r c v)
            (cycle_in_children t object_type jump r rs v) h) [
              | inl k ↦ cycle_in_honest c v (λ s i. edges s (inl i)) inv k
              | inr k ↦ children_honest rs v (λ s i. edges s (inr i)) inv k
            ]

  pub cycle_from-Honest : (fuel : ℕ) (root : Text) → Honest (cycle_from t object_type fuel) root
  unfolding cycle_from
  cycle_from-Honest zero root s d v q l inv h = cc
  cycle_from-Honest (suc fuel) root s d v q l inv h =
      cycle_in_honest (cycle_from t object_type fuel) root s (cycle_from-Honest fuel root) l
        d.rewrite v (λ u c. record { definition = d; is_defined = q; occurs = c }) inv h

  -- at the root, whose path alone was visited
  pub Inv-root : (root : Text) → Inv root root (path_key t object_type root ∷ [])
  Inv-root root k i = record {
    relation = root;
    is_path = ground (arith, i, text_beq_iff k (path_key t object_type root));
    from_root = inl refl;
    to_current = inl refl;
  }
