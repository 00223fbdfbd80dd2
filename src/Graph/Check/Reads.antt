-- ===== src/Graph/Check/Reads.antt =====
-- What the reads, the iterators and the producers of dispatches contribute to an allowed outcome.
use mongopenfga.Prelude.{
  In, suc, ◌≡◌, refl, ap, subst, ◌∙◌, Bool, true, false, ◌||◌, ◌⊎◌, inl, inr, Option, none, some,
  List, [], ◌∷◌, ◌++◌, map, Text, text_eq, arith, select, length, if◌then◌else◌,
}
use mongopenfga.Tuple.{TupleKey, new_tuple_key, split_object_relation}
use mongopenfga.Storage.Iterators.Defs.{Answer, answer, failure, conditions_next}
use mongopenfga.Storage.Iterators.Drain.{
  drain-conditions, is_met, holds, Answer-cases, next-failed, next-unmet,
}
use mongopenfga.Graph.Outcome.{
  CheckError, CheckOutcome, responded, errored, is_allowed, some_outcome,
}
use mongopenfga.Graph.Reduce.{arrived, union_loop}
use mongopenfga.Graph.Check.Env.{CheckEnv, Request}
use mongopenfga.Graph.Check.Direct.{
  DispatchMsg, child_request, process_dispatches, next_outcome, if_any, end_messages,
  filtered_items, produce_userset_dispatches, produce_ttu_dispatches,
}
use mongopenfga.Graph.Check.Member.{IsPublic}

pub some_allowed-append :
    (os os' : List CheckOutcome)
    → some_outcome is_allowed (os ++ os')
      ≡ (some_outcome is_allowed os || some_outcome is_allowed os')
some_allowed-append [] os' = refl
some_allowed-append (o ∷ os) os' = ground (arith, some_allowed-append os os')

-- no hypothesis is needed in this direction
pub union_loop_sound :
    (os : List CheckOutcome) (e : Option CheckError) (cycle : Bool)
    → is_allowed (union_loop (map arrived os) e cycle) ≡ true
    → some_outcome is_allowed os ≡ true
unfolding union_loop
union_loop_sound [] none cycle h = h
union_loop_sound [] (some e) cycle h = h
union_loop_sound (errored e ∷ os) f cycle h = union_loop_sound os (some e) cycle h
union_loop_sound (responded r ∷ os) f cycle h =
    ground (arith, union_loop_sound os f (cycle || r.cycle_detected))

pub if_any_sound :
    (b : Bool) (o : CheckOutcome)
    → some_outcome is_allowed (if_any b o) ≡ true
    → is_allowed o ≡ true
if_any_sound true o h = ground (arith, h)
if_any_sound false o h = ground (arith, h)

In-if :
    {A : Type 0} (b : Bool) (x y : A) (ys : List A)
    → In x (if b then y ∷ ys else ys)
    → ((b ≡ true) × (x ≡ y)) ⊎ In x ys
In-if true x y ys (inl e) = inl (refl, e)
In-if true x y ys (inr h) = inr h
In-if false x y ys h = inr h

pub In-select :
    {A : Type 0} (p : A → Bool) (x : A) (xs : List A) → In x (select p xs) → (p x ≡ true) × In x xs
In-select p x [] h = absurd h
In-select p x (y ∷ ys) h = elim (In-if (p y) x y (select p ys) h) [
  | inl (e, q) ↦ (ap p q ∙ e, inl q)
  | inr k ↦ (let r = In-select p x ys k in (r.0, inr r.1))
]

holds-true : {E : Type 0} (a : Answer E Bool) → holds a ≡ true → a ≡ answer true
holds-true (failure e) h = ground (arith, h)
holds-true (answer b) h = ap answer h

module _ {C : Type 0} (env : CheckEnv C) where
  -- What the filtered iterator yields was read, and is usable.
  pub filtered_usable :
      (t : TupleKey C) (ts : List (TupleKey C))
      → In t (filtered_items env ts).0
      → In t ts × (env.is_valid t ≡ true) × (env.condition_met t ≡ answer true)
  filtered_usable t ts h =
      let valid = select env.is_valid ts in
      let drained = drain-conditions env.condition_met valid (suc (length valid)) (omega arith) in
      let met = In-select (is_met env.condition_met) t valid (subst (λ p. In t p.0) drained h) in
      let read = In-select env.is_valid t ts met.1 in
      (read.1, read.0, holds-true (env.condition_met t) met.0)

  end_denies :
      (last : Option CheckError) (once : Bool)
      → is_allowed (next_outcome (conditions_next env.condition_met [] last once).0) ≡ false
  unfolding conditions_next
  end_denies none once = refl
  end_denies (some e) true = refl
  end_denies (some e) false = refl

  -- The first tuple that the conditions iterator yields.
  pub next_usable :
      (valid : List (TupleKey C)) (last : Option CheckError) (once : Bool)
      → is_allowed (next_outcome (conditions_next env.condition_met valid last once).0) ≡ true
      → (t : TupleKey C) × In t valid × (env.condition_met t ≡ answer true)
  next_usable [] last once h = ground (arith, end_denies last once)
  next_usable (t ∷ valid) last once h = elim (Answer-cases (env.condition_met t)) [
    | inl (e, k) ↦
        let rest = next_usable valid (some e) once (
          subst (λ n. is_allowed (next_outcome n.0) ≡ true)
            (next-failed env.condition_met t valid e last once k) h) in
        (rest.0, inr rest.1, rest.2)
    | inr (inl k) ↦ (t, inl refl, k)
    | inr (inr k) ↦
        let rest = next_usable valid last once (
          subst (λ n. is_allowed (next_outcome n.0) ≡ true)
            (next-unmet env.condition_met t valid last once k) h) in
        (rest.0, inr rest.1, rest.2)
  ]

  module _ (resolve : Request C → CheckOutcome) (req : Request C) where
    abbrev pub userset_key : TupleKey C → TupleKey C
    userset_key t =
        new_tuple_key (split_object_relation t.user).0 (split_object_relation t.user).1
          req.tuple_key.user

    abbrev pub sends : List (DispatchMsg C) → Bool
    sends ms = some_outcome is_allowed (process_dispatches resolve req ms)

    end_silent : (end : Option CheckError) → sends (end_messages end) ≡ false
    end_silent none = refl
    end_silent (some e) = ground arith

    userset_first :
        (t : TupleKey C) (ts : List (TupleKey C)) (end : Option CheckError)
        → sends (produce_userset_dispatches env req.tuple_key (t ∷ ts) end) ≡ true
        → IsPublic req.tuple_key t
          ⊎ (is_allowed (resolve (child_request req (userset_key t))) ≡ true)
          ⊎ (sends (produce_userset_dispatches env req.tuple_key ts end) ≡ true)
    unfolding produce_userset_dispatches
    userset_first t ts end h = ground arith

    pub userset_sends :
        (items : List (TupleKey C)) (end : Option CheckError)
        → sends (produce_userset_dispatches env req.tuple_key items end) ≡ true
        → (t : TupleKey C) × In t items
          × (IsPublic req.tuple_key t
              ⊎ (is_allowed (resolve (child_request req (userset_key t))) ≡ true))
    unfolding produce_userset_dispatches
    userset_sends [] end h = ground (arith, end_silent end)
    userset_sends (t ∷ items) end h = elim (userset_first t items end h) [
      | inl k ↦ (t, inl refl, inl k)
      | inr (inl k) ↦ (t, inl refl, inr k)
      | inr (inr k) ↦ (let rest = userset_sends items end k in (rest.0, inr rest.1, rest.2))
    ]

    abbrev pub computed_key : Text → TupleKey C → TupleKey C
    computed_key relation t =
        new_tuple_key (split_object_relation t.user).0 relation req.tuple_key.user

    ttu_first :
        (relation : Text) (t : TupleKey C) (ts : List (TupleKey C)) (end : Option CheckError)
        → sends (produce_ttu_dispatches env relation req.tuple_key (t ∷ ts) end) ≡ true
        → (is_allowed (resolve (child_request req (computed_key relation t))) ≡ true)
          ⊎ (sends (produce_ttu_dispatches env relation req.tuple_key ts end) ≡ true)
    unfolding produce_ttu_dispatches
    ttu_first relation t ts end h = ground arith

    pub ttu_sends :
        (relation : Text) (items : List (TupleKey C)) (end : Option CheckError)
        → sends (produce_ttu_dispatches env relation req.tuple_key items end) ≡ true
        → (t : TupleKey C) × In t items
          × (is_allowed (resolve (child_request req (computed_key relation t))) ≡ true)
    unfolding produce_ttu_dispatches
    ttu_sends relation [] end h = ground (arith, end_silent end)
    ttu_sends relation (t ∷ items) end h = elim (ttu_first relation t items end h) [
      | inl k ↦ (t, inl refl, k)
      | inr k ↦ (let rest = ttu_sends relation items end k in (rest.0, inr rest.1, rest.2))
    ]
