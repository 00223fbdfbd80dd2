-- ===== src/Graph/Check/Complete.antt =====
-- Checks that a stored tuple decides.
use mongopenfga.Prelude.{
  ℕ, suc, ◌≡◌, sym, ◌∙◌, Bool-cases, inl, inr, Bool, true, false, ◌||◌, some, List, [], ◌∷◌, ◌++◌,
  map, text_eq, arith, is_key, nat_beq,
}
use mongopenfga.Tuple.{TupleKey, get_type, tuple_key_to_string}
use mongopenfga.Storage.Iterators.Defs.{answer}
use mongopenfga.Typesystem.Rewrite.{
  Rewrite, Rewrites, this, unset, computed_userset, tuple_to_userset, union_of, intersection_of,
  difference, no_child, child,
}
use mongopenfga.Graph.Outcome.{CheckOutcome, is_allowed, is_proper, some_outcome, every_outcome}
use mongopenfga.Graph.Reduce.{arrived, union}
use mongopenfga.Graph.Decide.{union_decides}
use mongopenfga.Graph.Check.Env.{CheckEnv, Request, Schedule}
use mongopenfga.Graph.Check.Direct.{
  check_direct, direct_outcomes, if_any, check_direct_user_tuple, user_tuple_outcome,
  should_check_direct_tuple,
}
use mongopenfga.Graph.Check.Resolve.{
  visit, check_rewrite, check_rewrites, resolve_step, resolve_check,
}
use mongopenfga.Graph.Check.Arrival.{IsFair, some_outcome_permuted, every_outcome_permuted}
use mongopenfga.Graph.Check.Proper.{
  direct_outcomes-proper, check_rewrites-proper, resolve_check-proper,
}

-- the rewrite is `this`, or a union with such an operand
abbrev mutual
  pub reaches_this : Rewrite → Bool
  reaches_this this = true
  reaches_this unset = false
  reaches_this (computed_userset r) = false
  reaches_this (tuple_to_userset t c) = false
  reaches_this (union_of rs) = one_reaches_this rs
  reaches_this (intersection_of rs) = false
  reaches_this (difference b s) = false

  pub one_reaches_this : Rewrites → Bool
  one_reaches_this no_child = false
  one_reaches_this (child r rs) = reaches_this r || one_reaches_this rs

-- The tuple of a request is in the datastore, valid, with its condition met, and the type system
-- allows such tuples.
pub record IsStored {C : Type 0} (env : CheckEnv C) (key : TupleKey C) : Type 0 where
  pub stored : TupleKey C
  pub is_read : env.read_user_tuple key ≡ answer (some stored)
  pub is_valid : env.is_valid stored ≡ true
  pub is_met : env.condition_met stored ≡ answer true
  pub is_related : should_check_direct_tuple env key ≡ true

some-append :
    (p : CheckOutcome → Bool) (os os' : List CheckOutcome)
    → some_outcome p os ≡ true
    → some_outcome p (os ++ os') ≡ true
some-append p [] os' h = absurd (ground (arith, h))
some-append p (o ∷ os) os' h = ground (arith, h, some-append p os os')

module _ {C : Type 0} (env : CheckEnv C) (schedule : Schedule C) (fair : IsFair schedule) where
  union_allows :
      (req : Request C) (os : List CheckOutcome)
      → every_outcome is_proper os ≡ true
      → some_outcome is_allowed os ≡ true
      → is_allowed (union (map arrived (schedule.arrive req os))) ≡ true
  union_allows req os proper some_allowed =
      (union_decides (schedule.arrive req os)
        (sym (every_outcome_permuted is_proper (fair req os)) ∙ proper)).0
      ∙ (sym (some_outcome_permuted is_allowed (fair req os)) ∙ some_allowed)

  stored_outcome :
      (req : Request C)
      → IsStored env req.tuple_key
      → is_allowed (check_direct_user_tuple env req) ≡ true
  unfolding check_direct_user_tuple user_tuple_outcome
  stored_outcome req s = ground (arith, s.is_read, s.is_valid, s.is_met)

  direct_outcome-stored :
      (resolve : Request C → CheckOutcome) (req : Request C)
      → IsStored env req.tuple_key
      → some_outcome is_allowed (direct_outcomes env schedule resolve req) ≡ true
  unfolding direct_outcomes
  direct_outcome-stored resolve req s =
      let os =
        if_any (should_check_direct_tuple env req.tuple_key) (check_direct_user_tuple env req) in
      some-append is_allowed (os ++ _) _
        (some-append is_allowed os _ (ground (arith, s.is_related, stored_outcome req s)))

  module _ (resolve : Request C → CheckOutcome)
      (proper : (req : Request C) → is_proper (resolve req) ≡ true) where
    direct_allows :
        (req : Request C)
        → IsStored env req.tuple_key
        → is_allowed (check_direct env schedule resolve req) ≡ true
    unfolding check_direct
    direct_allows req s =
        union_allows req (direct_outcomes env schedule resolve req)
          (direct_outcomes-proper env schedule fair resolve proper req)
          (direct_outcome-stored resolve req s)

    mutual
      unfolding check_rewrite check_rewrites

      rewrite_allows :
          (req : Request C) (rewrite : Rewrite)
          → IsStored env req.tuple_key
          → reaches_this rewrite ≡ true
          → is_allowed (check_rewrite env schedule resolve req rewrite) ≡ true
      rewrite_allows req this s h = direct_allows req s
      rewrite_allows req unset s h = absurd (ground (arith, h))
      rewrite_allows req (computed_userset r) s h = absurd (ground (arith, h))
      rewrite_allows req (tuple_to_userset a b) s h = absurd (ground (arith, h))
      rewrite_allows req (union_of rs) s h =
          union_allows req (check_rewrites env schedule resolve req rs)
            (check_rewrites-proper env schedule fair resolve proper req rs) (one_allows req rs s h)
      rewrite_allows req (intersection_of rs) s h = absurd (ground (arith, h))
      rewrite_allows req (difference a b) s h = absurd (ground (arith, h))

      one_allows :
          (req : Request C) (rs : Rewrites)
          → IsStored env req.tuple_key
          → one_reaches_this rs ≡ true
          → some_outcome is_allowed (check_rewrites env schedule resolve req rs) ≡ true
      one_allows req no_child s h = absurd (ground (arith, h))
      one_allows req (child r rs) s h = elim (Bool-cases (reaches_this r)) [
        | inl e ↦ ground (arith, rewrite_allows req r s e)
        | inr e ↦ ground (arith, h, e, one_allows req rs s)
      ]

  -- In every fair order of arrival, ResolveCheck allows a request whose tuple is stored, valid and of
  -- a kind that the relation may be assigned, with its condition met, if the relation's rewrite is
  -- `this` or a union that reaches it, PathExists answers yes, the depth is not at its
  -- limit and the request was not visited.
  pub resolve_check_complete :
      (fuel : ℕ) (req : Request C) (rewrite : Rewrite)
      → IsStored env req.tuple_key
      → env.get_relation (get_type req.tuple_key.object) req.tuple_key.relation ≡ answer rewrite
      → reaches_this rewrite ≡ true
      → env.path_exists req.tuple_key.user req.tuple_key.relation (get_type req.tuple_key.object)
        ≡ answer true
      → nat_beq req.depth env.max_resolution_depth ≡ false
      → is_key (tuple_key_to_string req.tuple_key) req.visited_paths ≡ false
      → is_allowed (resolve_check env schedule (suc fuel) req) ≡ true
  unfolding resolve_check resolve_step
  resolve_check_complete fuel req rewrite s found reaches path depth fresh =
      let resolve = resolve_check env schedule fuel in
      ground (
        arith,
        found,
        path,
        depth,
        fresh,
        rewrite_allows resolve (resolve_check-proper env schedule fair fuel) (visit req) rewrite s
            reaches,
      )
