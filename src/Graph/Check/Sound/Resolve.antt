-- ===== src/Graph/Check/Sound/Resolve.antt =====
-- What ResolveCheck allows has a derivation.
use mongopenfga.Prelude.{
  ℕ, zero, suc, ◌≡◌, refl, sym, ◌∙◌, Bool, true, false, ◌⊎◌, inl, inr, List, [], ◌∷◌, map, text_eq,
  arith, Bool-cases,
}
use mongopenfga.Tuple.{TupleKey, is_self_defining, split_object}
use mongopenfga.Storage.Iterators.Defs.{Answer, answer, failure}
use mongopenfga.Graph.Outcome.{
  CheckError, CheckOutcome, is_allowed, is_proper, some_outcome, every_outcome,
}
use mongopenfga.Graph.Reduce.{arrived, intersection}
use mongopenfga.Graph.Decide.{intersection_decides, exclusion_decides, denies}
use mongopenfga.Typesystem.Rewrite.{
  Rewrite, Rewrites, this, unset, computed_userset, tuple_to_userset, union_of, intersection_of,
  difference, no_child, child, RelationError,
}
use mongopenfga.Graph.Check.Env.{CheckEnv, Request, Schedule}
use mongopenfga.Graph.Check.Direct.{check_ttu}
use mongopenfga.Graph.Check.Resolve.{
  exclusion_of, check_rewrite, check_rewrites, visit, after_path, after_relation, resolve_step,
  resolve_check, computed_request,
}
use mongopenfga.Graph.Check.Member.{
  Member, Derives, DerivesSome, DerivesEvery, self_defining, rewritten, computed, in_union,
  in_intersection, in_difference, here, there, every_none, every_child,
}
use mongopenfga.Graph.Check.Arrival.{IsFair, every_outcome_permuted, some_outcome_permuted}
use mongopenfga.Graph.Check.Proper.{check_rewrites-proper, resolve_check-proper}
use mongopenfga.Graph.Check.Sound.Direct.{union_sound, direct_sound, ttu_sound}

intersection_none :
    (os : List CheckOutcome)
    → some_outcome (λ o. true) os ≡ false
    → is_allowed (intersection (map arrived os)) ≡ false
unfolding intersection
intersection_none [] h = refl
intersection_none (o ∷ os) h = ground (arith, h)

intersection_every :
    (os : List CheckOutcome)
    → every_outcome is_proper os ≡ true
    → is_allowed (intersection (map arrived os)) ≡ true
    → every_outcome is_allowed os ≡ true
intersection_every [] p h = refl
intersection_every (o ∷ os) p h = sym (intersection_decides o os p).0 ∙ h

module _ {C : Type 0} (env : CheckEnv C) (schedule : Schedule C) (fair : IsFair schedule)
    (Denied : Rewrite → TupleKey C → Type 0) where
  module _ (resolve : Request C → CheckOutcome)
      (proper : (req : Request C) → is_proper (resolve req) ≡ true)
      (sound : (req : Request C)
        → is_allowed (resolve req) ≡ true
        → Member env Denied req.tuple_key)
      (denied : (req : Request C) (s : Rewrite)
        → denies (check_rewrite env schedule resolve req s) ≡ true
        → Denied s req.tuple_key) where
    exclusion_sound :
        (first : Bool) (b s : CheckOutcome)
        → is_allowed (exclusion_of first b s) ≡ true
        → (is_allowed b ≡ true) × (denies s ≡ true)
    exclusion_sound true b s h =
        let k = sym (exclusion_decides b s).0 ∙ h in (ground (arith, k), ground (arith, k))
    exclusion_sound false b s h =
        let k = sym (exclusion_decides b s).1 ∙ h in (ground (arith, k), ground (arith, k))

    intersection_sound :
        (req : Request C) (os : List CheckOutcome)
        → every_outcome is_proper os ≡ true
        → is_allowed (intersection (map arrived (schedule.arrive req os))) ≡ true
        → every_outcome is_allowed os ≡ true
    intersection_sound req os p h =
        every_outcome_permuted is_allowed (fair req os)
        ∙ intersection_every (schedule.arrive req os)
            (sym (every_outcome_permuted is_proper (fair req os)) ∙ p) h

    mutual
      unfolding check_rewrite check_rewrites check_ttu

      check_rewrite_sound :
          (req : Request C) (rewrite : Rewrite)
          → is_allowed (check_rewrite env schedule resolve req rewrite) ≡ true
          → Derives env Denied rewrite req.tuple_key
      check_rewrite_sound req this h =
          direct_sound env schedule fair Denied resolve proper sound denied req h
      check_rewrite_sound req unset h = ground (arith, h)
      check_rewrite_sound req (computed_userset relation) h =
          computed (sound (computed_request req relation) h)
      check_rewrite_sound req (tuple_to_userset tupleset relation) h =
          ttu_sound env schedule fair Denied resolve proper sound denied req tupleset relation
            (env.read req.tuple_key.object tupleset) refl h
      check_rewrite_sound req (union_of rs) h = in_union (
          some_sound req rs (
            union_sound env schedule fair Denied resolve proper sound denied req
              (check_rewrites env schedule resolve req rs) h))
      check_rewrite_sound req (intersection_of no_child) h = ground (
        arith,
        h,
        intersection_none (schedule.arrive req [])
            (sym (some_outcome_permuted (λ o. true) (fair req []))),
      )
      check_rewrite_sound req (intersection_of (child r rs)) h =
          let os = check_rewrites env schedule resolve req (child r rs) in
          in_intersection (
            every_sound req (child r rs) (
              intersection_sound req os
                (check_rewrites-proper env schedule fair resolve proper req (child r rs)) h))
      check_rewrite_sound req (difference b s) h =
          let k =
            exclusion_sound (schedule.base_first req) (check_rewrite env schedule resolve req b)
              (check_rewrite env schedule resolve req s) h in
          in_difference (check_rewrite_sound req b k.0) (denied req s k.1)

      some_sound :
          (req : Request C) (rs : Rewrites)
          → some_outcome is_allowed (check_rewrites env schedule resolve req rs) ≡ true
          → DerivesSome env Denied rs req.tuple_key
      some_sound req no_child h = ground (arith, h)
      some_sound req (child r rs) h =
          elim (Bool-cases (is_allowed (check_rewrite env schedule resolve req r))) [
            | inl k ↦ here (check_rewrite_sound req r k)
            | inr k ↦ there (some_sound req rs (ground (arith, h, k)))
          ]

      every_sound :
          (req : Request C) (rs : Rewrites)
          → every_outcome is_allowed (check_rewrites env schedule resolve req rs) ≡ true
          → DerivesEvery env Denied rs req.tuple_key
      every_sound req no_child h = every_none
      every_sound req (child r rs) h =
          every_child (check_rewrite_sound req r (ground (arith, h)))
            (every_sound req rs (ground (arith, h)))

    after_path_sound :
        (req : Request C) (rewrite : Rewrite) (a : Answer CheckError Bool)
        → is_allowed (after_path env schedule resolve req rewrite a) ≡ true
        → Derives env Denied rewrite req.tuple_key
    after_path_sound req rewrite (failure e) h = ground (arith, h)
    after_path_sound req rewrite (answer false) h = ground (arith, h)
    after_path_sound req rewrite (answer true) h = check_rewrite_sound (visit req) rewrite h

    after_relation_sound :
        (req : Request C) (a : Answer RelationError Rewrite)
        → env.get_relation (split_object req.tuple_key.object).0 req.tuple_key.relation ≡ a
        → is_allowed (after_relation env schedule resolve req a) ≡ true
        → Member env Denied req.tuple_key
    after_relation_sound req (failure e) q h = ground (arith, h)
    after_relation_sound req (answer rewrite) q h =
        let key = req.tuple_key in
        rewritten rewrite q (
          after_path_sound req rewrite
            (env.path_exists key.user key.relation (split_object key.object).0) h)

    resolve_step_allowed :
        (req : Request C)
        → is_allowed (resolve_step env schedule resolve req) ≡ true
        → (is_self_defining req.tuple_key ≡ true)
          ⊎ (is_allowed (
                after_relation env schedule resolve req
                  (env.get_relation (split_object req.tuple_key.object).0 req.tuple_key.relation))
              ≡ true)
    unfolding resolve_step
    resolve_step_allowed req h = ground arith

    resolve_step_sound :
        (req : Request C)
        → is_allowed (resolve_step env schedule resolve req) ≡ true
        → Member env Denied req.tuple_key
    resolve_step_sound req h = elim (resolve_step_allowed req h) [
      | inl k ↦ self_defining k
      | inr k ↦ after_relation_sound req _ refl k
    ]

-- A check of the rewrite, with some fuel and some request for the key, denied it with no cycle.
abbrev pub Denial : {C : Type 0} → CheckEnv C → Schedule C → Rewrite → TupleKey C → Type 0
Denial {C} env schedule s key =
    (fuel : ℕ) × (req : Request C) × (req.tuple_key ≡ key)
    × (denies (check_rewrite env schedule (resolve_check env schedule fuel) req s) ≡ true)

-- A request that ResolveCheck allows, whatever its depth and its visited paths and in whatever order
-- concurrent outcomes arrive, is for a member: the membership has a derivation from the tuples that
-- are valid and whose condition is met, by the rewrites of the model, in which the subtracted
-- operand of a difference is one that a check denied with no cycle.
pub resolve_check_sound :
    {C : Type 0} (env : CheckEnv C) (schedule : Schedule C)
    → IsFair schedule
    → (fuel : ℕ) (req : Request C) → is_allowed (resolve_check env schedule fuel req) ≡ true
    → Member env (Denial env schedule) req.tuple_key
unfolding resolve_check
resolve_check_sound env schedule fair zero req h = ground (arith, h)
resolve_check_sound env schedule fair (suc fuel) req h =
    resolve_step_sound env schedule fair (Denial env schedule) (resolve_check env schedule fuel)
      (resolve_check-proper env schedule fair fuel) (resolve_check_sound env schedule fair fuel)
      (λ r s k. (fuel, r, refl, k)) req h
