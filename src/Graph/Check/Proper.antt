-- ===== src/Graph/Check/Proper.antt =====
-- No outcome of a check allows with the cycle flag set.
use mongopenfga.Prelude.{
  ℕ, zero, suc, ◌≡◌, refl, sym, ◌∙◌, Bool, true, false, Option, none, some, List, [], ◌∷◌, ◌++◌,
  Text, arith,
}
use mongopenfga.Tuple.{TupleKey, get_type, split_object}
use mongopenfga.Storage.Iterators.Defs.{Answer, answer, failure, Next, item, done, fail}
use mongopenfga.Graph.Outcome.{CheckError, CheckOutcome, is_proper, every_outcome}
use mongopenfga.Graph.Reduce.{union}
use mongopenfga.Graph.Decide.{union-proper, intersection-proper, exclusion-proper}
use mongopenfga.Typesystem.Rewrite.{
  Rewrite, Rewrites, this, unset, computed_userset, tuple_to_userset, union_of, intersection_of,
  difference, no_child, child, RelationError,
}
use mongopenfga.Graph.Check.Env.{CheckEnv, Request, Schedule}
use mongopenfga.Graph.Check.Direct.{
  should_check_direct_tuple, should_check_public_assignable, DispatchMsg, child_request, error_msg,
  short_circuit, dispatch_msg, consume_dispatches, process_dispatches, user_tuple_outcome,
  check_direct_user_tuple, next_outcome, wildcards_outcome, check_public_assignable,
  usersets_outcome, check_direct_userset_tuples, if_any, direct_outcomes, check_direct, ttu_outcome,
  check_ttu,
}
use mongopenfga.Graph.Check.Resolve.{
  exclusion_of, check_rewrite, check_rewrites, visit, after_path, after_relation, resolve_step,
  resolve_check,
}
use mongopenfga.Graph.Check.Arrival.{
  IsFair, every_outcome_permuted, consume-union, every_outcome-append,
}

proper-cons :
    (o : CheckOutcome) (os : List CheckOutcome)
    → is_proper o ≡ true
    → every_outcome is_proper os ≡ true
    → every_outcome is_proper (o ∷ os) ≡ true
proper-cons o os h k = ground arith

module _ {C : Type 0} (env : CheckEnv C) (schedule : Schedule C) (fair : IsFair schedule) where
  module _ (resolve : Request C → CheckOutcome)
      (proper : (req : Request C) → is_proper (resolve req) ≡ true) where
    arrived_proper :
        (req : Request C) (os : List CheckOutcome)
        → every_outcome is_proper os ≡ true
        → every_outcome is_proper (schedule.arrive req os) ≡ true
    arrived_proper req os h = sym (every_outcome_permuted is_proper (fair req os)) ∙ h

    process_proper :
        (req : Request C) (ms : List (DispatchMsg C))
        → every_outcome is_proper (process_dispatches resolve req ms) ≡ true
    process_proper req [] = refl
    process_proper req (error_msg e ∷ ms) = process_proper req ms
    process_proper req (short_circuit ∷ ms) = process_proper req ms
    process_proper req (dispatch_msg key ∷ ms) =
        proper-cons (resolve (child_request req key)) (process_dispatches resolve req ms)
          (proper (child_request req key)) (process_proper req ms)

    consume_proper :
        (req : Request C) (ms : List (DispatchMsg C))
        → is_proper (consume_dispatches schedule resolve req ms) ≡ true
    unfolding consume_dispatches union
    consume_proper req ms =
        rw (consume-union (schedule.arrive req (process_dispatches resolve req ms)) none false) (
          union-proper (schedule.arrive req (process_dispatches resolve req ms))
            (arrived_proper req (process_dispatches resolve req ms) (process_proper req ms)))

    user_tuple_proper :
        (r : Answer CheckError (Option (TupleKey C))) → is_proper (user_tuple_outcome env r) ≡ true
    unfolding user_tuple_outcome
    user_tuple_proper (failure e) = refl
    user_tuple_proper (answer none) = refl
    user_tuple_proper (answer (some t)) = ground arith

    next_proper : (n : Next CheckError (TupleKey C)) → is_proper (next_outcome n) ≡ true
    next_proper (item t) = refl
    next_proper done = refl
    next_proper (fail e) = refl

    wildcards_proper :
        (r : Answer CheckError (List (TupleKey C))) → is_proper (wildcards_outcome env r) ≡ true
    wildcards_proper (failure e) = refl
    wildcards_proper (answer ts) = next_proper _

    usersets_proper :
        (req : Request C) (r : Answer CheckError (List (TupleKey C)))
        → is_proper (usersets_outcome env schedule resolve req r) ≡ true
    usersets_proper req (failure e) = refl
    usersets_proper req (answer ts) = consume_proper req _

    ttu_proper :
        (req : Request C) (relation : Text) (r : Answer CheckError (List (TupleKey C)))
        → is_proper (ttu_outcome env schedule resolve req relation r) ≡ true
    ttu_proper req relation (failure e) = refl
    ttu_proper req relation (answer ts) = consume_proper req _

    if_any-proper :
        (b : Bool) (o : CheckOutcome)
        → is_proper o ≡ true
        → every_outcome is_proper (if_any b o) ≡ true
    if_any-proper true o h = ground (arith, h)
    if_any-proper false o h = refl

    appended_proper :
        (os os' : List CheckOutcome)
        → every_outcome is_proper os ≡ true
        → every_outcome is_proper os' ≡ true
        → every_outcome is_proper (os ++ os') ≡ true
    appended_proper os os' h k = ground (arith, every_outcome-append is_proper os os')

    user_tuple-any :
        (b : Bool) (req : Request C)
        → every_outcome is_proper (if_any b (check_direct_user_tuple env req)) ≡ true
    unfolding check_direct_user_tuple
    user_tuple-any b req = if_any-proper b _ (user_tuple_proper (env.read_user_tuple req.tuple_key))

    wildcards-any :
        (b : Bool) (req : Request C)
        → every_outcome is_proper (if_any b (check_public_assignable env req)) ≡ true
    unfolding check_public_assignable
    wildcards-any b req =
        let key = req.tuple_key in
        if_any-proper b _
          (wildcards_proper (env.read_wildcards key.object key.relation (get_type key.user)))

    usersets-any :
        (b : Bool) (req : Request C)
        → every_outcome is_proper (if_any b (check_direct_userset_tuples env schedule resolve req))
          ≡ true
    unfolding check_direct_userset_tuples
    usersets-any b req =
        let key = req.tuple_key in
        if_any-proper b _ (usersets_proper req (env.read_userset_tuples key.object key.relation))

    pub direct_outcomes-proper :
        (req : Request C)
        → every_outcome is_proper (direct_outcomes env schedule resolve req) ≡ true
    unfolding direct_outcomes
    direct_outcomes-proper req =
        let key = req.tuple_key in
        let b = should_check_direct_tuple env key in
        let c = should_check_public_assignable env key in
        let d = env.has_related_usersets (get_type key.object) key.relation in
        let os = if_any b (check_direct_user_tuple env req) in
        let os' = if_any c (check_public_assignable env req) in
        let os'' = if_any d (check_direct_userset_tuples env schedule resolve req) in
        appended_proper (os ++ os') os''
          (appended_proper os os' (user_tuple-any b req) (wildcards-any c req)) (usersets-any d req)

    direct_proper : (req : Request C) → is_proper (check_direct env schedule resolve req) ≡ true
    unfolding check_direct
    direct_proper req =
        let outcomes = direct_outcomes env schedule resolve req in
        union-proper (schedule.arrive req outcomes)
          (arrived_proper req outcomes (direct_outcomes-proper req))

    exclusion_of-proper :
        (first : Bool) (b s : CheckOutcome) → is_proper (exclusion_of first b s) ≡ true
    exclusion_of-proper true b s = (exclusion-proper b s).0
    exclusion_of-proper false b s = (exclusion-proper b s).1

    mutual
      unfolding check_rewrite check_rewrites check_ttu

      check_rewrite-proper :
          (req : Request C) (rewrite : Rewrite)
          → is_proper (check_rewrite env schedule resolve req rewrite) ≡ true
      check_rewrite-proper req this = direct_proper req
      check_rewrite-proper req unset = refl
      check_rewrite-proper req (computed_userset relation) = proper _
      check_rewrite-proper req (tuple_to_userset tupleset relation) = ttu_proper req relation _
      check_rewrite-proper req (union_of rs) =
          let outcomes = check_rewrites env schedule resolve req rs in
          union-proper (schedule.arrive req outcomes)
            (arrived_proper req outcomes (check_rewrites-proper req rs))
      check_rewrite-proper req (intersection_of rs) =
          let outcomes = check_rewrites env schedule resolve req rs in
          intersection-proper (schedule.arrive req outcomes)
            (arrived_proper req outcomes (check_rewrites-proper req rs))
      check_rewrite-proper req (difference b s) = exclusion_of-proper _ _ _

      pub check_rewrites-proper :
          (req : Request C) (rs : Rewrites)
          → every_outcome is_proper (check_rewrites env schedule resolve req rs) ≡ true
      check_rewrites-proper req no_child = refl
      check_rewrites-proper req (child r rs) =
          proper-cons (check_rewrite env schedule resolve req r)
            (check_rewrites env schedule resolve req rs) (check_rewrite-proper req r)
            (check_rewrites-proper req rs)

    after_path-proper :
        (req : Request C) (rewrite : Rewrite) (a : Answer CheckError Bool)
        → is_proper (after_path env schedule resolve req rewrite a) ≡ true
    after_path-proper req rewrite (failure e) = refl
    after_path-proper req rewrite (answer false) = refl
    after_path-proper req rewrite (answer true) = check_rewrite-proper (visit req) rewrite

    after_relation-proper :
        (req : Request C) (a : Answer RelationError Rewrite)
        → is_proper (after_relation env schedule resolve req a) ≡ true
    after_relation-proper req (failure e) = refl
    after_relation-proper req (answer rewrite) = after_path-proper req rewrite _

    resolve_step-proper :
        (req : Request C) → is_proper (resolve_step env schedule resolve req) ≡ true
    unfolding resolve_step
    resolve_step-proper req = ground (
      arith,
      after_relation-proper req
          (env.get_relation (split_object req.tuple_key.object).0 req.tuple_key.relation),
    )

  -- ResolveCheck never allows with the cycle flag set.
  pub resolve_check-proper :
      (fuel : ℕ) (req : Request C) → is_proper (resolve_check env schedule fuel req) ≡ true
  unfolding resolve_check
  resolve_check-proper zero req = refl
  resolve_check-proper (suc fuel) req =
      resolve_step-proper (resolve_check env schedule fuel) (resolve_check-proper fuel) req
