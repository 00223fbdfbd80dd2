-- ===== src/Graph/Check/Agree.antt =====
-- Two resolvers that agree on the requests that a check makes give it the same outcome.
use mongopenfga.Prelude.{
  is_key, ◌≡◌, refl, ap, ◌∙◌, Bool, true, false, none, List, [], ◌∷◌, map, Text, inl, inr,
  Bool-cases,
}
use mongopenfga.Tuple.{TupleKey, split_object, tuple_key_to_string}
use mongopenfga.Storage.Iterators.Defs.{Answer, answer, failure}
use mongopenfga.Graph.Outcome.{CheckError, CheckOutcome}
use mongopenfga.Graph.Reduce.{arrived, union, intersection}
use mongopenfga.Typesystem.Rewrite.{
  Rewrite, Rewrites, this, unset, computed_userset, tuple_to_userset, union_of, intersection_of,
  difference, no_child, child, RelationError,
}
use mongopenfga.Graph.Check.Env.{CheckEnv, Request, Schedule}
use mongopenfga.Graph.Check.Direct.{
  DispatchMsg, child_request, error_msg, short_circuit, dispatch_msg, consume_loop,
  consume_dispatches, process_dispatches, usersets_outcome, check_direct_userset_tuples,
  direct_outcomes, check_direct, ttu_outcome, check_ttu, filtered_items, produce_userset_dispatches,
  produce_ttu_dispatches,
}
use mongopenfga.Graph.Check.Resolve.{
  exclusion_of, check_rewrite, check_rewrites, visit, after_path, after_relation, resolve_step,
  computed_request,
}

module _ {C : Type 0} (env : CheckEnv C) (schedule : Schedule C)
    (resolve resolve' : Request C → CheckOutcome) where
  module _ (req : Request C)
      (same_child : (key : TupleKey C)
        → resolve (child_request req key) ≡ resolve' (child_request req key))
      (same_computed : (relation : Text)
        → resolve (computed_request req relation) ≡ resolve' (computed_request req relation)) where
    process_agrees :
        (ms : List (DispatchMsg C))
        → process_dispatches resolve req ms ≡ process_dispatches resolve' req ms
    process_agrees [] = refl
    process_agrees (error_msg e ∷ ms) = rw (process_agrees ms) refl
    process_agrees (short_circuit ∷ ms) = rw (process_agrees ms) refl
    process_agrees (dispatch_msg key ∷ ms) = rw (same_child key, process_agrees ms) refl

    consume_agrees :
        (ms : List (DispatchMsg C))
        → consume_dispatches schedule resolve req ms ≡ consume_dispatches schedule resolve' req ms
    unfolding consume_dispatches
    consume_agrees ms =
        ap (λ os. consume_loop (schedule.arrive req os) none false) (process_agrees ms)

    usersets_agree :
        (r : Answer CheckError (List (TupleKey C)))
        → usersets_outcome env schedule resolve req r ≡ usersets_outcome env schedule resolve' req r
    usersets_agree (failure e) = refl
    usersets_agree (answer ts) = consume_agrees (
        produce_userset_dispatches env req.tuple_key (filtered_items env ts).0
          (filtered_items env ts).1)

    ttu_agrees :
        (relation : Text) (r : Answer CheckError (List (TupleKey C)))
        → ttu_outcome env schedule resolve req relation r
          ≡ ttu_outcome env schedule resolve' req relation r
    ttu_agrees relation (failure e) = refl
    ttu_agrees relation (answer ts) = consume_agrees (
        produce_ttu_dispatches env relation req.tuple_key (filtered_items env ts).0
          (filtered_items env ts).1)

    userset_tuples_agree :
        check_direct_userset_tuples env schedule resolve req
        ≡ check_direct_userset_tuples env schedule resolve' req
    unfolding check_direct_userset_tuples
    userset_tuples_agree =
        usersets_agree (env.read_userset_tuples req.tuple_key.object req.tuple_key.relation)

    direct_agrees : check_direct env schedule resolve req ≡ check_direct env schedule resolve' req
    unfolding check_direct direct_outcomes
    direct_agrees = rw userset_tuples_agree refl

    mutual
      unfolding check_rewrite check_rewrites check_ttu

      pub check_rewrite_agrees :
          (rewrite : Rewrite)
          → check_rewrite env schedule resolve req rewrite
            ≡ check_rewrite env schedule resolve' req rewrite
      check_rewrite_agrees this = direct_agrees
      check_rewrite_agrees unset = refl
      check_rewrite_agrees (computed_userset relation) = same_computed relation
      check_rewrite_agrees (tuple_to_userset tupleset relation) =
          ttu_agrees relation (env.read req.tuple_key.object tupleset)
      check_rewrite_agrees (union_of rs) =
          ap (λ os. union (map arrived (schedule.arrive req os))) (check_rewrites_agree rs)
      check_rewrite_agrees (intersection_of rs) =
          ap (λ os. intersection (map arrived (schedule.arrive req os))) (check_rewrites_agree rs)
      check_rewrite_agrees (difference b s) =
          ap
            (λ o.
              exclusion_of (schedule.base_first req) o (check_rewrite env schedule resolve req s))
            (check_rewrite_agrees b)
          ∙ ap (exclusion_of (schedule.base_first req) (check_rewrite env schedule resolve' req b))
              (check_rewrite_agrees s)

      check_rewrites_agree :
          (rs : Rewrites)
          → check_rewrites env schedule resolve req rs ≡ check_rewrites env schedule resolve' req rs
      check_rewrites_agree no_child = refl
      check_rewrites_agree (child r rs) =
          ap (λ o. o ∷ check_rewrites env schedule resolve req rs) (check_rewrite_agrees r)
          ∙ ap (λ os. check_rewrite env schedule resolve' req r ∷ os) (check_rewrites_agree rs)

  module _ (req : Request C) where
    -- what the two are asked to agree on: the rewrite of a relation that is defined
    abbrev pub AgreeOnRewrites : Type 0
    AgreeOnRewrites =
        (rewrite : Rewrite)
        → env.get_relation (split_object req.tuple_key.object).0 req.tuple_key.relation
          ≡ answer rewrite
        → check_rewrite env schedule resolve (visit req) rewrite
          ≡ check_rewrite env schedule resolve' (visit req) rewrite

    after_path_agrees :
        (rewrite : Rewrite) (a : Answer CheckError Bool)
        → check_rewrite env schedule resolve (visit req) rewrite
          ≡ check_rewrite env schedule resolve' (visit req) rewrite
        → after_path env schedule resolve req rewrite a
          ≡ after_path env schedule resolve' req rewrite a
    after_path_agrees rewrite (failure e) h = refl
    after_path_agrees rewrite (answer false) h = refl
    after_path_agrees rewrite (answer true) h = h

    after_relation_agrees :
        (a : Answer RelationError Rewrite)
        → env.get_relation (split_object req.tuple_key.object).0 req.tuple_key.relation ≡ a
        → AgreeOnRewrites
        → after_relation env schedule resolve req a ≡ after_relation env schedule resolve' req a
    after_relation_agrees (failure e) q h = refl
    after_relation_agrees (answer rewrite) q h =
        let key = req.tuple_key in
        after_path_agrees rewrite
          (env.path_exists key.user key.relation (split_object key.object).0) (h rewrite q)

    pub resolve_step_agrees :
        (is_key (tuple_key_to_string req.tuple_key) req.visited_paths ≡ false → AgreeOnRewrites)
        → resolve_step env schedule resolve req ≡ resolve_step env schedule resolve' req
    unfolding resolve_step
    resolve_step_agrees h =
        let key = req.tuple_key in
        elim (Bool-cases (is_key (tuple_key_to_string key) req.visited_paths)) [
          | inl k ↦ rw k refl
          | inr k ↦
              rw
                (after_relation_agrees (env.get_relation (split_object key.object).0 key.relation)
                  refl (h k))
                refl
        ]
