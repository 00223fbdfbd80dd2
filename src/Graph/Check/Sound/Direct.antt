-- ===== src/Graph/Check/Sound/Direct.antt =====
-- What checkDirect and checkTTU allow has a derivation.
use mongopenfga.Prelude.{
  ◌≡◌, refl, sym, ap, ◌∙◌, Bool, true, false, ◌⊎◌, inl, inr, Option, none, some, List, ◌++◌, map,
  Text, text_eq, arith, select,
}
use mongopenfga.Tuple.{TupleKey, get_type}
use mongopenfga.Storage.Iterators.Defs.{Answer, answer, failure}
use mongopenfga.Graph.Outcome.{CheckError, CheckOutcome, is_allowed, is_proper, some_outcome}
use mongopenfga.Graph.Reduce.{arrived, union}
use mongopenfga.Graph.Decide.{denies}
use mongopenfga.Typesystem.Rewrite.{Rewrite, this, tuple_to_userset}
use mongopenfga.Graph.Check.Env.{CheckEnv, Request, Schedule}
use mongopenfga.Graph.Check.Direct.{
  should_check_direct_tuple, should_check_public_assignable, DispatchMsg, consume_dispatches,
  process_dispatches, user_tuple_outcome, check_direct_user_tuple, wildcards_outcome,
  check_public_assignable, usersets_outcome, check_direct_userset_tuples, if_any, direct_outcomes,
  check_direct, ttu_outcome, filtered_items, produce_userset_dispatches, produce_ttu_dispatches,
}
use mongopenfga.Graph.Check.Resolve.{check_rewrite}
use mongopenfga.Graph.Check.Member.{
  Member, Derives, direct_tuple, public_tuple, public_userset, userset_tuple, through_tupleset,
}
use mongopenfga.Graph.Check.Arrival.{IsFair, some_outcome_permuted, consume-union}
use mongopenfga.Graph.Check.Reads.{
  some_allowed-append, union_loop_sound, if_any_sound, In-select, filtered_usable, next_usable,
  sends, userset_sends, ttu_sends,
}

module _ {C : Type 0} (env : CheckEnv C) (schedule : Schedule C) (fair : IsFair schedule)
    (Denied : Rewrite → TupleKey C → Type 0) where
  module _ (resolve : Request C → CheckOutcome)
      (proper : (req : Request C) → is_proper (resolve req) ≡ true)
      (sound : (req : Request C)
        → is_allowed (resolve req) ≡ true
        → Member env Denied req.tuple_key)
      (denied : (req : Request C) (s : Rewrite)
        → denies (check_rewrite env schedule resolve req s) ≡ true
        → Denied s req.tuple_key) where
    pub union_sound :
        (req : Request C) (os : List CheckOutcome)
        → is_allowed (union (map arrived (schedule.arrive req os))) ≡ true
        → some_outcome is_allowed os ≡ true
    unfolding union
    union_sound req os h =
        some_outcome_permuted is_allowed (fair req os)
        ∙ union_loop_sound (schedule.arrive req os) none false h

    consume_sound :
        (req : Request C) (ms : List (DispatchMsg C))
        → is_allowed (consume_dispatches schedule resolve req ms) ≡ true
        → sends env resolve req ms ≡ true
    unfolding consume_dispatches
    consume_sound req ms h =
        let os = process_dispatches resolve req ms in
        some_outcome_permuted is_allowed (fair req os)
        ∙ union_loop_sound (schedule.arrive req os) none false
            (sym (ap is_allowed (consume-union (schedule.arrive req os) none false)) ∙ h)

    user_tuple_sound :
        (req : Request C) (r : Answer CheckError (Option (TupleKey C)))
        → env.read_user_tuple req.tuple_key ≡ r
        → is_allowed (user_tuple_outcome env r) ≡ true
        → Derives env Denied this req.tuple_key
    unfolding user_tuple_outcome
    user_tuple_sound req (failure e) q h = ground (arith, h)
    user_tuple_sound req (answer none) q h = ground (arith, h)
    user_tuple_sound req (answer (some t)) q h =
        direct_tuple t q (ground (arith, h), ground (arith, h))

    wildcards_sound :
        (req : Request C) (r : Answer CheckError (List (TupleKey C)))
        → env.read_wildcards req.tuple_key.object req.tuple_key.relation
            (get_type req.tuple_key.user)
          ≡ r
        → is_allowed (wildcards_outcome env r) ≡ true
        → Derives env Denied this req.tuple_key
    wildcards_sound req (failure e) q h = ground (arith, h)
    wildcards_sound req (answer ts) q h =
        let (t, m, k) = next_usable env (select env.is_valid ts) none false h in
        let read = In-select env.is_valid t ts m in public_tuple ts t q read.1 (read.0, k)

    usersets_sound :
        (req : Request C) (r : Answer CheckError (List (TupleKey C)))
        → env.read_userset_tuples req.tuple_key.object req.tuple_key.relation ≡ r
        → is_allowed (usersets_outcome env schedule resolve req r) ≡ true
        → Derives env Denied this req.tuple_key
    usersets_sound req (failure e) q h = ground (arith, h)
    usersets_sound req (answer ts) q h =
        let items = (filtered_items env ts).0 in
        let end = (filtered_items env ts).1 in
        let (t, m, k) =
          userset_sends env resolve req items end
            (consume_sound req (produce_userset_dispatches env req.tuple_key items end) h) in
        let (read, valid, met) = filtered_usable env t ts m in
        elim k [
          | inl w ↦ public_userset ts t q read (valid, met) w
          | inr a ↦ userset_tuple ts t q read (valid, met) (sound _ a)
        ]

    pub ttu_sound :
        (req : Request C) (tupleset relation : Text) (r : Answer CheckError (List (TupleKey C)))
        → env.read req.tuple_key.object tupleset ≡ r
        → is_allowed (ttu_outcome env schedule resolve req relation r) ≡ true
        → Derives env Denied (tuple_to_userset tupleset relation) req.tuple_key
    ttu_sound req tupleset relation (failure e) q h = ground (arith, h)
    ttu_sound req tupleset relation (answer ts) q h =
        let items = (filtered_items env ts).0 in
        let end = (filtered_items env ts).1 in
        let (t, m, k) =
          ttu_sends env resolve req relation items end
            (consume_sound req (produce_ttu_dispatches env relation req.tuple_key items end) h) in
        let (read, valid, met) = filtered_usable env t ts m in
        through_tupleset ts t q read (valid, met) (sound _ k)

    some_append_split :
        (os os' : List CheckOutcome)
        → some_outcome is_allowed (os ++ os') ≡ true
        → (some_outcome is_allowed os ≡ true) ⊎ (some_outcome is_allowed os' ≡ true)
    some_append_split os os' h = ground (arith, some_allowed-append os os')

    user_tuple-any :
        (b : Bool) (req : Request C)
        → some_outcome is_allowed (if_any b (check_direct_user_tuple env req)) ≡ true
        → Derives env Denied this req.tuple_key
    unfolding check_direct_user_tuple
    user_tuple-any b req h =
        let r = env.read_user_tuple req.tuple_key in
        user_tuple_sound req r refl (if_any_sound b (user_tuple_outcome env r) h)

    wildcards-any :
        (b : Bool) (req : Request C)
        → some_outcome is_allowed (if_any b (check_public_assignable env req)) ≡ true
        → Derives env Denied this req.tuple_key
    unfolding check_public_assignable
    wildcards-any b req h =
        let key = req.tuple_key in
        let r = env.read_wildcards key.object key.relation (get_type key.user) in
        wildcards_sound req r refl (if_any_sound b (wildcards_outcome env r) h)

    usersets-any :
        (b : Bool) (req : Request C)
        → some_outcome is_allowed (if_any b (check_direct_userset_tuples env schedule resolve req))
          ≡ true
        → Derives env Denied this req.tuple_key
    unfolding check_direct_userset_tuples
    usersets-any b req h =
        let key = req.tuple_key in
        let r = env.read_userset_tuples key.object key.relation in
        usersets_sound req r refl (if_any_sound b (usersets_outcome env schedule resolve req r) h)

    direct_outcomes_sound :
        (req : Request C)
        → some_outcome is_allowed (direct_outcomes env schedule resolve req) ≡ true
        → Derives env Denied this req.tuple_key
    unfolding direct_outcomes
    direct_outcomes_sound req h =
        let key = req.tuple_key in
        let b = should_check_direct_tuple env key in
        let c = should_check_public_assignable env key in
        let d = env.has_related_usersets (get_type key.object) key.relation in
        let os = if_any b (check_direct_user_tuple env req) in
        let os' = if_any c (check_public_assignable env req) in
        let os'' = if_any d (check_direct_userset_tuples env schedule resolve req) in
        elim (some_append_split (os ++ os') os'' h) [
          | inl k ↦ elim (some_append_split os os' k) [
            | inl l ↦ user_tuple-any b req l
            | inr l ↦ wildcards-any c req l
          ]
          | inr k ↦ usersets-any d req k
        ]

    pub direct_sound :
        (req : Request C)
        → is_allowed (check_direct env schedule resolve req) ≡ true
        → Derives env Denied this req.tuple_key
    unfolding check_direct
    direct_sound req h =
        direct_outcomes_sound req (union_sound req (direct_outcomes env schedule resolve req) h)
