-- ===== src/Graph/Check/Direct.antt =====
-- checkDirect and checkTTU with the dispatches that they produce and consume. `resolve` stands for
-- the resolver that a dispatch calls.
use mongopenfga.Prelude.{
  suc, Bool, true, false, not, ◌&&◌, ◌||◌, Option, none, some, List, [], ◌∷◌, ◌++◌, map, Text, ◌==◌,
  text_eq, select, length, if◌then◌else◌,
}
use mongopenfga.Tuple.{
  TupleKey, new_tuple_key, split_object_relation, get_type, is_object_relation, is_typed_wildcard,
}
use mongopenfga.Tuple as Tuple
use mongopenfga.Storage.Iterators.Defs.{
  Answer, answer, failure, Next, item, done, fail, conditions_next, conditions_step, drain_fuel,
}
use mongopenfga.Graph.Outcome.{
  CheckError, context_done, CheckOutcome, responded, errored, allow, deny,
}
use mongopenfga.Graph.Reduce.{arrived, union}
use mongopenfga.Typesystem.Rewrite.{RelationError, relation_undefined}
use mongopenfga.Graph.Check.Env.{CheckEnv, Request, Schedule}

-- the messages that a producer sends: dispatchMsg
pub data DispatchMsg (C : Type 0) : Type 0 where
  error_msg : CheckError → DispatchMsg C
  short_circuit : DispatchMsg C
  dispatch_msg : TupleKey C → DispatchMsg C

abbrev pub is_cancelled : CheckError → Bool
is_cancelled context_done = true
is_cancelled _ = false

abbrev pub allowed_if : Bool → CheckOutcome
allowed_if true = allow
allowed_if false = deny

-- the loop of consumeDispatches
unfoldable pub consume_loop : List CheckOutcome → Option CheckError → Bool → CheckOutcome
consume_loop [] none cycle_detected =
    responded (record { allowed = false; cycle_detected = cycle_detected })
consume_loop [] (some e) cycle_detected = errored e
consume_loop (errored e ∷ os) final_err cycle_detected = consume_loop os (some e) cycle_detected
consume_loop (responded r ∷ os) final_err cycle_detected =
    let rest = consume_loop os final_err (cycle_detected || r.cycle_detected) in
    if r.allowed then responded r else rest

abbrev pub is_relation_undefined : {A : Type 0} → Answer RelationError A → Bool
is_relation_undefined (failure relation_undefined) = true
is_relation_undefined _ = false

abbrev pub if_any : Bool → CheckOutcome → List CheckOutcome
if_any true o = o ∷ []
if_any false o = []

module _ {C : Type 0} where
  -- the message for the error that ended the iterator
  abbrev pub end_messages : Option CheckError → List (DispatchMsg C)
  end_messages none = []
  end_messages (some e) = if is_cancelled e then [] else error_msg e ∷ []

  -- produceUsersetDispatches, on what the iterator yields
  unfoldable pub produce_userset_dispatches :
      CheckEnv C → TupleKey C → List (TupleKey C) → Option CheckError → List (DispatchMsg C)
  produce_userset_dispatches env key [] end = end_messages end
  produce_userset_dispatches env key (t ∷ ts) end =
      let rest = produce_userset_dispatches env key ts end in
      let (userset_object, userset_relation) = split_object_relation t.user in
      if is_typed_wildcard userset_object
        && env.is_schema_version_supported
        && get_type key.user == get_type userset_object
      then short_circuit ∷ []
      else if not (userset_relation == [])
      then dispatch_msg (new_tuple_key userset_object userset_relation key.user) ∷ rest
      else rest

  -- produceTTUDispatches
  unfoldable pub produce_ttu_dispatches :
      CheckEnv C → Text → TupleKey C → List (TupleKey C) → Option CheckError → List (DispatchMsg C)
  produce_ttu_dispatches env computed_relation key [] end = end_messages end
  produce_ttu_dispatches env computed_relation key (t ∷ ts) end =
      let rest = produce_ttu_dispatches env computed_relation key ts end in
      let user_obj = (split_object_relation t.user).0 in
      if is_relation_undefined (env.get_relation (get_type user_obj) computed_relation)
      then rest
      else dispatch_msg (new_tuple_key user_obj computed_relation key.user) ∷ rest

  -- dispatch's request
  abbrev pub child_request : Request C → TupleKey C → Request C
  child_request req key = record {
    tuple_key = key;
    depth = suc req.depth;
    visited_paths = req.visited_paths;
  }

  -- a message's outcome: processDispatches
  abbrev pub message_outcome : (Request C → CheckOutcome) → Request C → DispatchMsg C → CheckOutcome
  message_outcome resolve req (error_msg e) = errored e
  message_outcome resolve req short_circuit = allow
  message_outcome resolve req (dispatch_msg key) = resolve (child_request req key)

  abbrev pub process_dispatches :
      (Request C → CheckOutcome) → Request C → List (DispatchMsg C) → List CheckOutcome
  process_dispatches resolve req ms = map (message_outcome resolve req) ms

  unfoldable pub consume_dispatches :
      Schedule C → (Request C → CheckOutcome) → Request C → List (DispatchMsg C) → CheckOutcome
  consume_dispatches schedule resolve req ms =
      consume_loop (schedule.arrive req (process_dispatches resolve req ms)) none false

  -- The filtered iterator over the tuples, read to its end.
  abbrev pub filtered_items : CheckEnv C → List (TupleKey C) → List (TupleKey C) × Option CheckError
  filtered_items env ts =
      let valid = select env.is_valid ts in
      drain_fuel (suc (length valid)) (conditions_step env.condition_met)
        (record { items = valid; last_error = none; once_valid = false })

  -- checkDirectUserTuple, on what the read returns
  unfoldable pub user_tuple_outcome :
      CheckEnv C → Answer CheckError (Option (TupleKey C)) → CheckOutcome
  user_tuple_outcome env (failure e) = errored e
  user_tuple_outcome env (answer none) = deny
  user_tuple_outcome env (answer (some t)) =
      if not (env.is_valid t)
      then deny
      else elim (env.condition_met t) [ failure e ↦ errored e | answer met ↦ allowed_if met ]

  unfoldable pub check_direct_user_tuple : CheckEnv C → Request C → CheckOutcome
  check_direct_user_tuple env req = user_tuple_outcome env (env.read_user_tuple req.tuple_key)

  abbrev pub next_outcome : Next CheckError (TupleKey C) → CheckOutcome
  next_outcome (item t) = allow
  next_outcome done = deny
  next_outcome (fail e) = errored e

  abbrev pub wildcards_outcome : CheckEnv C → Answer CheckError (List (TupleKey C)) → CheckOutcome
  wildcards_outcome env (failure e) = errored e
  wildcards_outcome env (answer ts) =
      next_outcome (conditions_next env.condition_met (select env.is_valid ts) none false).0

  unfoldable pub check_public_assignable : CheckEnv C → Request C → CheckOutcome
  check_public_assignable env req =
      let key = req.tuple_key in
      wildcards_outcome env (env.read_wildcards key.object key.relation (get_type key.user))

  abbrev pub usersets_outcome :
      CheckEnv C
      → Schedule C
      → (Request C → CheckOutcome)
      → Request C
      → Answer CheckError (List (TupleKey C))
      → CheckOutcome
  usersets_outcome env schedule resolve req (failure e) = errored e
  usersets_outcome env schedule resolve req (answer ts) =
      let (items, end) = filtered_items env ts in
      consume_dispatches schedule resolve req
        (produce_userset_dispatches env req.tuple_key items end)

  -- checkDirectUsersetTuples
  unfoldable pub check_direct_userset_tuples :
      CheckEnv C → Schedule C → (Request C → CheckOutcome) → Request C → CheckOutcome
  check_direct_userset_tuples env schedule resolve req =
      let key = req.tuple_key in
      usersets_outcome env schedule resolve req (env.read_userset_tuples key.object key.relation)

  abbrev pub should_check_direct_tuple : CheckEnv C → TupleKey C → Bool
  should_check_direct_tuple env key =
      env.is_directly_related (get_type key.object) key.relation (get_type key.user)
        (Tuple.get_relation key.user)

  abbrev pub should_check_public_assignable : CheckEnv C → TupleKey C → Bool
  should_check_public_assignable env key =
      if is_object_relation key.user
      then false
      else env.is_publicly_assignable (get_type key.object) key.relation (get_type key.user)

  -- the outcomes of the handlers of checkDirect
  unfoldable pub direct_outcomes :
      CheckEnv C → Schedule C → (Request C → CheckOutcome) → Request C → List CheckOutcome
  direct_outcomes env schedule resolve req =
      let key = req.tuple_key in
      if_any (should_check_direct_tuple env key) (check_direct_user_tuple env req)
      ++ if_any (should_check_public_assignable env key) (check_public_assignable env req)
      ++ if_any (env.has_related_usersets (get_type key.object) key.relation)
          (check_direct_userset_tuples env schedule resolve req)

  -- checkDirect
  unfoldable pub check_direct :
      CheckEnv C → Schedule C → (Request C → CheckOutcome) → Request C → CheckOutcome
  check_direct env schedule resolve req =
      union (map arrived (schedule.arrive req (direct_outcomes env schedule resolve req)))

  abbrev pub ttu_outcome :
      CheckEnv C
      → Schedule C
      → (Request C → CheckOutcome)
      → Request C
      → Text
      → Answer CheckError (List (TupleKey C))
      → CheckOutcome
  ttu_outcome env schedule resolve req computed_relation (failure e) = errored e
  ttu_outcome env schedule resolve req computed_relation (answer ts) =
      let (items, end) = filtered_items env ts in
      consume_dispatches schedule resolve req
        (produce_ttu_dispatches env computed_relation req.tuple_key items end)

  -- checkTTU
  unfoldable pub check_ttu :
      CheckEnv C → Schedule C → (Request C → CheckOutcome) → Request C → Text → Text → CheckOutcome
  check_ttu env schedule resolve req tupleset_relation computed_relation =
      ttu_outcome env schedule resolve req computed_relation
        (env.read req.tuple_key.object tupleset_relation)
