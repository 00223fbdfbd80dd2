-- ===== src/Graph/Check/Instance.antt =====
-- A check over the type system of a model and the tuples of the memory backend.
use mongopenfga.Prelude.{
  ℕ, suc, ltb, ◌≡◌, sym, subst, ◌∙◌, Bool-cases, inl, inr, Bool, true, false, Option, none, some,
  List, [], ◌∷◌, map, Text, text_eq, text_beq_iff, arith, is_key, nat_beq, length,
}
use mongopenfga.Tuple.{TupleKey, new_tuple_key, get_type, is_typed_wildcard, tuple_key_to_string}
use mongopenfga.Storage.{Tuple, TupleRecord, as_tuple}
use mongopenfga.Storage.GoMap.{GoMap}
use mongopenfga.Storage.Iterators.Defs.{Answer, answer, failure}
use mongopenfga.Condition.{EvaluableCondition, ParameterTypes}
use mongopenfga.Typesystem.Rewrite.{RelationReference}
use mongopenfga.Typesystem.Model.{
  AuthorizationModel, Relation, TypeSystem, new, and_then, get_relation, is_directly_related,
  is_publicly_assignable, directly_related_usersets, direct_relation_reference,
  wildcard_relation_reference, is_schema_version_supported,
}
use mongopenfga.Typesystem.Paths.{path_exists}
use mongopenfga.Validation.{filter_invalid_tuples, validate_tuple_for_read}
use mongopenfga.Validation.Gate.{AllNamed, has_known_form, read_gate, valid-read_gate}
use mongopenfga.Memory.State.{TupleBackend, tuples_of, match_record}
use mongopenfga.Memory.Match.{IsFullKey, keyed, match_record-keyed, ne_nil}
use mongopenfga.Memory.Read.{Numerals, first_match, read_user_tuple, read}
use mongopenfga.Memory.Usersets.{read_userset_tuples}
use mongopenfga.Graph.Outcome.{CheckError, is_allowed}
use mongopenfga.Graph.Check.Env.{CheckEnv, Request, Schedule}
use mongopenfga.Graph.Check.Arrival.{IsFair}
use mongopenfga.Graph.Check.Resolve.{resolve_check}
use mongopenfga.Graph.Check.Complete.{reaches_this, IsStored, resolve_check_complete}

-- what the check asks beside the model and the store: the graph of the model, the evaluation of
-- conditions, strconv, and the limit of the depth
pub record Surroundings (C : Type 0) : Type 0 where
  pub graph_path_exists : Text → Text → Answer CheckError Bool
  pub condition_met : TupleKey C → Answer CheckError Bool
  pub numerals : Numerals
  pub max_resolution_depth : ℕ

-- an answer whose error is dropped
abbrev pub or_false : {E : Type 0} → Answer E Bool → Bool
or_false (failure e) = false
or_false (answer b) = b

abbrev pub references : {E : Type 0} → Answer E (List RelationReference) → List RelationReference
references (failure e) = []
references (answer refs) = refs

abbrev pub key_of_tuple : {C : Type 0} → Tuple C → TupleKey C
key_of_tuple t = t.key

abbrev pub found_key : {C : Type 0} → Option (Tuple C) → Option (TupleKey C)
found_key none = none
found_key (some t) = some t.key

module _ {Ref VarType Value Param : Type 0} (types : ParameterTypes Ref VarType Value Param)
    (around : Surroundings (GoMap Value)) (model : AuthorizationModel (EvaluableCondition Ref))
    (s : TupleBackend (GoMap Value)) (store : Text) where
  abbrev pub related_usersets : Text → Text → List RelationReference
  related_usersets object_type relation =
      references (directly_related_usersets (new model) object_type relation)

  abbrev pub usersets_of : Text → Text → List RelationReference → List (TupleKey (GoMap Value))
  usersets_of object relation refs = map key_of_tuple (
      read_userset_tuples [] s store
        (record { object = object; relation = relation; allowed_user_type_restrictions = refs }))

  abbrev pub memory_env : CheckEnv (GoMap Value)
  memory_env = record {
    get_relation = λ o r. and_then (get_relation (new model) o r) (λ d. answer d.rewrite);
    path_exists = path_exists around.graph_path_exists;
    is_directly_related = λ o r user_type user_relation.
        or_false
          (is_directly_related (new model) o r (direct_relation_reference user_type user_relation));
    is_publicly_assignable =
        λ o r user_type. or_false (is_publicly_assignable (new model) o r user_type);
    has_related_usersets = λ o r. ltb 0 (length (related_usersets o r));
    is_schema_version_supported = is_schema_version_supported (new model).schema_version;
    read_user_tuple = λ key. answer (found_key (read_user_tuple [] s store key));
    read_userset_tuples =
        λ object r. answer (usersets_of object r (related_usersets (get_type object) r));
    read_wildcards = λ object r user_type.
        answer (usersets_of object r (wildcard_relation_reference user_type ∷ []));
    read = λ object r.
        answer (map key_of_tuple (read [] around.numerals s store (new_tuple_key object r [])));
    is_valid = filter_invalid_tuples types (new model);
    condition_met = around.condition_met;
    max_resolution_depth = around.max_resolution_depth;
  }

-- the parts of the tuple that ReadUserTuple finds
record SameKey {C : Type 0} (a b : TupleKey C) : Type 0 where
  pub same_object : a.object ≡ b.object
  pub same_relation : a.relation ≡ b.relation
  pub same_user : a.user ≡ b.user

matched-SameKey :
    {C : Type 0} (empty_struct : C) (tr : TupleRecord C) (k : TupleKey C)
    → IsFullKey k
    → match_record tr k ≡ true
    → SameKey (as_tuple empty_struct tr).key k
unfolding as_tuple keyed
matched-SameKey empty_struct tr k f m =
    let e = sym (match_record-keyed tr k f) ∙ m in
    let same_type = text_beq_iff tr.object_type f.object-shape.type_ in
    let same_id = text_beq_iff tr.object_id f.object-shape.id in
    record {
      same_object = ground (arith, e, same_type, same_id, f.object-shape.shape);
      same_relation = ground (arith, e, text_beq_iff tr.relation k.relation);
      same_user = ground (arith, e, text_beq_iff tr.user k.user, ne_nil k.user f.has_user);
    }

first_match-SameKey :
    {C : Type 0} (empty_struct : C) (records : List (TupleRecord C)) (k : TupleKey C) (t : Tuple C)
    → IsFullKey k
    → first_match empty_struct records k ≡ some t
    → SameKey t.key k
unfolding first_match
first_match-SameKey {C} empty_struct [] k t f h = absurd (ground (arith, h))
first_match-SameKey {C} empty_struct (tr ∷ records) k t f h =
    elim (Bool-cases (match_record tr k)) [
      | inl e ↦
          let q : as_tuple empty_struct tr ≡ t = ground (arith, h, e) in
          subst (λ (u : Tuple C). SameKey u.key k) q (matched-SameKey empty_struct tr k f e)
      | inr e ↦ first_match-SameKey empty_struct records k t f (ground (arith, h, e))
    ]

gate-SameKey :
    {C Cond : Type 0} (t : TypeSystem Cond) (a b : TupleKey C)
    → SameKey a b
    → read_gate t a ≡ answer true
    → read_gate t b ≡ answer true
gate-SameKey t a b k h = rw (sym k.same_object, sym k.same_relation, sym k.same_user) h

module _ {Ref VarType Value Param : Type 0} (types : ParameterTypes Ref VarType Value Param)
    (around : Surroundings (GoMap Value)) (model : AuthorizationModel (EvaluableCondition Ref))
    (s : TupleBackend (GoMap Value)) (store : Text) where
  -- The store has the tuple, the model accepts it, and its condition is met.
  pub record HasValidTuple (key : TupleKey (GoMap Value)) : Type 0 where
    pub has_parts : IsFullKey key
    pub tuple : Tuple (GoMap Value)
    pub is_found : read_user_tuple [] s store key ≡ some tuple
    pub is_valid : validate_tuple_for_read types (new model) tuple.key ≡ none
    pub is_met : around.condition_met tuple.key ≡ answer true

  -- The model defines the relation with a rewrite that reaches `this`, and restrictions that name
  -- their relations.
  pub record IsAssignable (key : TupleKey (GoMap Value)) : Type 0 where
    pub definition : Relation
    pub is_supported : is_schema_version_supported (new model).schema_version ≡ true
    pub is_defined : get_relation (new model) (get_type key.object) key.relation ≡ answer definition
    pub named : AllNamed definition.directly_related_user_types
    pub reaches : reaches_this definition.rewrite ≡ true

  valid-IsStored :
      (key : TupleKey (GoMap Value))
      → HasValidTuple key
      → IsAssignable key
      → has_known_form key.user ≡ true
      → is_typed_wildcard key.user ≡ false
      → IsStored (memory_env types around model s store) key
  valid-IsStored key h a form not_wildcard =
      let same = first_match-SameKey [] (tuples_of s store) key h.tuple h.has_parts h.is_found in
      let gate =
        valid-read_gate types model h.tuple.key a.definition a.is_supported
          (rw (same.same_object, same.same_relation) (a.is_defined)) a.named
          (rw (same.same_user) form) (h.is_valid) in
      record {
        stored = h.tuple.key;
        is_read = ground (arith, h.is_found);
        is_valid = ground (arith, h.is_valid);
        is_met = h.is_met;
        is_related =
            ground (arith, gate-SameKey (new model) h.tuple.key key same gate, not_wildcard);
      }

  -- Whatever fair order outcomes arrive in, a check over the memory backend allows a request for a user
  -- that is no wildcard and has a type if it has a relation, whose tuple is in the store, valid for the
  -- model, with its condition met, if the model has a supported schema version and defines the
  -- relation with a rewrite that reaches `this` and restrictions that name their relations, PathExists
  -- answers yes, the depth is not at its limit and the request was not visited.
  pub stored_allows :
      (schedule : Schedule (GoMap Value)) (fuel : ℕ) (req : Request (GoMap Value))
      → IsFair schedule
      → HasValidTuple req.tuple_key
      → IsAssignable req.tuple_key
      → has_known_form req.tuple_key.user ≡ true
      → is_typed_wildcard req.tuple_key.user ≡ false
      → path_exists around.graph_path_exists req.tuple_key.user req.tuple_key.relation
          (get_type req.tuple_key.object)
        ≡ answer true
      → nat_beq req.depth around.max_resolution_depth ≡ false
      → is_key (tuple_key_to_string req.tuple_key) req.visited_paths ≡ false
      → is_allowed (resolve_check (memory_env types around model s store) schedule (suc fuel) req)
        ≡ true
  stored_allows schedule fuel req fair h a form not_wildcard path depth fresh =
      resolve_check_complete (memory_env types around model s store) schedule fair fuel req
        a.definition.rewrite (valid-IsStored req.tuple_key h a form not_wildcard)
        (ground (arith, a.is_defined)) a.reaches path depth fresh
