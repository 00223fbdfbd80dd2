-- ===== src/Commands/Write.antt =====
-- pkg/server/commands/write.go: WriteCommand in front of a datastore.
pub mod Batch
pub mod Store
use mongopenfga.Prelude.{
  ◌≡◌, refl, arith, ℕ, zero, suc, ltb, Bool, true, false, not, ◌&&◌, ◌||◌, Option, none, some, List,
  [], ◌∷◌, Text, ◌==◌, text_eq, if◌then◌else◌, is_key, length,
}
use mongopenfga.Tuple.{
  TupleKey, TupleKeyWithoutCondition, RelationshipCondition, split_object_relation, is_valid_user,
  tuple_key_to_string, tuple_key_without_condition_to_tuple_key,
}
use mongopenfga.Storage.GoMap.{GoMap}
use mongopenfga.Storage.Iterators.Defs.{Answer, answer, failure}
use mongopenfga.Condition.{EvaluableCondition, ParameterTypes}
use mongopenfga.Typesystem.Model.{AuthorizationModel, TypeSystem, new, is_schema_version_supported}
use mongopenfga.Validation.{ValidationError, validate_tuple_for_write}

-- The errors of the command; `Fault` is an error of the datastore.
pub data CommandError (Fault : Type 0) : Type 0 where
  invalid_write_input model_not_found invalid_schema_version graph_failed : CommandError Fault
  read_failed write_failed : Fault → CommandError Fault
  validation_error : ValidationError → CommandError Fault
  implicit_tuple malformed_user exceeded_entity_limit : CommandError Fault
  context_too_large : ℕ → CommandError Fault
  duplicate_tuple : Text → CommandError Fault

abbrev pub Failed : Type 0 → Type 0
Failed Fault = Option (CommandError Fault)

-- if err != nil { return err }
abbrev pub unless_failed : {Fault : Type 0} → Failed Fault → Failed Fault → Failed Fault
unless_failed (some e) rest = some e
unless_failed none rest = rest

pub unless_failed-none :
    {Fault : Type 0} (a b : Failed Fault) → unless_failed a b ≡ none → (a ≡ none) × (b ≡ none)
unless_failed-none none b h = (refl, h)
unless_failed-none (some e) b h = absurd (ground (arith, h))

abbrev pub delete_key : TupleKeyWithoutCondition → Text
delete_key tk = tuple_key_to_string {C = Unit {0}} (tuple_key_without_condition_to_tuple_key tk)

abbrev pub is_empty_request :
    {C : Type 0} → List TupleKeyWithoutCondition → List (TupleKey C) → Bool
is_empty_request [] [] = true
is_empty_request _ _ = false

-- the loop over the deletes in validateWriteRequest
unfoldable pub validate_deletes : {Fault : Type 0} → List TupleKeyWithoutCondition → Failed Fault
validate_deletes [] = none
validate_deletes (tk ∷ deletes) =
    let rest = validate_deletes deletes in
    if not (is_valid_user tk.user) then some malformed_user else rest

module _ {C Fault : Type 0} where
  -- validateNotImplicit
  unfoldable pub validate_not_implicit : TupleKey C → Failed Fault
  validate_not_implicit tk =
      let (user_object, user_relation) = split_object_relation tk.user in
      if tk.relation == user_relation && tk.object == user_object then some implicit_tuple else none

  -- the loops of validateNoDuplicatesAndCorrectSize; `tuples` are the keys of its map
  unfoldable pub check_writes : ℕ → List (TupleKey C) → List Text → Failed Fault
  check_writes max [] tuples = if ltb max (length tuples) then some exceeded_entity_limit else none
  check_writes max (tk ∷ writes) tuples =
      let key = tuple_key_to_string tk in
      let rest = check_writes max writes (key ∷ tuples) in
      if is_key key tuples then some (duplicate_tuple key) else rest

  unfoldable pub check_deletes :
      ℕ → List TupleKeyWithoutCondition → List (TupleKey C) → List Text → Failed Fault
  unfolding check_writes
  check_deletes max [] writes tuples = check_writes max writes tuples
  check_deletes max (tk ∷ deletes) writes tuples =
      let key = delete_key tk in
      let rest = check_deletes max deletes writes (key ∷ tuples) in
      if is_key key tuples then some (duplicate_tuple key) else rest

  -- validateNoDuplicatesAndCorrectSize
  abbrev pub validate_no_duplicates_and_correct_size :
      ℕ → List TupleKeyWithoutCondition → List (TupleKey C) → Failed Fault
  validate_no_duplicates_and_correct_size max deletes writes = check_deletes max deletes writes []

-- What the command works with: the limits, the size of a context in bytes (proto.Size), the model
-- of a store, with `none` for ErrNotFound, and whether the graphs of that model can be built.
pub record CommandEnv (Ref Value Fault : Type 0) : Type 0 where
  pub condition_context_byte_limit : ℕ
  pub max_tuples_per_write : ℕ
  pub context_size : Option (RelationshipCondition (GoMap Value)) → ℕ
  pub read_authorization_model :
      Text → Text → Answer Fault (Option (AuthorizationModel (EvaluableCondition Ref)))
  pub graph_builds : AuthorizationModel (EvaluableCondition Ref) → Bool

module _ {Ref VarType Value Param Fault : Type 0} (types : ParameterTypes Ref VarType Value Param)
    (env : CommandEnv Ref Value Fault) where
  abbrev pub validated : Option ValidationError → Failed Fault
  validated none = none
  validated (some e) = some (validation_error e)

  -- an iteration of the loop over the writes
  unfoldable pub validate_write :
      TypeSystem (EvaluableCondition Ref) → TupleKey (GoMap Value) → Failed Fault
  unfolding validate_tuple_for_write validate_not_implicit
  validate_write t tk =
      let size = env.context_size tk.condition in
      unless_failed (validated (validate_tuple_for_write types t tk)) (
        unless_failed (validate_not_implicit tk) (
          if ltb env.condition_context_byte_limit size
          then some (context_too_large size)
          else none))

  unfoldable pub validate_writes_of :
      TypeSystem (EvaluableCondition Ref) → List (TupleKey (GoMap Value)) → Failed Fault
  unfolding validate_write
  validate_writes_of t [] = none
  validate_writes_of t (tk ∷ writes) =
      unless_failed (validate_write t tk) (validate_writes_of t writes)

  -- the writes, for the answer to ReadAuthorizationModel
  unfoldable pub validate_for_model :
      Answer Fault (Option (AuthorizationModel (EvaluableCondition Ref)))
      → List (TupleKey (GoMap Value))
      → Failed Fault
  unfolding validate_writes_of
  validate_for_model (failure e) writes = some (read_failed e)
  validate_for_model (answer none) writes = some model_not_found
  validate_for_model (answer (some model)) writes =
      if not (is_schema_version_supported model.schema_version)
      then some invalid_schema_version
      else if not (env.graph_builds model)
      then some graph_failed
      else validate_writes_of (new model) writes

  unfoldable pub validate_if_any : Text → Text → List (TupleKey (GoMap Value)) → Failed Fault
  unfolding validate_for_model
  validate_if_any store model_id [] = none
  validate_if_any store model_id (tk ∷ writes) =
      validate_for_model (env.read_authorization_model store model_id) (tk ∷ writes)

  -- validateWriteRequest
  unfoldable pub validate_write_request :
      Text → Text → List TupleKeyWithoutCondition → List (TupleKey (GoMap Value)) → Failed Fault
  unfolding validate_if_any validate_deletes check_deletes
  validate_write_request store model_id deletes writes =
      if is_empty_request deletes writes
      then some invalid_write_input
      else unless_failed (validate_if_any store model_id writes) (
          unless_failed (validate_deletes deletes)
            (validate_no_duplicates_and_correct_size env.max_tuples_per_write deletes writes))

  -- Execute; `S` is the state of the datastore.
  abbrev pub after_write : {S : Type 0} → Option Fault × S → Failed Fault × S
  after_write (none, s) = (none, s)
  after_write (some e, s) = (some (write_failed e), s)

  unfoldable pub execute :
      {S : Type 0}
      → (Text
          → List TupleKeyWithoutCondition
          → List (TupleKey (GoMap Value))
          → S
          → Option Fault × S)
      → Text
      → Text
      → List TupleKeyWithoutCondition
      → List (TupleKey (GoMap Value))
      → S
      → Failed Fault × S
  unfolding validate_write_request
  execute datastore_write store model_id deletes writes s =
      elim (validate_write_request store model_id deletes writes) [
        | some e ↦ (some e, s)
        | none ↦ after_write (datastore_write store deletes writes s)
      ]
