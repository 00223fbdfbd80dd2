-- ===== src/Validation.antt =====
-- internal/validation/validation.go: whether a tuple is valid for a model.
pub mod Restrictions
pub mod Gate
pub mod Context
pub mod Loophole
mod Tests
unfoldable pub use Restrictions.*
use mongopenfga.Prelude.{
  ◌≡◌, refl, arith, Bool, true, false, not, ◌&&◌, ◌||◌, Option, none, some, List, [], ◌∷◌, Text,
  ◌==◌, text_eq, if◌then◌else◌,
}
use mongopenfga.Tuple.{
  TupleKey, RelationshipCondition, wildcard, split_object, split_object_relation, get_type,
  is_object_relation, is_typed_wildcard, is_wildcard, is_valid_object, is_valid_relation,
  is_valid_user,
}
use mongopenfga.Tuple as Tuple
use mongopenfga.Storage.GoMap.{GoMap, lookup}
use mongopenfga.Storage.Iterators.Defs.{Answer, answer, failure}
use mongopenfga.Condition.{
  EvaluableCondition, ParameterTypes, ParameterTypeError, cast_context_to_typed_parameters, has_key,
}
use mongopenfga.Typesystem.Rewrite.{
  Rewrite, this, unset, RelationError, object_type_undefined, relation_undefined, RelationReference,
  relation_of, is_wildcard_ref, is_neither,
}
use mongopenfga.Typesystem.Model.{
  TypeDefinition, Relation, TypeSystem, user_types, any_reference, is_schema_version_supported,
  get_type_definition, get_relation, get_directly_related_user_types, has_type_info,
  is_tupleset_relation,
}

module _ {Ref VarType Value Param : Type 0} (types : ParameterTypes Ref VarType Value Param) where
  -- the fields of the condition's context
  abbrev pub fields_of : Option (GoMap Value) → GoMap Value
  fields_of none = []
  fields_of (some fields) = fields

  -- the loop over the fields of the context
  unfoldable pub check_fields : GoMap Value → GoMap Param → Err
  check_fields [] typed = none
  check_fields ((key, value) ∷ fields) typed =
      let rest = check_fields fields typed in
      if has_key typed key then rest else some (invalid_parameter key)

  abbrev pub typed_fields : GoMap Value → Answer ParameterTypeError (GoMap Param) → Err
  typed_fields fields (failure e) = some (context_error e)
  typed_fields fields (answer typed) = check_fields fields typed

  -- the rest of validateCondition once the condition was found
  unfoldable pub validate_context :
      EvaluableCondition Ref
      → Text
      → RelationshipCondition (GoMap Value)
      → List RelationReference
      → Err
  unfolding cast_context_to_typed_parameters check_fields
  validate_context c user given refs =
      let fields = fields_of given.context in
      if not (any_reference (allows_condition user given.name) refs)
      then some invalid_condition
      else typed_fields fields (cast_context_to_typed_parameters types c fields)

  unfoldable pub validate_conditions_of :
      GoMap (EvaluableCondition Ref)
      → Text
      → Option (RelationshipCondition (GoMap Value))
      → List RelationReference
      → Err
  unfolding validate_context
  validate_conditions_of conditions user none refs =
      fails_unless (any_reference (allows_no_condition user) refs) condition_missing
  validate_conditions_of conditions user (some given) refs = elim (lookup conditions given.name) [
    | none ↦ some undefined_condition
    | some c ↦ validate_context c user given refs
  ]

  module _ (t : TypeSystem (EvaluableCondition Ref)) where
    -- validateTuplesetRestrictions
    abbrev pub tupleset_user : Text → Relation → Err
    tupleset_user user r =
        if is_rewritten r.rewrite
        then some rewrite_of_tupleset
        else if is_wildcard user
        then some wildcard_of_tupleset
        else fails_unless (is_valid_object user) user_of_tupleset

    unfoldable pub validate_tupleset_restrictions : TupleKey (GoMap Value) → Err
    validate_tupleset_restrictions tk =
        let object_type = get_type tk.object in
        with_answer (is_tupleset_relation t object_type tk.relation) (λ is_tupleset.
          if not is_tupleset
          then none
          else with_answer (get_relation t object_type tk.relation) (tupleset_user tk.user))

    -- validateTypeRestrictions
    unfoldable pub validate_type_restrictions : TupleKey (GoMap Value) → Err
    unfolding is_restriction_met
    validate_type_restrictions tk = elim (get_type_definition t (get_type tk.object)) [
      | none ↦ some type_undefined
      | some td ↦
          fails_unless (is_restriction_met tk.user (user_types (lookup td.metadata tk.relation)))
            (restriction_error tk.user)
    ]

    -- validateCondition
    unfoldable pub validate_condition : TupleKey (GoMap Value) → Err
    unfolding validate_conditions_of
    validate_condition tk =
        with_answer (get_directly_related_user_types t (get_type tk.object) tk.relation)
          (validate_conditions_of t.conditions tk.user tk.condition)

    -- the part of ValidateTupleForRead for relations with type information
    abbrev pub validate_typed : TupleKey (GoMap Value) → Bool → Err
    validate_typed tk has_type_info =
        if has_type_info
        then unless_err (wrapped (validate_type_restrictions tk)) (validate_condition tk)
        else none

    -- ValidateTupleForRead
    unfoldable pub validate_tuple_for_read : TupleKey (GoMap Value) → Err
    unfolding validate_tupleset_restrictions validate_type_restrictions validate_condition
    validate_tuple_for_read tk =
        unless_err (wrapped (validate_tupleset_restrictions tk))
          (with_answer (has_type_info t (get_type tk.object) tk.relation) (validate_typed tk))

    abbrev pub is_none : Err → Bool
    is_none none = true
    is_none (some e) = false

    -- FilterInvalidTuples
    abbrev pub filter_invalid_tuples : TupleKey (GoMap Value) → Bool
    filter_invalid_tuples tk = is_none (validate_tuple_for_read tk)

    -- ValidateObject
    unfoldable pub validate_object : TupleKey (GoMap Value) → Err
    validate_object tk =
        let (object_type, id) = split_object tk.object in
        if not (is_valid_object tk.object)
        then some invalid_object
        else if id == wildcard
        then some object_is_wildcard
        else elim (get_type_definition t object_type) [
          | none ↦ some (type_not_found object_type)
          | some td ↦ none
        ]

    abbrev pub found_or : Text → Text → Answer RelationError Relation → Err
    found_or object_type relation (failure object_type_undefined) =
        some (type_not_found object_type)
    found_or object_type relation (failure relation_undefined) =
        some (relation_not_found relation object_type)
    found_or object_type relation (answer r) = none

    -- ValidateRelation
    unfoldable pub validate_relation : TupleKey (GoMap Value) → Err
    validate_relation tk =
        let object_type = get_type tk.object in
        if not (is_valid_relation tk.relation)
        then some invalid_relation
        else found_or object_type tk.relation (get_relation t object_type tk.relation)

    -- ValidateUser
    abbrev pub user_form : Text → Text → Err
    user_form user user_object_type =
        if not (is_valid_object user) && not (is_object_relation user)
        then some invalid_user_form
        else elim (get_type_definition t user_object_type) [
          | none ↦ some (type_not_found user_object_type)
          | some td ↦ none
        ]

    unfoldable pub validate_user : Text → Err
    validate_user user =
        let (user_object, user_relation) = split_object_relation user in
        let user_object_type = get_type user_object in
        if not (is_valid_user user)
        then some invalid_user
        else unless_err
            (if is_schema_version_supported t.schema_version
              then user_form user user_object_type
              else none)
            (if is_object_relation user
              then found_or user_object_type user_relation
                  (get_relation t user_object_type user_relation)
              else none)

    -- ValidateUserObjectRelation
    unfoldable pub validate_user_object_relation : TupleKey (GoMap Value) → Err
    unfolding validate_user validate_object validate_relation
    validate_user_object_relation tk =
        unless_err (validate_user tk.user)
          (unless_err (validate_object tk) (unless_err (validate_relation tk) none))

    -- ValidateTupleForWrite
    unfoldable pub validate_tuple_for_write : TupleKey (GoMap Value) → Err
    unfolding validate_user_object_relation validate_tuple_for_read
    validate_tuple_for_write tk =
        unless_err (wrapped (validate_user_object_relation tk)) (validate_tuple_for_read tk)
