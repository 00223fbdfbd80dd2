-- ===== src/Validation/Tests.antt =====
-- A relation to which objects may be assigned freely, and everyone under a condition.
use mongopenfga.Prelude.{
  ℕ, ◌≡◌, refl, Option, none, some, true, List, [], ◌∷◌, Text, bytes, text_eq, text_beq,
}
use mongopenfga.Strings.{index_byte, last_index_byte}
use mongopenfga.Tuple.{TupleKey, RelationshipCondition, split_object, split_object_relation}
use mongopenfga.Storage.GoMap.{GoMap, lookup, insert}
use mongopenfga.Storage.Iterators.Defs.{answer}
use mongopenfga.Condition.{
  EvaluableCondition, ParameterTypes, cast_context_to_typed_parameters, cast_loop,
}
use mongopenfga.Typesystem.Rewrite.{this, RelationReference, wildcard_ref}
use mongopenfga.Typesystem.Model.{
  TypeDefinition, Relation, AuthorizationModel, new, add_type_definitions, td_relations, td_ttus,
  flatten_userset, get_relation, get_relations, direct_relation_reference,
}
use mongopenfga.Validation.{
  is_restriction_met, check_fields, validate_context, validate_conditions_of,
  validate_tupleset_restrictions, validate_type_restrictions, validate_condition,
  validate_tuple_for_read,
}
use mongopenfga.Validation.Gate.{read_gate, valid-read_gate}
use mongopenfga.Validation.Context.{FitsCondition, valid_context}
use mongopenfga.Validation.Loophole.{condition_optional}

-- one type, of numbers below 256
abbrev number_types : ParameterTypes Unit Unit ℕ ℕ
number_types = record { decode_parameter_type = λ r. some tt; convert_value = λ t n. some n }

abbrev everyone_by_day : RelationReference
everyone_by_day = record {
  type_ = bytes "user";
  relation_or_wildcard = wildcard_ref;
  condition = bytes "by_day";
}

abbrev restrictions : List RelationReference
restrictions =
    direct_relation_reference (bytes "user") []
    ∷ everyone_by_day
    ∷ direct_relation_reference (bytes "group") (bytes "member")
    ∷ []

abbrev doc : TypeDefinition
doc = record {
  type_ = bytes "doc";
  relations = (bytes "viewer", this) ∷ [];
  metadata = (bytes "viewer", restrictions) ∷ [];
}

abbrev model : AuthorizationModel (EvaluableCondition Unit)
model = record {
  schema_version = bytes "1.1";
  type_definitions = doc ∷ [];
  conditions =
      (bytes "by_day", record { name = bytes "by_day"; parameters = (bytes "hour", tt) ∷ [] }) ∷ [];
}

abbrev viewer : Relation
viewer = record {
  name = bytes "viewer";
  rewrite = this;
  directly_related_user_types = restrictions;
}

abbrev by_day : RelationshipCondition (GoMap ℕ)
by_day = record { name = bytes "by_day"; context = some ((bytes "hour", 9) ∷ []) }

abbrev tuple_of : Text → Option (RelationshipCondition (GoMap ℕ)) → TupleKey (GoMap ℕ)
tuple_of user condition = record {
  object = bytes "doc:1";
  relation = bytes "viewer";
  user = user;
  condition = condition;
}

-- everyone, without the condition
abbrev loophole : TupleKey (GoMap ℕ)
loophole = tuple_of (bytes "user:*") none

condition_optional_example : validate_tuple_for_read number_types (new model) loophole ≡ none
unfolding new add_type_definitions td_relations td_ttus flatten_userset get_relation get_relations
    lookup insert text_beq split_object split_object_relation index_byte last_index_byte
    validate_tupleset_restrictions validate_type_restrictions is_restriction_met
condition_optional_example =
    condition_optional number_types (new model) loophole viewer refl refl refl refl refl

valid-read_gate_example :
    read_gate (new model) (tuple_of (bytes "group:eng#member") none) ≡ answer true
unfolding new add_type_definitions td_relations td_ttus flatten_userset get_relation get_relations
    lookup insert text_beq split_object split_object_relation index_byte last_index_byte
    validate_tuple_for_read validate_tupleset_restrictions validate_type_restrictions
    is_restriction_met validate_condition validate_conditions_of
valid-read_gate_example =
    valid-read_gate number_types model (tuple_of (bytes "group:eng#member") none) viewer refl refl
      (refl, (refl, (refl, tt))) refl refl

valid_context_example : FitsCondition number_types (new model) (bytes "user:*") restrictions by_day
unfolding new add_type_definitions td_relations td_ttus flatten_userset get_relation get_relations
    lookup insert text_beq split_object split_object_relation index_byte last_index_byte
    validate_condition validate_conditions_of validate_context check_fields
    cast_context_to_typed_parameters cast_loop
valid_context_example =
    valid_context number_types (new model) (tuple_of (bytes "user:*") (some by_day)) viewer by_day
      refl refl refl
