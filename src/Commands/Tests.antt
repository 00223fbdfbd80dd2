-- ===== src/Commands/Tests.antt =====
-- Requests to write, into an empty store whose model lets users view documents.
use mongopenfga.Prelude.{
  ℕ, ◌≡◌, refl, leb, none, some, true, not, ◌&&◌, ◌||◌, [], ◌∷◌, bytes, text_eq, text_beq,
  if◌then◌else◌,
}
use mongopenfga.Strings.{index_byte, last_index_byte}
use mongopenfga.Regex.{matches}
use mongopenfga.Tuple.{
  TupleKey, new_tuple_key, split_object, split_object_relation, is_valid_user, tuple_key_to_string,
}
use mongopenfga.Storage.GoMap.{GoMap, lookup, insert}
use mongopenfga.Storage.Iterators.Defs.{answer}
use mongopenfga.Condition.{EvaluableCondition, ParameterTypes}
use mongopenfga.Typesystem.Rewrite.{this}
use mongopenfga.Typesystem.Model.{
  TypeDefinition, AuthorizationModel, new, add_type_definitions, td_relations, td_ttus,
  flatten_userset, get_relation, get_relations, direct_relation_reference,
}
use mongopenfga.Validation.{
  is_restriction_met, validate_conditions_of, validate_tupleset_restrictions,
  validate_type_restrictions, validate_condition, validate_tuple_for_read, validate_tuple_for_write,
  validate_user, validate_object, validate_relation, validate_user_object_relation,
}
use mongopenfga.Memory.State.{
  Ulids, WriteError, tuples_of, find, write, validate_tuples, validate_writes,
}
use mongopenfga.Memory.Match.{IsFull}
use mongopenfga.Memory.Write.{in_writes, in_deletes}
use mongopenfga.Memory.Changelog.{empty_backend}
use mongopenfga.Commands.Write.{
  CommandEnv, invalid_write_input, check_writes, check_deletes,
  validate_no_duplicates_and_correct_size, validate_deletes, validate_not_implicit, validate_write,
  validate_writes_of, validate_for_model, validate_if_any, validate_write_request, execute,
}
use mongopenfga.Commands.Write.Batch.{is_accepted, are_distinct, batch_keys, batch_bounds}
use mongopenfga.Commands.Write.Store.{execute_in_memory, execute_sets, execute_fails}

abbrev number_types : ParameterTypes Unit Unit ℕ ℕ
number_types = record { decode_parameter_type = λ r. some tt; convert_value = λ t n. some n }

abbrev user_type : TypeDefinition
user_type = record { type_ = bytes "u"; relations = []; metadata = [] }

abbrev doc_type : TypeDefinition
doc_type = record {
  type_ = bytes "d";
  relations = (bytes "v", this) ∷ [];
  metadata = (bytes "v", direct_relation_reference (bytes "u") [] ∷ []) ∷ [];
}

abbrev model : AuthorizationModel (EvaluableCondition Unit)
model = record {
  schema_version = bytes "1.1";
  type_definitions = user_type ∷ doc_type ∷ [];
  conditions = [];
}

abbrev env : CommandEnv Unit ℕ (WriteError (GoMap ℕ))
env = record {
  condition_context_byte_limit = 100;
  max_tuples_per_write = 2;
  context_size = λ c. 0;
  read_authorization_model = λ store model_id. answer (some model);
  graph_builds = λ m. true;
}

abbrev ulids : Ulids
ulids = record { mint = λ now n. n; mint_record = λ now n. n }

abbrev anne_views : TupleKey (GoMap ℕ)
anne_views = new_tuple_key (bytes "d:1") (bytes "v") (bytes "u:a")

anne_views-IsFull : IsFull (bytes "d:1") (bytes "v") (bytes "u:a")
anne_views-IsFull = record {
  object-shape = record {
    type_ = bytes "d";
    id = bytes "1";
    type-Run = refl;
    id-Run = refl;
    shape = refl;
  };
  has_relation = λ e. cc e;
  has_user = λ e. cc e;
}

batch_bounds_example :
    is_accepted (
      validate_no_duplicates_and_correct_size {C = GoMap ℕ} {Fault = Unit {0}} 2 []
        (anne_views ∷ anne_views ∷ []))
    ≡ (are_distinct (batch_keys {C = GoMap ℕ} [] (anne_views ∷ anne_views ∷ [])) && leb 2 2)
batch_bounds_example = batch_bounds (Unit {0}) 2 [] (anne_views ∷ anne_views ∷ [])

accepted :
    (execute_in_memory number_types env ulids 7 (bytes "s") [] [] (anne_views ∷ []) empty_backend).0
    ≡ none
unfolding execute validate_write_request validate_if_any validate_for_model validate_writes_of
    validate_write validate_not_implicit validate_deletes check_deletes check_writes
    validate_tuple_for_write validate_tuple_for_read validate_user_object_relation validate_user
    validate_object validate_relation validate_tupleset_restrictions validate_type_restrictions
    validate_condition validate_conditions_of is_restriction_met new add_type_definitions
    td_relations td_ttus flatten_userset get_relation get_relations lookup insert text_beq
    split_object split_object_relation index_byte last_index_byte matches is_valid_user
    tuple_key_to_string write validate_tuples validate_writes
accepted = refl

execute_sets_example :
    find
      (tuples_of
        (execute_in_memory number_types env ulids 7
          (bytes "s")
          []
          []
          (anne_views ∷ [])
          empty_backend).1
        (bytes "s"))
      anne_views
    ≡ (if text_beq (bytes "s") (bytes "s")
        then in_writes (anne_views ∷ []) anne_views
          || (find (tuples_of empty_backend (bytes "s")) anne_views
              && not (in_deletes [] anne_views))
        else find (tuples_of empty_backend (bytes "s")) anne_views)
execute_sets_example =
    execute_sets number_types env ulids 7 (bytes "s") [] [] (anne_views ∷ []) empty_backend
      anne_views (bytes "s") tt anne_views-IsFull accepted

execute_fails_example :
    (execute_in_memory number_types env ulids 7 (bytes "s") [] [] [] empty_backend).1
    ≡ empty_backend
unfolding execute validate_write_request
execute_fails_example =
    execute_fails number_types env ulids 7 (bytes "s") [] [] [] empty_backend invalid_write_input
      refl
