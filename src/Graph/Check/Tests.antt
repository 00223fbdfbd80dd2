-- ===== src/Graph/Check/Tests.antt =====
-- A check of a tuple in the memory backend.
use mathlib.Core.List.{Permᴰ}
use mongopenfga.Prelude.{ℕ, ◌≡◌, refl, none, some, true, List, [], ◌∷◌, bytes, text_eq, text_beq}
use mongopenfga.Strings.{index_byte, last_index_byte}
use mongopenfga.Tuple.{new_tuple_key, split_object, split_object_relation}
use mongopenfga.Storage.{TupleRecord, as_tuple}
use mongopenfga.Storage.GoMap.{GoMap, lookup, insert}
use mongopenfga.Storage.Iterators.Defs.{answer}
use mongopenfga.Condition.{EvaluableCondition, ParameterTypes}
use mongopenfga.Typesystem.Rewrite.{this, union_of, child, no_child, computed_userset}
use mongopenfga.Typesystem.Model.{
  TypeDefinition, Relation, AuthorizationModel, new, add_type_definitions, td_relations, td_ttus,
  flatten_userset, get_relation, get_relations, direct_relation_reference,
}
use mongopenfga.Tuple.{to_user_parts}
use mongopenfga.Typesystem.Paths.{path_exists}
use mongopenfga.Validation.{
  is_restriction_met, validate_conditions_of, validate_tupleset_restrictions,
  validate_type_restrictions, validate_condition, validate_tuple_for_read,
}
use mongopenfga.Memory.State.{TupleBackend, match_record, match_object}
use mongopenfga.Memory.Read.{not_a_number, first_match}
use mongopenfga.Graph.Outcome.{CheckOutcome, is_allowed}
use mongopenfga.Graph.Check.Env.{Request, Schedule}
use mongopenfga.Graph.Check.Resolve.{resolve_check}
use mongopenfga.Graph.Check.Instance.{
  Surroundings, memory_env, HasValidTuple, IsAssignable, stored_allows,
}

abbrev number_types : ParameterTypes Unit Unit ℕ ℕ
number_types = record { decode_parameter_type = λ r. some tt; convert_value = λ t n. some n }

abbrev doc_type : TypeDefinition
doc_type = record {
  type_ = bytes "d";
  relations =
      (bytes "v", union_of (child (computed_userset (bytes "w")) (child this no_child))) ∷ [];
  metadata = (bytes "v", direct_relation_reference (bytes "u") [] ∷ []) ∷ [];
}

abbrev model : AuthorizationModel (EvaluableCondition Unit)
model = record { schema_version = bytes "1.1"; type_definitions = doc_type ∷ []; conditions = [] }

abbrev viewers : Relation
viewers = record {
  name = bytes "v";
  rewrite = union_of (child (computed_userset (bytes "w")) (child this no_child));
  directly_related_user_types = direct_relation_reference (bytes "u") [] ∷ [];
}

abbrev anne_record : TupleRecord (GoMap ℕ)
anne_record = record {
  store = bytes "s";
  object_type = bytes "d";
  object_id = bytes "1";
  relation = bytes "v";
  user = bytes "u:a";
  user_object_type = [];
  user_object_id = [];
  user_relation = [];
  condition_name = [];
  condition_context = none;
  ulid = 0;
  inserted_at = 7;
}

abbrev one_tuple : TupleBackend (GoMap ℕ)
one_tuple = record { tuples = (bytes "s", anne_record ∷ []) ∷ []; changes = [] }

abbrev around : Surroundings (GoMap ℕ)
around = record {
  graph_path_exists = λ from to. answer true;
  condition_met = λ t. answer true;
  numerals = record { itoa = λ n. []; atoi = λ t. not_a_number };
  max_resolution_depth = 25;
}

abbrev anne_views : Request (GoMap ℕ)
anne_views = record {
  tuple_key = new_tuple_key (bytes "d:1") (bytes "v") (bytes "u:a");
  depth = 0;
  visited_paths = [];
}

anne-HasValidTuple :
    HasValidTuple number_types around model one_tuple (bytes "s") anne_views.tuple_key
unfolding new add_type_definitions td_relations td_ttus flatten_userset get_relation get_relations
    lookup insert text_beq split_object split_object_relation index_byte last_index_byte
    validate_tuple_for_read validate_tupleset_restrictions validate_type_restrictions
    is_restriction_met validate_condition validate_conditions_of first_match match_record
    match_object as_tuple
anne-HasValidTuple = record {
  has_parts = record {
    object-shape = record {
      type_ = bytes "d";
      id = bytes "1";
      type-Run = refl;
      id-Run = refl;
      shape = refl;
    };
    has_relation = λ e. cc e;
    has_user = λ e. cc e;
  };
  tuple = as_tuple [] anne_record;
  is_found = refl;
  is_valid = refl;
  is_met = refl;
}

views-IsAssignable :
    IsAssignable number_types around model one_tuple (bytes "s") anne_views.tuple_key
unfolding new add_type_definitions td_relations td_ttus flatten_userset get_relation get_relations
    lookup insert text_beq split_object index_byte
views-IsAssignable = record {
  definition = viewers;
  is_supported = refl;
  is_defined = refl;
  named = (refl, tt);
  reaches = refl;
}

abbrev in_order : Schedule (GoMap ℕ)
in_order = record { arrive = λ req os. os; base_first = λ req. true }

in_order-fair : (os : List CheckOutcome) → Permᴰ os os
in_order-fair [] = Permᴰ.nil
in_order-fair (o ∷ os) = Permᴰ.cons refl (in_order-fair os)

stored_allows_example :
    is_allowed (
      resolve_check
        (memory_env number_types around model one_tuple (bytes "s"))
        in_order
        1
        anne_views)
    ≡ true
unfolding text_beq split_object split_object_relation index_byte last_index_byte path_exists
    to_user_parts
stored_allows_example =
    stored_allows number_types around model one_tuple (bytes "s") in_order 0 anne_views
      (λ req os. in_order-fair os) anne-HasValidTuple views-IsAssignable refl refl refl refl refl
