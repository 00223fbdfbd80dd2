-- ===== src/Typesystem/Valid.antt =====
-- The validation of a model's relations: isUsersetRewriteValid and validateTypeRestrictions.
pub mod Safe
use mongopenfga.Prelude.{
  ℕ, Bool, true, false, not, ◌&&◌, ◌||◌, Option, none, some, List, [], ◌∷◌, Text, bytes, ◌==◌,
  text_eq, if◌then◌else◌, is_key,
}
use mongopenfga.Storage.GoMap.{GoMap, lookup}
use mongopenfga.Storage.Iterators.Defs.{Answer, answer, failure}
use mongopenfga.Typesystem.Rewrite.{
  Rewrite, Rewrites, this, unset, computed_userset, tuple_to_userset, union_of, intersection_of,
  difference, no_child, child, RelationError, RelationReference, relation_of, is_neither,
}
use mongopenfga.Typesystem.Model.{
  TypeDefinition, AuthorizationModel, Relation, TypeSystem, any_reference, get_relations,
  get_relation, is_schema_version_supported, is_tupleset_relation,
}
use mongopenfga.Typesystem.Walk.{rewrite_contains_self}

pub data ModelError : Type 0 where
  invalid_userset_rewrite reserved_keyword tupleset_rewritten : ModelError
  relation_undefined_error : Text → ModelError
  computed_relation_undefined : Text → ModelError
  undefined : RelationError → ModelError
  assignable_relation non_assignable_relation : ModelError
  invalid_relation_type : RelationReference → ModelError
  no_condition_for_relation : Text → ModelError
  empty_type empty_relation : ModelError

-- if err != nil { return err }
abbrev pub unless_error : Option ModelError → Option ModelError → Option ModelError
unless_error (some e) rest = some e
unless_error none rest = rest

abbrev pub is_this : Rewrite → Bool
is_this this = true
is_this _ = false

abbrev pub is_answer : {E A : Type 0} → Answer E A → Bool
is_answer (answer a) = true
is_answer (failure e) = false

-- containsDuplicateType, on the types of the definitions; `seen` is its map
abbrev pub contains_duplicate : List Text → List Text → Bool
contains_duplicate [] seen = false
contains_duplicate (t ∷ ts) seen = is_key t seen || contains_duplicate ts (t ∷ seen)

abbrev types_of : List TypeDefinition → List Text
types_of [] = []
types_of (td ∷ tds) = td.type_ ∷ types_of tds

abbrev pub contains_duplicate_type : {Cond : Type 0} → AuthorizationModel Cond → Bool
contains_duplicate_type model = contains_duplicate (types_of model.type_definitions) []

-- validateNames, on the type definitions in the order of its loop
abbrev pub is_reserved : Text → Bool
is_reserved name = name == bytes "self" || name == bytes "this"

unfoldable pub validate_relation_names : GoMap Rewrite → Option ModelError
validate_relation_names [] = none
validate_relation_names ((relation, rewrite) ∷ rest) =
    let later = validate_relation_names rest in
    if relation == []
    then some empty_relation
    else if is_reserved relation
    then some reserved_keyword
    else later

unfoldable pub validate_names_of : GoMap TypeDefinition → Option ModelError
unfolding validate_relation_names
validate_names_of [] = none
validate_names_of ((key, td) ∷ rest) =
    let later = unless_error (validate_relation_names td.relations) (validate_names_of rest) in
    if td.type_ == []
    then some empty_type
    else if is_reserved td.type_
    then some reserved_keyword
    else later

module _ {Cond : Type 0} (t : TypeSystem Cond) where
  abbrev pub validate_names : Option ModelError
  validate_names = validate_names_of t.type_definitions

  -- does the relation exist in some type of the model?
  abbrev pub defined_somewhere : Text → GoMap (GoMap Relation) → Bool
  defined_somewhere relation [] = false
  defined_somewhere relation ((type_name, rs) ∷ rest) =
      is_answer (get_relation t type_name relation) || defined_somewhere relation rest

  abbrev pub defined_in_related : Text → List RelationReference → Bool
  defined_in_related relation refs =
      any_reference (λ ref. is_answer (get_relation t ref.type_ relation)) refs

  -- the computed relation of a tuple-to-userset
  abbrev pub validate_ttu_computed : Text → List RelationReference → Option ModelError
  validate_ttu_computed computed refs =
      if is_schema_version_supported t.schema_version
      then if defined_in_related computed refs
        then none
        else some (computed_relation_undefined computed)
      else if defined_somewhere computed t.relations
      then none
      else some (relation_undefined_error computed)

  abbrev pub validate_tupleset : Text → Text → Answer RelationError Relation → Option ModelError
  validate_tupleset tupleset computed (failure e) = some (relation_undefined_error tupleset)
  validate_tupleset tupleset computed (answer r) =
      if not (is_this r.rewrite)
      then some tupleset_rewritten
      else validate_ttu_computed computed r.directly_related_user_types

  -- isUsersetRewriteValid
  unfoldable mutual
    pub is_userset_rewrite_valid : Text → Text → Rewrite → Option ModelError
    is_userset_rewrite_valid object_type relation unset = some invalid_userset_rewrite
    is_userset_rewrite_valid object_type relation this = none
    is_userset_rewrite_valid object_type relation (computed_userset computed) =
        if computed == relation
        then some invalid_userset_rewrite
        else if is_answer (get_relation t object_type computed)
        then none
        else some (relation_undefined_error computed)
    is_userset_rewrite_valid object_type relation (tuple_to_userset tupleset computed) =
        validate_tupleset tupleset computed (get_relation t object_type tupleset)
    is_userset_rewrite_valid object_type relation (union_of rs) = are_valid object_type relation rs
    is_userset_rewrite_valid object_type relation (intersection_of rs) =
        are_valid object_type relation rs
    is_userset_rewrite_valid object_type relation (difference b s) =
        unless_error (is_userset_rewrite_valid object_type relation b)
          (unless_error (is_userset_rewrite_valid object_type relation s) none)

    pub are_valid : Text → Text → Rewrites → Option ModelError
    are_valid object_type relation no_child = none
    are_valid object_type relation (child r rs) =
        unless_error (is_userset_rewrite_valid object_type relation r)
          (are_valid object_type relation rs)

  -- an iteration of the loop of validateTypeRestrictions, with the answer of IsTuplesetRelation
  abbrev pub is_true : Answer RelationError Bool → Bool
  is_true (answer true) = true
  is_true _ = false

  abbrev pub validate_restriction : Bool → RelationReference → Option ModelError
  validate_restriction is_tupleset related =
      let relation = relation_of related.relation_or_wildcard in
      if not (is_answer (get_relations t related.type_))
      then some (invalid_relation_type related)
      else if not (is_neither related.relation_or_wildcard) && is_tupleset
      then some (invalid_relation_type related)
      else if not (relation == []) && not (is_answer (get_relation t related.type_ relation))
      then some (invalid_relation_type related)
      else if not (related.condition == []) && is_missing (lookup t.conditions related.condition)
      then some (no_condition_for_relation related.condition)
      else none
    where
      is_missing : Option Cond → Bool
      is_missing none = true
      is_missing (some c) = false

  unfoldable pub validate_restrictions : Bool → List RelationReference → Option ModelError
  validate_restrictions is_tupleset [] = none
  validate_restrictions is_tupleset (related ∷ rest) =
      unless_error (validate_restriction is_tupleset related)
        (validate_restrictions is_tupleset rest)

  abbrev pub is_empty_list : List RelationReference → Bool
  is_empty_list [] = true
  is_empty_list (r ∷ rs) = false

  -- the part of validateTypeRestrictions after the lookup, for a relation that is assignable or not
  unfoldable pub validate_related : Text → Text → Bool → List RelationReference → Option ModelError
  unfolding validate_restrictions
  validate_related object_type relation assignable refs =
      if assignable && is_empty_list refs
      then some assignable_relation
      else if not assignable && not (is_empty_list refs)
      then some non_assignable_relation
      else validate_restrictions (is_true (is_tupleset_relation t object_type relation)) refs

  -- validateTypeRestrictions of the type system; `none` is the panic of RewriteContainsSelf
  unfoldable pub validate_type_restrictions_of : Text → Text → Option (Option ModelError)
  unfolding validate_related
  validate_type_restrictions_of object_type relation = elim (get_relation t object_type relation) [
    | failure e ↦ some (some (undefined e))
    | answer r ↦ elim (rewrite_contains_self r.rewrite) [
      | none ↦ none
      | some assignable ↦
          some (validate_related object_type relation assignable r.directly_related_user_types)
    ]
  ]
