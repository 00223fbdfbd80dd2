-- ===== src/Typesystem/Model.antt =====
-- The model, the TypeSystem that New makes of it, and its lookups.
use mongopenfga.Prelude.{
  Bool, true, false, not, ◌&&◌, ◌||◌, Option, none, some, List, [], ◌∷◌, ◌++◌, Text, bytes, ◌==◌,
  text_eq, if◌then◌else◌, select,
}
use mongopenfga.Storage.GoMap.{GoMap, lookup, insert}
use mongopenfga.Storage.Iterators.Defs.{Answer, answer, failure}
use mongopenfga.Typesystem.Rewrite.{
  Rewrite, Rewrites, this, unset, computed_userset, tuple_to_userset, union_of, intersection_of,
  difference, no_child, child, RelationError, object_type_undefined, relation_undefined,
  RelationReference, relation_of, is_wildcard_ref, RelationOrWildcard, relation_ref, wildcard_ref,
  neither, is_neither,
}

-- openfgav1.TypeDefinition: the rewrites of its relations, and the types that its metadata relates
-- to them directly
pub record TypeDefinition : Type 0 where
  pub type_ : Text
  pub relations : GoMap Rewrite
  pub metadata : GoMap (List RelationReference)

-- openfgav1.AuthorizationModel; `Cond` is a condition
pub record AuthorizationModel (Cond : Type 0) : Type 0 where
  pub schema_version : Text
  pub type_definitions : List TypeDefinition
  pub conditions : GoMap Cond

-- openfgav1.Relation
pub record Relation : Type 0 where
  pub name : Text
  pub rewrite : Rewrite
  pub directly_related_user_types : List RelationReference

-- openfgav1.TupleToUserset
pub record TupleToUserset : Type 0 where
  pub tupleset : Text
  pub computed_userset : Text

pub record TypeSystem (Cond : Type 0) : Type 0 where
  pub type_definitions : GoMap TypeDefinition
  pub relations : GoMap (GoMap Relation)
  pub conditions : GoMap Cond
  pub ttu_relations : GoMap (GoMap (List TupleToUserset))
  pub schema_version : Text

abbrev pub is_schema_version_supported : Text → Bool
is_schema_version_supported version = version == bytes "1.1" || version == bytes "1.2"

unfoldable mutual
  -- flattenUserset
  pub flatten_userset : Rewrite → List TupleToUserset
  flatten_userset (tuple_to_userset t c) = record { tupleset = t; computed_userset = c } ∷ []
  flatten_userset (union_of rs) = flatten_all rs
  flatten_userset (intersection_of rs) = flatten_all rs
  flatten_userset (difference b s) = flatten_userset b ++ flatten_userset s
  flatten_userset this = []
  flatten_userset unset = []
  flatten_userset (computed_userset r) = []

  pub flatten_all : Rewrites → List TupleToUserset
  flatten_all no_child = []
  flatten_all (child r rs) = flatten_userset r ++ flatten_all rs

abbrev pub user_types : Option (List RelationReference) → List RelationReference
user_types none = []
user_types (some refs) = refs

-- The inner loop of New: the relations of a type definition.
abbrev pub relation_entry : TypeDefinition → Text → Rewrite → Relation
relation_entry td name rewrite = record {
  name = name;
  rewrite = rewrite;
  directly_related_user_types = user_types (lookup td.metadata name);
}

unfoldable pub td_relations : TypeDefinition → GoMap Rewrite → GoMap Relation
td_relations td [] = []
td_relations td ((name, rewrite) ∷ rest) =
    insert (td_relations td rest) name (relation_entry td name rewrite)

unfoldable pub td_ttus : GoMap Rewrite → GoMap (List TupleToUserset)
unfolding flatten_userset
td_ttus [] = []
td_ttus ((name, rewrite) ∷ rest) = insert (td_ttus rest) name (flatten_userset rewrite)

abbrev pub or_empty : {V : Type 0} → Option (GoMap V) → GoMap V
or_empty none = []
or_empty (some m) = m

abbrev pub found : {V : Type 0} → RelationError → Option V → Answer RelationError V
found e none = failure e
found e (some v) = answer v

-- for an answer that is passed on if it is an error
abbrev pub and_then : {E A B : Type 0} → Answer E A → (A → Answer E B) → Answer E B
and_then (failure e) f = failure e
and_then (answer a) f = f a

-- DirectRelationReference and WildcardRelationReference
abbrev pub direct_relation_reference : Text → Text → RelationReference
direct_relation_reference object_type relation = record {
  type_ = object_type;
  relation_or_wildcard = if relation == [] then neither else relation_ref relation;
  condition = [];
}

abbrev pub wildcard_relation_reference : Text → RelationReference
wildcard_relation_reference object_type = record {
  type_ = object_type;
  relation_or_wildcard = wildcard_ref;
  condition = [];
}

-- RelationEquals
unfoldable pub same_target : RelationOrWildcard → RelationOrWildcard → Bool
same_target a b =
    if is_neither a && is_neither b
    then true
    else if is_wildcard_ref a && is_wildcard_ref b
    then true
    else not (relation_of a == []) && not (relation_of b == []) && relation_of a == relation_of b

unfoldable pub relation_equals : RelationReference → RelationReference → Bool
unfolding same_target
relation_equals a b =
    if not (a.type_ == b.type_)
    then false
    else same_target a.relation_or_wildcard b.relation_or_wildcard

abbrev pub any_reference : (RelationReference → Bool) → List RelationReference → Bool
any_reference p [] = false
any_reference p (r ∷ rs) = p r || any_reference p rs

abbrev pub is_tupleset_in : Text → List TupleToUserset → Bool
is_tupleset_in relation [] = false
is_tupleset_in relation (ttu ∷ ttus) = ttu.tupleset == relation || is_tupleset_in relation ttus

abbrev pub is_tupleset_of : Text → GoMap (List TupleToUserset) → Bool
is_tupleset_of relation [] = false
is_tupleset_of relation ((name, ttus) ∷ rest) =
    is_tupleset_in relation ttus || is_tupleset_of relation rest

module _ {Cond : Type 0} where
  -- the body of New's loop over the type definitions
  abbrev pub add_type_definition : TypeSystem Cond → TypeDefinition → TypeSystem Cond
  add_type_definition t td = record t {
    type_definitions = insert t.type_definitions td.type_ td;
    relations = insert t.relations td.type_ (td_relations td td.relations);
    ttu_relations = insert t.ttu_relations td.type_ (td_ttus td.relations);
  }

  unfoldable pub add_type_definitions : TypeSystem Cond → List TypeDefinition → TypeSystem Cond
  add_type_definitions t [] = t
  add_type_definitions t (td ∷ tds) = add_type_definitions (add_type_definition t td) tds

  -- New, where the graphs of the model can be built
  unfoldable pub new : AuthorizationModel Cond → TypeSystem Cond
  unfolding add_type_definitions
  new model =
      add_type_definitions
        (record {
          type_definitions = [];
          relations = [];
          conditions = model.conditions;
          ttu_relations = [];
          schema_version = model.schema_version;
        })
        model.type_definitions

  abbrev pub get_type_definition : TypeSystem Cond → Text → Option TypeDefinition
  get_type_definition t object_type = lookup t.type_definitions object_type

  unfoldable pub get_relations : TypeSystem Cond → Text → Answer RelationError (GoMap Relation)
  get_relations t object_type = elim (lookup t.type_definitions object_type) [
    | none ↦ failure object_type_undefined
    | some td ↦ answer (or_empty (lookup t.relations object_type))
  ]

  unfoldable pub get_relation : TypeSystem Cond → Text → Text → Answer RelationError Relation
  unfolding get_relations
  get_relation t object_type relation =
      and_then (get_relations t object_type)
        (λ relations. found relation_undefined (lookup relations relation))

  abbrev pub get_directly_related_user_types :
      TypeSystem Cond → Text → Text → Answer RelationError (List RelationReference)
  get_directly_related_user_types t object_type relation =
      and_then (get_relation t object_type relation) (λ r. answer r.directly_related_user_types)

  abbrev pub directly_related_usersets :
      TypeSystem Cond → Text → Text → Answer RelationError (List RelationReference)
  directly_related_usersets t object_type relation =
      and_then (get_directly_related_user_types t object_type relation)
        (λ refs. answer (select (λ r. not (relation_of r.relation_or_wildcard == [])) refs))

  -- IsDirectlyRelated, of a target without a wildcard
  abbrev pub is_directly_related :
      TypeSystem Cond → Text → Text → RelationReference → Answer RelationError Bool
  is_directly_related t object_type relation source =
      and_then (get_relation t object_type relation)
        (λ r. answer (any_reference (relation_equals source) r.directly_related_user_types))

  -- IsPubliclyAssignable, by PubliclyAssignableReferences
  abbrev pub is_publicly_assignable :
      TypeSystem Cond → Text → Text → Text → Answer RelationError Bool
  is_publicly_assignable t object_type relation user_type =
      and_then (get_relation t object_type relation) (λ r. answer (
        any_reference (λ ref. ref.type_ == user_type && is_wildcard_ref ref.relation_or_wildcard)
          r.directly_related_user_types))

  -- HasTypeInfo; New gives every relation its type information
  abbrev pub has_type_info : TypeSystem Cond → Text → Text → Answer RelationError Bool
  has_type_info t object_type relation =
      and_then (get_relation t object_type relation)
        (λ r. answer (is_schema_version_supported t.schema_version))

  abbrev pub is_tupleset_relation : TypeSystem Cond → Text → Text → Answer RelationError Bool
  is_tupleset_relation t object_type relation =
      and_then (get_relation t object_type relation)
        (λ r. answer (is_tupleset_of relation (or_empty (lookup t.ttu_relations object_type))))
