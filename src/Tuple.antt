-- ===== src/Tuple.antt =====
-- pkg/tuple/tuple.go
mod Split
pub mod Valid
pub mod Users
pub mod Parse
pub mod Order
mod Tests
use mongopenfga.Prelude.{
  ℕ, ◌+◌, ◌-◌, ◌≡◌, Bool, true, false, Option, none, some, List, [], ◌∷◌, ◌++◌, ◌&&◌, ◌||◌, not,
  arith, Text, bytes, ◌==◌, nat_beq, text_eq, if◌then◌else◌, length, take, drop, map,
}
use mongopenfga.Strings.{index_byte, last_index_byte, cut}
use mongopenfga.Regex.{Piece, plus, lit, matches}

-- openfgav1.TupleKeyWithoutCondition
pub record TupleKeyWithoutCondition : Type 0 where
  pub object : Text
  pub relation : Text
  pub user : Text

-- openfgav1.RelationshipCondition; `C` is structpb.Struct, and `none` a nil pointer to one
pub record RelationshipCondition (C : Type 0) : Type 0 where
  pub name : Text
  pub context : Option C

-- openfgav1.TupleKey, with `none` for a nil condition
pub record TupleKey (C : Type 0) : Type 0 where
  pub object : Text
  pub relation : Text
  pub user : Text
  pub condition : Option (RelationshipCondition C)

abbrev pub wildcard : Text
wildcard = bytes "*"

pub data UserType : Type 0 where
  user user_set : UserType

-- SplitObject
unfoldable pub split_object : Text → Text × Text
split_object object = elim (index_byte b':' object) [
  | none ↦ ([], object)
  | some i ↦
      if nat_beq i (length object - 1)
      then (take i object, [])
      else (take i object, drop (i + 1) object)
]

-- BuildObject
abbrev pub build_object : Text → Text → Text
build_object object_type object_id = object_type ++ (b':' ∷ object_id)

-- SplitObjectRelation
unfoldable pub split_object_relation : Text → Text × Text
split_object_relation object_relation = elim (last_index_byte b'#' object_relation) [
  | none ↦ (object_relation, [])
  | some i ↦
      if nat_beq i (length object_relation - 1)
      then (take i object_relation, [])
      else (take i object_relation, drop (i + 1) object_relation)
]

-- GetType
abbrev pub get_type : Text → Text
get_type object_id = (split_object object_id).0

-- GetRelation
abbrev pub get_relation : Text → Text
get_relation object_relation = (split_object_relation object_relation).1

-- IsObjectRelation
abbrev pub is_object_relation : Text → Bool
is_object_relation userset = not (get_type userset == []) && not (get_relation userset == [])

-- ToObjectRelationString
abbrev pub to_object_relation_string : Text → Text → Text
to_object_relation_string object relation = object ++ (b'#' ∷ relation)

-- GetObjectRelationAsString, on the fields of an openfgav1.ObjectRelation
abbrev pub get_object_relation_as_string : Text → Text → Text
get_object_relation_as_string object relation =
    if relation == [] then object else object ++ (b'#' ∷ relation)

-- IsTypedWildcard
abbrev pub is_typed_wildcard : Text → Bool
is_typed_wildcard s = let (t, id) = split_object s in not (t == []) && id == wildcard

-- IsWildcard
abbrev pub is_wildcard : Text → Bool
is_wildcard s = s == wildcard || is_typed_wildcard s

-- TypedPublicWildcard
abbrev pub typed_public_wildcard : Text → Text
typed_public_wildcard object_type = build_object object_type wildcard

-- GetUserTypeFromUser
unfoldable pub get_user_type_from_user : Text → UserType
get_user_type_from_user u = if is_object_relation u || is_wildcard u then user_set else user

-- ToUserParts
unfoldable pub to_user_parts : Text → Text × Text × Text
to_user_parts u =
    let (user_object, user_relation) = split_object_relation u in
    let (user_object_type, user_object_id) = split_object user_object in
    (user_object_type, user_object_id, user_relation)

-- FromUserParts
unfoldable pub from_user_parts : Text → Text → Text → Text
from_user_parts user_object_type user_object_id user_relation =
    let u =
      if user_object_type == []
      then user_object_id
      else user_object_type ++ (b':' ∷ user_object_id) in
    if user_relation == [] then u else u ++ (b'#' ∷ user_relation)

-- openfgav1.User
pub data User : Type 0 where
  object_user : Text → Text → User
  userset_user : Text → Text → Text → User
  wildcard_user : Text → User

-- UserProtoToString
unfoldable pub user_proto_to_string : User → Text
user_proto_to_string (wildcard_user t) = t ++ bytes ":*"
user_proto_to_string (userset_user t id r) = t ++ (b':' ∷ id ++ (b'#' ∷ r))
user_proto_to_string (object_user t id) = t ++ (b':' ∷ id)

-- StringToUserProto
unfoldable pub string_to_user_proto : Text → User
string_to_user_proto user_key =
    let (user_obj, user_rel) = split_object_relation user_key in
    let (user_obj_type, user_obj_id) = split_object user_obj in
    if user_rel == [] && user_obj_id == wildcard
    then wildcard_user user_obj_type
    else if user_rel == []
    then object_user user_obj_type user_obj_id
    else userset_user user_obj_type user_obj_id user_rel

-- IsSelfDefining
unfoldable pub is_self_defining : {C : Type 0} → TupleKey C → Bool
is_self_defining tuple =
    let (user_object, user_relation) = split_object_relation tuple.user in
    tuple.relation == user_relation && tuple.object == user_object

-- UsersetMatchTypeAndRelation
unfoldable pub userset_match_type_and_relation : Text → Text → Text → Bool
unfolding to_user_parts
userset_match_type_and_relation userset relation typee =
    let (user_object_type, user_object_id, user_relation) = to_user_parts userset in
    relation == user_relation && typee == user_object_type

-- The classes of the four regular expressions: the bytes of `\s`, then the negated classes.
abbrev pub is_space : ℕ → Bool
is_space c = nat_beq c 9 || nat_beq c 10 || nat_beq c 12 || nat_beq c 13 || nat_beq c 32

abbrev pub plain : ℕ → Bool
plain c = not (nat_beq c b':' || nat_beq c b'#' || is_space c)

abbrev pub plain_no_star : ℕ → Bool
plain_no_star c = plain c && not (nat_beq c b'*')

abbrev pub plain_no_at : ℕ → Bool
plain_no_at c = plain c && not (nat_beq c b'@')

abbrev pub user_id_regex : List Piece
user_id_regex = plus plain ∷ []

abbrev pub object_regex : List Piece
object_regex = plus plain ∷ lit b':' ∷ plus plain ∷ []

abbrev pub user_set_regex : List Piece
user_set_regex = plus plain ∷ lit b':' ∷ plus plain_no_star ∷ lit b'#' ∷ plus plain_no_star ∷ []

abbrev pub relation_regex : List Piece
relation_regex = plus plain_no_at ∷ []

-- IsValidObject
abbrev pub is_valid_object : Text → Bool
is_valid_object s = matches object_regex s

-- IsValidRelation
abbrev pub is_valid_relation : Text → Bool
is_valid_relation s = matches relation_regex s

-- IsValidUser
unfoldable pub is_valid_user : Text → Bool
is_valid_user u =
    u == wildcard || matches user_id_regex u || matches object_regex u || matches user_set_regex u

-- NewTupleKey
abbrev pub new_tuple_key : {C : Type 0} → Text → Text → Text → TupleKey C
new_tuple_key o r u = record { object = o; relation = r; user = u; condition = none }

-- NewRelationshipCondition; `empty_struct` is an empty structpb.Struct
abbrev pub new_relationship_condition :
    {C : Type 0} → C → Text → Option C → Option (RelationshipCondition C)
new_relationship_condition empty_struct name context = if name == [] then none else elim context [
  | none ↦ some (record { name = name; context = some empty_struct })
  | some c ↦ some (record { name = name; context = some c })
]

-- NewTupleKeyWithCondition
abbrev pub new_tuple_key_with_condition :
    {C : Type 0} → C → Text → Text → Text → Text → Option C → TupleKey C
new_tuple_key_with_condition empty_struct o r u name context = record {
  object = o;
  relation = r;
  user = u;
  condition = new_relationship_condition empty_struct name context;
}

-- TupleKeyWithoutConditionToTupleKey
abbrev pub tuple_key_without_condition_to_tuple_key :
    {C : Type 0} → TupleKeyWithoutCondition → TupleKey C
tuple_key_without_condition_to_tuple_key tk = new_tuple_key tk.object tk.relation tk.user

-- TupleKeyToString
unfoldable pub tuple_key_to_string : {C : Type 0} → TupleKey C → Text
tuple_key_to_string tk = tk.object ++ (b'#' ∷ tk.relation ++ (b'@' ∷ tk.user))

-- The errors of ParseTupleString.
pub data ParseError : Type 0 where
  missing_hash invalid_object missing_at invalid_relation invalid_user : ParseError

pub data ParseResult (C : Type 0) : Type 0 where
  parsed : TupleKey C → ParseResult C
  failed : ParseError → ParseResult C

-- ParseTupleString
unfoldable pub parse_tuple_string : {C : Type 0} → Text → ParseResult C
unfolding is_valid_user
parse_tuple_string s = elim (cut b'#' s) [
  | none ↦ failed missing_hash
  | some (object, rhs) ↦
      if not (is_valid_object object) then failed invalid_object else elim (cut b'@' rhs) [
        | none ↦ failed missing_at
        | some (relation, u) ↦
            if not (is_valid_relation relation)
            then failed invalid_relation
            else if not (is_valid_user u)
            then failed invalid_user
            else parsed (new_tuple_key object relation u)
      ]
]
