-- ===== src/Tuple/Tests.antt =====
-- Runs of pkg/tuple/tuple.go on concrete texts, and the theorems about it at such texts.
use mongopenfga.Prelude.{◌≡◌, ◌↔◌, refl, inr, true, [], bytes, text_beq, text_lt}
use mongopenfga.Strings.{index_byte, last_index_byte, cut}
use mongopenfga.Regex.{matches}
use mongopenfga.Tuple.{
  TupleKey, split_object, split_object_relation, to_user_parts, from_user_parts, is_valid_user,
  is_valid_object, is_valid_relation, user_set_regex, new_tuple_key, tuple_key_to_string,
  parse_tuple_string, parsed, failed, invalid_user, User, userset_user, user_proto_to_string,
  string_to_user_proto, split_object,
}
use mongopenfga.Tuple.Users.{from_user_parts-to_user_parts, string-proto-string, proto-string-proto}
use mongopenfga.Tuple.Parse.{parse-to_string, parse_sound}
use mongopenfga.Tuple.Order.{less, less_iff, Precedes, fields}

abbrev Key : Type 0
Key = TupleKey (Unit {0})

abbrev anne_views : Key
anne_views = new_tuple_key (bytes "doc:1") (bytes "viewer") (bytes "user:anne")

abbrev group_views : Key
group_views = new_tuple_key (bytes "doc:1") (bytes "viewer") (bytes "group:fga#member")

split_object_runs :
    (split_object (bytes "group:fga") ≡ (bytes "group", bytes "fga"))
    × (split_object (bytes "group#member:fga") ≡ (bytes "group#member", bytes "fga"))
    × (split_object (bytes "anne") ≡ ([], bytes "anne"))
    × (split_object (bytes "group:") ≡ (bytes "group", []))
unfolding split_object index_byte
split_object_runs = (refl, refl, refl, refl)

split_object_relation_runs :
    (split_object_relation (bytes "group:fga#member") ≡ (bytes "group:fga", bytes "member"))
    × (split_object_relation (bytes "group:fga#") ≡ (bytes "group:fga", []))
unfolding split_object_relation last_index_byte
split_object_relation_runs = (refl, refl)

parses : parse_tuple_string (bytes "doc:1#viewer@user:anne") ≡ parsed anne_views
unfolding parse_tuple_string cut matches text_beq
parses = refl

parse_fails :
    parse_tuple_string {C = Unit {0}} (bytes "doc:1#viewer@user:a:b") ≡ failed invalid_user
unfolding parse_tuple_string cut matches text_beq
parse_fails = refl

valid_parts :
    (is_valid_object (bytes "doc:1") ≡ true)
    × (is_valid_relation (bytes "viewer") ≡ true)
    × (is_valid_user (bytes "user:anne") ≡ true)
    × (is_valid_user (bytes "group:fga#member") ≡ true)
    × (matches user_set_regex (bytes "group:fga#member") ≡ true)
unfolding matches is_valid_user text_beq
valid_parts = (refl, refl, refl, refl, refl)

from_user_parts-to_user_parts_example :
    from_user_parts
      (to_user_parts (bytes "group:fga#member")).0
      (to_user_parts (bytes "group:fga#member")).1
      (to_user_parts (bytes "group:fga#member")).2
    ≡ bytes "group:fga#member"
from_user_parts-to_user_parts_example =
    from_user_parts-to_user_parts (bytes "group:fga#member") valid_parts.3

string-proto-string_example :
    user_proto_to_string (string_to_user_proto (bytes "group:fga#member"))
    ≡ bytes "group:fga#member"
string-proto-string_example = string-proto-string (bytes "group:fga#member") (inr valid_parts.4)

abbrev members : User
members = userset_user (bytes "group") (bytes "fga") (bytes "member")

proto-string-proto_example : string_to_user_proto (user_proto_to_string members) ≡ members
proto-string-proto_example = proto-string-proto members (refl, refl, λ e. cc e)

parse-to_string_example : parse_tuple_string (tuple_key_to_string anne_views) ≡ parsed anne_views
parse-to_string_example =
    parse-to_string {C = Unit {0}} (bytes "doc:1") (bytes "viewer") (bytes "user:anne")
      valid_parts.0 valid_parts.1 valid_parts.2

parse_sound_example :
    (tuple_key_to_string anne_views ≡ bytes "doc:1#viewer@user:anne")
    × (is_valid_object (bytes "doc:1") ≡ true)
    × (is_valid_relation (bytes "viewer") ≡ true)
    × (is_valid_user (bytes "user:anne") ≡ true)
    × (anne_views ≡ new_tuple_key (bytes "doc:1") (bytes "viewer") (bytes "user:anne"))
parse_sound_example = parse_sound (bytes "doc:1#viewer@user:anne") anne_views parses

less_runs : (less anne_views anne_views ≡ true) × (less group_views anne_views ≡ true)
unfolding less text_beq text_lt
less_runs = (refl, refl)

less_iff_example :
    (less anne_views group_views ≡ true) ↔ Precedes (fields anne_views) (fields group_views)
less_iff_example = less_iff anne_views group_views
