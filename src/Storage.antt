-- ===== src/Storage.antt =====
-- pkg/storage: the record of a tuple (record.go), and Go's maps with string keys.
pub mod GoMap
pub mod Iterators
use mongopenfga.Prelude.{ℕ, Option, Text, [], text_eq, ◌==◌, if◌then◌else◌}
use mongopenfga.Tuple.{
  TupleKey, RelationshipCondition, new_tuple_key_with_condition, build_object, from_user_parts,
}

-- TupleRecord
pub record TupleRecord (C : Type 0) : Type 0 where
  pub store : Text
  pub object_type : Text
  pub object_id : Text
  pub relation : Text
  pub user : Text
  pub user_object_type : Text
  pub user_object_id : Text
  pub user_relation : Text
  pub condition_name : Text
  pub condition_context : Option C
  pub ulid : ℕ
  pub inserted_at : ℕ

-- openfgav1.Tuple
pub record Tuple (C : Type 0) : Type 0 where
  pub key : TupleKey C
  pub timestamp : ℕ

-- AsTuple
unfoldable pub as_tuple : {C : Type 0} → C → TupleRecord C → Tuple C
as_tuple empty_struct t = record {
  key =
      new_tuple_key_with_condition empty_struct (build_object t.object_type t.object_id) t.relation
        (if t.user == []
          then from_user_parts t.user_object_type t.user_object_id t.user_relation
          else t.user)
        t.condition_name t.condition_context;
  timestamp = t.inserted_at;
}
