-- ===== src/Memory/State.antt =====
-- The state of the memory backend, its tuple filter, and Write.
use mongopenfga.Prelude.{
  ℕ, Bool, true, false, not, ◌&&◌, ◌||◌, Option, none, some, List, [], ◌∷◌, ◌++◌, Text, ◌==◌,
  text_eq, if◌then◌else◌, length,
}
use mongopenfga.Tuple.{
  TupleKey, TupleKeyWithoutCondition, RelationshipCondition, split_object, build_object,
  new_tuple_key, new_tuple_key_with_condition, tuple_key_without_condition_to_tuple_key,
}
use mongopenfga.Storage.{TupleRecord, as_tuple}
use mongopenfga.Storage.GoMap.{GoMap, lookup, insert}

pub data TupleOperation : Type 0 where
  write_op delete_op : TupleOperation

-- openfgav1.TupleChange and tupleChangeRec; a ULID is its 128-bit value
pub record TupleChangeRec (C : Type 0) : Type 0 where
  pub tuple_key : TupleKey C
  pub operation : TupleOperation
  pub timestamp : ℕ
  pub ulid : ℕ

-- The part of MemoryBackend that `mutexTuples` guards; an absent key is an empty slice.
pub record TupleBackend (C : Type 0) : Type 0 where
  pub tuples : GoMap (List (TupleRecord C))
  pub changes : GoMap (List (TupleChangeRec C))

abbrev pub slice {ℓ} : {A : Type ℓ} → Option (List A) → List A
slice none = []
slice (some l) = l

abbrev pub tuples_of : {C : Type 0} → TupleBackend C → Text → List (TupleRecord C)
tuples_of s store = slice (lookup s.tuples store)

abbrev pub changes_of : {C : Type 0} → TupleBackend C → Text → List (TupleChangeRec C)
changes_of s store = slice (lookup s.changes store)

-- match
unfoldable pub match_object : {C : Type 0} → TupleRecord C → Text → Bool
match_object t object =
    let (td, objectid) = split_object object in
    if objectid == [] then td == t.object_type else td == t.object_type && objectid == t.object_id

unfoldable pub match_record : {C : Type 0} → TupleRecord C → TupleKey C → Bool
unfolding match_object
match_record t target =
    if not (target.object == []) && not (match_object t target.object)
    then false
    else if not (target.relation == []) && not (t.relation == target.relation)
    then false
    else if not (target.user == []) && not (t.user == target.user)
    then false
    else true

-- find
unfoldable pub find : {C : Type 0} → List (TupleRecord C) → TupleKey C → Bool
find [] tk = false
find (tr ∷ records) tk = match_record tr tk || find records tk

-- InvalidWriteInputError, with the tuple and the operation
pub data WriteError (C : Type 0) : Type 0 where
  invalid_delete : TupleKeyWithoutCondition → WriteError C
  invalid_write : TupleKey C → WriteError C

module _ {C : Type 0} where
  -- the two loops of validateTuples; `none` is a nil error
  unfoldable pub validate_writes : List (TupleRecord C) → List (TupleKey C) → Option (WriteError C)
  validate_writes records [] = none
  validate_writes records (tk ∷ writes) =
      if find records tk then some (invalid_write tk) else validate_writes records writes

  unfoldable pub validate_tuples :
      List (TupleRecord C)
      → List TupleKeyWithoutCondition
      → List (TupleKey C)
      → Option (WriteError C)
  unfolding validate_writes
  validate_tuples records [] writes = validate_writes records writes
  validate_tuples records (tk ∷ deletes) writes =
      if not (find records (tuple_key_without_condition_to_tuple_key tk))
      then some (invalid_delete tk)
      else validate_tuples records deletes writes

  -- the inner loop of Delete
  unfoldable pub any_delete : TupleRecord C → List TupleKeyWithoutCondition → Bool
  any_delete tr [] = false
  any_delete tr (k ∷ deletes) =
      match_record tr (tuple_key_without_condition_to_tuple_key k) || any_delete tr deletes

  abbrev pub given_name : Option (RelationshipCondition C) → Text
  given_name none = []
  given_name (some c) = c.name

  abbrev pub given_context : Option (RelationshipCondition C) → Option C
  given_context none = none
  given_context (some c) = c.context

-- `mint now n` is the ULID of the n-th change of a store, `mint_record now n` that of a record
-- written when the store has n changes.
pub record Ulids : Type 0 where
  pub mint : ℕ → ℕ → ℕ
  pub mint_record : ℕ → ℕ → ℕ

module _ {C : Type 0} (empty_struct : C) (u : Ulids) (now : ℕ) where
  abbrev pub Slices : Type 0
  Slices = List (TupleRecord C) × List (TupleChangeRec C)

  -- the change that a deleted record leaves, its condition redacted
  unfoldable pub delete_change : TupleRecord C → ℕ → TupleChangeRec C
  unfolding as_tuple
  delete_change tr n =
      let tk = (as_tuple empty_struct tr).key in
      record {
        tuple_key = new_tuple_key tk.object tk.relation tk.user;
        operation = delete_op;
        timestamp = now;
        ulid = u.mint now n;
      }

  -- the Delete loop of Write: `records` are kept, `changes` grows
  unfoldable pub delete_loop :
      List TupleKeyWithoutCondition → List (TupleRecord C) → Slices → Slices
  unfolding delete_change any_delete
  delete_loop deletes [] acc = acc
  delete_loop deletes (tr ∷ rest) (records, changes) = delete_loop deletes rest (
      if any_delete tr deletes
      then (records, changes ++ delete_change tr (length changes) ∷ [])
      else (records ++ tr ∷ [], changes))

  unfoldable pub new_record : Text → TupleKey C → ℕ → TupleRecord C
  new_record store t n =
      let (object_type, object_id) = split_object t.object in
      record {
        store = store;
        object_type = object_type;
        object_id = object_id;
        relation = t.relation;
        user = t.user;
        user_object_type = [];
        user_object_id = [];
        user_relation = [];
        condition_name = given_name t.condition;
        condition_context = given_context t.condition;
        ulid = u.mint_record now n;
        inserted_at = now;
      }

  unfoldable pub write_change : TupleKey C → ℕ → TupleChangeRec C
  write_change t n =
      let (object_type, object_id) = split_object t.object in
      record {
        tuple_key =
            new_tuple_key_with_condition empty_struct (build_object object_type object_id)
              t.relation t.user (given_name t.condition) (given_context t.condition);
        operation = write_op;
        timestamp = now;
        ulid = u.mint now n;
      }

  -- the Write loop of Write
  unfoldable pub write_loop : Text → List (TupleKey C) → Slices → Slices
  unfolding new_record write_change find
  write_loop store [] acc = acc
  write_loop store (t ∷ writes) (records, changes) = write_loop store writes (
      if find records t then (records, changes) else (
        records ++ new_record store t (length changes) ∷ [],
        changes ++ write_change t (length changes) ∷ [],
      ))

  -- Write
  unfoldable pub write :
      Text
      → List TupleKeyWithoutCondition
      → List (TupleKey C)
      → TupleBackend C
      → Option (WriteError C) × TupleBackend C
  unfolding validate_tuples delete_loop write_loop
  write store deletes writes s = elim (validate_tuples (tuples_of s store) deletes writes) [
    | some e ↦ (some e, s)
    | none ↦
        let kept = delete_loop deletes (tuples_of s store) ([], changes_of s store) in
        let (records, changes) = write_loop store writes kept in
        (
          none,
          record s {
            tuples = insert s.tuples store records;
            changes = insert s.changes store changes;
          },
        )
  ]
