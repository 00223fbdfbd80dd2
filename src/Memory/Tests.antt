-- ===== src/Memory/Tests.antt =====
-- Runs of the memory backend on concrete tuples, and the theorems about it at such states.
use mongopenfga.Prelude.{
  ℕ, zero, suc, ap, arith, length, ◌≡◌, ◌≢◌, refl, ◌↔◌, ◌⊎◌, Bool, true, false, none, some, List,
  [], ◌∷◌, Text, bytes, text_beq, All, if◌then◌else◌, ◌||◌, ◌&&◌, not, ◌+◌, ◌*◌,
}
use mongopenfga.Strings.{index_byte}
use mongopenfga.Tuple.{
  TupleKey, TupleKeyWithoutCondition, new_tuple_key, split_object, is_valid_user,
  tuple_key_without_condition_to_tuple_key,
}
use mongopenfga.Storage.{TupleRecord}
use mongopenfga.Storage.GoMap.{lookup, insert}
use mongopenfga.Typesystem.Model.{direct_relation_reference}
use mongopenfga.Storage.Iterators.Defs.{answer}
use mongopenfga.Memory.Models.{
  StoredModel, find_latest_authorization_model, write_models, find_latest-write_models,
}
use mongopenfga.Memory.State.{
  match_record, delete_loop, write_loop, new_record, TupleBackend, Ulids, tuples_of, changes_of,
  find, write, invalid_write,
}
use mongopenfga.Memory.Read.{
  Atoi, not_a_number, number, Numerals, read_matches, read_page, read, read_pages,
}
use mongopenfga.Memory.Pages.{IsDecimal, read_pages-read}
use mongopenfga.Memory.Usersets.{UsersetFilter, any, userset_matches}
use mongopenfga.Memory.Selected.{any_shaped, is_selected, userset_matches-selected}
use mongopenfga.Regex.{matches}
use mongopenfga.Tuple.Valid.{ObjectShape, UserShape, is_valid_object_iff, is_valid_user_shape}
use mongopenfga.Memory.Match.{IsFullKey}
use mongopenfga.Memory.Write.{in_writes, in_deletes, write_atomic, write_sets}
use mongopenfga.Memory.Invariant.{IsWell}
use mongopenfga.Memory.Changelog.{
  Batch, empty_backend, run_writes, replay, run_writes-IsWell, replay-run_writes,
}

abbrev Struct : Type 0
Struct = Unit {0}

abbrev ulids : Ulids
ulids = record { mint = λ now n. now * 1000 + n; mint_record = λ now n. now * 1000 + n }

abbrev anne : TupleKey Struct
anne = new_tuple_key (bytes "d:1") (bytes "viewer") (bytes "u:anne")

abbrev bob : TupleKey Struct
bob = new_tuple_key (bytes "d:1") (bytes "viewer") (bytes "u:bob")

abbrev drop_anne : TupleKeyWithoutCondition
drop_anne = record { object = bytes "d:1"; relation = bytes "viewer"; user = bytes "u:anne" }

anne-IsFull : IsFullKey anne
anne-IsFull = record {
  object-shape = record {
    type_ = bytes "d";
    id = bytes "1";
    type-Run = refl;
    id-Run = refl;
    shape = refl;
  };
  has_relation = λ e. cc e;
  has_user = λ e. cc e;
}

bob-IsFull : IsFullKey bob
bob-IsFull = record {
  object-shape = anne-IsFull.object-shape;
  has_relation = λ e. cc e;
  has_user = λ e. cc e;
}

abbrev shop : Text
shop = bytes "shop"

abbrev batches : List (Batch Struct)
batches =
    record { now = 1; store = shop; deletes = []; writes = anne ∷ [] }
    ∷ record { now = 2; store = shop; deletes = drop_anne ∷ []; writes = bob ∷ [] }
    ∷ []

batches-full : All (λ b. All IsFullKey b.writes) batches
batches-full = ((anne-IsFull, tt), ((bob-IsFull, tt), tt))

abbrev before : TupleBackend Struct
before = (write tt ulids 1 shop [] (anne ∷ []) empty_backend).1

again : (write tt ulids 2 shop [] (anne ∷ []) before).0 ≡ some (invalid_write anne)
unfolding write split_object index_byte lookup insert text_beq match_record
again = refl

second_succeeds : (write tt ulids 2 shop (drop_anne ∷ []) (bob ∷ []) before).0 ≡ none
unfolding write split_object index_byte lookup insert text_beq match_record
second_succeeds = refl

write_atomic_example :
    ((write tt ulids 2 shop (drop_anne ∷ []) (bob ∷ []) before).0 ≡ none ↔ (
      All
        (λ d. find (tuples_of before shop) (tuple_key_without_condition_to_tuple_key d) ≡ true)
        (drop_anne ∷ [])
      × All (λ t. find (tuples_of before shop) t ≡ false) (bob ∷ [])))
    × (((write tt ulids 2 shop (drop_anne ∷ []) (bob ∷ []) before).0 ≡ none)
        ⊎ ((write tt ulids 2 shop (drop_anne ∷ []) (bob ∷ []) before).1 ≡ before))
write_atomic_example = write_atomic tt ulids 2 shop (drop_anne ∷ []) (bob ∷ []) before

write_sets_example :
    find (tuples_of (write tt ulids 2 shop (drop_anne ∷ []) (bob ∷ []) before).1 shop) anne ≡ (
      if text_beq shop shop
      then in_writes (bob ∷ []) anne
        || (find (tuples_of before shop) anne && not (in_deletes (drop_anne ∷ []) anne))
      else find (tuples_of before shop) anne)
write_sets_example =
    write_sets tt ulids 2 shop (drop_anne ∷ []) (bob ∷ []) before anne shop (anne-IsFull, tt)
      (bob-IsFull, tt) anne-IsFull second_succeeds

run_writes-IsWell_example : IsWell (tuples_of (run_writes tt ulids batches empty_backend) shop)
run_writes-IsWell_example = run_writes-IsWell tt ulids batches batches-full shop

replay-run_writes_example :
    replay anne (changes_of (run_writes tt ulids batches empty_backend) shop) false
    ≡ find (tuples_of (run_writes tt ulids batches empty_backend) shop) anne
replay-run_writes_example = replay-run_writes tt ulids batches batches-full shop anne anne-IsFull

-- numerals that write n by n + 1 ones
abbrev ones : ℕ → Text
ones zero = []
ones (suc n) = b'1' ∷ ones n

abbrev count_ones : Text → Atoi
count_ones [] = not_a_number
count_ones (c ∷ s) = number (length s)

abbrev unary : Numerals
unary = record { itoa = λ n. b'1' ∷ ones n; atoi = count_ones }

length-ones : (n : ℕ) → length (ones n) ≡ n
length-ones zero = refl
length-ones (suc n) = omega (arith, length-ones n)

unary-IsDecimal : IsDecimal unary
unary-IsDecimal = record { reads = λ n. ap number (length-ones n); shown = λ n e. cc e }

abbrev any_tuple : TupleKey Struct
any_tuple = new_tuple_key [] [] []

abbrev two_tuples : TupleBackend Struct
two_tuples = (write tt ulids 1 shop [] (anne ∷ bob ∷ []) empty_backend).1

two_matches : length (read_matches (tuples_of two_tuples shop) any_tuple) ≡ 2
unfolding write split_object index_byte lookup insert text_beq match_record
two_matches = refl

read_pages-read_example :
    read_pages 5 (λ token. read_page tt unary two_tuples shop any_tuple token 1) []
    ≡ some (read tt unary two_tuples shop any_tuple)
read_pages-read_example =
    read_pages-read tt unary unary-IsDecimal two_tuples shop any_tuple 1 5 (omega arith)
      (omega (arith, two_matches))

abbrev eng : TupleKey Struct
eng = new_tuple_key (bytes "d:1") (bytes "viewer") (bytes "group:eng#member")

abbrev with_eng : List (TupleRecord Struct)
with_eng = tuples_of (write tt ulids 1 shop [] (anne ∷ eng ∷ []) empty_backend).1 shop

abbrev viewers : UsersetFilter
viewers = record {
  object = bytes "d:1";
  relation = bytes "viewer";
  allowed_user_type_restrictions = direct_relation_reference (bytes "group") (bytes "member") ∷ [];
}

d1-ObjectShape : ObjectShape (bytes "d:1")
unfolding matches
d1-ObjectShape = is_valid_object_iff (bytes "d:1") refl

with_eng-shapes : All (λ t. UserShape t.user) with_eng
unfolding matches write lookup insert delete_loop write_loop find match_record new_record text_beq
    split_object index_byte is_valid_user
with_eng-shapes = (is_valid_user_shape _ refl, (is_valid_user_shape _ refl, tt))

abbrev is_eng : TupleRecord Struct → Bool
is_eng t = text_beq t.user (bytes "group:eng#member")

relation_given : viewers.relation ≢ []
relation_given h = cc h

userset_matches-selected_example :
    any is_eng (userset_matches viewers with_eng)
    ≡ any_shaped
        (λ t s. is_eng t && is_selected viewers d1-ObjectShape relation_given t s)
        with_eng
        with_eng-shapes
userset_matches-selected_example =
    userset_matches-selected viewers d1-ObjectShape relation_given is_eng with_eng with_eng-shapes

-- two models, the second one written last
abbrev model_called : Text → StoredModel Unit
model_called id = record {
  id = id;
  model = record { schema_version = bytes "1.1"; type_definitions = []; conditions = [] };
}

find_latest-write_models_example :
    find_latest_authorization_model
      (write_models ((shop, model_called (bytes "a")) ∷ (shop, model_called (bytes "b")) ∷ []) [])
      shop
    ≡ answer (model_called (bytes "b"))
unfolding text_beq
find_latest-write_models_example =
    find_latest-write_models
      ((shop, model_called (bytes "a")) ∷ (shop, model_called (bytes "b")) ∷ []) [] shop
