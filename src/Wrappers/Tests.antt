-- ===== src/Wrappers/Tests.antt =====
-- A contextual tuple before a stored one.
use mongopenfga.Prelude.{ℕ, none, List, [], ◌∷◌, Text, text_lt, bytes, if◌then◌else◌}
use mongopenfga.Tuple.{TupleKey, new_tuple_key}
use mongopenfga.Storage.{TupleRecord}
use mongopenfga.Memory.State.{TupleBackend, Ulids, write}
use mongopenfga.Memory.Changelog.{empty_backend}
use mongopenfga.Memory.Read.{Numerals, not_a_number}
use mongopenfga.Memory.Starting.{StartingWithUserFilter}
use mongopenfga.Graph.Outcome.{CheckError, external}
use mongopenfga.Wrappers.{TupleReader}
use mongopenfga.Wrappers.Backend.{memory_reader}

abbrev anne_views : TupleKey ℕ
anne_views = new_tuple_key (bytes "d:1") (bytes "v") (bytes "u:a")

abbrev bob_views : TupleKey ℕ
bob_views = new_tuple_key (bytes "d:1") (bytes "v") (bytes "u:b")

abbrev shop : Text
shop = bytes "shop"

-- the memory backend after a write
abbrev ulids : Ulids
ulids = record { mint = λ now n. n; mint_record = λ now n. n }

abbrev backend : TupleBackend ℕ
backend = (write 0 ulids 1 shop [] (bob_views ∷ []) empty_backend).1

-- an insertion sort by the ids of the objects
abbrev put : TupleRecord ℕ → List (TupleRecord ℕ) → List (TupleRecord ℕ)
put t [] = t ∷ []
put t (r ∷ rs) =
    let rest = put t rs in if text_lt r.object_id t.object_id then r ∷ rest else t ∷ r ∷ rs

abbrev sort_by_object_id : List (TupleRecord ℕ) → List (TupleRecord ℕ)
sort_by_object_id [] = []
sort_by_object_id (t ∷ rs) = put t (sort_by_object_id rs)

-- the numerals, which the reads do not use
abbrev numerals : Numerals
numerals = record { itoa = λ n. []; atoi = λ s. not_a_number }

abbrev stored_reader : TupleReader CheckError ℕ
stored_reader = memory_reader 0 (external 0) numerals sort_by_object_id backend shop

abbrev doc_key : TupleKey ℕ
doc_key = new_tuple_key (bytes "d:1") (bytes "v") []

abbrev both_users : StartingWithUserFilter
both_users = record {
  object_type = bytes "d";
  relation = bytes "v";
  user_filter =
      record { object = bytes "u:a"; relation = [] }
      ∷ record { object = bytes "u:b"; relation = [] }
      ∷ [];
  object_ids = none;
}
