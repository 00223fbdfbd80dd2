-- ===== src/Memory/Read.antt =====
-- Reads of the memory backend: read with its pagination, Read, ReadPage and ReadUserTuple.
use mongopenfga.Prelude.{
  ℕ, zero, suc, ◌+◌, not, ◌&&◌, Option, none, some, List, [], ◌∷◌, ◌++◌, map, Text, ◌==◌, text_eq,
  if◌then◌else◌, length, take, drop, select, leb, ltb, nat_beq,
}
use mongopenfga.Tuple.{TupleKey}
use mongopenfga.Storage.{Tuple, TupleRecord, as_tuple}
use mongopenfga.Memory.State.{TupleBackend, tuples_of, match_record}

-- what strconv.Atoi makes of a text
pub data Atoi : Type 0 where
  not_a_number negative : Atoi
  number : ℕ → Atoi

-- strconv.Itoa, on numbers that are not negative, and strconv.Atoi
pub record Numerals : Type 0 where
  pub itoa : ℕ → Text
  pub atoi : Text → Atoi

-- what ReadPage returns: tuples and a continuation token, an error of Atoi, or a panic on a slice
-- that starts before its beginning
pub data PageResult (C : Type 0) : Type 0 where
  page : List (Tuple C) → Text → PageResult C
  token_error slice_panic : PageResult C

module _ {C : Type 0} where
  -- the records that read selects
  abbrev pub read_matches : List (TupleRecord C) → TupleKey C → List (TupleRecord C)
  read_matches records tk =
      if tk.object == [] && tk.relation == [] && tk.user == []
      then records
      else select (λ t. match_record t tk) records

  -- the matches from `from` on, at most `to` of them if that is not 0, and the token
  unfoldable pub read_slice : Numerals → List (TupleRecord C) → ℕ → ℕ → List (TupleRecord C) × Text
  read_slice numerals matches from to =
      let rest = if leb from (length matches) then drop from matches else matches in
      if not (nat_beq to 0) && ltb to (length rest)
      then (take to rest, numerals.itoa (from + to))
      else (rest, [])

  abbrev pub page_of : C → List (TupleRecord C) × Text → PageResult C
  page_of empty_struct (records, token) = page (map (as_tuple empty_struct) records) token

  abbrev pub page_at : C → Numerals → List (TupleRecord C) → ℕ → Atoi → PageResult C
  page_at empty_struct numerals matches page_size not_a_number = token_error
  page_at empty_struct numerals matches page_size negative = slice_panic
  page_at empty_struct numerals matches page_size (number from) =
      page_of empty_struct (read_slice numerals matches from page_size)

  -- ReadPage
  unfoldable pub read_page :
      C → Numerals → TupleBackend C → Text → TupleKey C → Text → ℕ → PageResult C
  read_page empty_struct numerals s store tk from page_size =
      page_at empty_struct numerals (read_matches (tuples_of s store) tk) page_size
        (if from == [] then number 0 else numerals.atoi from)

  -- Read, with every item of its iterator
  unfoldable pub read : C → Numerals → TupleBackend C → Text → TupleKey C → List (Tuple C)
  unfolding read_slice
  read empty_struct numerals s store tk =
      map (as_tuple empty_struct) (read_slice numerals (read_matches (tuples_of s store) tk) 0 0).0

  -- ReadUserTuple; `none` is ErrNotFound
  unfoldable pub first_match : C → List (TupleRecord C) → TupleKey C → Option (Tuple C)
  first_match empty_struct [] tk = none
  first_match empty_struct (t ∷ records) tk =
      if match_record t tk
      then some (as_tuple empty_struct t)
      else first_match empty_struct records tk

  abbrev pub read_user_tuple : C → TupleBackend C → Text → TupleKey C → Option (Tuple C)
  read_user_tuple empty_struct s store tk = first_match empty_struct (tuples_of s store) tk

  -- A client that reads page after page, as long as there is a token; `none` on an error or when
  -- the fuel, which counts the pages, runs out.
  abbrev pub prepend : List (Tuple C) → Option (List (Tuple C)) → Option (List (Tuple C))
  prepend ts none = none
  prepend ts (some ts') = some (ts ++ ts')

  abbrev pub follow : (Text → Option (List (Tuple C))) → PageResult C → Option (List (Tuple C))
  follow rest token_error = none
  follow rest slice_panic = none
  follow rest (page ts token) = if token == [] then some ts else prepend ts (rest token)

  unfoldable pub read_pages : ℕ → (Text → PageResult C) → Text → Option (List (Tuple C))
  read_pages zero pager token = none
  read_pages (suc fuel) pager token = follow (read_pages fuel pager) (pager token)
