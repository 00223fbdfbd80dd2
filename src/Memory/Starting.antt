-- ===== src/Memory/Starting.antt =====
-- ReadStartingWithUser of the memory backend.
use mongopenfga.Prelude.{
  ◌≡◌, refl, Bool, false, not, ◌&&◌, Option, none, some, List, [], ◌∷◌, ◌++◌, map, arith, Text,
  is_key, ◌==◌, text_eq, if◌then◌else◌, text_beq_iff,
}
use mongopenfga.Tuple.{get_object_relation_as_string}
use mongopenfga.Storage.{Tuple, TupleRecord, as_tuple}
use mongopenfga.Memory.State.{TupleBackend, tuples_of}
use mongopenfga.Memory.Usersets.{any, any-append}

-- openfgav1.ObjectRelation
pub record ObjectRelation : Type 0 where
  pub object : Text
  pub relation : Text

-- ReadStartingWithUserFilter
pub record StartingWithUserFilter : Type 0 where
  pub object_type : Text
  pub relation : Text
  pub user_filter : List ObjectRelation
  pub object_ids : Option (List Text)

abbrev pub target_user : ObjectRelation → Text
target_user u =
    if not (u.relation == []) then get_object_relation_as_string u.object u.relation else u.object

abbrev pub is_excluded : Option (List Text) → Text → Bool
is_excluded none id = false
is_excluded (some ids) id = not (is_key id ids)

abbrev pub has_target : Text → List ObjectRelation → Bool
has_target u us = is_key u (map target_user us)

module _ {C : Type 0} where
  -- the loop over filter.UserFilter, which appends the record for each user that is the record's
  unfoldable pub user_matches : TupleRecord C → List ObjectRelation → List (TupleRecord C)
  user_matches t [] = []
  user_matches t (u ∷ us) =
      let rest = user_matches t us in if not (target_user u == t.user) then rest else t ∷ rest

  -- the loop over the records
  unfoldable pub starting_matches :
      StartingWithUserFilter → List (TupleRecord C) → List (TupleRecord C)
  unfolding user_matches
  starting_matches filter [] = []
  starting_matches filter (t ∷ records) =
      let rest = starting_matches filter records in
      if not (t.object_type == filter.object_type)
      then rest
      else if not (t.relation == filter.relation)
      then rest
      else if is_excluded filter.object_ids t.object_id
      then rest
      else user_matches t filter.user_filter ++ rest

  -- ReadStartingWithUser, with every item of its iterator; `sort_by_object_id` is sort.Slice
  abbrev pub read_starting_with_user_filter :
      C
      → (List (TupleRecord C) → List (TupleRecord C))
      → TupleBackend C
      → Text
      → StartingWithUserFilter
      → List (Tuple C)
  read_starting_with_user_filter empty_struct sort_by_object_id s store filter =
      map (as_tuple empty_struct) (sort_by_object_id (starting_matches filter (tuples_of s store)))

  any-user_matches :
      (p : TupleRecord C → Bool) (t : TupleRecord C) (us : List ObjectRelation)
      → any p (user_matches t us) ≡ (p t && has_target t.user us)
  unfolding user_matches
  any-user_matches p t [] = ground arith
  any-user_matches p t (u ∷ us) = ground (
    arith,
    any-user_matches p t us,
    text_beq_iff (target_user u) t.user,
    text_beq_iff t.user (target_user u),
  )

  -- The loop selects a record with a given property exactly if there is one with that property, of the
  -- filter's type and relation, with an id that is not excluded, whose user is one of the filter's.
  pub any-starting_matches :
      (p : TupleRecord C → Bool) (filter : StartingWithUserFilter) (records : List (TupleRecord C))
      → any p (starting_matches filter records)
        ≡ any
            (λ t.
              p t
              && t.object_type == filter.object_type
              && t.relation == filter.relation
              && not (is_excluded filter.object_ids t.object_id)
              && has_target t.user filter.user_filter)
            records
  unfolding starting_matches
  any-starting_matches p filter [] = refl
  any-starting_matches p filter (t ∷ records) = ground (
    arith,
    any-starting_matches p filter records,
    any-append p (user_matches t filter.user_filter) (starting_matches filter records),
    any-user_matches p t filter.user_filter,
  )
