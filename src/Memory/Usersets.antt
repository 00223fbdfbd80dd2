-- ===== src/Memory/Usersets.antt =====
-- ReadUsersetTuples of the memory backend.
use mongopenfga.Prelude.{
  ◌≡◌, refl, Bool, true, false, ◌&&◌, ◌||◌, List, [], ◌∷◌, ◌++◌, map, arith, Text, ◌==◌, text_eq,
  if◌then◌else◌, select,
}
use mongopenfga.Tuple.{
  UserType, user, user_set, new_tuple_key, get_type, split_object_relation, get_user_type_from_user,
}
use mongopenfga.Storage.{Tuple, TupleRecord, as_tuple}
use mongopenfga.Typesystem.Rewrite.{RelationReference, relation_of}
use mongopenfga.Memory.State.{TupleBackend, tuples_of, match_record}

-- ReadUsersetTuplesFilter
pub record UsersetFilter : Type 0 where
  pub object : Text
  pub relation : Text
  pub allowed_user_type_restrictions : List RelationReference

abbrev pub is_user_set : UserType → Bool
is_user_set user = false
is_user_set user_set = true

abbrev pub any : {A : Type 0} → (A → Bool) → List A → Bool
any p [] = false
any p (x ∷ xs) = p x || any p xs

module _ {A : Type 0} where
  pub any-append : (p : A → Bool) (xs ys : List A) → any p (xs ++ ys) ≡ (any p xs || any p ys)
  any-append p [] ys = refl
  any-append p (x ∷ xs) ys = ground (arith, any-append p xs ys)

  pub any-same : (p q : A → Bool) (xs : List A) → ((x : A) → p x ≡ q x) → any p xs ≡ any q xs
  any-same p q [] e = refl
  any-same p q (x ∷ xs) e = rw (e x, any-same p q xs e) refl

  pub any-select : (p q : A → Bool) (xs : List A) → any p (select q xs) ≡ any (λ x. p x && q x) xs
  any-select p q [] = refl
  any-select p q (x ∷ xs) = ground (arith, any-select p q xs)

pub any-map :
    {A B : Type 0} (p : B → Bool) (f : A → B) (xs : List A)
    → any p (map f xs) ≡ any (λ x. p (f x)) xs
any-map p f [] = refl
any-map p f (x ∷ xs) = ground (arith, any-map p f xs)

module _ {C : Type 0} where
  abbrev pub is_allowed_type : TupleRecord C → RelationReference → Bool
  is_allowed_type t a =
      a.type_ == get_type t.user
      && relation_of a.relation_or_wildcard == (split_object_relation t.user).1

  -- the loop over the allowed types, which appends the record for each that fits
  unfoldable pub allowed_matches : TupleRecord C → List RelationReference → List (TupleRecord C)
  allowed_matches t [] = []
  allowed_matches t (a ∷ restrictions) =
      let rest = allowed_matches t restrictions in if is_allowed_type t a then t ∷ rest else rest

  abbrev pub restricted : TupleRecord C → List RelationReference → List (TupleRecord C)
  restricted t [] = t ∷ []
  restricted t (a ∷ restrictions) = allowed_matches t (a ∷ restrictions)

  abbrev pub fits : UsersetFilter → TupleRecord C → Bool
  fits filter t =
      match_record {C = C} t (new_tuple_key filter.object filter.relation [])
      && is_user_set (get_user_type_from_user t.user)

  -- the loop over the records
  unfoldable pub userset_matches : UsersetFilter → List (TupleRecord C) → List (TupleRecord C)
  userset_matches filter [] = []
  userset_matches filter (t ∷ records) =
      if fits filter t
      then restricted t filter.allowed_user_type_restrictions ++ userset_matches filter records
      else userset_matches filter records

  -- ReadUsersetTuples, with every item of its iterator
  abbrev pub read_userset_tuples : C → TupleBackend C → Text → UsersetFilter → List (Tuple C)
  read_userset_tuples empty_struct s store filter =
      map (as_tuple empty_struct) (userset_matches filter (tuples_of s store))

  -- Does the record's user have one of the types, if there are any?
  abbrev pub passes_restrictions : TupleRecord C → List RelationReference → Bool
  passes_restrictions t [] = true
  passes_restrictions t (a ∷ restrictions) = any (is_allowed_type t) (a ∷ restrictions)

  any-allowed_matches :
      (p : TupleRecord C → Bool) (t : TupleRecord C) (restrictions : List RelationReference)
      → any p (allowed_matches t restrictions) ≡ (p t && any (is_allowed_type t) restrictions)
  unfolding allowed_matches
  any-allowed_matches p t [] = ground arith
  any-allowed_matches p t (a ∷ restrictions) = ground (arith, any-allowed_matches p t restrictions)

  any-restricted :
      (p : TupleRecord C → Bool) (t : TupleRecord C) (restrictions : List RelationReference)
      → any p (restricted t restrictions) ≡ (p t && passes_restrictions t restrictions)
  any-restricted p t [] = ground arith
  any-restricted p t (a ∷ restrictions) = any-allowed_matches p t (a ∷ restrictions)

  -- ReadUsersetTuples selects a record with a given property exactly if the store has one with that
  -- property that fits the filter's object and relation, whose user is a userset or a wildcard, and
  -- whose user's type and relation are among the allowed ones, if the filter names any.
  pub any-userset_matches :
      (p : TupleRecord C → Bool) (filter : UsersetFilter) (records : List (TupleRecord C))
      → any p (userset_matches filter records)
        ≡ any
            (λ t.
              p t && fits filter t && passes_restrictions t filter.allowed_user_type_restrictions)
            records
  unfolding userset_matches
  any-userset_matches p filter [] = refl
  any-userset_matches p filter (t ∷ records) =
      let restrictions = filter.allowed_user_type_restrictions in
      ground (
        arith,
        any-userset_matches p filter records,
        any-append p (restricted t restrictions) (userset_matches filter records),
        any-restricted p t restrictions,
      )
