-- ===== src/Memory/Selected.antt =====
-- What ReadUsersetTuples selects, by the forms of the users.
use mongopenfga.Prelude.{
  ◌≡◌, ◌≢◌, refl, ◌∙◌, ap, Bool, true, false, ◌&&◌, ◌||◌, inl, inr, List, [], ◌∷◌, All, arith, Text,
  ◌==◌, text_eq, text_beq_refl,
}
use mongopenfga.Tuple.{plain, wildcard, user, user_set, new_tuple_key, get_type, get_relation}
use mongopenfga.Tuple.Valid.{ObjectShape, UserShape}
use mongopenfga.Tuple.Users.{
  Run-ne_nil, object-ne, object-object, relation-object, object-plain, relation-plain,
  object-userset_whole, relation-userset, user_type-plain, user_type-object, user_type-userset,
}
use mongopenfga.Storage.{TupleRecord}
use mongopenfga.Typesystem.Rewrite.{RelationReference, relation_of}
use mongopenfga.Memory.State.{match_record}
use mongopenfga.Memory.Match.{ne_nil, beq_comm}
use mongopenfga.Memory.Usersets.{
  UsersetFilter, any, is_user_set, passes_restrictions, fits, userset_matches, any-userset_matches,
}
use mongopenfga.Tuple as Tuple

-- a userset `type:id#relation`, a typed wildcard `type:*`, or `*`
abbrev pub is_set : (u : Text) → UserShape u → Bool
is_set u (inl r) = u == wildcard
is_set u (inr (inl o)) = o.id == wildcard
is_set u (inr (inr s)) = true

-- the type and the relation of the user, of which one without ':' has no type
abbrev pub type_of_user : (u : Text) → UserShape u → Text
type_of_user u (inl r) = []
type_of_user u (inr (inl o)) = o.type_
type_of_user u (inr (inr s)) = s.type_

abbrev pub relation_of_user : (u : Text) → UserShape u → Text
relation_of_user u (inl r) = []
relation_of_user u (inr (inl o)) = []
relation_of_user u (inr (inr s)) = s.relation

abbrev pub permitted : (u : Text) → UserShape u → List RelationReference → Bool
permitted u s [] = true
permitted u s (a ∷ restrictions) =
    any
      (λ r.
        r.type_ == type_of_user u s && relation_of r.relation_or_wildcard == relation_of_user u s)
      (a ∷ restrictions)

set-is_set :
    (u : Text) (s : UserShape u) → is_user_set (Tuple.get_user_type_from_user u) ≡ is_set u s
set-is_set u (inl r) = ground (arith, user_type-plain u r)
set-is_set u (inr (inl o)) = ground (arith, user_type-object u o)
set-is_set u (inr (inr s)) = ground (arith, user_type-userset u s)

type-type_of_user : (u : Text) (s : UserShape u) → get_type u ≡ type_of_user u s
type-type_of_user u (inl r) = ap (λ p. p.0) (object-plain r)
type-type_of_user u (inr (inl o)) = ap (λ p. p.0) (object-object o)
type-type_of_user u (inr (inr s)) = ap (λ p. p.0) (object-userset_whole s)

relation-relation_of_user : (u : Text) (s : UserShape u) → get_relation u ≡ relation_of_user u s
relation-relation_of_user u (inl r) = ap (λ p. p.1) (relation-plain r)
relation-relation_of_user u (inr (inl o)) = ap (λ p. p.1) (relation-object o)
relation-relation_of_user u (inr (inr s)) = ap (λ p. p.1) (relation-userset s)

module _ {C : Type 0} where
  abbrev pub any_shaped :
      ((t : TupleRecord C) → UserShape t.user → Bool)
      → (records : List (TupleRecord C)) → All (λ t. UserShape t.user) records
      → Bool
  any_shaped spec [] shapes = false
  any_shaped spec (t ∷ records) (s, shapes) = spec t s || any_shaped spec records shapes

  passes-permitted :
      (t : TupleRecord C) (s : UserShape t.user) (restrictions : List RelationReference)
      → passes_restrictions t restrictions ≡ permitted t.user s restrictions
  passes-permitted t s [] = refl
  passes-permitted t s (a ∷ restrictions) =
      ap
        (λ x.
          any (λ r. r.type_ == x && relation_of r.relation_or_wildcard == get_relation t.user)
            (a ∷ restrictions))
        (type-type_of_user t.user s)
      ∙ ap
          (λ x.
            any (λ r. r.type_ == type_of_user t.user s && relation_of r.relation_or_wildcard == x)
              (a ∷ restrictions))
          (relation-relation_of_user t.user s)

  module _ (filter : UsersetFilter) (o : ObjectShape filter.object)
      (ne : filter.relation ≢ []) where
    -- the record is of the filter's object and relation, and its user is a userset or a wildcard,
    -- and of one of the types and relations that the filter names, if it names any
    abbrev pub is_selected : (t : TupleRecord C) → UserShape t.user → Bool
    is_selected t s =
        t.object_type == o.type_
        && t.object_id == o.id
        && t.relation == filter.relation
        && is_set t.user s
        && permitted t.user s filter.allowed_user_type_restrictions

    fits-selected :
        (t : TupleRecord C) (s : UserShape t.user)
        → fits filter t ≡ (
            t.object_type == o.type_
            && t.object_id == o.id
            && t.relation == filter.relation
            && is_set t.user s)
    unfolding match_record
    fits-selected t s = ground (
      arith,
      object-object o,
      Run-ne_nil plain o.id o.id-Run,
      object-ne [] refl o,
      ne_nil filter.relation ne,
      text_beq_refl [],
      beq_comm o.type_ t.object_type,
      beq_comm o.id t.object_id,
      set-is_set t.user s,
    )

    shaped :
        (p : TupleRecord C → Bool) (records : List (TupleRecord C))
        (shapes : All (λ t. UserShape t.user) records)
        → any
            (λ t.
              p t && fits filter t && passes_restrictions t filter.allowed_user_type_restrictions)
            records
          ≡ any_shaped (λ t s. p t && is_selected t s) records shapes
    shaped p [] shapes = refl
    shaped p (t ∷ records) (s, shapes) = ground (
      arith,
      fits-selected t s,
      passes-permitted t s filter.allowed_user_type_restrictions,
      shaped p records shapes,
    )

    -- For a filter with an object `type:id` and a relation, and records whose users have a valid form,
    -- ReadUsersetTuples selects a record with a given property exactly if the store has one with that
    -- property, of that type, id and relation, whose user is `type:id#relation`, `type:*` or `*`, and
    -- has the type and the relation of one of the allowed ones, if the filter names any.
    pub userset_matches-selected :
        (p : TupleRecord C → Bool) (records : List (TupleRecord C))
        (shapes : All (λ t. UserShape t.user) records)
        → any p (userset_matches filter records)
          ≡ any_shaped (λ t s. p t && is_selected t s) records shapes
    userset_matches-selected p records shapes =
        any-userset_matches p filter records ∙ shaped p records shapes
