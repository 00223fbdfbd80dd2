-- ===== src/Validation/Restrictions.antt =====
-- The errors of a validation, and its tests on type restrictions.
use mongopenfga.Prelude.{
  ◌≡◌, refl, arith, Bool, true, false, not, ◌&&◌, Option, none, some, List, [], Text, ◌==◌, text_eq,
  if◌then◌else◌,
}
use mongopenfga.Tuple.{
  TupleKey, RelationshipCondition, wildcard, split_object, split_object_relation, get_type,
  is_object_relation, is_typed_wildcard, is_wildcard, is_valid_object, is_valid_relation,
  is_valid_user,
}
use mongopenfga.Tuple as Tuple
use mongopenfga.Storage.Iterators.Defs.{Answer, answer, failure}
use mongopenfga.Condition.{ParameterTypeError}
use mongopenfga.Typesystem.Rewrite.{
  Rewrite, this, unset, RelationError, RelationReference, relation_of, is_wildcard_ref, is_neither,
}
use mongopenfga.Typesystem.Model.{any_reference}

pub data ValidationError : Type 0 where
  -- an error of the type system, passed on
  undefined : RelationError → ValidationError
  -- InvalidTupleError with its cause
  invalid_tuple : ValidationError → ValidationError
  rewrite_of_tupleset wildcard_of_tupleset user_of_tupleset : ValidationError
  type_undefined restricted_userset restricted_wildcard restricted_type : ValidationError
  -- InvalidConditionalTupleError with its cause
  condition_missing undefined_condition invalid_condition : ValidationError
  context_error : ParameterTypeError → ValidationError
  invalid_parameter : Text → ValidationError
  invalid_object object_is_wildcard invalid_relation invalid_user invalid_user_form :
      ValidationError
  type_not_found : Text → ValidationError
  relation_not_found : Text → Text → ValidationError

-- What a Go function of this file returns: an error, or nil.
abbrev pub Err : Type 0
Err = Option ValidationError

-- if err != nil { return err }
abbrev pub unless_err : Err → Err → Err
unless_err (some e) rest = some e
unless_err none rest = rest

abbrev pub wrapped : Err → Err
wrapped none = none
wrapped (some e) = some (invalid_tuple e)

pub wrapped-none : (e : Err) → wrapped e ≡ none → e ≡ none
wrapped-none none h = refl
wrapped-none (some e) h = absurd (ground (arith, h))

pub unless_none : (a b : Err) → unless_err a b ≡ none → (a ≡ none) × (b ≡ none)
unless_none none b h = (refl, h)
unless_none (some e) b h = absurd (ground (arith, h))

-- the rest of a function after a call of the type system
abbrev pub with_answer : {A : Type 0} → Answer RelationError A → (A → Err) → Err
with_answer (failure e) rest = some (undefined e)
with_answer (answer a) rest = rest a

-- a rewrite with an operation that is not `this`
abbrev pub is_rewritten : Rewrite → Bool
is_rewritten this = false
is_rewritten unset = false
is_rewritten _ = true

abbrev pub fails_unless : Bool → ValidationError → Err
fails_unless true e = none
fails_unless false e = some e

-- the tests of validateTypeRestrictions and validateCondition on one type restriction
abbrev pub is_userset_of : Text → Text → RelationReference → Bool
is_userset_of user_type user_rel ref =
    ref.type_ == user_type && relation_of ref.relation_or_wildcard == user_rel

abbrev pub is_wildcard_of : Text → RelationReference → Bool
is_wildcard_of user_type ref = ref.type_ == user_type && is_wildcard_ref ref.relation_or_wildcard

abbrev pub is_object_of : Text → RelationReference → Bool
is_object_of user_type ref =
    ref.type_ == user_type
    && not (is_wildcard_ref ref.relation_or_wildcard)
    && relation_of ref.relation_or_wildcard == []

-- the loop of validateTypeRestrictions, on the relation's restrictions in the metadata
unfoldable pub is_restriction_met : Text → List RelationReference → Bool
is_restriction_met user refs =
    let user_type = get_type user in
    if is_object_relation user
    then any_reference (is_userset_of user_type (Tuple.get_relation user)) refs
    else if is_typed_wildcard user
    then any_reference (is_wildcard_of user_type) refs
    else any_reference (is_object_of user_type) refs

abbrev pub restriction_error : Text → ValidationError
restriction_error user =
    if is_object_relation user
    then restricted_userset
    else if is_typed_wildcard user
    then restricted_wildcard
    else restricted_type

-- does an iteration of the loop of validateCondition for a missing condition return nil?
abbrev pub allows_no_condition : Text → RelationReference → Bool
allows_no_condition user ref =
    let relation = relation_of ref.relation_or_wildcard in
    if not (ref.condition == [])
    then false
    else if not (ref.type_ == get_type user)
    then false
    else if is_neither ref.relation_or_wildcard
    then true
    else if not (relation == []) && not (relation == Tuple.get_relation user)
    then false
    else if is_wildcard_ref ref.relation_or_wildcard && not (is_typed_wildcard user)
    then false
    else true

abbrev pub allows_condition : Text → Text → RelationReference → Bool
allows_condition user name ref = ref.type_ == get_type user && ref.condition == name
