-- ===== src/Validation/Loophole.antt =====
-- Tuples that are accepted without the condition that their type restriction asks for.
use mongopenfga.Prelude.{◌≡◌, Bool, true, ◌&&◌, none, List, [], ◌∷◌, Text, ◌==◌, text_eq, arith}
use mongopenfga.Tuple.{TupleKey, get_type}
use mongopenfga.Storage.GoMap.{GoMap}
use mongopenfga.Storage.Iterators.Defs.{answer}
use mongopenfga.Condition.{EvaluableCondition, ParameterTypes}
use mongopenfga.Typesystem.Rewrite.{RelationReference, is_neither}
use mongopenfga.Typesystem.Model.{Relation, TypeSystem, any_reference, get_relation}
use mongopenfga.Validation.{
  allows_no_condition, validate_conditions_of, validate_tupleset_restrictions,
  validate_type_restrictions, validate_condition, validate_tuple_for_read,
}

-- objects of the type may be assigned, and without a condition
abbrev pub is_unconditional_object : Text → RelationReference → Bool
is_unconditional_object user_type ref =
    ref.condition == [] && ref.type_ == user_type && is_neither ref.relation_or_wildcard

unconditional_allows :
    (user : Text) (refs : List RelationReference)
    → any_reference (is_unconditional_object (get_type user)) refs ≡ true
    → any_reference (allows_no_condition user) refs ≡ true
unconditional_allows user [] h = h
unconditional_allows user (ref ∷ refs) h = ground (arith, h, unconditional_allows user refs)

-- If objects of the user's type may be assigned to the relation without a condition, then a tuple
-- without a condition that meets the tupleset and the type restrictions is valid for reading, also if
-- its user is a wildcard or a userset whose own type restriction asks for a condition.
pub condition_optional :
    {Ref VarType Value Param : Type 0} (types : ParameterTypes Ref VarType Value Param)
    (t : TypeSystem (EvaluableCondition Ref)) (tk : TupleKey (GoMap Value)) (d : Relation)
    → get_relation t (get_type tk.object) tk.relation ≡ answer d
    → any_reference (is_unconditional_object (get_type tk.user)) d.directly_related_user_types
      ≡ true
    → tk.condition ≡ none
    → validate_tupleset_restrictions types t tk ≡ none
    → validate_type_restrictions types t tk ≡ none
    → validate_tuple_for_read types t tk ≡ none
unfolding validate_tuple_for_read validate_condition validate_conditions_of
condition_optional types t tk d found objects unconditional tupleset restricted = ground (
  arith,
  found,
  unconditional,
  tupleset,
  restricted,
  unconditional_allows tk.user d.directly_related_user_types objects,
)
