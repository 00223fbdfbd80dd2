-- ===== src/Validation/Context.antt =====
-- The context of a valid tuple's condition has only parameters of that condition.
use mongopenfga.Prelude.{
  ◌≡◌, refl, inl, inr, Bool-cases, Option-cases, true, All, none, some, List, [], ◌∷◌, Text,
  text_eq, text_beq, text_beq_iff, arith,
}
use mongopenfga.Tuple.{TupleKey, RelationshipCondition, get_type}
use mongopenfga.Storage.GoMap.{GoMap, lookup}
use mongopenfga.Storage.Iterators.Defs.{Answer, answer, failure}
use mongopenfga.Condition.{
  EvaluableCondition, ParameterTypes, ParameterTypeError, cast_context_to_typed_parameters, has_key,
  cast-keys,
}
use mongopenfga.Typesystem.Rewrite.{RelationReference}
use mongopenfga.Typesystem.Model.{Relation, TypeSystem, any_reference, get_relation}
use mongopenfga.Validation.{
  fields_of, check_fields, typed_fields, allows_condition, validate_context, validate_conditions_of,
  validate_condition,
}

module _ {Ref VarType Value Param : Type 0} (types : ParameterTypes Ref VarType Value Param) where
  check_fields-keys :
      (fields : GoMap Value) (typed : GoMap Param) (k : Text)
      → check_fields types fields typed ≡ none
      → has_key fields k ≡ true
      → has_key typed k ≡ true
  unfolding check_fields lookup
  check_fields-keys [] typed k h i = absurd (ground (arith, i))
  check_fields-keys ((key, value) ∷ fields) typed k h i = elim (Bool-cases (text_beq key k)) [
    | inl e ↦ ground (arith, h, (text_beq_iff key k).0 e)
    | inr e ↦ ground (arith, h, i, check_fields-keys fields typed k)
  ]

  -- the condition that the model has under the tuple's, and what its context fits
  pub record FitsCondition (t : TypeSystem (EvaluableCondition Ref)) (user : Text)
      (refs : List RelationReference) (given : RelationshipCondition (GoMap Value)) : Type 0 where
    pub condition : EvaluableCondition Ref
    pub is_defined : lookup t.conditions given.name ≡ some condition
    pub is_restriction : any_reference (allows_condition user given.name) refs ≡ true
    pub are_parameters :
        All (λ field. has_key condition.parameters field.0 ≡ true) (fields_of types given.context)

  fields_typed :
      (c : EvaluableCondition Ref) (fields : GoMap Value)
      (a : Answer ParameterTypeError (GoMap Param)) (k : Text)
      → cast_context_to_typed_parameters types c fields ≡ a
      → typed_fields types fields a ≡ none
      → has_key fields k ≡ true
      → has_key c.parameters k ≡ true
  fields_typed c fields (failure e) k q h i = absurd (ground (arith, h))
  fields_typed c fields (answer m) k q h i =
      ground (arith, i, check_fields-keys fields m k h i, cast-keys types c fields m k q)

  -- a key of each of the fields
  every_field :
      (P : Text → Type 0) (fields all : GoMap Value)
      → ((k : Text) → has_key fields k ≡ true → has_key all k ≡ true)
      → ((k : Text) → has_key all k ≡ true → P k)
      → All (λ field. P field.0) fields
  unfolding lookup
  every_field P [] all sub h = tt
  every_field P ((key, value) ∷ fields) all sub h = (
    h key (sub key (ground (arith, text_beq_iff key key))),
    every_field P fields all (λ k i. sub k (ground (arith, i))) h,
  )

  fits :
      (t : TypeSystem (EvaluableCondition Ref)) (user : Text) (refs : List RelationReference)
      (given : RelationshipCondition (GoMap Value)) (c : EvaluableCondition Ref)
      → lookup t.conditions given.name ≡ some c
      → validate_context types c user given refs ≡ none
      → FitsCondition t user refs given
  unfolding validate_context
  fits t user refs given c defined h =
      elim (Bool-cases (any_reference (allows_condition user given.name) refs)) [
        | inl e ↦
            let fields = fields_of types given.context in
            record {
              condition = c;
              is_defined = defined;
              is_restriction = e;
              are_parameters =
                  every_field (λ k. has_key c.parameters k ≡ true) fields fields (λ k i. i)
                    (λ k.
                      fields_typed c fields (cast_context_to_typed_parameters types c fields) k refl
                        (ground (arith, h, e)));
            }
        | inr e ↦ absurd (ground (arith, h))
      ]

  -- If validateCondition accepts a tuple with a condition, of a relation that the model has, then the
  -- model has that condition, some type restriction for the user's type requires it, and every field
  -- of the tuple's context, if it has any, is one of its parameters.
  pub valid_context :
      (t : TypeSystem (EvaluableCondition Ref)) (tk : TupleKey (GoMap Value)) (d : Relation)
      (given : RelationshipCondition (GoMap Value))
      → get_relation t (get_type tk.object) tk.relation ≡ answer d
      → tk.condition ≡ some given
      → validate_condition types t tk ≡ none
      → FitsCondition t tk.user d.directly_related_user_types given
  unfolding validate_condition validate_conditions_of
  valid_context t tk d given found conditional h =
      elim (Option-cases (lookup t.conditions given.name)) [
        | inl e ↦ absurd (ground (arith, found, conditional, h))
        | inr (c, e) ↦
            fits t tk.user d.directly_related_user_types given c e
              (ground (arith, found, conditional, h))
      ]
