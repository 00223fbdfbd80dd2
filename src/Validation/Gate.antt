-- ===== src/Validation/Gate.antt =====
-- The type system's tests that a check makes before it reads tuples are open for valid tuples.
use mongopenfga.Prelude.{
  ◌≡◌, refl, ap, inl, inr, Bool-cases, Bool, true, false, not, ◌&&◌, ◌||◌, none, List, [], ◌∷◌,
  Text, ◌==◌, text_eq, text_beq, text_beq_iff, text_beq_refl, arith, if◌then◌else◌, All,
}
use mongopenfga.Tuple.{TupleKey, get_type, is_object_relation, is_typed_wildcard}
use mongopenfga.Tuple as Tuple
use mongopenfga.Storage.GoMap.{GoMap, lookup}
use mongopenfga.Storage.Iterators.Defs.{Answer, answer}
use mongopenfga.Condition.{EvaluableCondition, ParameterTypes}
use mongopenfga.Typesystem.Rewrite.{
  RelationError, RelationOrWildcard, neither, wildcard_ref, relation_ref, RelationReference,
  relation_of, is_wildcard_ref, is_neither,
}
use mongopenfga.Typesystem.Model.{
  AuthorizationModel, Relation, TypeSystem, new, user_types, any_reference, same_target,
  relation_equals, direct_relation_reference, is_schema_version_supported, get_relation,
  is_directly_related, is_publicly_assignable, has_type_info,
}
use mongopenfga.Typesystem.Built.{new-IsBuilt, IsBuilt, get_relation-Defined}
use mongopenfga.Validation.{
  wrapped-none, unless_none, is_userset_of, is_wildcard_of, is_object_of, is_restriction_met,
  validate_tuple_for_read, validate_type_restrictions, validate_tupleset_restrictions,
  validate_condition, validate_typed, fails_unless, wrapped, ValidationError, restriction_error,
  with_answer,
}

-- a reference to a relation names it
abbrev pub is_named : RelationOrWildcard → Bool
is_named (relation_ref r) = not (r == [])
is_named _ = true

abbrev pub AllNamed : List RelationReference → Type 0
AllNamed refs = All (λ ref. is_named ref.relation_or_wildcard ≡ true) refs

any_implied :
    (p q : RelationReference → Bool) (refs : List RelationReference)
    → ((ref : RelationReference)
        → is_named ref.relation_or_wildcard ≡ true
        → p ref ≡ true
        → q ref ≡ true)
    → AllNamed refs
    → any_reference p refs ≡ true
    → any_reference q refs ≡ true
any_implied p q [] implies named h = h
any_implied p q (ref ∷ refs) implies named h = elim (Bool-cases (p ref)) [
  | inl e ↦ ground (arith, implies ref named.0 e)
  | inr e ↦ ground (arith, h, any_implied p q refs implies named.1)
]

userset-equals :
    (ut rel : Text) (ref : RelationReference)
    → (rel == []) ≡ false
    → is_userset_of ut rel ref ≡ true
    → relation_equals (direct_relation_reference ut rel) ref ≡ true
unfolding relation_equals same_target
userset-equals ut rel ref named h = elim (Bool-cases (text_beq ref.type_ ut)) [
  | inl e ↦ ground (
    arith,
    h,
    (text_beq_iff ref.type_ ut).0 e,
    text_beq_refl ut,
    text_beq_refl rel,
    text_beq_iff (relation_of ref.relation_or_wildcard) rel,
  )
  | inr e ↦ absurd (ground (arith, h))
]

named-nonempty :
    (r : RelationOrWildcard)
    → is_named r ≡ true
    → is_wildcard_ref r ≡ false
    → (relation_of r == []) ≡ true
    → is_neither r ≡ true
named-nonempty neither named w h = refl
named-nonempty wildcard_ref named w h = absurd (ground (arith, w))
named-nonempty (relation_ref r) named w h = absurd (ground (arith, named, h))

object-equals :
    (ut : Text) (ref : RelationReference)
    → is_named ref.relation_or_wildcard ≡ true
    → is_object_of ut ref ≡ true
    → relation_equals (direct_relation_reference ut []) ref ≡ true
unfolding relation_equals same_target text_beq
object-equals ut ref named h = elim (Bool-cases (text_beq ref.type_ ut)) [
  | inl e ↦ ground (
    arith,
    h,
    (text_beq_iff ref.type_ ut).0 e,
    text_beq_refl ut,
    named-nonempty ref.relation_or_wildcard named,
  )
  | inr e ↦ absurd (ground (arith, h))
]

-- The test that a check makes before it reads the tuples of the kind that the given one is of.
abbrev pub read_gate : {C Cond : Type 0} → TypeSystem Cond → TupleKey C → Answer RelationError Bool
read_gate t tk =
    let object_type = get_type tk.object in
    let user_type = get_type tk.user in
    let relation = Tuple.get_relation tk.user in
    if not (is_object_relation tk.user) && is_typed_wildcard tk.user
    then is_publicly_assignable t object_type tk.relation user_type
    else is_directly_related t object_type tk.relation
        (direct_relation_reference user_type relation)

-- A relation without a type is none.
abbrev pub has_known_form : Text → Bool
has_known_form user =
    is_object_relation user || is_typed_wildcard user || Tuple.get_relation user == []

object-gate :
    (ut rel : Text) (refs : List RelationReference)
    → AllNamed refs
    → (rel == []) ≡ true
    → any_reference (is_object_of ut) refs ≡ true
    → any_reference (relation_equals (direct_relation_reference ut rel)) refs ≡ true
object-gate ut rel refs named e h = rw ((text_beq_iff rel []).0 e) (
    any_implied (is_object_of ut) (relation_equals (direct_relation_reference ut [])) refs
      (object-equals ut) named h)

userset-gate :
    (ut rel : Text) (refs : List RelationReference)
    → AllNamed refs
    → (rel == []) ≡ false
    → any_reference (is_userset_of ut rel) refs ≡ true
    → any_reference (relation_equals (direct_relation_reference ut rel)) refs ≡ true
userset-gate ut rel refs named e h =
    any_implied (is_userset_of ut rel) (relation_equals (direct_relation_reference ut rel)) refs
      (λ ref n p. userset-equals ut rel ref e p) named h

restriction-gate :
    (user : Text) (refs : List RelationReference)
    → AllNamed refs
    → has_known_form user ≡ true
    → is_restriction_met user refs ≡ true
    → (if not (is_object_relation user) && is_typed_wildcard user
        then any_reference (is_wildcard_of (get_type user)) refs
        else any_reference
            (relation_equals (direct_relation_reference (get_type user) (Tuple.get_relation user)))
            refs)
      ≡ true
unfolding is_restriction_met
restriction-gate user refs named form h = elim (Bool-cases (is_object_relation user)) [
  | inl e ↦ ground (arith, h, userset-gate (get_type user) (Tuple.get_relation user) refs named)
  | inr e ↦
      ground (arith, h, form, object-gate (get_type user) (Tuple.get_relation user) refs named)
]

met : (b : Bool) (e : ValidationError) → fails_unless b e ≡ none → b ≡ true
met true e h = refl
met false e h = absurd (ground (arith, h))

module _ {Ref VarType Value Param : Type 0} (types : ParameterTypes Ref VarType Value Param) where
  -- what validateTypeRestrictions accepts, with the restrictions that New has kept
  type_restrictions-met :
      (t : TypeSystem (EvaluableCondition Ref)) (tk : TupleKey (GoMap Value)) (d : Relation)
      → IsBuilt t
      → get_relation t (get_type tk.object) tk.relation ≡ answer d
      → validate_type_restrictions types t tk ≡ none
      → is_restriction_met tk.user d.directly_related_user_types ≡ true
  unfolding validate_type_restrictions
  type_restrictions-met t tk d b found h =
      let defined = get_relation-Defined t (get_type tk.object) tk.relation d b found in
      let refs = user_types (lookup defined.definition.metadata tk.relation) in
      met (is_restriction_met tk.user d.directly_related_user_types) (restriction_error tk.user) (
        ground (
          arith,
          h,
          defined.of_type,
          ap (λ (r : Relation). r.directly_related_user_types) defined.is_entry,
        ))

  abbrev pub IsValid : TypeSystem (EvaluableCondition Ref) → TupleKey (GoMap Value) → Type 0
  IsValid t tk =
      (validate_type_restrictions types t tk ≡ none) × (validate_condition types t tk ≡ none)

  pub validate_tuple_for_read-parts :
      (t : TypeSystem (EvaluableCondition Ref)) (tk : TupleKey (GoMap Value)) (d : Relation)
      → is_schema_version_supported t.schema_version ≡ true
      → get_relation t (get_type tk.object) tk.relation ≡ answer d
      → validate_tuple_for_read types t tk ≡ none
      → IsValid t tk
  unfolding validate_tuple_for_read
  validate_tuple_for_read-parts t tk d supported found h =
      let after =
        unless_none (wrapped (validate_tupleset_restrictions types t tk))
          (with_answer (has_type_info t (get_type tk.object) tk.relation)
            (validate_typed types t tk))
          h in
      let parts =
        unless_none (wrapped (validate_type_restrictions types t tk))
          (validate_condition types t tk) (ground (arith, after.1, found, supported)) in
      (wrapped-none (validate_type_restrictions types t tk) parts.0, parts.1)

  -- A tuple that is valid for reading, of a model with a supported schema version, whose type
  -- restrictions name their relations, and whose user has a type if it has a relation, passes the test
  -- that a check makes before it reads tuples of that kind: IsPubliclyAssignable for a wildcard, and
  -- IsDirectlyRelated for an object or a userset.
  pub valid-read_gate :
      (model : AuthorizationModel (EvaluableCondition Ref)) (tk : TupleKey (GoMap Value))
      (d : Relation)
      → is_schema_version_supported (new model).schema_version ≡ true
      → get_relation (new model) (get_type tk.object) tk.relation ≡ answer d
      → AllNamed d.directly_related_user_types
      → has_known_form tk.user ≡ true
      → validate_tuple_for_read types (new model) tk ≡ none
      → read_gate (new model) tk ≡ answer true
  valid-read_gate model tk d supported found named form h =
      let parts = validate_tuple_for_read-parts (new model) tk d supported found h in
      let restricted =
        restriction-gate tk.user d.directly_related_user_types named form
          (type_restrictions-met (new model) tk d (new-IsBuilt model) found parts.0) in
      ground (arith, found, restricted)
