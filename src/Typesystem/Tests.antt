-- ===== src/Typesystem/Tests.antt =====
-- Concrete models: computed relations with and without a cycle, and a difference in an intersection.
use mongopenfga.Prelude.{
  ◌≡◌, ap, ◌∙◌, refl, sym, ◌⊎◌, inl, inr, Bool, Bool-cases, text_beq_iff, true, false, Option, none,
  some, [], ◌∷◌, Text, bytes, text_eq, text_beq, arith,
}
use mongopenfga.Storage.GoMap.{lookup, insert}
use mongopenfga.Typesystem.Rewrite.{
  Rewrite, this, computed_userset, union_of, intersection_of, difference, no_child, child,
}
use mongopenfga.Typesystem.Model.{
  TypeDefinition, TypeSystem, new, add_type_definitions, td_relations, td_ttus, flatten_userset,
  get_relation, get_relations, direct_relation_reference,
}
use mongopenfga.Typesystem.Cycle.{has, has_cycle, cycle_from, cycle_in}
use mongopenfga.Typesystem.Cycle.Decide.{Decided, has_cycle_decides}
use mongopenfga.Typesystem.Model.{Relation, found, and_then}
use mongopenfga.Storage.GoMap.{GoMap}
use mongopenfga.Typesystem.Rewrite.{RelationError, relation_undefined}
use mongopenfga.Storage.Iterators.Defs.{Answer, answer}
use mongopenfga.Typesystem.Valid.{is_userset_rewrite_valid}
use mongopenfga.Typesystem.Valid.Safe.{IsValidType, has_cycle_total}
use mongopenfga.Typesystem.Walk.{value, walk_userset_rewrite, preorder, walk-first, pure}
use mongopenfga.Typesystem.Involves.{
  involves, exclusion_operator, relation_involves, exclusion-hidden,
}

abbrev viewer : Text
viewer = bytes "viewer"

abbrev editor : Text
editor = bytes "editor"

abbrev doc : TypeDefinition
doc = record {
  type_ = bytes "doc";
  relations =
      (viewer, union_of (child this (child (computed_userset editor) no_child)))
      ∷ (editor, union_of (child this (child (computed_userset viewer) no_child)))
      ∷ (
        bytes "secret",
        intersection_of (child (difference this (computed_userset viewer)) no_child),
      )
      ∷ [];
  metadata =
      (viewer, direct_relation_reference (bytes "user") [] ∷ [])
      ∷ (editor, direct_relation_reference (bytes "user") [] ∷ [])
      ∷ (bytes "secret", direct_relation_reference (bytes "user") [] ∷ [])
      ∷ [];
}

abbrev docs : TypeSystem Unit
docs = new (record { schema_version = bytes "1.1"; type_definitions = doc ∷ []; conditions = [] })

viewer_cycles : has_cycle docs (bytes "doc") 3 viewer ≡ has true
unfolding new add_type_definitions td_relations td_ttus flatten_userset get_relation get_relations
    lookup insert has_cycle cycle_from cycle_in text_beq
viewer_cycles = refl

has_cycle_decides_example :
    Decided docs (bytes "doc") viewer (has_cycle docs (bytes "doc") 3 viewer)
unfolding new add_type_definitions td_relations td_ttus flatten_userset lookup insert text_beq
has_cycle_decides_example = has_cycle_decides docs (bytes "doc") 3 viewer (omega arith)

-- the second operand, in preorder, of a union
abbrev computed : Rewrite → Option Text
computed (computed_userset r) = some r
computed _ = none

walk-first_example :
    (walk_userset_rewrite
      (pure computed)
      (union_of (child this (child (computed_userset editor) no_child)))
      tt).0
    ≡ value editor
unfolding preorder
walk-first_example =
    walk-first computed (union_of (child this (child (computed_userset editor) no_child)))

exclusion-hidden_example :
    (relation_involves docs exclusion_operator 5 (bytes "doc") (bytes "secret") []).0
    ≡ involves false
unfolding new add_type_definitions td_relations td_ttus flatten_userset get_relation get_relations
    lookup insert text_beq
exclusion-hidden_example =
    exclusion-hidden docs 4 (bytes "doc") (bytes "secret")
      (record {
        name = bytes "secret";
        rewrite = intersection_of (child (difference this (computed_userset viewer)) no_child);
        directly_related_user_types = direct_relation_reference (bytes "user") [] ∷ [];
      })
      (child (difference this (computed_userset viewer)) no_child) refl refl (refl, tt)

-- a type whose viewers are its editors
abbrev flat : TypeSystem Unit
flat = new (record {
  schema_version = bytes "1.1";
  type_definitions =
      record {
        type_ = bytes "doc";
        relations = (viewer, computed_userset editor) ∷ (editor, this) ∷ [];
        metadata = (editor, direct_relation_reference (bytes "user") [] ∷ []) ∷ [];
      }
      ∷ [];
  conditions = [];
})

abbrev flat_viewer : Relation
flat_viewer = record {
  name = viewer;
  rewrite = computed_userset editor;
  directly_related_user_types = [];
}

abbrev flat_editor : Relation
flat_editor = record {
  name = editor;
  rewrite = this;
  directly_related_user_types = direct_relation_reference (bytes "user") [] ∷ [];
}

abbrev flat_relations : GoMap Relation
flat_relations = (editor, flat_editor) ∷ (viewer, flat_viewer) ∷ []

flat-get_relations : get_relations flat (bytes "doc") ≡ answer flat_relations
unfolding new add_type_definitions td_relations td_ttus flatten_userset get_relations lookup insert
    text_beq
flat-get_relations = refl

relation-cases :
    (r : Text) (d : Relation)
    → found relation_undefined (lookup flat_relations r) ≡ answer d
    → ((r ≡ viewer) × (d ≡ flat_viewer)) ⊎ ((r ≡ editor) × (d ≡ flat_editor))
unfolding lookup
relation-cases r d q = elim (Bool-cases (text_beq editor r)) [
  | inl e ↦ inr (sym ((text_beq_iff editor r).0 e), ground (arith, q, e))
  | inr e ↦ elim (Bool-cases (text_beq viewer r)) [
    | inl f ↦ inl (sym ((text_beq_iff viewer r).0 f), ground (arith, q, e, f))
    | inr f ↦ absurd (ground (arith, q, e, f))
  ]
]

flat-relations :
    (r : Text) (d : Relation)
    → get_relation flat (bytes "doc") r ≡ answer d
    → ((r ≡ viewer) × (d ≡ flat_viewer)) ⊎ ((r ≡ editor) × (d ≡ flat_editor))
unfolding get_relation
flat-relations r d q = relation-cases r d (
    sym (
      ap
        (λ (rs : Answer RelationError (GoMap Relation)).
          and_then rs (λ relations. found relation_undefined (lookup relations r)))
        flat-get_relations)
    ∙ q)

flat-IsValidType : IsValidType flat (bytes "doc")
unfolding new add_type_definitions td_relations td_ttus flatten_userset get_relation get_relations
    lookup insert text_beq is_userset_rewrite_valid
flat-IsValidType r d q = elim (flat-relations r d q) [
  | inl (e, f) ↦ rw (e, f) refl
  | inr (e, f) ↦ rw (e, f) refl
]

has_cycle_total_example : (b : Bool) × (has_cycle flat (bytes "doc") 2 viewer ≡ has b)
unfolding new add_type_definitions td_relations td_ttus flatten_userset get_relation get_relations
    lookup insert text_beq
has_cycle_total_example =
    has_cycle_total flat (bytes "doc") 2 viewer flat_viewer flat-IsValidType refl (omega arith)
