-- ===== src/Typesystem/Built.antt =====
-- What New keeps of a model: the relations of a type are those of its definition.
use mongopenfga.Prelude.{
  ◌≡◌, refl, inl, inr, Bool-cases, Option-cases, Option, none, some, List, [], ◌∷◌, Text, text_beq,
  text_beq_iff, arith,
}
use mongopenfga.Storage.GoMap.{GoMap, lookup, lookup-insert}
use mongopenfga.Storage.Iterators.Defs.{answer}
use mongopenfga.Typesystem.Rewrite.{Rewrite}
use mongopenfga.Typesystem.Model.{
  TypeDefinition, AuthorizationModel, Relation, TypeSystem, relation_entry, td_relations,
  add_type_definition, add_type_definitions, new, get_relations, get_relation,
}

abbrev entry_of : TypeDefinition → Text → Option Rewrite → Option Relation
entry_of td name none = none
entry_of td name (some rewrite) = some (relation_entry td name rewrite)

lookup-td_relations :
    (td : TypeDefinition) (rs : GoMap Rewrite) (name : Text)
    → lookup (td_relations td rs) name ≡ entry_of td name (lookup rs name)
unfolding lookup td_relations
lookup-td_relations td [] name = refl
lookup-td_relations td ((other, rewrite) ∷ rest) name = elim (Bool-cases (text_beq other name)) [
  | inl e ↦ rw ((text_beq_iff other name).0 e) (
      ground (
        arith,
        e,
        (text_beq_iff name name).1 refl,
        lookup-insert (td_relations td rest) name (relation_entry td name rewrite) name,
      ))
  | inr e ↦ ground (
    arith,
    lookup-insert (td_relations td rest) other (relation_entry td other rewrite) name,
    lookup-td_relations td rest name,
  )
]

module _ {Cond : Type 0} where
  -- The relations of every type are built from its definition.
  abbrev pub IsBuilt : TypeSystem Cond → Type 0
  IsBuilt t =
      (o : Text) (td : TypeDefinition)
      → lookup t.type_definitions o ≡ some td
      → lookup t.relations o ≡ some (td_relations td td.relations)

  add-IsBuilt :
      (t : TypeSystem Cond) (td : TypeDefinition) → IsBuilt t → IsBuilt (add_type_definition t td)
  add-IsBuilt t td b o found h = ground (
    arith,
    h,
    b o found,
    lookup-insert t.type_definitions td.type_ td o,
    lookup-insert t.relations td.type_ (td_relations td td.relations) o,
  )

  add_all-IsBuilt :
      (t : TypeSystem Cond) (tds : List TypeDefinition)
      → IsBuilt t
      → IsBuilt (add_type_definitions t tds)
  unfolding add_type_definitions
  add_all-IsBuilt t [] b = b
  add_all-IsBuilt t (td ∷ tds) b =
      add_all-IsBuilt (add_type_definition t td) tds (add-IsBuilt t td b)

  pub new-IsBuilt : (model : AuthorizationModel Cond) → IsBuilt (new model)
  unfolding new lookup
  new-IsBuilt model =
      add_all-IsBuilt
        (record {
          type_definitions = [];
          relations = [];
          conditions = model.conditions;
          ttu_relations = [];
          schema_version = model.schema_version;
        })
        model.type_definitions (λ o td h. absurd (ground (arith, h)))

  -- the definition of the type of a relation that was found
  pub record Defined (t : TypeSystem Cond) (o r : Text) (d : Relation) : Type 0 where
    pub definition : TypeDefinition
    pub rewrite : Rewrite
    pub of_type : lookup t.type_definitions o ≡ some definition
    pub of_relation : lookup definition.relations r ≡ some rewrite
    pub is_entry : d ≡ relation_entry definition r rewrite

  pub get_relation-Defined :
      (t : TypeSystem Cond) (o r : Text) (d : Relation)
      → IsBuilt t
      → get_relation t o r ≡ answer d
      → Defined t o r d
  unfolding get_relation get_relations
  get_relation-Defined t o r d b h = elim (Option-cases (lookup t.type_definitions o)) [
    | inl e ↦ absurd (ground (arith, h))
    | inr (td, e) ↦ elim (Option-cases (lookup td.relations r)) [
      | inl e' ↦ absurd (ground (arith, h, b o td e, lookup-td_relations td td.relations r))
      | inr (rewrite, e') ↦ record {
        definition = td;
        rewrite = rewrite;
        of_type = e;
        of_relation = e';
        is_entry = ground (arith, h, b o td e, lookup-td_relations td td.relations r);
      }
    ]
  ]
