-- ===== src/Typesystem/Rewrite.antt =====
-- The rewrites of relations, and references to what a relation may be assigned.
use mongopenfga.Prelude.{Bool, true, false, Text, []}

-- openfgav1.Userset, a relation's rewrite; `unset` is one with no operation.
mutual
  pub data Rewrite : Type 0 where
    this unset : Rewrite
    computed_userset : Text → Rewrite
    -- the tupleset relation and the computed relation
    tuple_to_userset : Text → Text → Rewrite
    union_of intersection_of : Rewrites → Rewrite
    difference : Rewrite → Rewrite → Rewrite

  pub data Rewrites : Type 0 where
    no_child : Rewrites
    child : Rewrite → Rewrites → Rewrites

-- the errors of typesystem.GetRelation
pub data RelationError : Type 0 where
  object_type_undefined relation_undefined : RelationError

-- the field RelationOrWildcard of openfgav1.RelationReference; `neither` is nil
pub data RelationOrWildcard : Type 0 where
  neither wildcard_ref : RelationOrWildcard
  relation_ref : Text → RelationOrWildcard

-- openfgav1.RelationReference
pub record RelationReference : Type 0 where
  pub type_ : Text
  pub relation_or_wildcard : RelationOrWildcard
  pub condition : Text

-- GetRelation and GetWildcard of a reference
abbrev pub relation_of : RelationOrWildcard → Text
relation_of (relation_ref r) = r
relation_of _ = []

abbrev pub is_wildcard_ref : RelationOrWildcard → Bool
is_wildcard_ref wildcard_ref = true
is_wildcard_ref _ = false

abbrev pub is_neither : RelationOrWildcard → Bool
is_neither neither = true
is_neither _ = false
