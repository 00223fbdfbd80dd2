-- ===== src/Graph/FastPath/Computed.antt =====
-- The objects that fastPathComputed yields.
use mongopenfga.Prelude.{ℕ, zero, suc, ◌≡◌, ◌∙◌, sym, ap, Bool, false, List, Text, text_eq}
use mongopenfga.Storage.Iterators.Defs.{Answer, answer, failure}
use mongopenfga.Typesystem.Rewrite.{
  Rewrite, Rewrites, this, unset, computed_userset, tuple_to_userset, union_of, intersection_of,
  difference, no_child, child, RelationError,
}
use mongopenfga.Graph.Check.Env.{CheckEnv}
use mongopenfga.Graph.FastPath.Rewrite.{Reader, fast_path_computed}
use mongopenfga.Graph.FastPath.Yields.{Yields}
use mongopenfga.Graph.FastPath.Direct.{ReadsDirect, direct_has, fast_path_direct-Yields}
use mongopenfga.Tuple.{TupleKey}
use mongopenfga.Graph.FastPath.Exact.{IsReadable, AreReadable, relates, rewrite-Yields}

abbrev pub if_defined : (Rewrite → Bool) → Answer RelationError Rewrite → Bool
if_defined test (failure e) = false
if_defined test (answer rewrite) = test rewrite

mutual
  unfolding IsReadable

  map-Readable :
      {D D' P Q : Text → Type 0} (g : (r : Text) → D r → D' r) (f : (r : Text) → P r → Q r)
      (relation : Text) (rewrite : Rewrite)
      → IsReadable D P relation rewrite
      → IsReadable D' Q relation rewrite
  map-Readable g f relation this h = g relation h
  map-Readable g f relation unset h = absurd h
  map-Readable g f relation (computed_userset r) h = f r h
  map-Readable g f relation (tuple_to_userset tupleset r) h = absurd h
  map-Readable g f relation (union_of rs) h = map_all-Readable g f relation rs h
  map-Readable g f relation (intersection_of no_child) h = absurd h
  map-Readable g f relation (intersection_of (child r rs)) h =
      (map-Readable g f relation r h.0, map_all-Readable g f relation rs h.1)
  map-Readable g f relation (difference b s) h =
      (map-Readable g f relation b h.0, map-Readable g f relation s h.1)

  map_all-Readable :
      {D D' P Q : Text → Type 0} (g : (r : Text) → D r → D' r) (f : (r : Text) → P r → Q r)
      (relation : Text) (rs : Rewrites)
      → AreReadable D P relation rs
      → AreReadable D' Q relation rs
  map_all-Readable g f relation no_child h = tt
  map_all-Readable g f relation (child r rs) h =
      (map-Readable g f relation r h.0, map_all-Readable g f relation rs h.1)

module _ {C : Type 0} (env : CheckEnv C) (reader : Reader C) (stored : List (TupleKey C))
    (user object_type : Text) where
  abbrev Readable : Text → Type 0
  Readable = ReadsDirect env reader stored user object_type

  abbrev has : Text → Text → Bool
  has = direct_has env stored user object_type

  -- what a relation relates to the user, with at most `fuel` nested computed relations
  unfoldable pub related : ℕ → Text → Text → Bool
  unfolding relates
  related zero relation x = false
  related (suc fuel) relation x =
      if_defined (λ rewrite. relates has (related fuel) relation rewrite x)
        (env.get_relation object_type relation)

  -- The relation and the computed ones that it needs are defined and can be read, in at most `fuel`
  -- nested steps.
  unfoldable pub IsReadableIn : ℕ → Text → Type 0
  unfolding IsReadable
  IsReadableIn zero relation = ⊥
  IsReadableIn (suc fuel) relation =
      (rewrite : Rewrite) × (env.get_relation object_type relation ≡ answer rewrite)
      × IsReadable Readable (IsReadableIn fuel) relation rewrite

  -- Let the relation and the computed ones that it needs be defined, within the fuel, and every
  -- rewrite among them have an operation, no tuple to userset, and a child in every intersection. For
  -- every direct relation among them, let ReadStartingWithUser give, among the stored tuples, those of
  -- the type and relation whose user it asks for, let the conditions of the valid ones be evaluated
  -- without error, and let the objects of those whose condition holds be valid and strictly ascend.
  -- Then fastPathComputed ends without error and yields, strictly ascending, exactly the objects that
  -- the set operations of the rewrites give, where a direct relation has the objects of the valid
  -- stored tuples of the user, or of the wildcard of the user's type if the relation is publicly
  -- assignable, whose condition holds.
  pub fast_path_computed-Yields :
      (fuel : ℕ) (relation : Text)
      → IsReadableIn fuel relation
      → Yields
          (fast_path_computed env reader user object_type fuel relation)
          (related fuel relation)
  unfolding fast_path_computed IsReadableIn related
  fast_path_computed-Yields zero relation h = absurd h
  fast_path_computed-Yields (suc fuel) relation (rewrite, e, h) =
      let (ms, q, so, mem) =
        rewrite-Yields env reader user object_type
          (fast_path_computed env reader user object_type fuel) has (related fuel) relation rewrite
          (map-Readable (fast_path_direct-Yields env reader stored user object_type)
            (fast_path_computed-Yields fuel) relation rewrite h) in
      (
        ms,
        rw e q,
        so,
        λ x. mem x ∙ ap (if_defined (λ r. relates has (related fuel) relation r x)) (sym e),
      )
