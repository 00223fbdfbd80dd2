-- ===== src/Graph/Check/Member.antt =====
-- Membership in a relation as an inductive relation, which says nothing of depth, order, cycles or
-- concurrency. `Denied` stands for what is taken as the denial of a subtracted operand.
use mongopenfga.Prelude.{In, ◌≡◌, true, some, List, Text, ◌==◌, text_eq}
use mongopenfga.Tuple.{
  TupleKey, new_tuple_key, split_object, split_object_relation, get_type, is_self_defining,
  is_typed_wildcard,
}
use mongopenfga.Storage.Iterators.Defs.{answer}
use mongopenfga.Typesystem.Rewrite.{
  Rewrite, Rewrites, this, computed_userset, tuple_to_userset, union_of, intersection_of,
  difference, child, no_child,
}
use mongopenfga.Graph.Check.Env.{CheckEnv}

-- a tuple for every object of the type of the key's user
abbrev pub IsPublic : {C : Type 0} → TupleKey C → TupleKey C → Type 0
IsPublic key t =
    (is_typed_wildcard (split_object_relation t.user).0 ≡ true)
    × ((get_type key.user == get_type (split_object_relation t.user).0) ≡ true)

module _ {C : Type 0} (env : CheckEnv C) (Denied : Rewrite → TupleKey C → Type 0) where
  -- a tuple that is valid for the model and whose condition is met
  abbrev pub IsUsable : TupleKey C → Type 0
  IsUsable t = (env.is_valid t ≡ true) × (env.condition_met t ≡ answer true)

  mutual
    pub data Member : TupleKey C → Type 0 where
      self_defining : {key : TupleKey C} → is_self_defining key ≡ true → Member key
      rewritten :
          {key : TupleKey C} (rewrite : Rewrite)
          → env.get_relation (split_object key.object).0 key.relation ≡ answer rewrite
          → Derives rewrite key
          → Member key

    pub data Derives : Rewrite → TupleKey C → Type 0 where
      direct_tuple :
          {key : TupleKey C} (t : TupleKey C)
          → env.read_user_tuple key ≡ answer (some t)
          → IsUsable t
          → Derives this key
      public_tuple :
          {key : TupleKey C} (ts : List (TupleKey C)) (t : TupleKey C)
          → env.read_wildcards key.object key.relation (get_type key.user) ≡ answer ts
          → In t ts
          → IsUsable t
          → Derives this key
      public_userset :
          {key : TupleKey C} (ts : List (TupleKey C)) (t : TupleKey C)
          → env.read_userset_tuples key.object key.relation ≡ answer ts
          → In t ts
          → IsUsable t
          → IsPublic key t
          → Derives this key
      userset_tuple :
          {key : TupleKey C} (ts : List (TupleKey C)) (t : TupleKey C)
          → env.read_userset_tuples key.object key.relation ≡ answer ts
          → In t ts
          → IsUsable t
          → Member (
              new_tuple_key
                (split_object_relation t.user).0
                (split_object_relation t.user).1
                key.user)
          → Derives this key
      computed :
          {key : TupleKey C} {relation : Text}
          → Member (new_tuple_key key.object relation key.user)
          → Derives (computed_userset relation) key
      through_tupleset :
          {key : TupleKey C} {tupleset relation : Text} (ts : List (TupleKey C)) (t : TupleKey C)
          → env.read key.object tupleset ≡ answer ts
          → In t ts
          → IsUsable t
          → Member (new_tuple_key (split_object_relation t.user).0 relation key.user)
          → Derives (tuple_to_userset tupleset relation) key
      in_union : {key : TupleKey C} {rs : Rewrites} → DerivesSome rs key → Derives (union_of rs) key
      in_intersection :
          {key : TupleKey C} {r : Rewrite} {rs : Rewrites}
          → DerivesEvery (child r rs) key
          → Derives (intersection_of (child r rs)) key
      in_difference :
          {key : TupleKey C} {b s : Rewrite}
          → Derives b key
          → Denied s key
          → Derives (difference b s) key

    pub data DerivesSome : Rewrites → TupleKey C → Type 0 where
      here :
          {key : TupleKey C} {r : Rewrite} {rs : Rewrites}
          → Derives r key
          → DerivesSome (child r rs) key
      there :
          {key : TupleKey C} {r : Rewrite} {rs : Rewrites}
          → DerivesSome rs key
          → DerivesSome (child r rs) key

    pub data DerivesEvery : Rewrites → TupleKey C → Type 0 where
      every_none : {key : TupleKey C} → DerivesEvery no_child key
      every_child :
          {key : TupleKey C} {r : Rewrite} {rs : Rewrites}
          → Derives r key
          → DerivesEvery rs key
          → DerivesEvery (child r rs) key
