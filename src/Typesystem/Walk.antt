-- ===== src/Typesystem/Walk.antt =====
-- WalkUsersetRewrite, and what is computed by it: RewriteContainsSelf and relationInvolves.
use mongopenfga.Prelude.{
  ◌≡◌, refl, Bool, true, false, Option, none, some, List, [], ◌∷◌, ◌++◌, text_eq, arith,
}
use mongopenfga.Typesystem.Rewrite.{
  Rewrite, Rewrites, this, unset, computed_userset, tuple_to_userset, union_of, intersection_of,
  difference, no_child, child,
}

-- a result other than nil, nil, or the error of an unexpected rewrite
pub data Found (R : Type 0) : Type 0 where
  value : R → Found R
  nothing unexpected_rewrite : Found R

-- `S` is what the handler changes.
module _ {R S : Type 0} where
  abbrev pub of_option : Option R × S → Found R × S
  of_option (none, s) = (nothing, s)
  of_option (some r, s) = (value r, s)

  -- what follows a handler that returned nil
  abbrev pub if_nil : Option R × S → (S → Found R × S) → Found R × S
  if_nil (none, s) rest = rest s
  if_nil (some r, s) rest = (value r, s)

  -- what follows a child in which nothing was found
  abbrev pub if_nothing : Found R × S → (S → Found R × S) → Found R × S
  if_nothing (nothing, s) rest = rest s
  if_nothing (value r, s) rest = (value r, s)
  if_nothing (unexpected_rewrite, s) rest = (unexpected_rewrite, s)

  module _ (handler : Rewrite → S → Option R × S) where
    unfoldable mutual
      -- WalkUsersetRewrite; on a leaf the handler is called twice
      pub walk_userset_rewrite : Rewrite → S → Found R × S
      walk_userset_rewrite this s = if_nil (handler this s) (λ s'. of_option (handler this s'))
      walk_userset_rewrite (computed_userset r) s =
          if_nil (handler (computed_userset r) s)
            (λ s'. of_option (handler (computed_userset r) s'))
      walk_userset_rewrite (tuple_to_userset t c) s =
          if_nil (handler (tuple_to_userset t c) s)
            (λ s'. of_option (handler (tuple_to_userset t c) s'))
      walk_userset_rewrite unset s = if_nil (handler unset s) (λ s'. (unexpected_rewrite, s'))
      walk_userset_rewrite (union_of rs) s = if_nil (handler (union_of rs) s) (walk_children rs)
      walk_userset_rewrite (intersection_of rs) s =
          if_nil (handler (intersection_of rs) s) (walk_children rs)
      walk_userset_rewrite (difference b u) s = if_nil (handler (difference b u) s) (λ s'.
          if_nothing (walk_userset_rewrite b s')
            (λ s''. if_nothing (walk_userset_rewrite u s'') (λ s3. (nothing, s3))))

      pub walk_children : Rewrites → S → Found R × S
      walk_children no_child s = (nothing, s)
      walk_children (child r rs) s = if_nothing (walk_userset_rewrite r s) (walk_children rs)

abbrev pub is_self : Rewrite → Unit {0} → Option Bool × Unit {0}
is_self this s = (some true, s)
is_self r s = (none, s)

-- `none` is the panic on an unexpected rewrite
abbrev pub self_found : Found Bool × Unit {0} → Option Bool
self_found (value b, s) = some b
self_found (nothing, s) = some false
self_found (unexpected_rewrite, s) = none

-- RewriteContainsSelf
unfoldable pub rewrite_contains_self : Rewrite → Option Bool
unfolding walk_userset_rewrite
rewrite_contains_self rewrite = self_found (walk_userset_rewrite is_self rewrite tt)

unfoldable mutual
  -- the nodes of a rewrite, each before those below it
  pub preorder : Rewrite → List Rewrite
  preorder this = this ∷ []
  preorder unset = unset ∷ []
  preorder (computed_userset r) = computed_userset r ∷ []
  preorder (tuple_to_userset t c) = tuple_to_userset t c ∷ []
  preorder (union_of rs) = union_of rs ∷ preorder_all rs
  preorder (intersection_of rs) = intersection_of rs ∷ preorder_all rs
  preorder (difference b u) = difference b u ∷ preorder b ++ preorder u

  pub preorder_all : Rewrites → List Rewrite
  preorder_all no_child = []
  preorder_all (child r rs) = preorder r ++ preorder_all rs

abbrev pub is_set : Rewrite → Bool
is_set unset = false
is_set r = true

module _ {R : Type 0} (h : Rewrite → Option R) where
  abbrev pub unless_found : Option R → Bool → Found R → Found R
  unless_found (some r) set rest = value r
  unless_found none true rest = rest
  unless_found none false rest = unexpected_rewrite

  -- the first node with a result, or the error at a node without an operation before it
  abbrev pub first : List Rewrite → Found R
  first [] = nothing
  first (r ∷ rs) = unless_found (h r) (is_set r) (first rs)

  abbrev pub else_found : Found R → Found R → Found R
  else_found (value r) rest = value r
  else_found nothing rest = rest
  else_found unexpected_rewrite rest = unexpected_rewrite

  first-append : (xs ys : List Rewrite) → first (xs ++ ys) ≡ else_found (first xs) (first ys)
  first-append [] ys = refl
  first-append (x ∷ xs) ys = ground (arith, first-append xs ys)

  abbrev pub pure : Rewrite → Unit {0} → Option R × Unit {0}
  pure r s = (h r, s)

  mutual
    unfolding walk_userset_rewrite preorder

    walk_lem : (r : Rewrite) → walk_userset_rewrite pure r tt ≡ (first (preorder r), tt)
    walk_lem this = ground arith
    walk_lem unset = ground arith
    walk_lem (computed_userset r) = ground arith
    walk_lem (tuple_to_userset t c) = ground arith
    walk_lem (union_of rs) = ground (arith, walk_all_lem rs)
    walk_lem (intersection_of rs) = ground (arith, walk_all_lem rs)
    walk_lem (difference b u) =
        ground (arith, walk_lem b, walk_lem u, first-append (preorder b) (preorder u))

    walk_all_lem : (rs : Rewrites) → walk_children pure rs tt ≡ (first (preorder_all rs), tt)
    walk_all_lem no_child = refl
    walk_all_lem (child r rs) =
        ground (arith, walk_lem r, walk_all_lem rs, first-append (preorder r) (preorder_all rs))

  -- With a handler that keeps no state, WalkUsersetRewrite returns the first result in preorder, and
  -- its error exactly if a node without an operation comes before every result.
  pub walk-first : (r : Rewrite) → (walk_userset_rewrite pure r tt).0 ≡ first (preorder r)
  walk-first r = rw (walk_lem r) refl
