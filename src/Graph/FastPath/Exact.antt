-- ===== src/Graph/FastPath/Exact.antt =====
-- The objects that a fast path yields are those that the rewrite relates to the user.
use mongopenfga.Prelude.{
  ℕ, suc, ◌≡◌, refl, ◌∙◌, Bool, true, false, not, ◌||◌, ◌&&◌, List, [], ◌∷◌, Text, length, All,
  arith, text_eq,
}
use mongopenfga.Storage.Iterators.Defs.{answer}
use mongopenfga.Typesystem.Rewrite.{
  Rewrite, Rewrites, this, unset, computed_userset, tuple_to_userset, union_of, intersection_of,
  difference, no_child, child,
}
use mongopenfga.Graph.Outcome.{CheckError}
use mongopenfga.Graph.Check.Env.{CheckEnv}
use mongopenfga.Graph.FastPath.Stream.{Msg, new_stream}
use mongopenfga.Graph.FastPath.Good.{weights, any_left, all_left}
use mongopenfga.Graph.FastPath.Union.{fast_path_union-Unites}
use mongopenfga.Graph.FastPath.Intersection.{fast_path_intersection-Intersects}
use mongopenfga.Graph.FastPath.Same.{first_of}
use mongopenfga.Graph.FastPath.Difference.{fast_path_difference-Subtracts}
use mongopenfga.Graph.FastPath.Rewrite.{
  Reader, Channel, fast_path_direct, streams_from, union_handler, intersection_handler,
  difference_handler, fast_path_rewrite, fast_path_children,
}
use mongopenfga.Graph.FastPath.Yields.{IsSorted, Yields, new_streams, any_left-object, delivered}

-- Which objects a rewrite relates to the user, from those that are directly related to the user and
-- those of the computed relations. It is not meant for a tuple to userset.
module _ (direct computed : Text → Text → Bool) where
  unfoldable mutual
    pub relates : Text → Rewrite → Text → Bool
    relates relation this x = direct relation x
    relates relation unset x = false
    relates relation (computed_userset r) x = computed r x
    relates relation (tuple_to_userset tupleset r) x = false
    relates relation (union_of rs) x = any_relates relation rs x
    relates relation (intersection_of rs) x = all_relate relation rs x
    relates relation (difference b s) x = relates relation b x && not (relates relation s x)

    pub any_relates : Text → Rewrites → Text → Bool
    any_relates relation no_child x = false
    any_relates relation (child r rs) x = relates relation r x || any_relates relation rs x

    pub all_relate : Text → Rewrites → Text → Bool
    all_relate relation no_child x = true
    all_relate relation (child r rs) x = relates relation r x && all_relate relation rs x

-- what the theorem needs of the rewrite: an operation other than a tuple to userset at every node, a
-- child of every intersection, and direct and computed relations that satisfy a condition
module _ (Direct Computed : Text → Type 0) where
  unfoldable mutual
    pub IsReadable : Text → Rewrite → Type 0
    IsReadable relation this = Direct relation
    IsReadable relation unset = ⊥
    IsReadable relation (computed_userset r) = Computed r
    IsReadable relation (tuple_to_userset tupleset r) = ⊥
    IsReadable relation (union_of rs) = AreReadable relation rs
    IsReadable relation (intersection_of no_child) = ⊥
    IsReadable relation (intersection_of (child r rs)) =
        IsReadable relation r × AreReadable relation rs
    IsReadable relation (difference b s) = IsReadable relation b × IsReadable relation s

    pub AreReadable : Text → Rewrites → Type 0
    AreReadable relation no_child = Unit
    AreReadable relation (child r rs) = IsReadable relation r × AreReadable relation rs

module _ {C : Type 0} (env : CheckEnv C) (reader : Reader C) (user object_type : Text) where
  module _ (computed : Text → Channel) (direct_has computed_has : Text → Text → Bool) where
    abbrev pub DirectYields : Text → Type 0
    DirectYields r = Yields (fast_path_direct env reader user object_type r) (direct_has r)

    abbrev pub ComputedYields : Text → Type 0
    ComputedYields r = Yields (computed r) (computed_has r)

    abbrev ChildrenYield : Text → Rewrites → Type 0
    ChildrenYield relation rs =
        (chans : List (List (Msg CheckError))) × (fast_path_children env reader user object_type
            computed relation rs
          ≡ answer chans)
        × All IsSorted chans
        × ((idx : ℕ) (x : Text)
            → any_left x (streams_from idx chans)
              ≡ any_relates direct_has computed_has relation rs x)
        × ((idx : ℕ) (x : Text)
            → all_left x (streams_from idx chans)
              ≡ all_relate direct_has computed_has relation rs x)

    abbrev RewriteYields : Text → Rewrite → Type 0
    RewriteYields relation rewrite =
        Yields (fast_path_rewrite env reader user object_type computed relation rewrite)
          (relates direct_has computed_has relation rewrite)

    -- the set handlers, on channels that yield their objects
    union-Yields :
        (relation : Text) (rs : Rewrites)
        → ChildrenYield relation rs
        → RewriteYields relation (union_of rs)
    unfolding fast_path_rewrite relates union_handler
    union-Yields relation rs (chans, e, ss, anys, alls) =
        let (g, t) = new_streams 0 chans ss in
        let streams = streams_from 0 chans in
        let (out, (asc, mem), d) =
          fast_path_union-Unites reader.iterator_done (weights streams) streams g t (omega arith) in
        let (ms, r, so, mem') =
          delivered _ out (any_relates direct_has computed_has relation rs) (d []) asc
            (λ x. mem x ∙ anys 0 x) (λ x h. any_left-object x streams t (anys 0 x ∙ h)) in
        (ms, rw e r, so, mem')

    child-Yields :
        (relation : Text) (r : Rewrite) (rs : Rewrites)
        → RewriteYields relation r
        → ChildrenYield relation rs
        → ChildrenYield relation (child r rs)
    unfolding fast_path_rewrite relates
    child-Yields relation r rs (ms, e, s, k) (chans, e', ss, anys, alls) = (
      ms ∷ chans,
      rw (e, e') refl,
      (s, ss),
      λ i x. rw (k x, anys (suc i) x) refl,
      λ i x. rw (k x, alls (suc i) x) refl,
    )

    intersection-Yields :
        (relation : Text) (r : Rewrite) (rs : Rewrites)
        → RewriteYields relation r
        → ChildrenYield relation rs
        → RewriteYields relation (intersection_of (child r rs))
    unfolding fast_path_rewrite relates intersection_handler
    intersection-Yields relation r rs (ms, e, s, k) (chans, e', ss, anys, alls) =
        let streams = streams_from 0 (ms ∷ chans) in
        let (g, t) = new_streams 0 (ms ∷ chans) (s, ss) in
        let test = all_relate direct_has computed_has relation (child r rs) in
        let (out, (asc, mem), d) =
          fast_path_intersection-Intersects reader.iterator_done reader.invalid_target
            (length streams) (weights streams) streams (omega arith) refl g t (omega arith) in
        let (sent_ms, q, so, mem') =
          delivered _ out test (d []) asc (λ x. mem x ∙ rw (k x, alls 1 x) refl)
            (λ x h. s.1.1 x (k x ∙ first_of (relates direct_has computed_has relation r x) _ h)) in
        (sent_ms, rw (e, e') q, so, mem')

    difference-Yields :
        (relation : Text) (b s : Rewrite)
        → RewriteYields relation b
        → RewriteYields relation s
        → RewriteYields relation (difference b s)
    unfolding fast_path_rewrite relates difference_handler
    difference-Yields relation b s (ms, e, t, k) (ms', e', t', k') =
        let d₀ = new_stream 0 ms in
        let d₁ = new_stream 1 ms' in
        let (out, (asc, mem), d) =
          fast_path_difference-Subtracts reader.iterator_done reader.invalid_target
            (weights (d₀ ∷ d₁ ∷ [])) d₀ d₁
            (
              (tt, t.0, λ h. absurd (ground (arith, h))),
              (tt, t'.0, λ h. absurd (ground (arith, h))),
              t.1,
              t'.1,
              refl,
              refl,
            )
            (omega arith) in
        let (sent_ms, q, so, mem') =
          delivered _ out (relates direct_has computed_has relation (difference b s)) (d []) asc
            (λ x. mem x ∙ rw (k x, k' x) refl)
            (λ x h. t.1.1 x (k x ∙ first_of (relates direct_has computed_has relation b x) _ h)) in
        (sent_ms, rw (e, e') q, so, mem')

    mutual
      unfolding fast_path_rewrite relates IsReadable

      pub rewrite-Yields :
          (relation : Text) (rewrite : Rewrite)
          → IsReadable DirectYields ComputedYields relation rewrite
          → RewriteYields relation rewrite
      rewrite-Yields relation this h = h
      rewrite-Yields relation unset h = absurd h
      rewrite-Yields relation (computed_userset r) h = h
      rewrite-Yields relation (tuple_to_userset tupleset r) h = absurd h
      rewrite-Yields relation (union_of rs) h =
          union-Yields relation rs (children-Yield relation rs h)
      rewrite-Yields relation (intersection_of no_child) h = absurd h
      rewrite-Yields relation (intersection_of (child r rs)) h =
          intersection-Yields relation r rs (rewrite-Yields relation r h.0)
            (children-Yield relation rs h.1)
      rewrite-Yields relation (difference b s) h =
          difference-Yields relation b s (rewrite-Yields relation b h.0)
            (rewrite-Yields relation s h.1)

      children-Yield :
          (relation : Text) (rs : Rewrites)
          → AreReadable DirectYields ComputedYields relation rs
          → ChildrenYield relation rs
      children-Yield relation no_child h = ([], refl, tt, λ i x. refl, λ i x. refl)
      children-Yield relation (child r rs) h =
          child-Yields relation r rs (rewrite-Yields relation r h.0)
            (children-Yield relation rs h.1)
