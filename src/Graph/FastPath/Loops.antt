-- ===== src/Graph/FastPath/Loops.antt =====
-- internal/graph/check_fast_path.go: fastPathUnion and fastPathIntersection, the loops that
-- merge the streams of the children. The result is what they send to the channel
-- before they close it. The context of the request is not cancelled.
use mongopenfga.Prelude.{
  ℕ, zero, suc, Bool, true, false, Option, none, some, List, [], ◌∷◌, Text, text_eq, comparable_nat,
  nat_beq, if◌then◌else◌, length,
}
use mongopenfga.Storage.Iterators.Defs.{Answer, answer, failure}
use mongopenfga.Graph.FastPath.Stream.{Stream, skip_to_target_object, clean_done}
use mongopenfga.Graph.FastPath.Merge.{
  Heads, smaller, larger, broken, not_all, all_heads, scan_heads, Sent, flush, send_error,
  add_next_item_in_slice_streams_to_batch,
}

module _ {E : Type 0} where
  module _ (exhausted : E) where
    -- the body of the loop of fastPathUnion after the loop over the heads, where `continue` is the
    -- rest of the loop
    unfoldable pub union_scanned :
        (List Text → List (Stream E) → Sent E) → List Text → Heads E × List (Stream E) → Sent E
    unfolding add_next_item_in_slice_streams_to_batch flush
    union_scanned continue batch (broken e, after) = send_error e batch
    union_scanned continue batch (not_all, after) = continue batch after
    union_scanned continue batch (all_heads best equal, after) =
        add_next_item_in_slice_streams_to_batch exhausted after equal batch continue

    -- the same after CleanDone
    unfoldable pub union_cleaned :
        (List Text → List (Stream E) → Sent E) → List Text → Answer E (List (Stream E)) → Sent E
    unfolding scan_heads union_scanned flush
    union_cleaned continue batch (failure e) = send_error e batch
    union_cleaned continue batch (answer active) =
        union_scanned continue batch (scan_heads smaller 0 [] [] active)

    -- the body of the loop
    unfoldable pub union_body :
        (List Text → List (Stream E) → Sent E) → List Text → List (Stream E) → Sent E
    unfolding clean_done union_cleaned
    union_body continue batch streams = union_cleaned continue batch (clean_done streams)

    -- fastPathUnion, from the head of its loop
    unfoldable pub fast_path_union : ℕ → List Text → List (Stream E) → Sent E
    unfolding union_body flush
    fast_path_union fuel batch [] = flush batch
    fast_path_union zero batch (s ∷ streams) = none
    fast_path_union (suc fuel) batch (s ∷ streams) =
        union_body (fast_path_union fuel) batch (s ∷ streams)

  module _ (invalid : E) where
    -- SkipToTargetObject of every stream
    unfoldable pub skip_all : Text → List (Stream E) → Option E × List (Stream E)
    unfolding skip_to_target_object
    skip_all target [] = (none, [])
    skip_all target (s ∷ streams) =
        let (e, s') = skip_to_target_object invalid target s in
        elim e [
          | some e' ↦ (some e', s' ∷ streams)
          | none ↦ let (e'', rest) = skip_all target streams in (e'', s' ∷ rest)
        ]

  module _ (exhausted invalid : E) where
    abbrev pub intersection_moved :
        (List Text → List (Stream E) → Sent E) → List Text → Option E × List (Stream E) → Sent E
    intersection_moved continue batch (some e, moved) = send_error e batch
    intersection_moved continue batch (none, moved) = continue batch moved

    -- `len(itersWithEqualObject) == childrenTotal`
    unfoldable pub if_all_equal :
        Bool
        → (List Text → List (Stream E) → Sent E)
        → List Text
        → Text
        → List ℕ
        → List (Stream E)
        → Sent E
    unfolding add_next_item_in_slice_streams_to_batch flush skip_all
    if_all_equal true continue batch best equal after =
        add_next_item_in_slice_streams_to_batch exhausted after equal batch continue
    if_all_equal false continue batch best equal after =
        intersection_moved continue batch (skip_all invalid best after)

    -- the body of the loop of fastPathIntersection after the loop over the heads: all heads are the
    -- same, or the streams are moved to the largest one
    unfoldable pub intersection_scanned :
        ℕ → (List Text → List (Stream E) → Sent E) → List Text → Heads E × List (Stream E) → Sent E
    unfolding if_all_equal flush
    intersection_scanned total continue batch (broken e, after) = send_error e batch
    intersection_scanned total continue batch (not_all, after) = continue batch after
    intersection_scanned total continue batch (all_heads best equal, after) =
        if_all_equal (nat_beq (length equal) total) continue batch best equal after

    -- `len(iterStreams) != childrenTotal`
    unfoldable pub if_all_active :
        Bool → ℕ → (List Text → List (Stream E) → Sent E) → List Text → List (Stream E) → Sent E
    unfolding scan_heads intersection_scanned flush
    if_all_active false total continue batch active = flush batch
    if_all_active true total continue batch active =
        intersection_scanned total continue batch (scan_heads larger 0 [] [] active)

    -- the same after CleanDone
    unfoldable pub intersection_cleaned :
        ℕ → (List Text → List (Stream E) → Sent E) → List Text → Answer E (List (Stream E)) → Sent E
    unfolding if_all_active flush
    intersection_cleaned total continue batch (failure e) = send_error e batch
    intersection_cleaned total continue batch (answer active) =
        if_all_active (nat_beq (length active) total) total continue batch active

    -- the body of the loop
    unfoldable pub intersection_body :
        ℕ → (List Text → List (Stream E) → Sent E) → List Text → List (Stream E) → Sent E
    unfolding clean_done intersection_cleaned
    intersection_body total continue batch streams =
        intersection_cleaned total continue batch (clean_done streams)

    -- `streams.GetActiveStreamsCount() == childrenTotal`
    unfoldable pub if_counted :
        Bool → (List Text → List (Stream E) → Sent E) → List Text → List (Stream E) → Sent E
    unfolding flush
    if_counted true loop batch streams = loop batch streams
    if_counted false loop batch streams = flush batch

    -- fastPathIntersection, from the head of its loop
    unfoldable pub fast_path_intersection : ℕ → ℕ → List Text → List (Stream E) → Sent E
    unfolding intersection_body if_counted flush
    fast_path_intersection total zero batch streams =
        if nat_beq (length streams) total then none else flush batch
    fast_path_intersection total (suc fuel) batch streams =
        if_counted (nat_beq (length streams) total)
          (intersection_body total (fast_path_intersection total fuel)) batch streams
