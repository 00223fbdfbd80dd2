-- ===== src/Graph/FastPath/DifferenceLoop.antt =====
-- internal/graph/check_fast_path.go: fastPathDifference, the loop that takes the objects of the
-- second stream from those of the first. The context of the request is not cancelled.
use mongopenfga.Prelude.{
  ℕ, zero, suc, Bool, true, false, Option, none, some, List, [], ◌∷◌, ◌++◌, Text, text_lt, text_beq,
  text_eq, comparable_nat, nat_beq,
}
use mongopenfga.Storage.Iterators.Defs.{Answer, answer, failure, Next, item, done, fail}
use mongopenfga.Graph.FastPath.Stream.{
  Stream, stream_head, buffer_head, skip_to_target_object, clean_done, next_item_in_slice_streams,
  drain,
}
use mongopenfga.Graph.FastPath.Merge.{
  Sent, flush, send_error, send_full, add_next_item_in_slice_streams_to_batch,
}

abbrev pub Loop : Type 0 → Type 0
Loop E = List Text → List (Stream E) → Sent E

module _ {E : Type 0} where
  -- The loop that drains the base. `continue` is the rest of the loop.
  unfoldable pub drain_cleaned : Loop E → List Text → Answer E (List (Stream E)) → Sent E
  unfolding flush
  drain_cleaned continue batch (failure e) = send_error e batch
  drain_cleaned continue batch (answer active) = continue batch active

  unfoldable pub drain_drained : Loop E → List Text → Answer E (List Text) × Stream E → Sent E
  unfolding clean_done drain_cleaned flush send_full
  drain_drained continue batch (failure e, s) = send_error e batch
  drain_drained continue batch (answer items, s) =
      send_full (batch ++ items) λ b. drain_cleaned continue b (clean_done (s ∷ []))

  unfoldable pub drain_base : ℕ → Loop E
  unfolding drain drain_drained flush
  drain_base zero batch (s ∷ []) = none
  drain_base (suc fuel) batch (s ∷ []) = drain_drained (drain_base fuel) batch (drain s)
  drain_base fuel batch streams = flush batch

  -- `iterStreams[BaseIndex].Idx() == BaseIndex`
  unfoldable pub if_base : Bool → ℕ → Loop E
  unfolding drain_base flush
  if_base true fuel batch active = drain_base fuel batch active
  if_base false fuel batch active = flush batch

  unfoldable pub after_cleaned : ℕ → List Text → Answer E (List (Stream E)) → Sent E
  unfolding if_base flush
  after_cleaned fuel batch (failure e) = send_error e batch
  after_cleaned fuel batch (answer []) = flush batch
  after_cleaned fuel batch (answer (s ∷ rest)) = if_base (nat_beq s.idx 0) fuel batch (s ∷ rest)

  -- what follows the main loop
  unfoldable pub after_difference : ℕ → Loop E
  unfolding clean_done after_cleaned
  after_difference fuel batch streams = after_cleaned fuel batch (clean_done streams)

  module _ (exhausted invalid : E) where
    -- what follows NextItemInSliceStreams of both streams
    unfoldable pub both_moved :
        Loop E → List Text → Answer (Option E) Text × List (Stream E) → Sent E
    unfolding flush
    both_moved continue batch (answer x, after) = continue batch after
    both_moved continue batch (failure none, after) = send_error exhausted batch
    both_moved continue batch (failure (some e), after) = send_error e batch

    unfoldable pub diff_skipped : Loop E → List Text → Stream E → Option E × Stream E → Sent E
    unfolding flush
    diff_skipped continue batch b (some e, d) = send_error e batch
    diff_skipped continue batch b (none, d) = continue batch (b ∷ d ∷ [])

    -- `diff > base`
    unfoldable pub if_above : Bool → Loop E → List Text → Text → Stream E → Stream E → Sent E
    unfolding add_next_item_in_slice_streams_to_batch skip_to_target_object diff_skipped
    if_above true continue batch base b d =
        add_next_item_in_slice_streams_to_batch exhausted (b ∷ d ∷ []) (0 ∷ []) batch continue
    if_above false continue batch base b d =
        diff_skipped continue batch b (skip_to_target_object invalid base d)

    -- `base == diff`
    unfoldable pub if_same : Bool → Loop E → List Text → Text → Text → Stream E → Stream E → Sent E
    unfolding next_item_in_slice_streams both_moved if_above
    if_same true continue batch base diff b d =
        both_moved continue batch (next_item_in_slice_streams (0 ∷ 1 ∷ []) [] (b ∷ d ∷ []))
    if_same false continue batch base diff b d =
        if_above (text_lt base diff) continue batch base b d

    -- the loop over the two heads
    unfoldable pub diff_head :
        Loop E → List Text → Text → Stream E → Next E Text × Stream E → Sent E
    unfolding if_same flush
    diff_head continue batch base b (done, d) = continue batch (b ∷ d ∷ [])
    diff_head continue batch base b (fail e, d) = send_error e batch
    diff_head continue batch base b (item diff, d) =
        if_same (text_beq base diff) continue batch base diff b d

    unfoldable pub base_head : Loop E → List Text → Stream E → Next E Text × Stream E → Sent E
    unfolding buffer_head diff_head flush
    base_head continue batch d (done, b) = continue batch (b ∷ d ∷ [])
    base_head continue batch d (fail e, b) = send_error e batch
    base_head continue batch d (item base, b) = diff_head continue batch base b (stream_head d)

    unfoldable pub difference_cleaned : ℕ → Loop E → List Text → Answer E (List (Stream E)) → Sent E
    unfolding buffer_head base_head after_difference flush
    difference_cleaned fuel continue batch (failure e) = send_error e batch
    difference_cleaned fuel continue batch (answer (b ∷ d ∷ [])) =
        base_head continue batch d (stream_head b)
    difference_cleaned fuel continue batch (answer active) = after_difference fuel batch active

    -- fastPathDifference, from the head of its loop
    unfoldable pub fast_path_difference : ℕ → Loop E
    unfolding clean_done difference_cleaned after_difference
    fast_path_difference zero batch (b ∷ d ∷ []) = none
    fast_path_difference (suc fuel) batch (b ∷ d ∷ []) =
        difference_cleaned fuel (fast_path_difference fuel) batch (clean_done (b ∷ d ∷ []))
    fast_path_difference fuel batch streams = after_difference fuel batch streams
