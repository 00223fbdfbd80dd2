-- ===== src/Graph/FastPath/Merge.antt =====
-- internal/graph/check_fast_path.go: what fastPathUnion, fastPathIntersection and
-- fastPathDifference share: the heads of the streams, and the batches that are sent.
use mongopenfga.Prelude.{
  ℕ, zero, suc, Bool, true, false, Option, none, some, List, [], ◌∷◌, ◌++◌, Text, text_lt, text_eq,
  comparable_nat, ◌==◌, ltb, if◌then◌else◌, length,
}
use mongopenfga.Storage.Iterators.Defs.{answer, failure, item, done, fail}
use mongopenfga.Graph.FastPath.Stream.{
  Msg, iter, err, Stream, stream_head, buffer_head, next_item_in_slice_streams,
}

-- IteratorMinBatchThreshold
abbrev pub iterator_min_batch_threshold : ℕ
iterator_min_batch_threshold = 100

-- what the loop over the heads of the streams finds
pub data Heads (E : Type 0) : Type 0 where
  not_all : Heads E
  broken : E → Heads E
  all_heads : Text → List ℕ → Heads E

-- a test whether a head replaces the smallest, or the largest, one so far
abbrev pub Beats : Type 0
Beats = Text → Text → Bool

-- `minObject > v`
unfoldable pub smaller : Beats
smaller v best = text_lt v best

-- `maxObject < v`
unfoldable pub larger : Beats
larger v best = text_lt best v

-- `if idx == 0 { minObject = v }`
abbrev pub initialized : ℕ → Text → Text → Text
initialized zero v best = v
initialized (suc idx) v best = best

abbrev pub append_item : List Text → Text → List Text
append_item batch [] = batch
append_item batch (c ∷ x) = batch ++ (c ∷ x) ∷ []

-- What is sent from here on: `none` if the fuel is used up.
abbrev pub Sent : Type 0 → Type 0
Sent E = Option (List (Msg E))

-- the smallest, or largest, head so far and the indices of the streams that have it
abbrev pub compare_head : Beats → ℕ → Text → Text → List ℕ → Text × List ℕ
compare_head beats idx v best equal =
    if best == v
    then (best, equal ++ idx ∷ [])
    else if beats v best
    then (v, idx ∷ [])
    else (best, equal)

module _ {E : Type 0} where
  abbrev keep_stream : Stream E → Heads E × List (Stream E) → Heads E × List (Stream E)
  keep_stream s (h, rest) = (h, s ∷ rest)

  -- the loop `for idx, stream := range iterStreams` of fastPathUnion and fastPathIntersection
  unfoldable pub scan_heads :
      Beats → ℕ → Text → List ℕ → List (Stream E) → Heads E × List (Stream E)
  unfolding buffer_head
  scan_heads beats idx best equal [] = (all_heads best equal, [])
  scan_heads beats idx best equal (s ∷ streams) =
      let (n, s') = stream_head s in
      elim n [
        | done ↦ (not_all, s' ∷ streams)
        | fail e ↦ (broken e, s' ∷ streams)
        | item v ↦
            let (best', equal') = compare_head beats idx v (initialized idx v best) equal in
            keep_stream s' (scan_heads beats (suc idx) best' equal' streams)
      ]

  abbrev pub send : Msg E → Sent E → Sent E
  send m none = none
  send m (some ms) = some (m ∷ ms)

  abbrev pub batch_of : List Text → Msg E
  batch_of batch = iter (record { items = batch; end = none })

  -- the deferred flush
  unfoldable pub flush : List Text → Sent E
  flush [] = some []
  flush (x ∷ batch) = some (batch_of (x ∷ batch) ∷ [])

  -- an error is sent, then the deferred flush
  abbrev pub send_error : E → List Text → Sent E
  send_error e batch = send (err e) (flush batch)

  -- the end of addNextItemInSliceStreamsToBatch: a batch over the threshold is sent
  unfoldable pub send_full : List Text → (List Text → Sent E) → Sent E
  send_full batch continue = elim (ltb iterator_min_batch_threshold (length batch)) [
    | true ↦ send (batch_of batch) (continue [])
    | false ↦ continue batch
  ]

  -- addNextItemInSliceStreamsToBatch, then `continue`, or the return on an error, which loses the
  -- batch; `exhausted` is ErrIteratorDone
  unfoldable pub add_next_item_in_slice_streams_to_batch :
      E → List (Stream E) → List ℕ → List Text → (List Text → List (Stream E) → Sent E) → Sent E
  unfolding next_item_in_slice_streams flush send_full
  add_next_item_in_slice_streams_to_batch exhausted streams indices batch continue =
      let (a, after) = next_item_in_slice_streams indices [] streams in
      elim a [
        | answer x ↦ send_full (append_item batch x) (λ b. continue b after)
        | failure none ↦ send_error exhausted []
        | failure (some e) ↦ send_error e []
      ]
