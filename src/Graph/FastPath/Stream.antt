-- ===== src/Graph/FastPath/Stream.antt =====
-- internal/iterator/stream.go: the iterators that arrive on a channel, as one iterator.
use mongopenfga.Prelude.{
  ℕ, zero, suc, Bool, true, false, Option, none, some, List, [], ◌∷◌, Text, text_lt, not,
  if◌then◌else◌, ◌&&◌,
}
use mongopenfga.Tuple.{is_valid_object}
use mongopenfga.Storage.Iterators.Defs.{Answer, answer, failure, Next, item, done, fail}

-- An iterator over texts that are computed already: what it yields, and the error that ends it,
-- `none` for ErrIteratorDone and the errors of a cancelled context, which the callers treat alike.
pub record Iter (E : Type 0) : Type 0 where
  pub items : List Text
  pub end : Option E

-- Msg
pub data Msg (E : Type 0) : Type 0 where
  iter : Iter E → Msg E
  err : E → Msg E

-- Stream; the channel is the messages that it still delivers before it is closed.
pub record Stream (E : Type 0) : Type 0 where
  pub idx : ℕ
  pub buffer : Option (Iter E)
  pub source_is_closed : Bool
  pub source : List (Msg E)

module _ {E : Type 0} where
  -- NewStream
  abbrev pub new_stream : ℕ → List (Msg E) → Stream E
  new_stream idx source = record {
    idx = idx;
    buffer = none;
    source_is_closed = false;
    source = source;
  }

  -- what Head of the buffer returns, and the buffer that Head of the stream keeps
  unfoldable pub buffer_head : Option (Iter E) → Next E Text × Option (Iter E)
  buffer_head none = (done, none)
  buffer_head (some b) = elim b.items [
    | x ∷ items ↦ (item x, some b)
    | [] ↦ elim b.end [ none ↦ (done, none) | some e ↦ (fail e, some b) ]
  ]

  -- the same for Next
  unfoldable pub buffer_next : Option (Iter E) → Next E Text × Option (Iter E)
  buffer_next none = (done, none)
  buffer_next (some b) = elim b.items [
    | x ∷ items ↦ (item x, some (record b { items = items }))
    | [] ↦ elim b.end [ none ↦ (done, none) | some e ↦ (fail e, some b) ]
  ]

  abbrev keep_buffer : Stream E → Next E Text × Option (Iter E) → Next E Text × Stream E
  keep_buffer s (n, b) = (n, record s { buffer = b })

  -- Stream.Head
  abbrev pub stream_head : Stream E → Next E Text × Stream E
  stream_head s = keep_buffer s (buffer_head s.buffer)

  -- Stream.Next
  abbrev pub stream_next : Stream E → Next E Text × Stream E
  stream_next s = keep_buffer s (buffer_next s.buffer)

  -- the loop of SkipToTargetObject, on the items of the buffer
  unfoldable pub skip_items : Text → List Text → Option E → Option E × Option (Iter E)
  skip_items target [] none = (none, none)
  skip_items target [] (some e) = (some e, some (record { items = []; end = some e }))
  skip_items target (x ∷ items) end =
      let rest = skip_items target items end in
      if text_lt x target then rest else (none, some (record { items = x ∷ items; end = end }))

  abbrev skip_buffer : Text → Option (Iter E) → Option E × Option (Iter E)
  skip_buffer target none = (none, none)
  skip_buffer target (some b) = skip_items target b.items b.end

  abbrev skipped : Stream E → Option E × Option (Iter E) → Option E × Stream E
  skipped s (e, b) = (e, record s { buffer = b })

  -- SkipToTargetObject: the error if any; `invalid` is the error for a target that is no object
  unfoldable pub skip_to_target_object : E → Text → Stream E → Option E × Stream E
  unfolding skip_items
  skip_to_target_object invalid target s =
      if not (is_valid_object target)
      then (some invalid, s)
      else skipped s (skip_buffer target s.buffer)

  -- fetchSource
  unfoldable pub fetch_source : Stream E → Option E × Stream E
  fetch_source s = elim s.buffer [
    | some b ↦ (none, s)
    | none ↦ if s.source_is_closed then (none, s) else elim s.source [
      | [] ↦ (none, record s { source_is_closed = true })
      | err e ∷ source ↦ (some e, record s { source = source })
      | iter b ∷ source ↦ (none, record s { buffer = some b; source = source })
    ]
  ]

  -- isDone
  abbrev pub is_done : Stream E → Bool
  is_done s = s.source_is_closed && elim s.buffer [ none ↦ true | some b ↦ false ]

  -- the loop of Drain, on the items of the buffer
  abbrev drain_items : List Text → Option E → Answer E (List Text) × Option (Iter E)
  drain_items items none = (answer items, none)
  drain_items items (some e) = (failure e, some (record { items = []; end = some e }))

  abbrev drain_buffer : Option (Iter E) → Answer E (List Text) × Option (Iter E)
  drain_buffer none = (answer [], none)
  drain_buffer (some b) = drain_items b.items b.end

  -- Stream.Drain
  unfoldable pub drain : Stream E → Answer E (List Text) × Stream E
  drain s = ((drain_buffer s.buffer).0, record s { buffer = (drain_buffer s.buffer).1 })

  -- the fetching loop of CleanDone
  unfoldable pub fetch_all : List (Stream E) → Option E × List (Stream E)
  unfolding fetch_source
  fetch_all [] = (none, [])
  fetch_all (s ∷ streams) =
      let (e, s') = fetch_source s in
      elim e [
        | some e' ↦ (some e', s' ∷ streams)
        | none ↦ let (e'', rest) = fetch_all streams in (e'', s' ∷ rest)
      ]

  -- slices.DeleteFunc with isDone
  unfoldable pub delete_done : List (Stream E) → List (Stream E)
  delete_done [] = []
  delete_done (s ∷ streams) = let rest = delete_done streams in if is_done s then rest else s ∷ rest

  abbrev pub after_fetch : Option E × List (Stream E) → Answer E (List (Stream E))
  after_fetch (some e, streams) = failure e
  after_fetch (none, streams) = answer (delete_done streams)

  -- CleanDone: the active streams
  unfoldable pub clean_done : List (Stream E) → Answer E (List (Stream E))
  unfolding fetch_all delete_done
  clean_done streams = after_fetch (fetch_all streams)

  -- Next of the stream with the index, in place
  unfoldable pub next_of : ℕ → List (Stream E) → Next E Text × List (Stream E)
  unfolding buffer_next
  next_of i [] = (done, [])
  next_of zero (s ∷ streams) = let (n, s') = stream_next s in (n, s' ∷ streams)
  next_of (suc i) (s ∷ streams) = let (n, rest) = next_of i streams in (n, s ∷ rest)

  -- NextItemInSliceStreams, with the item that the loop has so far; the error of a stream at its
  -- end is `none`
  unfoldable pub next_item_in_slice_streams :
      List ℕ → Text → List (Stream E) → Answer (Option E) Text × List (Stream E)
  unfolding next_of
  next_item_in_slice_streams [] last streams = (answer last, streams)
  next_item_in_slice_streams (i ∷ rest) last streams =
      let (n, after) = next_of i streams in
      elim n [
        | item x ↦ next_item_in_slice_streams rest x after
        | done ↦ (failure none, after)
        | fail e ↦ (failure (some e), after)
      ]
