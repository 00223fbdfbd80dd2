-- ===== src/Graph/FastPath/Consume.antt =====
-- internal/graph/check_fast_path.go: resolveFastPath, which looks for an object that two channels
-- have in common, in whatever order their messages arrive. The context is not cancelled.
use mongopenfga.Prelude.{
  Bool, true, false, Option, none, some, List, [], ◌∷◌, Text, is_key, text_eq, if◌then◌else◌,
}
use mongopenfga.Storage.Iterators.Defs.{Answer, answer, failure}
use mongopenfga.Graph.FastPath.Stream.{Msg, iter, err}

-- what the loop receives: usersetMessage on the right channel, and that a channel is closed
pub data Event (E : Type 0) : Type 0 where
  left_msg : Msg E → Event E
  right_msg : Answer E Text → Event E
  left_closed right_closed : Event E

-- what resolveFastPath returns: Allowed, and the error
abbrev pub Resolved : Type 0 → Type 0
Resolved E = Bool × Option E

module _ {E : Type 0} where
  -- The inner loop over the iterator of a message; `continue` is the rest of the outer loop, on the
  -- left set and the last error. The error that ends an iterator is followed by its end.
  unfoldable pub consume_items :
      (List Text → Option E → Resolved E)
      → List Text
      → Option E
      → List Text
      → List Text
      → Option E
      → Resolved E
  consume_items continue [] none left_set right_set last_err = continue left_set last_err
  consume_items continue [] (some e) left_set right_set last_err = continue left_set (some e)
  consume_items continue (t ∷ items) end left_set right_set last_err =
      let rest = consume_items continue items end (t ∷ left_set) right_set last_err in
      if is_key t right_set then (true, none) else rest

  -- `leftSet.Size() == 0` when the left channel is closed
  abbrev if_no_left : List Text → Option E → Resolved E → Resolved E
  if_no_left [] last_err rest = (false, last_err)
  if_no_left (t ∷ left_set) last_err rest = rest

  -- ConsumerLoop, with the two sets and the last error
  unfoldable pub consume_events : List (Event E) → List Text → List Text → Option E → Resolved E
  unfolding consume_items
  consume_events [] left_set right_set last_err = (false, last_err)
  consume_events (left_closed ∷ events) left_set right_set last_err =
      if_no_left left_set last_err (consume_events events left_set right_set last_err)
  consume_events (right_closed ∷ events) left_set right_set last_err =
      consume_events events left_set right_set last_err
  consume_events (left_msg (err e) ∷ events) left_set right_set last_err = (false, some e)
  consume_events (left_msg (iter b) ∷ events) left_set right_set last_err =
      consume_items (λ l e. consume_events events l right_set e) b.items b.end left_set right_set
        last_err
  consume_events (right_msg (failure e) ∷ events) left_set right_set last_err =
      consume_events events left_set right_set (some e)
  consume_events (right_msg (answer t) ∷ events) left_set right_set last_err =
      let rest = consume_events events left_set (t ∷ right_set) last_err in
      if is_key t left_set then (true, none) else rest

  -- resolveFastPath: the first receive is on the right channel
  unfoldable pub resolve_fast_path :
      List (Answer E Text) → (List (Answer E Text) → List (Event E)) → Resolved E
  unfolding consume_events
  resolve_fast_path [] arrivals = (false, none)
  resolve_fast_path (failure e ∷ rights) arrivals = (false, some e)
  resolve_fast_path (answer t ∷ rights) arrivals = consume_events (arrivals rights) [] (t ∷ []) none

  -- An order of arrival: which channel is received from next, as long as both are open.
  unfoldable pub interleave : List Bool → List (Event E) → List (Event E) → List (Event E)
  interleave picks [] ys = ys
  interleave picks (x ∷ xs) [] = x ∷ xs
  interleave [] (x ∷ xs) (y ∷ ys) = x ∷ interleave [] xs (y ∷ ys)
  interleave (true ∷ picks) (x ∷ xs) (y ∷ ys) = x ∷ interleave picks xs (y ∷ ys)
  interleave (false ∷ picks) (x ∷ xs) (y ∷ ys) = y ∷ interleave picks (x ∷ xs) ys

  -- what a channel delivers
  abbrev pub left_events : List (Msg E) → List (Event E)
  left_events [] = left_closed ∷ []
  left_events (m ∷ ms) = left_msg m ∷ left_events ms

  abbrev pub right_events : List (Answer E Text) → List (Event E)
  right_events [] = right_closed ∷ []
  right_events (r ∷ rs) = right_msg r ∷ right_events rs
