-- ===== src/Storage/Iterators/Ordered.antt =====
-- combinedIterator and OrderedCombinedIterator over static iterators.
use mongopenfga.Prelude.{
  ℕ, zero, suc, Option, none, some, List, [], ◌∷◌, map, Text, ◌==◌, text_eq, text_lt, if◌then◌else◌,
}
use mongopenfga.Storage.Iterators.Defs.{Answer, answer, failure, Next, item, done, fail}

module _ {E A : Type 0} where
  -- combinedIterator.Next, on the pending iterators
  unfoldable pub combined_next : List (List A) → Next E A × List (List A)
  combined_next [] = (done, [])
  combined_next ([] ∷ pending) = combined_next pending
  combined_next ((x ∷ items) ∷ pending) = (item x, items ∷ pending)

  -- combinedIterator.Head
  unfoldable pub combined_head : List (List A) → Next E A × List (List A)
  combined_head [] = (done, [])
  combined_head ([] ∷ pending) = combined_head pending
  combined_head ((x ∷ items) ∷ pending) = (item x, (x ∷ items) ∷ pending)

-- OrderedCombinedIterator; a nil pending iterator is `none`
pub record OrderedCombined (A : Type 0) : Type 0 where
  pub pending : List (Option (List A))
  pub last_head : Option A
  pub last_yielded : Option A

-- a pending iterator is not in ascending order
pub data OrderError : Type 0 where
  not_ascending : ℕ → OrderError

-- what head does with a pending iterator
pub data Visit (A : Type 0) : Type 0 where
  gone unordered : Visit A
  at : A → List A → Visit A

module _ {A : Type 0} (mapper : A → Text) where
  -- NewOrderedCombinedIterator
  abbrev pub new_ordered_combined_iterator : List (Option (List A)) → OrderedCombined A
  new_ordered_combined_iterator iters = record {
    pending = cleared iters;
    last_head = none;
    last_yielded = none;
  }
    where
      cleared : List (Option (List A)) → List (Option (List A))
      cleared [] = []
      cleared (none ∷ rest) = cleared rest
      cleared (some items ∷ rest) = some items ∷ cleared rest

  -- clearPendingThatAreNil
  unfoldable pub clear_pending_that_are_nil : List (Option (List A)) → List (List A)
  clear_pending_that_are_nil [] = []
  clear_pending_that_are_nil (none ∷ rest) = clear_pending_that_are_nil rest
  clear_pending_that_are_nil (some items ∷ rest) = items ∷ clear_pending_that_are_nil rest

  -- The loop that discards duplicates of the key: `head` becomes what Next returns.
  unfoldable pub discard : Text → A → List A → Visit A
  discard key head [] = if mapper head == key then gone else at head []
  discard key head (x ∷ items) =
      let rest = discard key x items in if mapper head == key then rest else at head (x ∷ items)

  -- Head of a pending iterator, after the last yielded item; `at` has the iterator that is left.
  unfoldable pub visit_pending : Option A → List A → Visit A
  unfolding discard
  visit_pending last [] = gone
  visit_pending none (x ∷ items) = at x (x ∷ items)
  visit_pending (some y) (x ∷ items) =
      if text_lt (mapper x) (mapper y)
      then unordered
      else if mapper x == mapper y
      then discard (mapper y) x (x ∷ items)
      else at x (x ∷ items)

  -- a new lower value at the head, or the old one
  abbrev pub lower : Option (A × ℕ) → A → ℕ → Option (A × ℕ)
  lower none x i = some (x, i)
  lower (some (m, j)) x i = if text_lt (mapper x) (mapper m) then some (x, i) else some (m, j)

  abbrev pub index_of : Option (A × ℕ) → Option ℕ
  index_of none = none
  index_of (some (m, i)) = some i

  abbrev pub Scanned : Type 0
  Scanned = Answer OrderError (Option ℕ) × List (Option (List A))

  abbrev pub keep_pending : Option (List A) → Scanned → Scanned
  keep_pending iter (a, pending) = (a, iter ∷ pending)

  -- head: the index of the pending iterator with the smallest item, `none` for ErrIteratorDone
  unfoldable pub scan : Option A → ℕ → List (List A) → Option (A × ℕ) → Scanned
  unfolding visit_pending
  scan last i [] head_min = (answer (index_of head_min), [])
  scan last i (items ∷ rest) head_min = elim (visit_pending last items) [
    | gone ↦ keep_pending none (scan last (suc i) rest head_min)
    | unordered ↦ (failure (not_ascending i), some items ∷ map some rest)
    | at x left ↦ keep_pending (some left) (scan last (suc i) rest (lower head_min x i))
  ]

  -- Next of a pending iterator
  unfoldable pub next_at : ℕ → List (Option (List A)) → Option A × List (Option (List A))
  next_at i [] = (none, [])
  next_at zero (none ∷ rest) = (none, none ∷ rest)
  next_at zero (some [] ∷ rest) = (none, some [] ∷ rest)
  next_at zero (some (x ∷ items) ∷ rest) = (some x, some items ∷ rest)
  next_at (suc i) (iter ∷ rest) = let (a, after) = next_at i rest in (a, iter ∷ after)

  abbrev pub yielded :
      Option A → Option A × List (Option (List A)) → Next OrderError A × OrderedCombined A
  yielded last (none, pending) =
      (done, record { pending = pending; last_head = none; last_yielded = last })
  yielded last (some x, pending) =
      (item x, record { pending = pending; last_head = none; last_yielded = some x })

  abbrev pub after_scan : OrderedCombined A → Scanned → Next OrderError A × OrderedCombined A
  after_scan c (failure e, pending) = (fail e, record c { pending = pending })
  after_scan c (answer none, pending) = (done, record c { pending = pending })
  after_scan c (answer (some i), pending) = yielded c.last_yielded (next_at i pending)

  -- OrderedCombinedIterator.Next
  unfoldable pub ordered_next : OrderedCombined A → Next OrderError A × OrderedCombined A
  unfolding scan next_at clear_pending_that_are_nil
  ordered_next c = after_scan c (scan c.last_yielded 0 (clear_pending_that_are_nil c.pending) none)

  -- Head of a pending iterator
  unfoldable pub head_at : ℕ → List (Option (List A)) → Option A
  head_at i [] = none
  head_at zero (none ∷ rest) = none
  head_at zero (some [] ∷ rest) = none
  head_at zero (some (x ∷ items) ∷ rest) = some x
  head_at (suc i) (iter ∷ rest) = head_at i rest

  abbrev pub item_or_done : Option A → Next OrderError A
  item_or_done none = done
  item_or_done (some x) = item x

  abbrev pub head_after_scan : OrderedCombined A → Scanned → Next OrderError A × OrderedCombined A
  head_after_scan c (failure e, pending) = (fail e, record c { pending = pending })
  head_after_scan c (answer none, pending) = (done, record c { pending = pending })
  head_after_scan c (answer (some i), pending) = (
    item_or_done (head_at i pending),
    record c { pending = pending; last_head = head_at i pending },
  )

  -- OrderedCombinedIterator.Head
  unfoldable pub ordered_head : OrderedCombined A → Next OrderError A × OrderedCombined A
  unfolding scan head_at clear_pending_that_are_nil
  ordered_head c = elim c.last_head [
    | some x ↦ (item x, c)
    | none ↦ head_after_scan c (scan c.last_yielded 0 (clear_pending_that_are_nil c.pending) none)
  ]
