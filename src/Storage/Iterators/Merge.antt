-- ===== src/Storage/Iterators/Merge.antt =====
-- What the combined iterators yield.
use mongopenfga.Prelude.{
  ℕ, zero, suc, ◌+◌, ◌<◌, ◌≡◌, refl, ap, ◌∙◌, inl, inr, In, true, false, Option, none, some, List,
  [], ◌∷◌, ◌++◌, length, Text, text_eq, text_beq, text_lt, text_lt_irrefl, text_lt_tri, arith,
}
use mongopenfga.Storage.Iterators.Defs.{item, drain_fuel}
use mongopenfga.Storage.Iterators.Drain.{drain-item}
use mongopenfga.Storage.Iterators.Ordered.{
  combined_next, OrderedCombined, OrderError, at, discard, visit_pending, scan, next_at,
  clear_pending_that_are_nil, ordered_next,
}

module _ {A : Type 0} where
  abbrev pub concat : List (List A) → List A
  concat [] = []
  concat (items ∷ rest) = items ++ concat rest

  -- The combined iterator yields the items of its iterators, one iterator after the other, and no
  -- error, if Next is called once more than there are items.
  pub drain-combined :
      {E : Type 0} (pending : List (List A)) (fuel : ℕ)
      → length (concat pending) < fuel
      → drain_fuel {E = E} fuel combined_next pending ≡ (concat pending, none)
  unfolding combined_next drain_fuel
  drain-combined [] zero l = absurd (omega (arith, l))
  drain-combined [] (suc fuel) l = refl
  drain-combined ([] ∷ pending) zero l = absurd (omega (arith, l))
  drain-combined ([] ∷ pending) (suc fuel) l = drain-combined pending (suc fuel) l
  drain-combined ((x ∷ items) ∷ pending) zero l = absurd (omega (arith, l))
  drain-combined {E = E} ((x ∷ items) ∷ pending) (suc fuel) l =
      ground (arith, drain-combined {E = E} (items ∷ pending) fuel (omega (arith, l)))

module _ {A : Type 0} (mapper : A → Text) where
  abbrev pub yielding : Option A → List A → List A → OrderedCombined A
  yielding last xs ys = record {
    pending = some xs ∷ some ys ∷ [];
    last_head = none;
    last_yielded = last;
  }

  -- If a second iterator has, after an item with the same key as the first iterator's only one, a
  -- larger item, then that item is never yielded: the discarding of the duplicate consumes it, and
  -- the iterator ends.
  pub drain-ordered_loses :
      (x x' y : A) (fuel : ℕ)
      → mapper x' ≡ mapper x
      → text_lt (mapper x) (mapper y) ≡ true
      → drain_fuel (suc (suc fuel)) (ordered_next mapper) (yielding none (x ∷ []) (x' ∷ y ∷ []))
        ≡ (x ∷ [], none)
  unfolding ordered_next drain_fuel scan next_at clear_pending_that_are_nil visit_pending discard
  drain-ordered_loses x x' y fuel same larger = rw same (
      ground (
        arith,
        text_lt_irrefl (mapper x),
        larger,
        text_lt_tri (mapper x) (mapper y),
        text_lt_tri (mapper y) (mapper x),
        text_lt_tri (mapper x) (mapper x),
      ))

  abbrev pub Above : Option A → A → Type 0
  Above none x = Unit {0}
  Above (some y) x = text_lt (mapper y) (mapper x) ≡ true

  -- the keys strictly ascend, from above that of the last item
  abbrev pub Ascending : Option A → List A → Type 0
  Ascending last [] = Unit {0}
  Ascending last (x ∷ xs) = Above last x × Ascending (some x) xs

  -- No item of one list has the key of an item of the other.
  abbrev pub Apart : List A → List A → Type 0
  Apart xs ys = (x y : A) → In x xs → In y ys → text_beq (mapper x) (mapper y) ≡ false

  -- the merge of two lists by their keys
  unfoldable pub merge : List A → List A → List A
  merge [] ys = ys
  merge (x ∷ xs) [] = x ∷ xs
  merge (x ∷ xs) (y ∷ ys) = elim (text_lt (mapper x) (mapper y)) [
    | true ↦ x ∷ merge xs (y ∷ ys)
    | false ↦ y ∷ merge (x ∷ xs) ys
  ]

  visit-Above :
      (last : Option A) (x : A) (items : List A)
      → Above last x
      → visit_pending mapper last (x ∷ items) ≡ at x (x ∷ items)
  unfolding visit_pending
  visit-Above none x items a = refl
  visit-Above (some y) x items a =
      ground (arith, a, text_lt_tri (mapper x) (mapper y), text_lt_tri (mapper y) (mapper x))

  Ascending-none : (xs : List A) (last : Option A) → Ascending last xs → Ascending none xs
  Ascending-none [] last a = tt
  Ascending-none (x ∷ xs) last a = (tt, a.1)

  abbrev left_over : List (Option (List A)) → A → OrderedCombined A
  left_over pending x = record { pending = pending; last_head = none; last_yielded = some x }

  drain-cons :
      (fuel : ℕ) (c c' : OrderedCombined A) (x : A) (out : List A)
      → ordered_next mapper c ≡ (item x, c')
      → drain_fuel fuel (ordered_next mapper) c' ≡ (out, none)
      → drain_fuel (suc fuel) (ordered_next mapper) c ≡ (x ∷ out, none)
  drain-cons fuel c c' x out h rest =
      drain-item (ordered_next mapper) fuel c c' x h
      ∙ ap (λ (r : List A × Option OrderError). (x ∷ r.0, r.1)) rest

  next_left :
      (last : Option A) (x : A) (xs : List A) (y : A) (ys : List A)
      → Above last x
      → Above last y
      → text_lt (mapper x) (mapper y) ≡ true
      → ordered_next mapper (yielding last (x ∷ xs) (y ∷ ys))
        ≡ (item x, yielding (some x) xs (y ∷ ys))
  unfolding ordered_next scan next_at clear_pending_that_are_nil
  next_left last x xs y ys a b l = ground (
    arith,
    l,
    visit-Above last x xs a,
    visit-Above last y ys b,
    text_lt_tri (mapper x) (mapper y),
  )

  next_right :
      (last : Option A) (x : A) (xs : List A) (y : A) (ys : List A)
      → Above last x
      → Above last y
      → text_lt (mapper y) (mapper x) ≡ true
      → ordered_next mapper (yielding last (x ∷ xs) (y ∷ ys))
        ≡ (item y, yielding (some y) (x ∷ xs) ys)
  unfolding ordered_next scan next_at clear_pending_that_are_nil
  next_right last x xs y ys a b l =
      ground (arith, l, visit-Above last x xs a, visit-Above last y ys b)

  -- One iterator has ended: the other's items, in their order.
  drain_one :
      (xs : List A) (last : Option A) (c : OrderedCombined A) (fuel : ℕ)
      → Ascending last xs
      → c.last_yielded ≡ last
      → clear_pending_that_are_nil mapper c.pending ≡ xs ∷ []
      → length xs < fuel
      → drain_fuel fuel (ordered_next mapper) c ≡ (xs, none)
  unfolding drain_fuel ordered_next scan next_at clear_pending_that_are_nil visit_pending
  drain_one [] last c zero a q p l = absurd (omega (arith, l))
  drain_one [] last c (suc fuel) a q p l = ground (arith, q, p)
  drain_one (x ∷ xs) last c zero a q p l = absurd (omega (arith, l))
  drain_one (x ∷ xs) last c (suc fuel) a q p l =
      let c' = left_over (some xs ∷ []) x in
      drain-cons fuel c c' x xs (ground (arith, q, p, visit-Above last x xs a.0))
        (drain_one xs (some x) c' fuel a.1 refl refl (omega (arith, l)))

  -- The ordered iterator over two iterators whose keys strictly ascend from above that of the last
  -- yielded item, if there is one, with no key in both, yields their merge, and no error, if Next is
  -- called once more than there are items.
  pub drain-ordered :
      (xs ys : List A) (last : Option A) (fuel : ℕ)
      → Ascending last xs
      → Ascending last ys
      → Apart xs ys
      → length xs + length ys < fuel
      → drain_fuel fuel (ordered_next mapper) (yielding last xs ys) ≡ (merge xs ys, none)
  unfolding drain_fuel ordered_next scan next_at clear_pending_that_are_nil visit_pending merge
  drain-ordered xs ys last zero a b apart l = absurd (omega (arith, l))
  drain-ordered [] [] last (suc fuel) a b apart l = refl
  drain-ordered [] (y ∷ ys) last (suc fuel) a b apart l =
      let c' = left_over (none ∷ some ys ∷ []) y in
      drain-cons fuel (yielding last [] (y ∷ ys)) c' y ys
        (ground (arith, visit-Above last y ys b.0))
        (drain_one ys (some y) c' fuel b.1 refl refl (omega (arith, l)))
  drain-ordered (x ∷ xs) [] last (suc fuel) a b apart l =
      let c' = left_over (some xs ∷ none ∷ []) x in
      drain-cons fuel (yielding last (x ∷ xs) []) c' x xs
        (ground (arith, visit-Above last x xs a.0))
        (drain_one xs (some x) c' fuel a.1 refl refl (omega (arith, l)))
  drain-ordered (x ∷ xs) (y ∷ ys) last (suc fuel) a b apart l =
      let c = yielding last (x ∷ xs) (y ∷ ys) in
      elim (text_lt_tri (mapper x) (mapper y)) [
        | inl (lt, _, _) ↦
            rw (merge, lt)
              (drain-cons fuel c (yielding (some x) xs (y ∷ ys)) x (merge xs (y ∷ ys))
                (next_left last x xs y ys a.0 b.0 lt)
                (drain-ordered xs (y ∷ ys) (some x) fuel a.1 (lt, b.1)
                  (λ u v i j. apart u v (inr i) j) (omega (arith, l))))
        | inr (inl (ge, gt, _)) ↦
            rw (merge, ge)
              (drain-cons fuel c (yielding (some y) (x ∷ xs) ys) y (merge (x ∷ xs) ys)
                (next_right last x xs y ys a.0 b.0 gt)
                (drain-ordered (x ∷ xs) ys (some y) fuel (gt, a.1) b.1
                  (λ u v i j. apart u v i (inr j)) (omega (arith, l))))
        | inr (inr (_, _, same)) ↦ absurd (ground (arith, same, apart x y (inl refl) (inl refl)))
      ]
