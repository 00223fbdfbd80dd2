-- ===== src/Graph/FastPath/Difference.antt =====
-- What fastPathDifference sends.
use mongopenfga.Prelude.{
  ℕ, zero, suc, ◌+◌, ◌≤◌, ◌<◌, ◌≡◌, refl, ◌∙◌, sym, subst, ap, inl, inr, Bool-cases, true, false,
  not, List, [], ◌∷◌, ◌++◌, Text, is_key, arith, ◌||◌, ◌&&◌, text_eq, ◌==◌, text_beq, text_beq_iff,
  text_beq_refl, text_lt, text_lt_tri,
}
use mongopenfga.Storage.Iterators.Defs.{Answer, answer}
use mongopenfga.Graph.FastPath.Stream.{Stream, clean_done, next_item_in_slice_streams}
use mongopenfga.Graph.FastPath.Merge.{Sent}
use mongopenfga.Graph.FastPath.Good.{IsGood, left, weight, HasBuffer}
use mongopenfga.Graph.FastPath.Heads.{first, advanced, IsReady}
use mongopenfga.Graph.FastPath.Positions.{next_item-cons, append_nil}
use mongopenfga.Graph.FastPath.Deliver.{Delivers, added-Delivers}
use mongopenfga.Graph.FastPath.Advance.{Ascends, IsTidy}
use mongopenfga.Graph.FastPath.Good.{fetch_source-IsGood}
use mongopenfga.Graph.FastPath.Heads.{HasBuffer-cases}
use mongopenfga.Graph.FastPath.Skip.{skip_stream}
use mongopenfga.Graph.FastPath.Stream.{next_of, stream_head}
use mongopenfga.Graph.FastPath.DifferenceLoop.{
  Loop, after_difference, both_moved, diff_skipped, if_above, if_same, diff_head, base_head,
  difference_cleaned, fast_path_difference,
}
use mongopenfga.Graph.FastPath.Same.{first_of}
use mongopenfga.Graph.FastPath.AfterLoop.{clean_two, after-empty, after-diff, after-base}
use mongopenfga.Graph.FastPath.Minus.{absent, minus_same, minus_above, minus_below}

module _ {E : Type 0} where
  -- every text of the first stream that the second does not have, in ascending order
  abbrev pub IsDifference : List Text → Stream E → Stream E → Type 0
  IsDifference out b d =
      Ascends out × ((x : Text) → is_key x out ≡ (is_key x (left b) && not (is_key x (left d))))

  -- the two streams, with the first one's index 0 and the other's 1
  abbrev pub IsPair : Stream E → Stream E → Type 0
  IsPair b d = IsGood b × IsGood d × IsTidy (left b) × IsTidy (left d) × (b.idx ≡ 0) × (d.idx ≡ 1)

  abbrev pub Subtracts : (List Text → Sent E) → Stream E → Stream E → Type 0
  Subtracts sends b d =
      (out : List Text) × IsDifference out b d
      × ((batch : List Text) → Delivers (sends batch) (batch ++ out))

  abbrev Continues : Loop E → ℕ → Type 0
  Continues continue n =
      (b d : Stream E)
      → IsPair b d
      → weight b + weight d < n
      → Subtracts (λ batch. continue batch (b ∷ d ∷ [])) b d

  -- the same texts, sent by an equal program
  transported :
      (b d b' d' : Stream E) (sends sends' : List Text → Sent E)
      → left b' ≡ left b
      → left d' ≡ left d
      → ((batch : List Text) → sends batch ≡ sends' batch)
      → Subtracts sends' b' d'
      → Subtracts sends b d
  transported b d b' d' sends sends' l m e (out, (asc, mem), del) = (
    out,
    (asc, λ x. mem x ∙ rw (l, m) refl),
    λ batch. subst (λ sent. Delivers sent (batch ++ out)) (sym (e batch)) (del batch),
  )

  advanced-IsTidy : (s : Stream E) → IsTidy (left s) → IsReady s → IsTidy (left (advanced s))
  advanced-IsTidy s t r = let t' = subst IsTidy r.2 t in (t'.0.1, λ y k. t'.1 y (ground (arith, k)))

  base_advanced :
      (b d : Stream E)
      → IsReady b
      → next_item_in_slice_streams (0 ∷ []) [] (b ∷ d ∷ [])
        ≡ (answer (first b), advanced b ∷ d ∷ [])
  unfolding next_item_in_slice_streams next_of
  base_advanced b d r =
      next_item-cons 0 [] [] (b ∷ d ∷ []) (ap (λ n. (n.0, advanced b ∷ d ∷ [])) r.1)

  both_advanced :
      (b d : Stream E)
      → IsReady b
      → IsReady d
      → next_item_in_slice_streams (0 ∷ 1 ∷ []) [] (b ∷ d ∷ [])
        ≡ (answer (first d), advanced b ∷ advanced d ∷ [])
  unfolding next_item_in_slice_streams next_of
  both_advanced b d r r' =
      next_item-cons 0 (1 ∷ []) [] (b ∷ d ∷ []) (ap (λ n. (n.0, advanced b ∷ d ∷ [])) r.1)
      ∙ next_item-cons 1 [] (first b) (advanced b ∷ d ∷ [])
          (ap (λ n. (n.0, advanced b ∷ advanced d ∷ [])) r'.1)

  module _ (exhausted invalid : E) (continue : Loop E) (b d : Stream E) where
    module _ (p : IsPair b d) (rb : IsReady b) (rd : IsReady d)
        (k : Continues continue (weight b + weight d)) where
      -- the heads are the same: both streams are moved
      same-Subtracts :
          first b ≡ first d
          → Subtracts
              (λ batch. if_same exhausted invalid true continue batch (first b) (first d) b d)
              b
              d
      unfolding if_same both_moved
      same-Subtracts e =
          let both : next_item_in_slice_streams (0 ∷ 1 ∷ []) [] (b ∷ d ∷ [])
              ≡ (answer (first d), advanced b ∷ advanced d ∷ []) =
            both_advanced b d rb rd in
          let (out, (asc, mem), del) =
            k (advanced b) (advanced d)
              (rb.3, rd.3, advanced-IsTidy b p.2 rb, advanced-IsTidy d p.3 rd, p.4, p.5)
              (omega (arith, rb.4, rd.4)) in
          (
            out,
            (
              asc,
              λ x.
                  mem x
                  ∙ minus_same x (first b) (left (advanced b)) (left (advanced d))
                      (subst IsTidy rb.2 p.2).0
                  ∙ rw (rb.2, rd.2, e) refl,
            ),
            λ batch.
                subst (λ sent. Delivers sent (batch ++ out))
                  (sym (ap (both_moved exhausted invalid continue batch) both)) (del batch),
          )

      -- the base is smaller: it is sent
      above-Subtracts :
          text_lt (first b) (first d) ≡ true
          → Subtracts (λ batch. if_above exhausted invalid true continue batch (first b) b d) b d
      unfolding if_above
      above-Subtracts l =
          let moved : next_item_in_slice_streams (0 ∷ []) [] (b ∷ d ∷ [])
              ≡ (answer (first b), advanced b ∷ d ∷ []) =
            base_advanced b d rb in
          let tb = subst IsTidy rb.2 p.2 in
          let (out, (asc, mem), del) =
            k (advanced b) d (rb.3, p.1, advanced-IsTidy b p.2 rb, p.3, p.4, p.5)
              (omega (arith, rb.4)) in
          (
            first b ∷ out,
            (
              (
                λ y key. tb.0.0 y (first_of (is_key y (left (advanced b))) _ (sym (mem y) ∙ key)),
                asc,
              ),
              λ x.
                  ap (λ k. x == first b || k) (mem x)
                  ∙ minus_above x (first b) (left (advanced b)) (left d) (
                      rw rd.2 (
                        absent (first b) (first d) (left (advanced d)) (subst IsTidy rd.2 p.3).0 l))
                  ∙ rw rb.2 refl,
            ),
            λ batch.
                added-Delivers exhausted (b ∷ d ∷ []) batch out continue (0 ∷ []) (first b)
                  (advanced b ∷ d ∷ []) (tb.1 (first b) (ground (arith, text_beq_refl (first b))))
                  moved del,
          )

      -- the second stream is moved to the base
      below-Subtracts :
          text_lt (first d) (first b) ≡ true
          → Subtracts (λ batch. if_above exhausted invalid false continue batch (first b) b d) b d
      unfolding if_above diff_skipped
      below-Subtracts l =
          let tb = subst IsTidy rb.2 p.2 in
          let v = tb.1 (first b) (ground (arith, text_beq_refl (first b))) in
          let (d', e, (g', t', w, lt, f, below, i)) =
            skip_stream (first b) invalid d.idx d.buffer d.source_is_closed d.source v p.1 p.3 rd in
          let (out, (asc, mem), del) =
            k b d' (p.0, g', p.2, t', p.4, i ∙ p.5) (omega (arith, lt l)) in
          (
            out,
            (
              asc,
              λ x.
                  mem x
                  ∙ subst
                      (λ base.
                        (is_key x base && not (is_key x (left d')))
                        ≡ (is_key x base && not (is_key x (left d))))
                      (sym rb.2)
                      (minus_below x (first b) (left (advanced b)) (left d) (left d') tb.0 (f x)),
            ),
            λ batch.
                subst (λ sent. Delivers sent (batch ++ out))
                  (sym (ap (diff_skipped exhausted invalid continue batch b) e)) (del batch),
          )

      -- the step on the two heads
      heads-Subtracts :
          Subtracts
            (λ batch.
              if_same exhausted invalid
                (text_beq (first b) (first d))
                continue
                batch
                (first b)
                (first d)
                b
                d)
            b
            d
      unfolding if_same
      heads-Subtracts = elim (Bool-cases (text_beq (first b) (first d))) [
        | inl e ↦ rw e (same-Subtracts ((text_beq_iff (first b) (first d)).0 e))
        | inr n ↦ rw n (elim (Bool-cases (text_lt (first b) (first d))) [
          | inl l ↦ rw l (above-Subtracts l)
          | inr m ↦ rw m (below-Subtracts (ground (arith, text_lt_tri (first b) (first d), n, m)))
        ])
      ]

    -- The loop over the heads drops a drained stream, or the step is on two heads.
    active-Subtracts :
        IsPair b d
        → HasBuffer b
        → HasBuffer d
        → Continues continue (weight b + weight d)
        → Subtracts (λ batch. base_head exhausted invalid continue batch d (stream_head b)) b d
    unfolding base_head diff_head
    active-Subtracts p hb hd k = elim (HasBuffer-cases b p.0 hb) [
      | inr (b', (h, g, l, w, i)) ↦
          transported b d b' d _ (λ batch. continue batch (b' ∷ d ∷ [])) l refl
            (λ batch. ap (base_head exhausted invalid continue batch d) h)
            (k b' d (g, p.1, subst IsTidy (sym l) p.2, p.3, i ∙ p.4, p.5) (omega (arith, w)))
      | inl rb ↦ elim (HasBuffer-cases d p.1 hd) [
        | inr (d', (h, g, l, w, i)) ↦
            transported b d b d' _ (λ batch. continue batch (b ∷ d' ∷ [])) refl l
              (λ batch.
                ap (base_head exhausted invalid continue batch d) rb.0
                ∙ ap (diff_head exhausted invalid continue batch (first b) b) h)
              (k b d' (p.0, g, p.2, subst IsTidy (sym l) p.3, p.4, i ∙ p.5) (omega (arith, w)))
        | inl rd ↦
            transported b d b d _ _ refl refl
              (λ batch.
                ap (base_head exhausted invalid continue batch d) rb.0
                ∙ ap (diff_head exhausted invalid continue batch (first b) b) rd.0)
              (heads-Subtracts p rb rd k)
      ]
    ]

  module _ (exhausted invalid : E) where
    -- one round, if the rest of the loop is right
    round-Subtracts :
        (fuel : ℕ) (continue : Loop E) (b d : Stream E)
        → IsPair b d
        → weight b ≤ fuel
        → Continues continue (weight b + weight d)
        → Subtracts
            (λ batch.
              difference_cleaned exhausted invalid fuel continue batch (clean_done (b ∷ d ∷ [])))
            b
            d
    unfolding difference_cleaned
    round-Subtracts fuel continue b d p n k =
        let (b', (fb, gb, lb, wb, ib, cb)) = fetch_source-IsGood b p.0 in
        let (d', (fd, gd, ld, wd, id, cd)) = fetch_source-IsGood d p.1 in
        elim cb [
          | inl (yb, zb) ↦ elim cd [
            | inl (yd, zd) ↦
                transported b d b' d' _ (λ batch. after_difference fuel batch []) lb ld
                  (λ batch. ap (cleaned batch) (clean_two b d true true fb fd yb yd))
                  (
                    [],
                    (tt, λ x. rw zb refl),
                    λ batch. rw (append_nil batch) (after-empty fuel batch),
                  )
            | inr (yd, hd) ↦
                transported b d b' d' _ (λ batch. after_difference fuel batch (d' ∷ [])) lb ld
                  (λ batch. ap (cleaned batch) (clean_two b d true false fb fd yb yd))
                  (
                    [],
                    (tt, λ x. rw zb refl),
                    λ batch. rw (append_nil batch) (after-diff fuel batch d' gd (id ∙ p.5)),
                  )
          ]
          | inr (yb, hb) ↦ elim cd [
            | inl (yd, zd) ↦
                transported b d b' d' _ (λ batch. after_difference fuel batch (b' ∷ [])) lb ld
                  (λ batch. ap (cleaned batch) (clean_two b d false true fb fd yb yd))
                  (
                    left b',
                    ((subst IsTidy (sym lb) p.2).0, λ x. rw zd (ground arith)),
                    λ batch. after-base fuel batch b' gb (ib ∙ p.4) (omega (arith, wb, n)),
                  )
            | inr (yd, hd) ↦
                transported b d b' d' _ _ lb ld
                  (λ batch. ap (cleaned batch) (clean_two b d false false fb fd yb yd))
                  (active-Subtracts exhausted invalid continue b' d'
                    (
                      gb,
                      gd,
                      subst IsTidy (sym lb) p.2,
                      subst IsTidy (sym ld) p.3,
                      ib ∙ p.4,
                      id ∙ p.5,
                    )
                    hb hd (λ c e q l. k c e q (omega (arith, wb, wd, l))))
          ]
        ]
      where
        cleaned : List Text → Answer E (List (Stream E)) → Sent E
        cleaned = difference_cleaned exhausted invalid fuel continue

    -- If the streams of the two children deliver no error and objects in strictly ascending order,
    -- fastPathDifference ends, and sends every object of the first child that the second does not
    -- have once, in ascending order, and no error.
    pub fast_path_difference-Subtracts :
        (fuel : ℕ) (b d : Stream E)
        → IsPair b d
        → weight b + weight d ≤ fuel
        → Subtracts (λ batch. fast_path_difference exhausted invalid fuel batch (b ∷ d ∷ [])) b d
    unfolding fast_path_difference
    fast_path_difference-Subtracts zero b d p l = absurd (omega (arith, l))
    fast_path_difference-Subtracts (suc fuel) b d p l =
        round-Subtracts fuel (fast_path_difference exhausted invalid fuel) b d p (omega (arith, l))
          (λ b' d' p' w. fast_path_difference-Subtracts fuel b' d' p' (omega (arith, l, w)))
