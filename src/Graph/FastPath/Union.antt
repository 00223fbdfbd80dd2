-- ===== src/Graph/FastPath/Union.antt =====
-- What fastPathUnion sends.
use mongopenfga.Prelude.{
  ℕ, zero, suc, ◌≤◌, ◌<◌, ◌≡◌, refl, ◌∙◌, sym, subst, ap, inl, inr, ◌⊎◌, true, false, List, [], ◌∷◌,
  ◌++◌, Text, is_key, arith, All, text_eq, text_lt, text_lt_irrefl, text_lt_trans, text_lt_tri,
}
use mongopenfga.Storage.Iterators.Defs.{answer}
use mongopenfga.Graph.FastPath.Stream.{Stream, clean_done}
use mongopenfga.Graph.FastPath.Merge.{
  not_all, all_heads, smaller, Sent, scan_heads, add_next_item_in_slice_streams_to_batch,
}
use mongopenfga.Graph.FastPath.Loops.{union_cleaned, union_scanned, fast_path_union, union_body}
use mongopenfga.Graph.FastPath.Good.{IsGood, left, weights, any_left, clean_done-IsGood}
use mongopenfga.Graph.FastPath.Heads.{first, firsts, IsReady, compare_all, scan_heads-cases}
use mongopenfga.Graph.FastPath.Positions.{IsOrder, positions, compare_all-Wins, advance, append_nil}
use mongopenfga.Graph.FastPath.Deliver.{Delivers, flush-Delivers, send_full-Delivers, add-Delivers}
use mongopenfga.Graph.FastPath.Advance.{
  Ascends, IsTidy, advance-IsGood, advance-IsTidy, weights-advance, any_left-advance, advance-above,
  first-object,
}

smaller-IsOrder : IsOrder smaller
unfolding smaller
smaller-IsOrder = record {
  irrefl = text_lt_irrefl;
  trans = text_lt_trans;
  total = λ a b n l. ground (arith, text_lt_tri a b, n, l);
}

module _ {E : Type 0} where
  -- every text that a stream has, in ascending order
  abbrev pub IsUnion : List Text → List (Stream E) → Type 0
  IsUnion out streams = Ascends out × ((x : Text) → is_key x out ≡ any_left x streams)

  module _ (exhausted : E) where
    module _ (continue : List Text → List (Stream E) → Sent E) (batch : List Text)
        (streams : List (Stream E)) {active after : List (Stream E)} where
      body-not_all :
          clean_done streams ≡ answer active
          → scan_heads smaller 0 [] [] active ≡ (not_all, after)
          → union_body exhausted continue batch streams ≡ continue batch after
      unfolding union_body union_cleaned union_scanned
      body-not_all c h =
          ap (union_cleaned exhausted continue batch) c
          ∙ ap (union_scanned exhausted continue batch) h

      body-all_heads :
          {b : Text} {equal : List ℕ}
          → clean_done streams ≡ answer active
          → scan_heads smaller 0 [] [] active ≡ (all_heads b equal, after)
          → union_body exhausted continue batch streams
            ≡ add_next_item_in_slice_streams_to_batch exhausted after equal batch continue
      unfolding union_body union_cleaned union_scanned
      body-all_heads c h =
          ap (union_cleaned exhausted continue batch) c
          ∙ ap (union_scanned exhausted continue batch) h

    abbrev pub Unites : (List Text → List (Stream E) → Sent E) → List (Stream E) → Type 0
    Unites sends streams =
        (out : List Text) × IsUnion out streams
        × ((batch : List Text) → Delivers (sends batch streams) (batch ++ out))

    abbrev Continues : (List Text → List (Stream E) → Sent E) → List (Stream E) → Type 0
    Continues continue streams =
        (after : List (Stream E))
        → All IsGood after
        → All (λ s. IsTidy (left s)) after
        → (weights after < weights streams) ⊎ (after ≡ [])
        → Unites continue after

    -- The smallest head is sent, and then the union of what is left.
    heads-Unites :
        (continue : List Text → List (Stream E) → Sent E) (b : Text) (streams : List (Stream E))
        → All IsGood streams
        → All (λ s. IsTidy (left s)) streams
        → All IsReady streams
        → All (λ v. text_lt v b ≡ false) (firsts streams)
        → is_key b (firsts streams) ≡ true
        → Continues continue streams
        → Unites
            (λ batch after.
              add_next_item_in_slice_streams_to_batch exhausted after
                (positions b 0 (firsts streams))
                batch
                continue)
            streams
    heads-Unites continue b streams g t r low h k =
        let (out, (asc, mem), d) =
          k (advance b streams) (advance-IsGood b streams g r) (advance-IsTidy b streams t r)
            (inl ((weights-advance b streams r).1 h)) in
        (
          b ∷ out,
          (
            (λ y key. advance-above b y streams t r low (sym (mem y) ∙ key), asc),
            λ x. ground (arith, mem x, any_left-advance b x streams r, h),
          ),
          λ batch.
              add-Delivers exhausted streams batch out continue b r (first-object b streams t r h) h
                d,
        )

    scanned-Unites :
        (continue : List Text → List (Stream E) → Sent E) (active : List (Stream E))
        → All IsGood active
        → All (λ s. IsTidy (left s)) active
        → All IsReady active
        → Continues continue active
        → (let (b, eq) = compare_all smaller 0 [] [] (firsts active) in
            Unites
              (λ batch after.
                add_next_item_in_slice_streams_to_batch exhausted after eq batch continue)
              active)
    unfolding add_next_item_in_slice_streams_to_batch smaller
    scanned-Unites continue [] g t r k =
        let (out, u, d) = k [] tt tt (inr refl) in
        (out, u, λ batch. send_full-Delivers batch out (λ bt. continue bt []) λ bt. d bt)
    scanned-Unites continue (s ∷ active) g t r k =
        let (e, low, h) = compare_all-Wins smaller smaller-IsOrder (first s) (firsts active) in
        subst
          (λ eq.
            Unites
              (λ batch after.
                add_next_item_in_slice_streams_to_batch exhausted after eq batch continue)
              (s ∷ active))
          (sym e)
          (heads-Unites continue (compare_all smaller 0 [] [] (firsts (s ∷ active))).0 (s ∷ active)
            g t r low h k)

    -- one round, if the rest of the loop is right
    round-Unites :
        (continue : List Text → List (Stream E) → Sent E) (streams : List (Stream E))
        → All IsGood streams
        → All (λ s. IsTidy (left s)) streams
        → Continues continue streams
        → Unites (union_body exhausted continue) streams
    round-Unites continue streams g t k =
        let (active, e, (ga, hb, ta, w, len, anys, alls, nones)) =
          clean_done-IsGood IsTidy streams g t in
        elim (scan_heads-cases IsTidy active ga hb ta) [
          | inr (after, ((gs, ts, wl, n, ma, al), h)) ↦
              let (out, (asc, mem), d) = k after gs ts (inl (omega (arith, w, wl))) in
              (
                out,
                (asc, λ x. mem x ∙ ma x ∙ anys x),
                λ batch.
                    subst (λ sent. Delivers sent (batch ++ out))
                      (sym (body-not_all continue batch streams e (h smaller 0 [] []))) (d batch),
              )
          | inl (rs, h) ↦
              let (out, (asc, mem), d) = scanned-Unites continue active ga ta rs (λ after gs ts c.
                k after gs ts (elim c [ inl l ↦ inl (omega (arith, w, l)) | inr l ↦ inr l ])) in
              (
                out,
                (asc, λ x. mem x ∙ anys x),
                λ batch.
                    subst (λ sent. Delivers sent (batch ++ out))
                      (sym (body-all_heads continue batch streams e (h smaller 0 [] []))) (d batch),
              )
        ]

    empty-Unites : (fuel : ℕ) → Unites (fast_path_union exhausted fuel) []
    unfolding fast_path_union
    empty-Unites zero = ([], (tt, λ x. refl), λ batch. rw (append_nil batch) (flush-Delivers batch))
    empty-Unites (suc fuel) =
        ([], (tt, λ x. refl), λ batch. rw (append_nil batch) (flush-Delivers batch))

    -- If the streams of the children deliver no error and valid objects in strictly ascending order,
    -- fastPathUnion ends, and sends every object of a child once, in ascending order, and no error.
    pub fast_path_union-Unites :
        (fuel : ℕ) (streams : List (Stream E))
        → All IsGood streams
        → All (λ s. IsTidy (left s)) streams
        → weights streams ≤ fuel
        → Unites (fast_path_union exhausted fuel) streams
    unfolding fast_path_union
    fast_path_union-Unites zero [] g t l = empty-Unites zero
    fast_path_union-Unites (suc fuel) [] g t l = empty-Unites (suc fuel)
    fast_path_union-Unites zero (s ∷ streams) g t l = absurd (omega (arith, l))
    fast_path_union-Unites (suc fuel) (s ∷ streams) g t l =
        round-Unites (fast_path_union exhausted fuel) (s ∷ streams) g t λ after gs ts c. elim c [
          | inl w ↦ fast_path_union-Unites fuel after gs ts (omega (arith, l, w))
          | inr e ↦ subst (Unites (fast_path_union exhausted fuel)) (sym e) (empty-Unites fuel)
        ]
