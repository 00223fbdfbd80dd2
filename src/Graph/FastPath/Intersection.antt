-- ===== src/Graph/FastPath/Intersection.antt =====
-- What fastPathIntersection sends.
use mongopenfga.Prelude.{
  ℕ, zero, suc, ◌≤◌, ◌<◌, ◌≡◌, refl, ◌∙◌, sym, subst, ap, inl, inr, Bool-cases, Bool, true, false,
  none, List, [], ◌∷◌, ◌++◌, Text, is_key, length, arith, All, text_eq, ◌==◌, nat_beq, text_beq,
  text_beq_iff, text_lt, text_lt_irrefl, if◌then◌else◌,
}
use mongopenfga.Storage.Iterators.Defs.{answer}
use mongopenfga.Graph.FastPath.Stream.{Stream, clean_done}
use mongopenfga.Graph.FastPath.Merge.{
  Heads, all_heads, larger, Sent, scan_heads, flush, add_next_item_in_slice_streams_to_batch,
}
use mongopenfga.Graph.FastPath.Loops.{
  if_counted, if_all_active, if_all_equal, intersection_moved, intersection_cleaned,
  intersection_scanned, intersection_body, fast_path_intersection, skip_all,
}
use mongopenfga.Graph.FastPath.Good.{IsGood, left, weights, all_left, HasBuffer, clean_done-IsGood}
use mongopenfga.Graph.FastPath.Heads.{
  first, firsts, advanced, IsReady, compare_all, scan_heads-cases,
}
use mongopenfga.Graph.FastPath.Positions.{positions, compare_all-Wins, advance, append_nil}
use mongopenfga.Graph.FastPath.Deliver.{Delivers, flush-Delivers, add-Delivers}
use mongopenfga.Graph.FastPath.Advance.{
  IsTidy, advance-IsGood, advance-IsTidy, length-advance, weights-advance, first-object,
  all_left-below, moved-above,
}
use mongopenfga.Graph.FastPath.Skip.{skip_all-Skipped}
use mongopenfga.Graph.FastPath.Same.{
  larger-IsOrder, first_of, IsIntersection, all_same, all_left-advance,
}

module _ {E : Type 0} where
  module _ (exhausted invalid : E) (total : ℕ) where
    abbrev body : (List Text → List (Stream E) → Sent E) → List Text → List (Stream E) → Sent E
    body = intersection_body exhausted invalid total

    abbrev scanned :
        (List Text → List (Stream E) → Sent E) → List Text → Heads E × List (Stream E) → Sent E
    scanned = intersection_scanned exhausted invalid total

    module _ (continue : List Text → List (Stream E) → Sent E) (batch : List Text)
        (streams : List (Stream E)) {active : List (Stream E)} where
      body-cleaned :
          {c : Bool}
          → clean_done streams ≡ answer active
          → nat_beq (length active) total ≡ c
          → body continue batch streams
            ≡ if_all_active exhausted invalid c total continue batch active
      unfolding intersection_body intersection_cleaned
      body-cleaned c n =
          ap (intersection_cleaned exhausted invalid total continue batch) c
          ∙ ap (λ k. if_all_active exhausted invalid k total continue batch active) n

      body-short :
          clean_done streams ≡ answer active
          → nat_beq (length active) total ≡ false
          → body continue batch streams ≡ flush batch
      unfolding if_all_active
      body-short c n = body-cleaned c n

      body-scanned :
          {h : Heads E} {after : List (Stream E)}
          → clean_done streams ≡ answer active
          → nat_beq (length active) total ≡ true
          → scan_heads larger 0 [] [] active ≡ (h, after)
          → body continue batch streams ≡ scanned continue batch (h, after)
      unfolding if_all_active
      body-scanned c n h = body-cleaned c n ∙ ap (scanned continue batch) h

    module _ (continue : List Text → List (Stream E) → Sent E) (batch : List Text)
        (streams : List (Stream E)) (b : Text) (equal : List ℕ) where
      scanned-same :
          nat_beq (length equal) total ≡ true
          → scanned continue batch (all_heads b equal, streams)
            ≡ add_next_item_in_slice_streams_to_batch exhausted streams equal batch continue
      unfolding intersection_scanned if_all_equal
      scanned-same n = ap (λ k. if_all_equal exhausted invalid k continue batch b equal streams) n

      scanned-below :
          {after : List (Stream E)}
          → nat_beq (length equal) total ≡ false
          → skip_all invalid b streams ≡ (none, after)
          → scanned continue batch (all_heads b equal, streams) ≡ continue batch after
      unfolding intersection_scanned if_all_equal
      scanned-below n h =
          ap (λ k. if_all_equal exhausted invalid k continue batch b equal streams) n
          ∙ ap (intersection_moved exhausted invalid continue batch) h

    abbrev pub Intersects : (List Text → List (Stream E) → Sent E) → List (Stream E) → Type 0
    Intersects sends streams =
        (out : List Text) × IsIntersection out streams
        × ((batch : List Text) → Delivers (sends batch streams) (batch ++ out))

    abbrev Continues : (List Text → List (Stream E) → Sent E) → List (Stream E) → Type 0
    Continues continue streams =
        (after : List (Stream E))
        → All IsGood after
        → All (λ s. IsTidy (left s)) after
        → length after ≡ length streams
        → weights after < weights streams
        → Intersects continue after

    -- All heads are the same: it is sent, and then the intersection of what is left.
    same-Intersects :
        (continue : List Text → List (Stream E) → Sent E) (b : Text) (s : Stream E)
        (streams : List (Stream E))
        → All IsGood (s ∷ streams)
        → All (λ s. IsTidy (left s)) (s ∷ streams)
        → All IsReady (s ∷ streams)
        → All (λ v. text_beq b v ≡ true) (firsts (s ∷ streams))
        → Continues continue (s ∷ streams)
        → Intersects
            (λ batch after.
              add_next_item_in_slice_streams_to_batch exhausted after
                (positions b 0 (firsts (s ∷ streams)))
                batch
                continue)
            (s ∷ streams)
    same-Intersects continue b s streams g t r same k =
        let all = s ∷ streams in
        let h : is_key b (firsts all) ≡ true = ground (arith, same.0) in
        let (out, (asc, mem), d) =
          k (advance b all) (advance-IsGood b all g r) (advance-IsTidy b all t r)
            (length-advance b all) ((weights-advance b all r).1 h) in
        (
          b ∷ out,
          (
            (
              λ y key.
                  moved-above b y s t.0 r.0
                    (ground (arith, (text_beq_iff b (first s)).0 same.0, text_lt_irrefl b))
                    (first_of (is_key y (left (if b == first s then advanced s else s)))
                      (all_left y (advance b streams)) (sym (mem y) ∙ key)),
              asc,
            ),
            λ x. ground (arith, mem x, all_left-advance b x all r same),
          ),
          λ batch. add-Delivers exhausted all batch out continue b r (first-object b all t r h) h d,
        )

    -- The streams are moved to the largest head, which loses nothing that they have in common.
    below-Intersects :
        (continue : List Text → List (Stream E) → Sent E) (b : Text) (equal : List ℕ)
        (streams : List (Stream E))
        → All IsGood streams
        → All (λ s. IsTidy (left s)) streams
        → All IsReady streams
        → All (λ v. text_lt b v ≡ false) (firsts streams)
        → is_key b (firsts streams) ≡ true
        → length (positions b 0 (firsts streams)) < length streams
        → nat_beq (length equal) total ≡ false
        → Continues continue streams
        → Intersects (λ batch after. scanned continue batch (all_heads b equal, after)) streams
    below-Intersects continue b equal streams g t r high h below n k =
        let (moved, e, gs, ts, n', ws, ls, fs, ks) =
          skip_all-Skipped b invalid streams (first-object b streams t r h) g t r in
        let (out, (asc, mem), d) = k moved gs ts n' (ls below high) in
        (
          out,
          (
            asc,
            λ x. mem x ∙ elim (Bool-cases (text_lt x b)) [
              | inr l ↦ fs x l
              | inl l ↦ ground (arith, all_left-below b x streams t r h l, ks x)
            ],
          ),
          λ batch.
              subst (λ sent. Delivers sent (batch ++ out))
                (sym (scanned-below continue batch streams b equal n e)) (d batch),
        )

    scanned-Intersects :
        (continue : List Text → List (Stream E) → Sent E) (b : Text) (equal : List ℕ) (s : Stream E)
        (streams : List (Stream E))
        → length (s ∷ streams) ≡ total
        → All IsGood (s ∷ streams)
        → All (λ s. IsTidy (left s)) (s ∷ streams)
        → All IsReady (s ∷ streams)
        → equal ≡ positions b 0 (firsts (s ∷ streams))
        → All (λ v. text_lt b v ≡ false) (firsts (s ∷ streams))
        → is_key b (firsts (s ∷ streams)) ≡ true
        → Continues continue (s ∷ streams)
        → Intersects
            (λ batch after. scanned continue batch (all_heads b equal, after))
            (s ∷ streams)
    scanned-Intersects continue b equal s streams n g t r e high h k =
        let all = s ∷ streams in
        let (le, same) = all_same b all in
        elim (Bool-cases (nat_beq (length equal) total)) [
          | inr m ↦
              below-Intersects continue b equal all g t r high h
                (ground (arith, ap length e, m, n, le)) m k
          | inl y ↦
              let (out, u, d) =
                same-Intersects continue b s streams g t r
                  (same (ground (arith, ap length e, y, n))) k in
              (
                out,
                u,
                λ batch.
                    subst (λ sent. Delivers sent (batch ++ out))
                      (sym (scanned-same continue batch all b equal y))
                      (subst
                        (λ indices.
                          Delivers
                            (add_next_item_in_slice_streams_to_batch exhausted all indices batch
                              continue)
                            (batch ++ out))
                        (sym e) (d batch)),
              )
        ]

    active-Intersects :
        (continue : List Text → List (Stream E) → Sent E) (active : List (Stream E))
        → 0 < total
        → length active ≡ total
        → All IsGood active
        → All HasBuffer active
        → All (λ s. IsTidy (left s)) active
        → Continues continue active
        → Intersects
            (λ batch after. scanned continue batch (scan_heads larger 0 [] [] after))
            active
    unfolding intersection_scanned larger
    active-Intersects continue [] z n g h t k = absurd (omega (arith, z, n))
    active-Intersects continue (s ∷ streams) z n g hb t k =
        elim (scan_heads-cases IsTidy (s ∷ streams) g hb t) [
          | inr (after, ((gs, ts, wl, n', ma, al), h)) ↦
              let (out, (asc, mem), d) = k after gs ts n' wl in
              (
                out,
                (asc, λ x. mem x ∙ al x),
                λ batch.
                    subst (λ sent. Delivers sent (batch ++ out))
                      (sym (ap (scanned continue batch) (h larger 0 [] []))) (d batch),
              )
          | inl (rs, h) ↦
              let (e, high, key) =
                compare_all-Wins larger larger-IsOrder (first s) (firsts streams) in
              let (out, u, d) =
                scanned-Intersects continue (compare_all larger 0 [] [] (firsts (s ∷ streams))).0
                  (compare_all larger 0 [] [] (firsts (s ∷ streams))).1 s streams n g t rs e high
                  key k in
              (
                out,
                u,
                λ batch.
                    subst (λ sent. Delivers sent (batch ++ out))
                      (sym (ap (scanned continue batch) (h larger 0 [] []))) (d batch),
              )
        ]

    -- one round, if the rest of the loop is right
    round-Intersects :
        (continue : List Text → List (Stream E) → Sent E) (streams : List (Stream E))
        → 0 < total
        → length streams ≡ total
        → All IsGood streams
        → All (λ s. IsTidy (left s)) streams
        → Continues continue streams
        → Intersects (body continue) streams
    round-Intersects continue streams z n g t k =
        let (active, e, (ga, hb, ta, w, len, anys, alls, nones)) =
          clean_done-IsGood IsTidy streams g t in
        elim (Bool-cases (nat_beq (length active) total)) [
          | inr m ↦ (
            [],
            (tt, λ x. sym (nones (ground (arith, m, n, len)) x)),
            λ batch.
                subst (λ sent. Delivers sent (batch ++ []))
                  (sym (body-short continue batch streams e m))
                  (rw (append_nil batch) (flush-Delivers batch)),
          )
          | inl y ↦
              let same : length active ≡ length streams = ground (arith, y, n) in
              let (out, (asc, mem), d) =
                active-Intersects continue active z (ground (arith, y)) ga hb ta
                  (λ after gs ts n' l. k after gs ts (n' ∙ same) (omega (arith, w, l))) in
              (
                out,
                (asc, λ x. mem x ∙ alls same x),
                λ batch.
                    subst (λ sent. Delivers sent (batch ++ out))
                      (sym (body-scanned continue batch streams e y refl)) (d batch),
              )
        ]

    intersection-body :
        (fuel : ℕ) (batch : List Text) (streams : List (Stream E))
        → length streams ≡ total
        → fast_path_intersection exhausted invalid total (suc fuel) batch streams
          ≡ body (fast_path_intersection exhausted invalid total fuel) batch streams
    unfolding fast_path_intersection if_counted
    intersection-body fuel batch streams n =
        ap
          (λ c.
            if_counted exhausted invalid c
              (body (fast_path_intersection exhausted invalid total fuel)) batch streams)
          counted
      where
        counted : nat_beq (length streams) total ≡ true
        counted = ground (arith, n)

    -- If the streams of at least one child deliver no error and valid objects in strictly ascending
    -- order, fastPathIntersection ends, and sends every object that all children have once, in
    -- ascending order, and no error.
    pub fast_path_intersection-Intersects :
        (fuel : ℕ) (streams : List (Stream E))
        → 0 < total
        → length streams ≡ total
        → All IsGood streams
        → All (λ s. IsTidy (left s)) streams
        → weights streams ≤ fuel
        → Intersects (fast_path_intersection exhausted invalid total fuel) streams
    fast_path_intersection-Intersects zero [] z n g t l = absurd (omega (arith, z, n))
    fast_path_intersection-Intersects zero (s ∷ streams) z n g t l = absurd (omega (arith, l))
    fast_path_intersection-Intersects (suc fuel) streams z n g t l =
        let (out, u, d) =
          round-Intersects (fast_path_intersection exhausted invalid total fuel) streams z n g t
            (λ after gs ts n' w.
              fast_path_intersection-Intersects fuel after z (n' ∙ n) gs ts
                (omega (arith, l, w))) in
        (
          out,
          u,
          λ batch.
              subst (λ sent. Delivers sent (batch ++ out))
                (sym (intersection-body fuel batch streams n)) (d batch),
        )
