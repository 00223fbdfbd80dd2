-- ===== src/Graph/FastPath/Heads.antt =====
-- What the loop over the heads of the streams finds, if the streams deliver no error.
use mongopenfga.Prelude.{
  ℕ, suc, ◌<◌, ◌≡◌, refl, sym, subst, inl, inr, ◌⊎◌, Bool, Option, none, some, List, [], ◌∷◌, Text,
  length, arith, All, text_eq,
}
use mongopenfga.Storage.Iterators.Defs.{item, done}
use mongopenfga.Graph.FastPath.Stream.{
  Iter, Msg, Stream, buffer_head, buffer_next, stream_head, stream_next,
}
use mongopenfga.Graph.FastPath.Merge.{
  Beats, Heads, not_all, all_heads, initialized, compare_head, scan_heads,
}
use mongopenfga.Graph.FastPath.Good.{
  IsGood, buffered, left, weight, weights, HasBuffer, any_left, all_left,
}

-- The head of the buffer's texts.
abbrev pub text_head : List Text → Text
text_head [] = []
text_head (x ∷ items) = x

module _ {E : Type 0} where
  abbrev pub first : Stream E → Text
  first s = text_head (buffered s.buffer)

  -- the stream after a call of Next
  abbrev pub advanced : Stream E → Stream E
  advanced s = (stream_next s).1

  -- the stream has a head, and Next moves past it
  abbrev pub IsReady : Stream E → Type 0
  IsReady s =
      (stream_head s ≡ (item (first s), s))
      × (stream_next s ≡ (item (first s), advanced s))
      × (left s ≡ first s ∷ left (advanced s))
      × IsGood (advanced s)
      × (weight (advanced s) < weight s)

  abbrev pub Drained : Stream E → Stream E → Type 0
  Drained s s' =
      (stream_head s ≡ (done, s'))
      × IsGood s'
      × (left s' ≡ left s)
      × (weight s' < weight s)
      × (s'.idx ≡ s.idx)

  IsReady-items :
      (i : ℕ) (b : Option (Iter E)) (items : List Text) (end : Option E) (c : Bool)
      (ms : List (Msg E))
      → let s : Stream E = record {
        idx = i;
        buffer = some (record { items = items; end = end });
        source_is_closed = c;
        source = ms;
      } in
        IsGood s → IsReady s ⊎ ((s' : Stream E) × Drained s s')
  unfolding buffer_head buffer_next
  IsReady-items i b [] none c ms g = inr (_, (refl, (tt, g.1, g.2), refl, omega arith, refl))
  IsReady-items i b (x ∷ items) none c ms g = inl (refl, refl, refl, (refl, g.1, g.2), omega arith)
  IsReady-items i b items (some e) c ms g = absurd (ground (arith, g.0))

  IsReady-buffer :
      (i : ℕ) (b : Option (Iter E)) (c : Bool) (ms : List (Msg E))
      → let s : Stream E = record { idx = i; buffer = b; source_is_closed = c; source = ms } in
        IsGood s → HasBuffer s → IsReady s ⊎ ((s' : Stream E) × Drained s s')
  IsReady-buffer i none c ms g h = absurd (ground (arith, h.1))
  IsReady-buffer i (some b) c ms g h = IsReady-items i none b.items b.end c ms g

  -- A stream with a buffer is ready, or its head takes the empty buffer away.
  pub HasBuffer-cases :
      (s : Stream E) → IsGood s → HasBuffer s → IsReady s ⊎ ((s' : Stream E) × Drained s s')
  HasBuffer-cases s = IsReady-buffer s.idx s.buffer s.source_is_closed s.source

-- The loop over the heads, on texts.
abbrev pub compare_all : Beats → ℕ → Text → List ℕ → List Text → Text × List ℕ
compare_all beats idx best equal [] = (best, equal)
compare_all beats idx best equal (v ∷ heads) =
    let (best', equal') = compare_head beats idx v (initialized idx v best) equal in
    compare_all beats (suc idx) best' equal' heads

module _ {E : Type 0} where
  abbrev pub firsts : List (Stream E) → List Text
  firsts [] = []
  firsts (s ∷ streams) = first s ∷ firsts streams

  abbrev Missing : (List Text → Type 0) → List (Stream E) → List (Stream E) → Type 0
  Missing Good streams after =
      All IsGood after
      × All (λ s. Good (left s)) after
      × (weights after < weights streams)
      × (length after ≡ length streams)
      × ((x : Text) → any_left x after ≡ any_left x streams)
      × ((x : Text) → all_left x after ≡ all_left x streams)

  abbrev AllHeads : List (Stream E) → Type 0
  AllHeads streams =
      All IsReady streams
      × ((beats : Beats) (idx : ℕ) (best : Text) (equal : List ℕ)
          → let (b, eq) = compare_all beats idx best equal (firsts streams) in
            scan_heads beats idx best equal streams ≡ (all_heads b eq, streams))

  abbrev NoHead : (List Text → Type 0) → List (Stream E) → List (Stream E) → Type 0
  NoHead Good streams after =
      Missing Good streams after
      × ((beats : Beats) (idx : ℕ) (best : Text) (equal : List ℕ)
          → scan_heads beats idx best equal streams ≡ (not_all, after))

  module _ (beats : Beats) (idx : ℕ) (best : Text) (equal : List ℕ) (s : Stream E)
      (streams : List (Stream E)) {s' : Stream E} where
    scan_heads-done :
        stream_head s ≡ (done, s')
        → scan_heads beats idx best equal (s ∷ streams) ≡ (not_all, s' ∷ streams)
    unfolding scan_heads
    scan_heads-done h = cc

    scan_heads-item :
        (v : Text) {h : Heads E} {after : List (Stream E)}
        → stream_head s ≡ (item v, s')
        → (let (b, eq) = compare_head beats idx v (initialized idx v best) equal in
            scan_heads beats (suc idx) b eq streams ≡ (h, after))
        → scan_heads beats idx best equal (s ∷ streams) ≡ (h, s' ∷ after)
    unfolding scan_heads
    scan_heads-item v h k = cc

  -- The loop finds the heads of all streams, or it finds a stream at its end.
  pub scan_heads-cases :
      (Good : List Text → Type 0) (streams : List (Stream E))
      → All IsGood streams
      → All HasBuffer streams
      → All (λ s. Good (left s)) streams
      → AllHeads streams ⊎ ((after : List (Stream E)) × NoHead Good streams after)
  unfolding scan_heads
  scan_heads-cases Good [] g b p = inl (tt, λ beats idx best equal. refl)
  scan_heads-cases Good (s ∷ streams) g b p = elim (HasBuffer-cases s g.0 b.0) [
    | inr (s', (h, g', l, w, i)) ↦ inr (
      s' ∷ streams,
      (
        (
          (g', g.1),
          (subst Good (sym l) p.0, p.1),
          omega (arith, w),
          refl,
          λ x. rw l refl,
          λ x. rw l refl,
        ),
        λ beats idx best equal. scan_heads-done beats idx best equal s streams h,
      ),
    )
    | inl r ↦ elim (scan_heads-cases Good streams g.1 b.1 p.1) [
      | inl (rs, k) ↦ inl (
        (r, rs),
        λ beats idx best equal.
            scan_heads-item beats idx best equal s streams (first s) r.0 (k beats (suc idx) _ _),
      )
      | inr (after, (m, k)) ↦ inr (
        s ∷ after,
        (
          (
            (g.0, m.0),
            (p.0, m.1),
            omega (arith, m.2),
            omega (arith, m.3),
            λ x. rw (m.4 x) refl,
            λ x. rw (m.5 x) refl,
          ),
          λ beats idx best equal.
              scan_heads-item beats idx best equal s streams (first s) r.0 (k beats (suc idx) _ _),
        ),
      )
    ]
  ]
