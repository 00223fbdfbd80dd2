-- ===== src/Graph/FastPath/Good.antt =====
-- Streams that deliver no error: the texts that they have left, and how CleanDone keeps them.
use mongopenfga.Prelude.{
  ℕ, suc, ◌+◌, ◌≤◌, ◌<◌, ◌≡◌, refl, sym, subst, inl, inr, ◌⊎◌, Bool, true, false, Option, none,
  some, List, [], ◌∷◌, ◌++◌, Text, is_key, length, arith, All, ◌||◌, ◌&&◌, text_eq,
}
use mongopenfga.Storage.Iterators.Defs.{answer}
use mongopenfga.Graph.FastPath.Stream.{
  Iter, Msg, iter, err, Stream, fetch_source, fetch_all, delete_done, clean_done, is_done,
}

pub is_key-append : (x : Text) (a b : List Text) → is_key x (a ++ b) ≡ (is_key x a || is_key x b)
is_key-append x [] b = refl
is_key-append x (a ∷ rest) b = ground (arith, is_key-append x rest b)

module _ {E : Type 0} where
  -- the messages are iterators that end without an error
  abbrev pub IsClean : List (Msg E) → Type 0
  IsClean [] = Unit {0}
  IsClean (err e ∷ ms) = ⊥
  IsClean (iter b ∷ ms) = (b.end ≡ none) × IsClean ms

  -- the texts that the messages carry
  abbrev pub contents : List (Msg E) → List Text
  contents [] = []
  contents (err e ∷ ms) = contents ms
  contents (iter b ∷ ms) = b.items ++ contents ms

  abbrev pub buffered : Option (Iter E) → List Text
  buffered none = []
  buffered (some b) = b.items

  abbrev pub BufferEnds : Option (Iter E) → Type 0
  BufferEnds none = Unit {0}
  BufferEnds (some b) = b.end ≡ none

  abbrev pub source_weight : List (Msg E) → ℕ
  source_weight [] = 0
  source_weight (err e ∷ ms) = source_weight ms
  source_weight (iter b ∷ ms) = 2 + length b.items + source_weight ms

  abbrev pub buffer_weight : Option (Iter E) → ℕ
  buffer_weight none = 0
  buffer_weight (some b) = suc (length b.items)

  -- the stream delivers no error, and nothing is on a channel that it knows to be closed
  abbrev pub IsGood : Stream E → Type 0
  IsGood s = BufferEnds s.buffer × IsClean s.source × (s.source_is_closed ≡ true → s.source ≡ [])

  abbrev pub left : Stream E → List Text
  left s = buffered s.buffer ++ contents s.source

  -- how often a loop can work on the stream
  abbrev pub weight : Stream E → ℕ
  weight s = suc (buffer_weight s.buffer + source_weight s.source)

  abbrev pub weights : List (Stream E) → ℕ
  weights [] = 0
  weights (s ∷ streams) = weight s + weights streams

  abbrev pub HasBuffer : Stream E → Type 0
  HasBuffer s = (b : Iter E) × (s.buffer ≡ some b)

  abbrev pub any_left : Text → List (Stream E) → Bool
  any_left x [] = false
  any_left x (s ∷ streams) = is_key x (left s) || any_left x streams

  abbrev pub all_left : Text → List (Stream E) → Bool
  all_left x [] = true
  all_left x (s ∷ streams) = is_key x (left s) && all_left x streams

  abbrev stream : ℕ → Option (Iter E) → Bool → List (Msg E) → Stream E
  stream i b c ms = record { idx = i; buffer = b; source_is_closed = c; source = ms }

  abbrev Fetched : Stream E → Stream E → Type 0
  Fetched s s' =
      (fetch_source s ≡ (none, s'))
      × IsGood s'
      × (left s' ≡ left s)
      × (weight s' ≤ weight s)
      × (s'.idx ≡ s.idx)
      × (((is_done s' ≡ true) × (left s' ≡ [])) ⊎ ((is_done s' ≡ false) × HasBuffer s'))

  fetched :
      (i : ℕ) (b : Option (Iter E)) (c : Bool) (ms : List (Msg E))
      → IsGood (stream i b c ms)
      → (s' : Stream E) × Fetched (stream i b c ms) s'
  unfolding fetch_source
  fetched i (some b) true ms g = (_, (refl, g, refl, omega arith, refl, inr (refl, (b, refl))))
  fetched i (some b) false ms g = (_, (refl, g, refl, omega arith, refl, inr (refl, (b, refl))))
  fetched i none true ms g = (_, (refl, g, refl, omega arith, refl, inl (refl, rw (g.2 refl) refl)))
  fetched i none false [] g = (
    stream i none true [],
    (refl, (tt, tt, λ h. refl), refl, omega arith, refl, inl (refl, refl)),
  )
  fetched i none false (err e ∷ ms) g = absurd (g.1)
  fetched i none false (iter b ∷ ms) g = (
    stream i (some b) false ms,
    (
      refl,
      (g.1.0, g.1.1, λ h. absurd (ground arith)),
      refl,
      omega arith,
      refl,
      inr (refl, (b, refl)),
    ),
  )

  -- fetchSource gives the stream a buffer, or finds that it is done
  pub fetch_source-IsGood : (s : Stream E) → IsGood s → (s' : Stream E) × Fetched s s'
  fetch_source-IsGood s g = fetched s.idx s.buffer s.source_is_closed s.source g

  -- what CleanDone does to streams that deliver no error
  abbrev pub Cleaned : (List Text → Type 0) → List (Stream E) → List (Stream E) → Type 0
  Cleaned Good streams active =
      All IsGood active
      × All HasBuffer active
      × All (λ s. Good (left s)) active
      × (weights active ≤ weights streams)
      × (length active ≤ length streams)
      × ((x : Text) → any_left x active ≡ any_left x streams)
      × (length active ≡ length streams → (x : Text) → all_left x active ≡ all_left x streams)
      × (length active < length streams → (x : Text) → all_left x streams ≡ false)

  pub fetch_all-cons :
      (s : Stream E) (streams : List (Stream E)) {s' : Stream E} {fs : List (Stream E)}
      → fetch_source s ≡ (none, s')
      → fetch_all streams ≡ (none, fs)
      → fetch_all (s ∷ streams) ≡ (none, s' ∷ fs)
  unfolding fetch_all
  fetch_all-cons s streams f fe = cc

  cleaned :
      (Good : List Text → Type 0) (streams : List (Stream E))
      → All IsGood streams
      → All (λ s. Good (left s)) streams
      → (fs : List (Stream E)) × (fetch_all streams ≡ (none, fs))
        × Cleaned Good streams (delete_done fs)
  unfolding fetch_all delete_done
  cleaned Good [] g p = (
    [],
    refl,
    (tt, tt, tt, omega arith, omega arith, λ x. refl, λ e x. refl, λ l. absurd (omega (arith, l))),
  )
  cleaned Good (s ∷ streams) g p =
      let (s', (f, g', l, w, i, d)) = fetch_source-IsGood s g.0 in
      let (fs, fe, (gs, bs, ps, ws, n, anys, alls, nones)) = cleaned Good streams g.1 p.1 in
      elim d [
        | inl (y, z) ↦ (
          s' ∷ fs,
          fetch_all-cons s streams f fe,
          rw (delete_done, y)
              (
                gs,
                bs,
                ps,
                omega (arith, ws),
                omega (arith, n),
                λ x. rw (sym l, z) (anys x),
                λ e. absurd (omega (arith, e, n)),
                λ k x. rw (sym l, z) refl,
              ),
        )
        | inr (y, b) ↦ (
          s' ∷ fs,
          fetch_all-cons s streams f fe,
          rw (delete_done, y)
              (
                (g', gs),
                (b, bs),
                (subst Good (sym l) p.0, ps),
                omega (arith, w, ws),
                omega (arith, n),
                λ x. rw (l, anys x),
                λ e x. rw (l, alls (omega (arith, e)) x),
                λ k x. ground (arith, nones (omega (arith, k)) x),
              ),
        )
      ]

  -- CleanDone does not fail on them
  pub clean_done-IsGood :
      (Good : List Text → Type 0) (streams : List (Stream E))
      → All IsGood streams
      → All (λ s. Good (left s)) streams
      → (active : List (Stream E)) × (clean_done streams ≡ answer active)
        × Cleaned Good streams active
  unfolding clean_done
  clean_done-IsGood Good streams g p =
      let (fs, e, c) = cleaned Good streams g p in (delete_done fs, rw e, c)
