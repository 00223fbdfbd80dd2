-- ===== src/Graph/FastPath/Skip.antt =====
-- SkipToTargetObject on streams whose texts are objects in ascending order.
use mongopenfga.Prelude.{
  ℕ, ◌≤◌, ◌<◌, ◌≡◌, refl, inl, inr, Bool-cases, Bool, true, false, Option, none, some, List, [],
  ◌∷◌, ◌++◌, Text, is_key, length, arith, All, text_eq, text_beq, text_beq_iff, text_lt,
  text_lt_tri,
}
use mongopenfga.Tuple.{is_valid_object}
use mongopenfga.Graph.FastPath.Stream.{
  Iter, Msg, Stream, buffer_next, skip_items, skip_to_target_object,
}
use mongopenfga.Graph.FastPath.Loops.{skip_all}
use mongopenfga.Graph.FastPath.Good.{IsGood, contents, left, weight, weights, all_left}
use mongopenfga.Graph.FastPath.Heads.{first, firsts, IsReady}
use mongopenfga.Graph.FastPath.Positions.{positions, length-positions}
use mongopenfga.Graph.FastPath.Advance.{IsTidy}

module _ {E : Type 0} (target : Text) where
  -- the texts below the target are gone from the front, and nothing else
  abbrev pub Skipped : Stream E → Stream E → Type 0
  Skipped s s' =
      IsGood s'
      × IsTidy (left s')
      × (weight s' ≤ weight s)
      × (text_lt (first s) target ≡ true → weight s' < weight s)
      × ((x : Text) → text_lt x target ≡ false → is_key x (left s') ≡ is_key x (left s))
      × ((x : Text) → is_key x (left s') ≡ true → is_key x (left s) ≡ true)
      × (s'.idx ≡ s.idx)

  abbrev stream : ℕ → Option (Iter E) → Bool → List (Msg E) → Stream E
  stream i b c ms = record { idx = i; buffer = b; source_is_closed = c; source = ms }

  abbrev buffer_of : List Text → Option (Iter E)
  buffer_of items = some (record { items = items; end = none })

  skip_items-Skipped :
      (i : ℕ) (c : Bool) (ms : List (Msg E)) (items : List Text)
      → IsGood (stream i (buffer_of items) c ms)
      → IsTidy (items ++ contents ms)
      → (b : Option (Iter E)) × (skip_items target items none ≡ (none, b))
        × Skipped (stream i (buffer_of items) c ms) (stream i b c ms)
  unfolding skip_items
  skip_items-Skipped i c ms [] g t =
      (none, refl, ((tt, g.1, g.2), t, omega arith, λ l. omega arith, λ x l. refl, λ x k. k, refl))
  skip_items-Skipped i c ms (x ∷ items) g t = elim (Bool-cases (text_lt x target)) [
    | inr n ↦ (
      buffer_of (x ∷ items),
      rw n refl,
      (g, t, omega arith, λ l. absurd (ground (arith, l, n)), λ y l. refl, λ y k. k, refl),
    )
    | inl y ↦
        let (b, e, (g', t', w, l, f, k, i')) =
          skip_items-Skipped i c ms items (refl, g.1, g.2)
            (t.0.1, λ z h. t.1 z (ground (arith, h))) in
        (
          b,
          rw (y, e) refl,
          (
            g',
            t',
            omega (arith, w),
            λ h. omega (arith, w),
            λ z h. elim (Bool-cases (text_beq z x)) [
              | inl e' ↦ absurd (ground (arith, y, h, (text_beq_iff z x).0 e'))
              | inr n ↦ rw n (f z h)
            ],
            λ z h. ground (arith, k z h),
            i',
          ),
        )
  ]

  pub skip_stream :
      (invalid : E) (i : ℕ) (b : Option (Iter E)) (c : Bool) (ms : List (Msg E))
      → is_valid_object target ≡ true
      → IsGood (stream i b c ms)
      → IsTidy (left (stream i b c ms))
      → IsReady (stream i b c ms)
      → (s' : Stream E) × (skip_to_target_object invalid target (stream i b c ms) ≡ (none, s'))
        × Skipped (stream i b c ms) s'
  unfolding skip_to_target_object buffer_next
  skip_stream invalid i none c ms v g t r = absurd (omega (arith, r.4))
  skip_stream invalid i (some b) c ms v g t r =
      let (b', e, sk) = skip_items-Skipped i c ms b.items (refl, g.1, g.2) t in
      (stream i b' c ms, skips v g.0 e, sk)
    where
      skips :
          {b' : Option (Iter E)}
          → is_valid_object target ≡ true
          → b.end ≡ none
          → skip_items target b.items none ≡ (none, b')
          → skip_to_target_object invalid target (stream i (some b) c ms) ≡ (none, stream i b' c ms)
      skips v n e = rw (v, n, e) refl

  skip_all-cons :
      (invalid : E) (s : Stream E) (streams : List (Stream E)) {s' : Stream E}
      {moved : List (Stream E)}
      → skip_to_target_object invalid target s ≡ (none, s')
      → skip_all invalid target streams ≡ (none, moved)
      → skip_all invalid target (s ∷ streams) ≡ (none, s' ∷ moved)
  unfolding skip_all
  skip_all-cons invalid s streams h k = cc

  -- Every stream is moved to the target; if one of them has a head below it, there is less left.
  pub skip_all-Skipped :
      (invalid : E) (streams : List (Stream E))
      → is_valid_object target ≡ true
      → All IsGood streams
      → All (λ s. IsTidy (left s)) streams
      → All IsReady streams
      → (moved : List (Stream E)) × (skip_all invalid target streams ≡ (none, moved))
        × All IsGood moved
        × All (λ s. IsTidy (left s)) moved
        × (length moved ≡ length streams)
        × (weights moved ≤ weights streams)
        × (length (positions target 0 (firsts streams)) < length streams
            → All (λ v. text_lt target v ≡ false) (firsts streams)
            → weights moved < weights streams)
        × ((x : Text) → text_lt x target ≡ false → all_left x moved ≡ all_left x streams)
        × ((x : Text) → all_left x moved ≡ true → all_left x streams ≡ true)
  unfolding skip_all
  skip_all-Skipped invalid [] v g t r =
      ([], refl, tt, tt, refl, omega arith, λ l. absurd (omega (arith, l)), λ x l. refl, λ x k. k)
  skip_all-Skipped invalid (s ∷ streams) v g t r =
      let (s', e, (g', t', w, l, f, k, i')) =
        skip_stream invalid s.idx s.buffer s.source_is_closed s.source v g.0 t.0 r.0 in
      let (ms, e', gs, ts, n, ws, ls, fs, ks) = skip_all-Skipped invalid streams v g.1 t.1 r.1 in
      (
        s' ∷ ms,
        skip_all-cons invalid s streams e e',
        (g', gs),
        (t', ts),
        omega (arith, n),
        omega (arith, w, ws),
        λ below high. elim (Bool-cases (text_beq target (first s))) [
          | inl same ↦ omega (
            arith,
            w,
            ls (ground (arith, below, same, length-positions target 0 1 (firsts streams))) high.1,
          )
          | inr other ↦
              omega (arith, ws, l (ground (arith, text_lt_tri target (first s), other, high.0)))
        ],
        λ x h. rw (f x h, fs x h) refl,
        λ x h. ground (arith, k x, ks x, h),
      )
