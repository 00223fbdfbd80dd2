-- ===== src/Graph/FastPath/Advance.antt =====
-- The streams whose texts are objects in ascending order, after NextItemInSliceStreams.
use mongopenfga.Prelude.{
  suc, ◌≤◌, ◌<◌, ◌≡◌, refl, subst, ap, inl, inr, Bool-cases, true, false, List, [], ◌∷◌, Text,
  is_key, length, arith, All, ◌||◌, ◌&&◌, text_eq, ◌==◌, text_beq, text_beq_iff, text_beq_refl,
  text_lt, text_lt_irrefl, text_lt_trans, text_lt_tri, if◌then◌else◌,
}
use mongopenfga.Tuple.{is_valid_object}
use mongopenfga.Graph.FastPath.Stream.{Stream}
use mongopenfga.Graph.FastPath.Good.{IsGood, left, weights, any_left, all_left}
use mongopenfga.Graph.FastPath.Heads.{first, firsts, advanced, IsReady}
use mongopenfga.Graph.FastPath.Positions.{advance}

abbrev pub Ascends : List Text → Type 0
Ascends [] = Unit
Ascends (x ∷ xs) = ((y : Text) → is_key y xs ≡ true → text_lt x y ≡ true) × Ascends xs

-- valid objects in strictly ascending order
abbrev pub IsTidy : List Text → Type 0
IsTidy xs = Ascends xs × ((y : Text) → is_key y xs ≡ true → is_valid_object y ≡ true)

module _ {E : Type 0} where
  -- the streams, after those with the head are moved
  module _ (b : Text) where
    moved-IsGood :
        (s : Stream E) → IsGood s → IsReady s → IsGood (if b == first s then advanced s else s)
    moved-IsGood s g r = elim (Bool-cases (text_beq b (first s))) [
      | inl e ↦ rw e r.3
      | inr n ↦ rw n g
    ]

    moved-IsTidy :
        (s : Stream E)
        → IsTidy (left s)
        → IsReady s
        → IsTidy (left (if b == first s then advanced s else s))
    moved-IsTidy s t r = elim (Bool-cases (text_beq b (first s))) [
      | inl e ↦ rw e (let t' = subst IsTidy r.2 t in (t'.0.1, λ y k. t'.1 y (ground (arith, k))))
      | inr n ↦ rw n t
    ]

    pub advance-IsGood :
        (streams : List (Stream E))
        → All IsGood streams
        → All IsReady streams
        → All IsGood (advance b streams)
    advance-IsGood [] g r = tt
    advance-IsGood (s ∷ streams) g r = (moved-IsGood s g.0 r.0, advance-IsGood streams g.1 r.1)

    pub advance-IsTidy :
        (streams : List (Stream E))
        → All (λ s. IsTidy (left s)) streams
        → All IsReady streams
        → All (λ s. IsTidy (left s)) (advance b streams)
    advance-IsTidy [] t r = tt
    advance-IsTidy (s ∷ streams) t r = (moved-IsTidy s t.0 r.0, advance-IsTidy streams t.1 r.1)

    pub length-advance : (streams : List (Stream E)) → length (advance b streams) ≡ length streams
    length-advance [] = refl
    length-advance (s ∷ streams) = ap suc (length-advance streams)

    pub weights-advance :
        (streams : List (Stream E))
        → All IsReady streams
        → (weights (advance b streams) ≤ weights streams)
          × (is_key b (firsts streams) ≡ true → weights (advance b streams) < weights streams)
    weights-advance [] r = (omega arith, λ k. absurd (ground (arith, k)))
    weights-advance (s ∷ streams) r =
        let (le, lt) = weights-advance streams r.1 in
        elim (Bool-cases (text_beq b (first s))) [
          | inl e ↦ rw e (omega (arith, le, r.0.4), λ k. omega (arith, le, r.0.4))
          | inr n ↦ rw n (omega (arith, le), λ k. omega (arith, lt k))
        ]

    pub any_left-advance :
        (x : Text) (streams : List (Stream E))
        → All IsReady streams
        → any_left x streams
          ≡ ((is_key b (firsts streams) && x == b) || any_left x (advance b streams))
    any_left-advance x [] r = refl
    any_left-advance x (s ∷ streams) r = elim (Bool-cases (text_beq b (first s))) [
      | inl e ↦
          rw (e, r.0.2)
            (ground (arith, any_left-advance x streams r.1, text_beq_iff b (first s), e))
      | inr n ↦ rw n (ground (arith, any_left-advance x streams r.1))
    ]

    pub moved-above :
        (x : Text) (s : Stream E)
        → IsTidy (left s)
        → IsReady s
        → text_lt (first s) b ≡ false
        → is_key x (left (if b == first s then advanced s else s)) ≡ true
        → text_lt b x ≡ true
    moved-above x s t r low k = elim (Bool-cases (text_beq b (first s))) [
      | inl e ↦
          let k' = subst (λ c. is_key x (left (if c then advanced s else s)) ≡ true) e k in
          rw ((text_beq_iff b (first s)).0 e) (t'.0.0 x k')
      | inr n ↦
          let k' = subst (λ c. is_key x (left (if c then advanced s else s)) ≡ true) n k in
          let less : text_lt b (first s) ≡ true = ground (arith, text_lt_tri b (first s), n, low) in
          elim (Bool-cases (text_beq x (first s))) [
            | inl same ↦ rw ((text_beq_iff x (first s)).0 same) less
            | inr other ↦
                text_lt_trans b (first s) x less (t'.0.0 x (ground (arith, k', other, r.2)))
          ]
    ]
      where
        t' : IsTidy (first s ∷ left (advanced s))
        t' = subst IsTidy r.2 t

    -- What is left is above the smallest head.
    pub advance-above :
        (x : Text) (streams : List (Stream E))
        → All (λ s. IsTidy (left s)) streams
        → All IsReady streams
        → All (λ v. text_lt v b ≡ false) (firsts streams)
        → any_left x (advance b streams) ≡ true
        → text_lt b x ≡ true
    advance-above x [] t r low k = absurd (ground (arith, k))
    advance-above x (s ∷ streams) t r low k =
        elim (Bool-cases (is_key x (left (if b == first s then advanced s else s)))) [
          | inr n ↦ advance-above x streams t.1 r.1 low.1 (ground (arith, k, n))
          | inl y ↦ moved-above x s t.0 r.0 low.0 y
        ]

    -- A head is an object.
    pub first-object :
        (streams : List (Stream E))
        → All (λ s. IsTidy (left s)) streams
        → All IsReady streams
        → is_key b (firsts streams) ≡ true
        → is_valid_object b ≡ true
    first-object [] t r k = absurd (ground (arith, k))
    first-object (s ∷ streams) t r k = elim (Bool-cases (text_beq b (first s))) [
      | inl e ↦
          rw ((text_beq_iff b (first s)).0 e)
            ((subst IsTidy r.0.2 t.0).1 (first s) (ground (arith, text_beq_refl (first s))))
      | inr n ↦ first-object streams t.1 r.1 (ground (arith, k, n))
    ]

    -- Below a head, no text is in all streams.
    pub all_left-below :
        (x : Text) (streams : List (Stream E))
        → All (λ s. IsTidy (left s)) streams
        → All IsReady streams
        → is_key b (firsts streams) ≡ true
        → text_lt x b ≡ true
        → all_left x streams ≡ false
    all_left-below x [] t r k l = absurd (ground (arith, k))
    all_left-below x (s ∷ streams) t r k l = elim (Bool-cases (text_beq b (first s))) [
      | inr n ↦ ground (arith, all_left-below x streams t.1 r.1 (ground (arith, k, n)) l)
      | inl e ↦ elim (Bool-cases (is_key x (left s))) [
        | inr n ↦ ground (arith, n)
        | inl y ↦
            let same = (text_beq_iff b (first s)).0 e in
            let t' = subst IsTidy r.0.2 t.0 in
            absurd (elim (Bool-cases (text_beq x (first s))) [
              | inl e' ↦ ground (arith, (text_beq_iff x (first s)).0 e', same, l, text_lt_irrefl b)
              | inr n' ↦
                  let above : text_lt b x ≡ true =
                    rw same (t'.0.0 x (ground (arith, y, n', r.0.2))) in
                  ground (arith, text_lt_trans x b x l above, text_lt_irrefl x)
            ])
      ]
    ]
