-- ===== src/Graph/FastPath/Minus.antt =====
-- The difference of two ascending lists, by their heads.
use mongopenfga.Prelude.{
  ◌≡◌, refl, inl, inr, Bool-cases, true, false, not, List, ◌∷◌, Text, is_key, arith, ◌||◌, ◌&&◌,
  text_eq, ◌==◌, text_beq, text_beq_iff, text_lt, text_lt_irrefl, text_lt_trans,
}
use mongopenfga.Graph.FastPath.Advance.{Ascends}

-- A text below the head is absent.
pub absent :
    (x y : Text) (ys : List Text)
    → Ascends (y ∷ ys)
    → text_lt x y ≡ true
    → is_key x (y ∷ ys) ≡ false
absent x y ys a l = elim (Bool-cases (text_beq x y)) [
  | inl e ↦ absurd (ground (arith, (text_beq_iff x y).0 e, l, text_lt_irrefl y))
  | inr n ↦ elim (Bool-cases (is_key x ys)) [
    | inr m ↦ ground (arith, n, m)
    | inl k ↦ absurd (ground (arith, text_lt_trans x y x l (a.0 x k), text_lt_irrefl x))
  ]
]

module _ (x f : Text) (base diff : List Text) where
  pub minus_same :
      Ascends (f ∷ base)
      → (is_key x base && not (is_key x diff)) ≡ (is_key x (f ∷ base) && not (is_key x (f ∷ diff)))
  minus_same a = elim (Bool-cases (text_beq x f)) [
    | inr n ↦ rw n refl
    | inl e ↦ elim (Bool-cases (is_key x base)) [
      | inr m ↦ ground (arith, e, m)
      | inl k ↦ absurd (ground (arith, a.0 x k, (text_beq_iff x f).0 e, text_lt_irrefl f))
    ]
  ]

  pub minus_above :
      is_key f diff ≡ false
      → (x == f || (is_key x base && not (is_key x diff)))
        ≡ (is_key x (f ∷ base) && not (is_key x diff))
  minus_above a = elim (Bool-cases (text_beq x f)) [
    | inr n ↦ rw n refl
    | inl e ↦
        let absent_x : is_key x diff ≡ false = rw ((text_beq_iff x f).0 e) a in
        rw (e, absent_x) refl
  ]

  pub minus_below :
      (less : List Text)
      → Ascends (f ∷ base)
      → (text_lt x f ≡ false → is_key x less ≡ is_key x diff)
      → (is_key x (f ∷ base) && not (is_key x less)) ≡ (is_key x (f ∷ base) && not (is_key x diff))
  minus_below less a h = elim (Bool-cases (text_lt x f)) [
    | inl l ↦ rw (absent x f base a l) refl
    | inr l ↦ rw (h l) refl
  ]
