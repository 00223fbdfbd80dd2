-- ===== src/Regex.antt =====
-- The regular expressions of the program are sequences of literal bytes and of non-empty runs of a
-- byte class, anchored at both ends. Their matching is that of Go's package `regexp` over bytes.
use mongopenfga.Prelude.{
  ℕ, ◌≡◌, refl, ap, Bool, true, false, List, [], ◌∷◌, ◌++◌, arith, Text, has, nat_beq, nat_beq_iff,
  inl, inr, Bool-cases, ◌||◌, ◌&&◌,
}

pub data Piece : Type 0 where
  -- `[…]+`
  plus : (ℕ → Bool) → Piece
  lit : ℕ → Piece

pub is_empty : Text → Bool
is_empty [] = true
is_empty (x ∷ s) = false

-- `^pieces$`
unfoldable pub matches : List Piece → Text → Bool
unfolding is_empty
matches [] s = is_empty s
matches (p ∷ ps) [] = false
matches (lit c ∷ ps) (x ∷ s) = nat_beq x c && matches ps s
matches (plus p ∷ ps) (x ∷ s) = p x && (matches ps s || matches (plus p ∷ ps) s)

-- a non-empty run of a class
abbrev pub Run : (ℕ → Bool) → Text → Type 0
Run p [] = ⊥
Run p (x ∷ []) = p x ≡ true
Run p (x ∷ y ∷ s) = (p x ≡ true) × Run p (y ∷ s)

module _ (p : ℕ → Bool) (ps : List Piece) where
  pub matches-plus :
      (s t : Text) → Run p s → matches ps t ≡ true → matches (plus p ∷ ps) (s ++ t) ≡ true
  unfolding matches
  matches-plus [] t r m = absurd r
  matches-plus (x ∷ []) t r m = ground arith
  matches-plus (x ∷ y ∷ s) t r m = ground (arith, matches-plus (y ∷ s) t r.1 m)

  pub matches-plus_inv :
      (u : Text)
      → matches (plus p ∷ ps) u ≡ true
      → (s : Text) × (t : Text) × (u ≡ s ++ t) × Run p s × (matches ps t ≡ true)
  unfolding matches
  matches-plus_inv [] m = cc
  matches-plus_inv (x ∷ u) m = elim (Bool-cases (matches ps u)) [
    | inl now ↦ (x ∷ [], u, refl, ground arith, now)
    | inr later ↦
        let (s, t, e, r, k) = matches-plus_inv u (ground arith) in
        (x ∷ s, t, ap (λ y. x ∷ y) e, run_cons s (ground arith) r, k)
  ]
    where
      run_cons : (s : Text) → p x ≡ true → Run p s → Run p (x ∷ s)
      run_cons [] h r = h
      run_cons (y ∷ s) h r = (h, r)

pub matches-lit_inv :
    (c : ℕ) (ps : List Piece) (u : Text)
    → matches (lit c ∷ ps) u ≡ true
    → (t : Text) × (u ≡ c ∷ t) × (matches ps t ≡ true)
unfolding matches
matches-lit_inv c ps [] m = cc
matches-lit_inv c ps (x ∷ u) m =
    (u, ap (λ y. y ∷ u) ((nat_beq_iff x c).0 (ground arith)), ground arith)

pub matches-lit :
    (c : ℕ) (ps : List Piece) (t : Text) → matches ps t ≡ true → matches (lit c ∷ ps) (c ∷ t) ≡ true
unfolding matches
matches-lit c ps t m = ground arith

pub matches-nil : matches [] [] ≡ true
unfolding matches
matches-nil = refl

pub matches-nil_inv : (u : Text) → matches [] u ≡ true → u ≡ []
unfolding matches
matches-nil_inv [] m = refl
matches-nil_inv (x ∷ u) m = cc

-- A run of a class that leaves out a byte does not hold the byte.
pub has-Run : (p : ℕ → Bool) (c : ℕ) (s : Text) → p c ≡ false → Run p s → has c s ≡ false
has-Run p c [] h r = refl
has-Run p c (x ∷ []) h r = elim (Bool-cases (nat_beq x c)) [
  | inl e ↦ cc ((nat_beq_iff x c).0 e)
  | inr e ↦ ground arith
]
has-Run p c (x ∷ y ∷ s) h r = elim (Bool-cases (nat_beq x c)) [
  | inl e ↦ cc ((nat_beq_iff x c).0 e, r.0)
  | inr e ↦ ground (arith, has-Run p c (y ∷ s) h r.1)
]
