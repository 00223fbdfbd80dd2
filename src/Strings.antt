-- ===== src/Strings.antt =====
-- The functions of Go's package `strings` that the program calls with a one-byte separator.
use mongopenfga.Prelude.{
  ℕ, zero, suc, ◌<◌, ◌≡◌, refl, ap, true, false, Option, none, some, List, [], ◌∷◌, ◌++◌, arith,
  Text, has, nat_beq, nat_beq_iff, if◌then◌else◌, length, take, drop, inl, inr, Bool-cases, ◌||◌,
  ◌⊎◌, Option-cases,
}

-- strings.IndexByte, with `none` for -1
unfoldable pub index_byte : ℕ → Text → Option ℕ
index_byte c [] = none
index_byte c (x ∷ s) =
    if nat_beq x c then some 0 else elim (index_byte c s) [ none ↦ none | some i ↦ some (suc i) ]

-- strings.LastIndexByte
unfoldable pub last_index_byte : ℕ → Text → Option ℕ
last_index_byte c [] = none
last_index_byte c (x ∷ s) = elim (last_index_byte c s) [
  | none ↦ if nat_beq x c then some 0 else none
  | some i ↦ some (suc i)
]

-- strings.Cut: the texts before and after the first separator
unfoldable pub cut : ℕ → Text → Option (Text × Text)
cut c [] = none
cut c (x ∷ s) =
    if nat_beq x c
    then some ([], s)
    else elim (cut c s) [ none ↦ none | some (a, b) ↦ some (x ∷ a, b) ]

module _ (c : ℕ) where
  pub has-append : (s t : Text) → has c (s ++ t) ≡ (has c s || has c t)
  has-append [] t = refl
  has-append (x ∷ s) t = ground (arith, has-append s t)

  pub index_byte-append :
      (s t : Text) → has c s ≡ false → index_byte c (s ++ c ∷ t) ≡ some (length s)
  unfolding index_byte
  index_byte-append [] t h = ground arith
  index_byte-append (x ∷ s) t h = ground (arith, index_byte-append s t)

  pub index_byte-none : (s : Text) → has c s ≡ false → index_byte c s ≡ none
  unfolding index_byte
  index_byte-none [] h = refl
  index_byte-none (x ∷ s) h = ground (arith, index_byte-none s)

  pub last_index_byte-none : (s : Text) → has c s ≡ false → last_index_byte c s ≡ none
  unfolding last_index_byte
  last_index_byte-none [] h = refl
  last_index_byte-none (x ∷ s) h = ground (arith, last_index_byte-none s)

  pub last_index_byte-append :
      (s t : Text) → has c t ≡ false → last_index_byte c (s ++ c ∷ t) ≡ some (length s)
  unfolding last_index_byte
  last_index_byte-append [] t h = ground (arith, last_index_byte-none t)
  last_index_byte-append (x ∷ s) t h = ground (arith, last_index_byte-append s t)

  -- an index that was found splits the text at the byte
  pub index_byte-eq_some :
      (s : Text) (i : ℕ)
      → index_byte c s ≡ some i
      → (s ≡ take i s ++ c ∷ drop (suc i) s) × (has c (take i s) ≡ false) × (i < length s)
  unfolding index_byte
  index_byte-eq_some [] i h = ground arith
  index_byte-eq_some (x ∷ s) zero h = elim (Bool-cases (nat_beq x c)) [
    | inl e ↦ (ap (λ y. y ∷ s) ((nat_beq_iff x c).0 e), refl, omega arith)
    | inr e ↦ ground arith
  ]
  index_byte-eq_some (x ∷ s) (suc i) h = elim (Bool-cases (nat_beq x c)) [
    | inl e ↦ ground arith
    | inr e ↦
        let (p, q, r) = index_byte-eq_some s i (ground arith) in
        (ap (λ y. x ∷ y) p, ground arith, omega arith)
  ]

  last_index_byte-eq_none : (s : Text) → last_index_byte c s ≡ none → has c s ≡ false
  unfolding last_index_byte
  last_index_byte-eq_none [] h = refl
  last_index_byte-eq_none (x ∷ s) h = ground (arith, last_index_byte-eq_none s)

  last_index_byte-zero :
      (x : ℕ) (s : Text)
      → last_index_byte c (x ∷ s) ≡ some 0
      → (nat_beq x c ≡ true) × (has c s ≡ false)
  unfolding last_index_byte
  last_index_byte-zero x s h = ground (arith, last_index_byte-eq_none s)

  pub last_index_byte-eq_some :
      (s : Text) (i : ℕ)
      → last_index_byte c s ≡ some i
      → (s ≡ take i s ++ c ∷ drop (suc i) s) × (has c (drop (suc i) s) ≡ false) × (i < length s)
  unfolding last_index_byte
  last_index_byte-eq_some [] i h = ground arith
  last_index_byte-eq_some (x ∷ s) zero h =
      let (p, q) = last_index_byte-zero x s h in
      (ap (λ y. y ∷ s) ((nat_beq_iff x c).0 p), q, omega arith)
  last_index_byte-eq_some (x ∷ s) (suc i) h =
      let (p, q, r) = last_index_byte-eq_some s i (ground arith) in
      (ap (λ y. x ∷ y) p, q, omega arith)

  -- A text has no separator, or the last one splits it.
  pub last_split :
      (s : Text)
      → (has c s ≡ false) ⊎ ((a : Text) × (b : Text) × (s ≡ a ++ c ∷ b) × (has c b ≡ false))
  last_split s = elim (Option-cases (last_index_byte c s)) [
    | inl e ↦ inl (last_index_byte-eq_none s e)
    | inr (i, e) ↦
        let (p, q, _) = last_index_byte-eq_some s i e in inr (take i s, drop (suc i) s, p, q)
  ]

  pub cut-append : (s t : Text) → has c s ≡ false → cut c (s ++ c ∷ t) ≡ some (s, t)
  unfolding cut
  cut-append [] t h = ground arith
  cut-append (x ∷ s) t h = ground (arith, cut-append s t)

  pub cut-eq_some : (s a b : Text) → cut c s ≡ some (a, b) → (s ≡ a ++ c ∷ b) × (has c a ≡ false)
  unfolding cut
  cut-eq_some [] a b h = ground arith
  cut-eq_some (x ∷ s) a b h = elim (Bool-cases (nat_beq x c)) [
    | inl e ↦ ground (arith, nat_beq_iff x c)
    | inr e ↦ elim (Option-cases (cut c s)) [
      | inl n ↦ ground arith
      | inr ((a', b'), m) ↦ ground (arith, cut-eq_some s a' b' m)
    ]
  ]

module _ {ℓ} {A : Type ℓ} where
  pub take-length_append : (s t : List A) → take (length s) (s ++ t) ≡ s
  take-length_append [] t = refl
  take-length_append (x ∷ s) t = ap (λ y. x ∷ y) (take-length_append s t)

  pub drop-length_append : (s t : List A) (x : A) → drop (suc (length s)) (s ++ x ∷ t) ≡ t
  drop-length_append [] t x = refl
  drop-length_append (y ∷ s) t x = drop-length_append s t x
