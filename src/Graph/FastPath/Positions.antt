-- ===== src/Graph/FastPath/Positions.antt =====
-- The best head and the indices of the streams that have it; NextItemInSliceStreams on them.
use mongopenfga.Prelude.{
  ℕ, suc, ◌≡◌, refl, ◌∙◌, sym, subst, ap, inl, inr, ◌⊎◌, Bool-cases, Bool, true, false, List, [],
  ◌∷◌, ◌++◌, map, Text, is_key, length, arith, All, text_eq, ◌==◌, text_beq, text_beq_iff,
  text_beq_refl, text_lt_tri, if◌then◌else◌,
}
use mongopenfga.Storage.Iterators.Defs.{answer, item, done, fail, Next}
use mongopenfga.Graph.FastPath.Stream.{Stream, next_of, next_item_in_slice_streams}
use mongopenfga.Graph.FastPath.Merge.{Beats, compare_head}
use mongopenfga.Graph.FastPath.Heads.{first, firsts, advanced, IsReady, compare_all}

-- a strict total order
pub record IsOrder (beats : Beats) : Type 0 where
  pub irrefl : (a : Text) → beats a a ≡ false
  pub trans : (a b c : Text) → beats a b ≡ true → beats b c ≡ true → beats a c ≡ true
  pub total : (a b : Text) → text_beq a b ≡ false → beats a b ≡ false → beats b a ≡ true

abbrev pub positions : Text → ℕ → List Text → List ℕ
positions b idx [] = []
positions b idx (x ∷ xs) =
    let rest = positions b (suc idx) xs in if b == x then idx ∷ rest else rest

pub append_assoc {ℓ} : {A : Type ℓ} (xs ys zs : List A) → (xs ++ ys) ++ zs ≡ xs ++ (ys ++ zs)
append_assoc [] ys zs = refl
append_assoc (x ∷ xs) ys zs = rw (append_assoc xs ys zs) refl

pub append_nil {ℓ} : {A : Type ℓ} (xs : List A) → xs ++ [] ≡ xs
append_nil [] = refl
append_nil (x ∷ xs) = rw (append_nil xs) refl

pub text_beq_sym : (s t : Text) → text_beq s t ≡ text_beq t s
text_beq_sym s t = ground (arith, text_lt_tri s t, text_lt_tri t s)

if_cons :
    (b : Bool) (rest : List ℕ) → (if b then 0 ∷ [] else []) ++ rest ≡ (if b then 0 ∷ rest else rest)
if_cons true rest = refl
if_cons false rest = refl

module _ (beats : Beats) (o : IsOrder beats) where
  -- the winner of the texts, which none of them beats, and where it stands
  abbrev pub Wins : Text → ℕ → List Text → Text → List ℕ → Type 0
  Wins best idx heads b eq =
      (eq ≡ positions b idx (best ∷ heads))
      × (All (λ x. beats x b ≡ false) (best ∷ heads))
      × (is_key b (best ∷ heads) ≡ true)

  abbrev Continued : Text → List ℕ → ℕ → List Text → Text → List ℕ → Type 0
  Continued best equal idx heads b eq =
      (eq ≡ (if best == b then equal else []) ++ positions b (suc idx) heads)
      × (All (λ x. beats x b ≡ false) (best ∷ heads))
      × (is_key b (best ∷ heads) ≡ true)

  module _ (v best : Text) (equal : List ℕ) (idx : ℕ) (heads : List Text) (b : Text)
      (eq : List ℕ) where
    same :
        text_beq best v ≡ true
        → Continued best (equal ++ suc idx ∷ []) (suc idx) heads b eq
        → Continued best equal idx (v ∷ heads) b eq
    same e c = (
      c.0 ∙ indices (Bool-cases (text_beq best b)),
      (c.1.0, (subst (λ x. beats x b ≡ false) ((text_beq_iff best v).0 e) c.1.0, c.1.1)),
      ground (arith, c.2),
    )
      where
        bv : text_beq b v ≡ text_beq best b
        bv = rw (sym ((text_beq_iff best v).0 e)) (text_beq_sym b best)

        indices :
            (text_beq best b ≡ true) ⊎ (text_beq best b ≡ false)
            → (if best == b then equal ++ suc idx ∷ [] else []) ++ positions b (suc (suc idx)) heads
              ≡ (if best == b then equal else []) ++ positions b (suc idx) (v ∷ heads)
        indices (inl k) =
            rw (bv, k) (append_assoc equal (suc idx ∷ []) (positions b (suc (suc idx)) heads))
        indices (inr k) = rw (bv, k) refl

    beaten :
        text_beq best v ≡ false
        → beats v best ≡ true
        → Continued v (suc idx ∷ []) (suc idx) heads b eq
        → Continued best equal idx (v ∷ heads) b eq
    beaten e w c =
        let low : beats best b ≡ false = elim (Bool-cases (beats best b)) [
          | inr l ↦ l
          | inl l ↦ absurd (ground (arith, o.trans v best b w l, c.1.0))
        ] in
        (
          ground (arith, c.0, text_beq_sym b v, text_beq_iff best b, w, c.1.0),
          (low, c.1),
          ground (arith, c.2),
        )

    kept :
        text_beq best v ≡ false
        → beats v best ≡ false
        → Continued best equal (suc idx) heads b eq
        → Continued best equal idx (v ∷ heads) b eq
    kept e w c =
        let low : beats v b ≡ false = elim (Bool-cases (beats v b)) [
          | inr l ↦ l
          | inl l ↦ absurd (
              ground
                (arith, o.trans best v b (o.total v best (rw (text_beq_sym v best) e) w) l, c.1.0))
        ] in
        (
          ground
              (arith, c.0, text_beq_iff b v, o.total v best (rw (text_beq_sym v best) e) w, c.1.0),
          (c.1.0, (low, c.1.1)),
          ground (arith, c.2),
        )

  continued :
      (best : Text) (equal : List ℕ) (idx : ℕ) (heads : List Text)
      → let (b, eq) = compare_all beats (suc idx) best equal heads in
        Continued best equal idx heads b eq
  continued best equal idx [] = (
    rw (text_beq_refl best) (sym (append_nil equal)),
    (o.irrefl best, tt),
    ground (arith, text_beq_refl best),
  )
  continued best equal idx (v ∷ heads) = elim (Bool-cases (text_beq best v)) [
    | inl e ↦
        from {p = (best, equal ++ suc idx ∷ [])} (rw e refl) (
          same v best equal idx heads _ _ e
            (continued best (equal ++ suc idx ∷ []) (suc idx) heads))
    | inr n ↦ elim (Bool-cases (beats v best)) [
      | inl w ↦
          from {p = (v, suc idx ∷ [])} (rw (n, w) refl)
            (beaten v best equal idx heads _ _ n w (continued v (suc idx ∷ []) (suc idx) heads))
      | inr l ↦
          from {p = (best, equal)} (rw (n, l) refl)
            (kept v best equal idx heads _ _ n l (continued best equal (suc idx) heads))
    ]
  ]
    where
      from :
          {p : Text × List ℕ}
          → p ≡ compare_head beats (suc idx) v best equal
          → (let (b, eq) = compare_all beats (suc (suc idx)) p.0 p.1 heads in
              Continued best equal idx (v ∷ heads) b eq)
          → (let (b, eq) = compare_all beats (suc idx) best equal (v ∷ heads) in
              Continued best equal idx (v ∷ heads) b eq)
      from e c =
          subst
            (λ p.
              let (b, eq) = compare_all beats (suc (suc idx)) p.0 p.1 heads in
              Continued best equal idx (v ∷ heads) b eq)
            e c

  -- The loop finds the winner of the heads, and all its positions.
  pub compare_all-Wins :
      (v : Text) (heads : List Text)
      → let (b, eq) = compare_all beats 0 [] [] (v ∷ heads) in Wins v 0 heads b eq
  compare_all-Wins v heads =
      let c = continued v (0 ∷ []) 0 heads in
      let e : compare_head beats 0 v v [] ≡ (v, 0 ∷ []) = rw (text_beq_refl v) refl in
      subst (λ p. let (b, eq) = compare_all beats 1 p.0 p.1 heads in Wins v 0 heads b eq) (sym e)
        (
          c.0
              ∙ (rw (text_beq_sym v (compare_all beats 1 v (0 ∷ []) heads).0) (
                  if_cons (text_beq (compare_all beats 1 v (0 ∷ []) heads).0 v)
                    (positions (compare_all beats 1 v (0 ∷ []) heads).0 1 heads))),
          c.1,
          c.2,
        )

-- The number of positions does not depend on the first index.
pub length-positions :
    (b : Text) (i j : ℕ) (xs : List Text) → length (positions b i xs) ≡ length (positions b j xs)
length-positions b i j [] = refl
length-positions b i j (x ∷ xs) = ground (arith, length-positions b (suc i) (suc j) xs)

positions-suc :
    (b : Text) (i : ℕ) (xs : List Text) → positions b (suc i) xs ≡ map suc (positions b i xs)
positions-suc b i [] = refl
positions-suc b i (x ∷ xs) = elim (Bool-cases (text_beq b x)) [
  | inl e ↦ rw (e, positions-suc b (suc i) xs) refl
  | inr n ↦ rw (n, positions-suc b (suc i) xs) refl
]

module _ {E : Type 0} where
  -- the streams with the head are moved
  abbrev pub advance : Text → List (Stream E) → List (Stream E)
  advance b [] = []
  advance b (s ∷ streams) = (if b == first s then advanced s else s) ∷ advance b streams

  Next-cases :
      (n : Next E Text) → ((x : Text) × (n ≡ item x)) ⊎ ((n ≡ done) ⊎ ((e : E) × (n ≡ fail e)))
  Next-cases (item x) = inl (x, refl)
  Next-cases done = inr (inl refl)
  Next-cases (fail e) = inr (inr (e, refl))

  pub next_item-cons :
      (i : ℕ) (rest : List ℕ) (last : Text) (streams : List (Stream E)) {y : Text}
      {after : List (Stream E)}
      → next_of i streams ≡ (item y, after)
      → next_item_in_slice_streams (i ∷ rest) last streams ≡ next_item_in_slice_streams rest y after
  unfolding next_item_in_slice_streams
  next_item-cons i rest last streams h = cc

  shifted :
      (s : Stream E) (is : List ℕ) (last : Text) (streams : List (Stream E)) {x : Text}
      {after : List (Stream E)}
      → next_item_in_slice_streams is last streams ≡ (answer x, after)
      → next_item_in_slice_streams (map suc is) last (s ∷ streams) ≡ (answer x, s ∷ after)
  unfolding next_item_in_slice_streams next_of
  shifted s [] last streams h = ground (arith, h)
  shifted s (i ∷ is) last streams h = elim (Next-cases (next_of i streams).0) [
    | inl (y, e) ↦
        let after = (next_of i streams).1 in
        next_item-cons (suc i) (map suc is) last (s ∷ streams) {y = y} {after = s ∷ after}
          (ap (λ n. (n, s ∷ after)) e)
        ∙ shifted s is y after (
            sym (next_item-cons i is last streams {y = y} {after = after} (ap (λ n. (n, after)) e))
            ∙ h)
    | inr (inl e) ↦ absurd (ground (arith, e, h))
    | inr (inr e) ↦ absurd (ground (arith, e, h))
  ]

  -- NextItemInSliceStreams moves the streams at the positions of a head, and returns it.
  pub next_item-positions :
      (b last : Text) (streams : List (Stream E))
      → All IsReady streams
      → next_item_in_slice_streams (positions b 0 (firsts streams)) last streams
        ≡ (answer (if is_key b (firsts streams) then b else last), advance b streams)
  unfolding next_item_in_slice_streams next_of
  next_item-positions b last [] r = refl
  next_item-positions b last (s ∷ streams) r = elim (Bool-cases (text_beq b (first s))) [
    | inl e ↦
        rw (e, positions-suc b 0 (firsts streams))
          (next_item-cons 0 (map suc (positions b 0 (firsts streams))) last (s ∷ streams)
              {after = advanced s ∷ streams}
              (ap (λ n. (n, advanced s ∷ streams)) (ap (λ p. p.0) r.0.1))
            ∙ (shifted (advanced s) (positions b 0 (firsts streams)) (first s) streams
                (next_item-positions b (first s) streams r.1))
            ∙ ground (arith, text_beq_iff b (first s), e))
    | inr n ↦
        rw (n, positions-suc b 0 (firsts streams))
          (shifted s (positions b 0 (firsts streams)) last streams
            (next_item-positions b last streams r.1))
  ]
