-- ===== src/Graph/FastPath/Same.antt =====
-- What streams have in common, if their heads are the same.
use mongopenfga.Prelude.{
  ◌≤◌, ◌≡◌, refl, inl, inr, Bool-cases, Bool, true, false, List, [], ◌∷◌, Text, is_key, length,
  arith, All, ◌||◌, ◌&&◌, text_eq, ◌==◌, text_beq, text_beq_iff, text_lt_irrefl, text_lt_trans,
  text_lt_tri,
}
use mongopenfga.Graph.FastPath.Stream.{Stream}
use mongopenfga.Graph.FastPath.Merge.{larger}
use mongopenfga.Graph.FastPath.Good.{all_left}
use mongopenfga.Graph.FastPath.Heads.{first, firsts, IsReady}
use mongopenfga.Graph.FastPath.Positions.{IsOrder, positions, advance, length-positions}
use mongopenfga.Graph.FastPath.Advance.{Ascends}

pub larger-IsOrder : IsOrder larger
unfolding larger
larger-IsOrder = record {
  irrefl = text_lt_irrefl;
  trans = λ a b c h k. text_lt_trans c b a k h;
  total = λ a b n l. ground (arith, text_lt_tri a b, n, l);
}

pub first_of : (a b : Bool) → (a && b) ≡ true → a ≡ true
first_of true b h = refl
first_of false b h = h

module _ {E : Type 0} where
  -- every text that all streams have, in ascending order
  abbrev pub IsIntersection : List Text → List (Stream E) → Type 0
  IsIntersection out streams = Ascends out × ((x : Text) → is_key x out ≡ all_left x streams)

  module _ (b : Text) where
    pub all_same :
        (streams : List (Stream E))
        → (length (positions b 0 (firsts streams)) ≤ length streams)
          × (length (positions b 0 (firsts streams)) ≡ length streams
              → All (λ v. text_beq b v ≡ true) (firsts streams))
    all_same [] = (omega arith, λ e. tt)
    all_same (s ∷ streams) =
        let (le, same) = all_same streams in
        let n = length-positions b 1 0 (firsts streams) in
        elim (Bool-cases (text_beq b (first s))) [
          | inl e ↦ rw e (omega (arith, n, le), λ k. (refl, same (omega (arith, n, k))))
          | inr m ↦ rw m (omega (arith, n, le), λ k. absurd (omega (arith, n, k, le)))
        ]

    -- The common head of all streams, and what they have in common after it.
    pub all_left-advance :
        (x : Text) (streams : List (Stream E))
        → All IsReady streams
        → All (λ v. text_beq b v ≡ true) (firsts streams)
        → all_left x streams ≡ (x == b || all_left x (advance b streams))
    all_left-advance x [] r e = ground arith
    all_left-advance x (s ∷ streams) r e =
        rw (e.0, r.0.2)
          (ground (arith, all_left-advance x streams r.1 e.1, (text_beq_iff b (first s)).0 e.0))
