-- ===== src/Prelude/Bytes.antt =====
-- Go strings as lists of bytes, with the functions of package `strings` that the program calls.
use Prim.Native.Nat.{ℕ}
use Prim.Native.Char.{code}
use Prim.Native.String.{String}
use mathlib.Core.Path.{◌≡◌, refl}
use mathlib.Core.Logic.{◌↔◌, ◌⊎◌, inl, inr}
use mathlib.Core.Bool.{Bool, true, false, ◌&&◌, ◌||◌}
use mathlib.Core.List.{List, [], ◌∷◌}
use native.Mathlib.Omega.{arith}
use mongopenfga.Prelude.Tests.{nat_beq, Comparable, ltb, if◌then◌else◌}

abbrev pub Text : Type 0
Text = List ℕ

-- A literal: its code points, which are its bytes if it is ASCII.
abbrev pub bytes : String → Text
bytes String.[] = []
bytes (String.◌∷◌ c s) = code c ∷ bytes s

unfoldable pub text_beq : Text → Text → Bool
text_beq [] [] = true
text_beq (a ∷ s) (b ∷ t) = nat_beq a b && text_beq s t
text_beq _ _ = false

pub text_beq_iff : (s t : Text) → (text_beq s t ≡ true) ↔ (s ≡ t)
unfolding text_beq
text_beq_iff [] [] = ground arith
text_beq_iff [] (b ∷ t) = ground arith
text_beq_iff (a ∷ s) [] = ground arith
text_beq_iff (a ∷ s) (b ∷ t) = ground (arith, text_beq_iff s t)

instance abbrev pub text_eq : Comparable Text
text_eq = record { same = text_beq }

-- Does the byte occur?
abbrev pub has : ℕ → Text → Bool
has c [] = false
has c (x ∷ s) = nat_beq x c || has c s

-- The order of Go's `<` on strings: by bytes, a proper prefix first.
unfoldable pub text_lt : Text → Text → Bool
text_lt s [] = false
text_lt [] (b ∷ t) = true
text_lt (a ∷ s) (b ∷ t) =
    let rest = text_lt s t in if ltb a b then true else if nat_beq a b then rest else false

pub text_lt_irrefl : (s : Text) → text_lt s s ≡ false
unfolding text_lt
text_lt_irrefl [] = refl
text_lt_irrefl (a ∷ s) = ground (arith, text_lt_irrefl s)

pub text_lt_trans : (s t u : Text) → text_lt s t ≡ true → text_lt t u ≡ true → text_lt s u ≡ true
unfolding text_lt
text_lt_trans s [] u h k = cc
text_lt_trans s (b ∷ t) [] h k = cc
text_lt_trans [] (b ∷ t) (c ∷ u) h k = refl
text_lt_trans (a ∷ s) (b ∷ t) (c ∷ u) h k = ground (arith, text_lt_trans s t u)

-- Of two texts, one is less or they are equal, and the tests say which.
pub text_lt_tri :
    (s t : Text)
    → ((text_lt s t ≡ true) × (text_lt t s ≡ false) × (text_beq s t ≡ false))
      ⊎ ((text_lt s t ≡ false) × (text_lt t s ≡ true) × (text_beq s t ≡ false))
      ⊎ ((text_lt s t ≡ false) × (text_lt t s ≡ false) × (text_beq s t ≡ true))
unfolding text_lt text_beq
text_lt_tri [] [] = inr (inr (refl, refl, refl))
text_lt_tri [] (b ∷ t) = inl (refl, refl, refl)
text_lt_tri (a ∷ s) [] = inr (inl (refl, refl, refl))
text_lt_tri (a ∷ s) (b ∷ t) = ground (arith, text_lt_tri s t)
