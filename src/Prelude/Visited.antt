-- ===== src/Prelude/Visited.antt =====
-- Sets of texts that a traversal has visited: maps to the empty struct, of which only the keys are
-- read. `unvisited` is what bounds a traversal.
use Prim.Native.Nat.{ℕ, ◌+◌, ◌≤◌, ◌<◌}
use mathlib.Core.Path.{◌≡◌, refl, sym}
use mathlib.Core.Logic.{◌⊎◌, inl, inr}
use mathlib.Core.Bool.{Bool, true, false, ◌||◌}
use mathlib.Core.List.{List, [], ◌∷◌}
use native.Mathlib.Omega.{arith}
use mongopenfga.Prelude.Lists.{length}
use mongopenfga.Prelude.Tests.{◌==◌}
use mongopenfga.Prelude.Bytes.{Text, text_beq, text_beq_iff, text_eq}

module _ {A : Type 0} where
  abbrev pub In : A → List A → Type 0
  In x [] = ⊥
  In x (y ∷ ys) = (x ≡ y) ⊎ In x ys

-- Is the text a key of the map?
abbrev pub is_key : Text → List Text → Bool
is_key k [] = false
is_key k (x ∷ xs) = k == x || is_key k xs

pub text_beq_refl : (s : Text) → text_beq s s ≡ true
text_beq_refl s = (text_beq_iff s s).1 refl

abbrev one_unless : Bool → ℕ
one_unless true = 0
one_unless false = 1

module _ (key : Text → Text) where
  -- how many of the names have a key that was not visited
  abbrev pub unvisited : List Text → List Text → ℕ
  unvisited [] visited = 0
  unvisited (r ∷ rs) visited = one_unless (is_key (key r) visited) + unvisited rs visited

  pub unvisited-le : (rs visited : List Text) → unvisited rs visited ≤ length rs
  unvisited-le [] visited = omega arith
  unvisited-le (r ∷ rs) visited = ground (arith, unvisited-le rs visited)

  pub unvisited_mono :
      (k : Text) (rs visited : List Text) → unvisited rs (k ∷ visited) ≤ unvisited rs visited
  unvisited_mono k [] visited = omega arith
  unvisited_mono k (r ∷ rs) visited = ground (arith, unvisited_mono k rs visited)

  pub unvisited_drops :
      (r : Text) (rs visited : List Text)
      → In r rs
      → is_key (key r) visited ≡ false
      → unvisited rs (key r ∷ visited) < unvisited rs visited
  unvisited_drops r [] visited h k = absurd h
  unvisited_drops r (r' ∷ rs) visited (inl e) k =
      rw (sym e) (ground (arith, k, text_beq_refl (key r), unvisited_mono (key r) rs visited))
  unvisited_drops r (r' ∷ rs) visited (inr h) k = ground (arith, unvisited_drops r rs visited h k)
