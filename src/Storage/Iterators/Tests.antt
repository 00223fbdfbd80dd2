-- ===== src/Storage/Iterators/Tests.antt =====
-- The iterators on concrete items.
use mongopenfga.Prelude.{
  refl, Text, bytes, text_lt, inl, inr, ℕ, ◌≡◌, Bool, false, none, some, [], ◌∷◌, arith, text_beq,
  ltb, nat_beq, if◌then◌else◌,
}
use mongopenfga.Storage.Iterators.Defs.{Answer, answer, failure, conditions_step, drain_fuel}
use mongopenfga.Storage.Iterators.Ordered.{combined_next, ordered_next}
use mongopenfga.Storage.Iterators.Merge.{
  Apart, yielding, merge, drain-combined, drain-ordered, drain-ordered_loses,
}
use mongopenfga.Storage.Iterators.Drain.{drain-conditions}

-- a condition that fails at 0 and is met above 2
abbrev above_two : ℕ → Answer ℕ Bool
above_two x = if nat_beq x 0 then failure 7 else answer (ltb 2 x)

drain-conditions_example :
    drain_fuel 4
      (conditions_step above_two)
      (record { items = 0 ∷ 1 ∷ []; last_error = none; once_valid = false })
    ≡ ([], some 7)
drain-conditions_example = drain-conditions above_two (0 ∷ 1 ∷ []) 4 (omega arith)

drain-combined_example :
    drain_fuel {E = ℕ} {A = ℕ} 4 combined_next ((1 ∷ []) ∷ [] ∷ (2 ∷ 3 ∷ []) ∷ [])
    ≡ (1 ∷ 2 ∷ 3 ∷ [], none)
drain-combined_example = drain-combined ((1 ∷ []) ∷ [] ∷ (2 ∷ 3 ∷ []) ∷ []) 4 (omega arith)

-- users, which are their own keys
abbrev itself : Text → Text
itself t = t

apart : Apart itself (bytes "a" ∷ bytes "c" ∷ []) (bytes "b" ∷ [])
unfolding text_beq
apart x y (inl e) (inl f) = rw (e, f) refl
apart x y (inr (inl e)) (inl f) = rw (e, f) refl
apart x y (inl e) (inr n) = elim n [ ]
apart x y (inr (inl e)) (inr n) = elim n [ ]
apart x y (inr (inr n)) _ = elim n [ ]

drain-ordered_example :
    drain_fuel 4
      (ordered_next itself)
      (yielding itself none (bytes "a" ∷ bytes "c" ∷ []) (bytes "b" ∷ []))
    ≡ (bytes "a" ∷ bytes "b" ∷ bytes "c" ∷ [], none)
unfolding merge text_lt
drain-ordered_example =
    drain-ordered itself (bytes "a" ∷ bytes "c" ∷ []) (bytes "b" ∷ []) none 4 (tt, (refl, tt))
      (tt, tt) apart (omega arith)

-- b is lost
drain-ordered_loses_example :
    drain_fuel 9
      (ordered_next itself)
      (yielding itself none (bytes "a" ∷ []) (bytes "a" ∷ bytes "b" ∷ []))
    ≡ (bytes "a" ∷ [], none)
unfolding text_lt
drain-ordered_loses_example =
    drain-ordered_loses itself (bytes "a") (bytes "a") (bytes "b") 7 refl refl
