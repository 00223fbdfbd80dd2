-- ===== src/Memory/Pages.antt =====
-- Pages, followed by their tokens, are what Read reads.
use mongopenfga.Prelude.{
  ℕ, zero, suc, ◌+◌, ◌≤◌, ◌<◌, ◌≡◌, ◌≢◌, refl, sym, ap, ◌∙◌, true, false, Option, some, List, [],
  ◌∷◌, ◌++◌, map, inl, inr, arith, Bool-cases, Text, ◌==◌, text_eq, text_beq, if◌then◌else◌, length,
  take, drop, take-append-drop, ltb,
}
use mongopenfga.Tuple.{TupleKey}
use mongopenfga.Storage.{Tuple, TupleRecord, as_tuple}
use mongopenfga.Memory.State.{TupleBackend, tuples_of}
use mongopenfga.Memory.Match.{ne_nil}
use mongopenfga.Memory.Read.{
  number, Numerals, PageResult, read_matches, read_slice, page_of, page_at, read_page, read, follow,
  prepend, read_pages,
}

-- Atoi reads what Itoa writes, which is not empty.
pub record IsDecimal (numerals : Numerals) : Type 0 where
  pub reads : (n : ℕ) → numerals.atoi (numerals.itoa n) ≡ number n
  pub shown : (n : ℕ) → numerals.itoa n ≢ []

map-append : {A B : Type 0} (f : A → B) (xs ys : List A) → map f (xs ++ ys) ≡ map f xs ++ map f ys
map-append f [] ys = refl
map-append f (x ∷ xs) ys = rw (map-append f xs ys) refl

no_shift : (n k : ℕ) → k ≡ 0 + n → n ≡ k
no_shift n k h = omega arith

module _ {A : Type 0} where
  drop-nil : (n : ℕ) → drop {A = A} n [] ≡ []
  drop-nil zero = refl
  drop-nil (suc n) = refl

  drop-drop : (m n k : ℕ) (xs : List A) → k ≡ m + n → drop n (drop m xs) ≡ drop k xs
  drop-drop zero n k xs h = rw (no_shift n k h) refl
  drop-drop (suc m) n k [] h = drop-nil n ∙ sym (drop-nil k)
  drop-drop (suc m) n zero (x ∷ xs) h = absurd (omega arith)
  drop-drop (suc m) n (suc k) (x ∷ xs) h = drop-drop m n k xs (omega arith)

  length-drop : (n : ℕ) (xs : List A) → n ≤ length xs → n + length (drop n xs) ≡ length xs
  length-drop zero xs h = omega arith
  length-drop (suc n) [] h = absurd (omega arith)
  length-drop (suc n) (x ∷ xs) h = omega (arith, length-drop n xs (omega arith))

module _ {C : Type 0} (empty_struct : C) (numerals : Numerals) (decimal : IsDecimal numerals)
    (matches : List (TupleRecord C)) (page_size : ℕ) (positive : 1 ≤ page_size) where
  abbrev pager : Text → PageResult C
  pager token =
      page_at empty_struct numerals matches page_size
        (if token == [] then number 0 else numerals.atoi token)

  abbrev tuples : List (TupleRecord C) → List (Tuple C)
  tuples records = map (as_tuple empty_struct) records

  slice-more :
      (from : ℕ)
      → from ≤ length matches
      → ltb page_size (length (drop from matches)) ≡ true
      → read_slice numerals matches from page_size
        ≡ (take page_size (drop from matches), numerals.itoa (from + page_size))
  unfolding read_slice
  slice-more from h k = ground (arith, h, k, positive)

  slice-last :
      (from : ℕ)
      → from ≤ length matches
      → ltb page_size (length (drop from matches)) ≡ false
      → read_slice numerals matches from page_size ≡ (drop from matches, [])
  unfolding read_slice
  slice-last from h k = ground (arith, h, k, positive)

  pager-itoa :
      (n : ℕ)
      → pager (numerals.itoa n) ≡ page_of empty_struct (read_slice numerals matches n page_size)
  pager-itoa n = rw (ne_nil (numerals.itoa n) (decimal.shown n), decimal.reads n) refl

  joined :
      (from : ℕ)
      → tuples (take page_size (drop from matches)) ++ tuples (drop (from + page_size) matches)
        ≡ tuples (drop from matches)
  joined from =
      let rest = drop from matches in
      sym
        (map-append (as_tuple empty_struct) (take page_size rest) (drop (from + page_size) matches))
      ∙ ap (λ xs. tuples (take page_size rest ++ xs))
          (sym (drop-drop from page_size (from + page_size) matches refl))
      ∙ ap tuples (take-append-drop page_size rest)

  follow-more :
      (from : ℕ) (rest : Text → Option (List (Tuple C)))
      → from ≤ length matches
      → ltb page_size (length (drop from matches)) ≡ true
      → follow rest (page_of empty_struct (read_slice numerals matches from page_size))
        ≡ prepend
            (tuples (take page_size (drop from matches)))
            (rest (numerals.itoa (from + page_size)))
  follow-more from rest h k =
      rw (slice-more from h k, ne_nil (numerals.itoa (from + page_size)) (decimal.shown _)) refl

  pages_from :
      (fuel from : ℕ) (token : Text)
      → pager token ≡ page_of empty_struct (read_slice numerals matches from page_size)
      → from ≤ length matches
      → length matches < fuel + from
      → read_pages fuel pager token ≡ some (tuples (drop from matches))
  unfolding read_pages text_beq
  pages_from zero from token e h l = absurd (omega arith)
  pages_from (suc fuel) from token e h l =
      elim (Bool-cases (ltb page_size (length (drop from matches)))) [
        | inl k ↦
            ap (follow (read_pages fuel pager)) e
            ∙ follow-more from (read_pages fuel pager) h k
            ∙ ap (prepend (tuples (take page_size (drop from matches)))) (
                pages_from fuel (from + page_size) (numerals.itoa (from + page_size))
                  (pager-itoa (from + page_size)) (ground (arith, k, length-drop from matches h))
                  (omega arith))
            ∙ ap some (joined from)
        | inr k ↦ ap (follow (read_pages fuel pager)) e ∙ rw (slice-last from h k) refl
      ]

slice_all :
    {C : Type 0} (numerals : Numerals) (matches : List (TupleRecord C))
    → (read_slice numerals matches 0 0).0 ≡ matches
unfolding read_slice
slice_all numerals matches = ground arith

-- A client that starts with no token and follows the tokens of ReadPage, with pages of at least one
-- tuple, gets exactly the tuples that Read yields, each once and in the same order, after at most
-- one page more than there are matching records.
pub read_pages-read :
    {C : Type 0} (empty_struct : C) (numerals : Numerals)
    → IsDecimal numerals
    → (s : TupleBackend C) (store : Text) (tk : TupleKey C) (page_size fuel : ℕ) → 1 ≤ page_size
    → length (read_matches (tuples_of s store) tk) < fuel
    → read_pages fuel (λ token. read_page empty_struct numerals s store tk token page_size) []
      ≡ some (read empty_struct numerals s store tk)
unfolding read_page read text_beq
read_pages-read empty_struct numerals decimal s store tk page_size fuel positive h =
    let matches = read_matches (tuples_of s store) tk in
    pages_from empty_struct numerals decimal matches page_size positive fuel 0 [] refl (omega arith)
      (omega arith)
    ∙ ap (λ records. some (map (as_tuple empty_struct) records)) (sym (slice_all numerals matches))
