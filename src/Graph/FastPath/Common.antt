-- ===== src/Graph/FastPath/Common.antt =====
-- resolveFastPath finds a common object, in every order of arrival.
use mongopenfga.Prelude.{
  ◌≡◌, refl, ◌∙◌, sym, ap, Bool, true, false, ◌||◌, Option, none, List, [], ◌∷◌, ◌++◌, map, Text,
  is_key, inl, inr, Bool-cases, arith, text_eq, text_beq, text_beq_iff, text_beq_refl,
}
use mongopenfga.Storage.Iterators.Defs.{answer}
use mongopenfga.Graph.FastPath.Stream.{Iter, Msg, iter, err}
use mongopenfga.Graph.FastPath.Good.{IsClean, contents}
use mongopenfga.Graph.FastPath.Positions.{text_beq_sym}
use mongopenfga.Graph.FastPath.Consume.{
  Event, left_msg, right_msg, left_closed, right_closed, Resolved, consume_items, consume_events,
  interleave, left_events, right_events, resolve_fast_path,
}

-- Do the two lists have a common text?
abbrev pub meets : List Text → List Text → Bool
meets [] bs = false
meets (a ∷ front) bs = is_key a bs || meets front bs

meets-append : (front bs cs : List Text) → meets (front ++ bs) cs ≡ (meets front cs || meets bs cs)
meets-append [] bs cs = refl
meets-append (a ∷ front) bs cs = ground (arith, meets-append front bs cs)

meets-cons :
    (front : List Text) (b : Text) (bs : List Text)
    → meets front (b ∷ bs) ≡ (is_key b front || meets front bs)
meets-cons [] b bs = refl
meets-cons (a ∷ front) b bs = ground (arith, meets-cons front b bs, text_beq_sym a b)

meets-same :
    (front bs cs : List Text)
    → ((x : Text) → is_key x bs ≡ is_key x cs)
    → meets front bs ≡ meets front cs
meets-same [] bs cs e = refl
meets-same (a ∷ front) bs cs e = rw (e a, meets-same front bs cs e) refl

meets-key :
    (x : Text) (front bs : List Text)
    → is_key x front ≡ true
    → is_key x bs ≡ true
    → meets front bs ≡ true
meets-key x [] bs h k = absurd (ground (arith, h))
meets-key x (a ∷ front) bs h k = elim (Bool-cases (text_beq x a)) [
  | inl e ↦ ground (arith, (text_beq_iff x a).0 e, k)
  | inr n ↦ ground (arith, n, h, meets-key x front bs)
]

meets-nil : (front : List Text) → meets front [] ≡ false
meets-nil [] = refl
meets-nil (a ∷ front) = meets-nil front

or_true : (b : Bool) → true ≡ (b || true)
or_true true = refl
or_true false = refl

-- Of the texts `all` on the right, `rights` are still to come and `right_set` have come.
abbrev Parts : List Text → List Text → List Text → Type 0
Parts all rights right_set = (x : Text) → is_key x all ≡ (is_key x rights || is_key x right_set)

module _ {E : Type 0} (all : List Text) where
  -- the loop answers whether the left texts meet those on the right, if none has so far
  abbrev Finds : List (Event E) → List Text → List Text → Type 0
  Finds events lefts rights =
      (left_set right_set : List Text)
      → Parts all rights right_set
      → meets left_set right_set ≡ false
      → consume_events events left_set right_set none
        ≡ (meets lefts all || meets left_set all, none)

  nothing-Finds : Finds [] [] []
  unfolding consume_events
  nothing-Finds l r p n = ap (λ b. (b, none)) (sym (meets-same l all r p ∙ n))

  left_closed-Finds :
      (events : List (Event E)) (rights : List Text)
      → Finds events [] rights
      → Finds (left_closed ∷ events) [] rights
  unfolding consume_events
  left_closed-Finds events rights f [] r p n = refl
  left_closed-Finds events rights f (t ∷ l) r p n = f (t ∷ l) r p n

  right_closed-Finds :
      (events : List (Event E)) (lefts : List Text)
      → Finds events lefts []
      → Finds (right_closed ∷ events) lefts []
  unfolding consume_events
  right_closed-Finds events lefts f = f

  right_msg-Finds :
      (t : Text) (events : List (Event E)) (lefts rights : List Text)
      → Finds events lefts rights
      → Finds (right_msg (answer t) ∷ events) lefts (t ∷ rights)
  unfolding consume_events
  right_msg-Finds t events lefts rights f l r p n = elim (Bool-cases (is_key t l)) [
    | inl y ↦
        rw (y, meets-key t l all y (ground (arith, p t, text_beq_refl t)))
          (ap (λ b. (b, none)) (or_true (meets lefts all)))
    | inr m ↦ rw m (f l (t ∷ r) (λ x. ground (arith, p x)) (ground (arith, meets-cons l t r, m, n)))
  ]

  items-Find :
      (continue : List Text → Option E → Resolved E) (items lefts rights right_set : List Text)
      → Parts all rights right_set
      → ((left_set : List Text)
          → meets left_set right_set ≡ false
          → continue left_set none ≡ (meets lefts all || meets left_set all, none))
      → (left_set : List Text) → meets left_set right_set ≡ false
      → consume_items continue items none left_set right_set none
        ≡ (meets (items ++ lefts) all || meets left_set all, none)
  unfolding consume_items
  items-Find continue [] lefts rights r p f l n = f l n
  items-Find continue (t ∷ items) lefts rights r p f l n = elim (Bool-cases (is_key t r)) [
    | inl y ↦ rw y (ap (λ b. (b, none)) (ground (arith, p t, y)))
    | inr m ↦ rw m (
        items-Find continue items lefts rights r p f (t ∷ l) (ground (arith, m, n))
        ∙ ap (λ b. (b, none)) (ground arith))
  ]

  left_msg-Finds :
      (b : Iter E) (events : List (Event E)) (lefts rights : List Text)
      → b.end ≡ none
      → Finds events lefts rights
      → Finds (left_msg (iter b) ∷ events) (b.items ++ lefts) rights
  unfolding consume_events
  left_msg-Finds b events lefts rights e f l r p n = rw e (
      items-Find (λ left_set last_err. consume_events events left_set r last_err) b.items lefts
        rights r p (λ l' n'. f l' r p n') l n)

  -- when the left channel is closed
  rights-Find : (rs : List Text) → Finds (right_events (map answer rs)) [] rs
  rights-Find [] = right_closed-Finds [] [] nothing-Finds
  rights-Find (t ∷ rs) = right_msg-Finds t (right_events (map answer rs)) [] rs (rights-Find rs)

  -- when the right channel is closed
  lefts-Find : (ms : List (Msg E)) → IsClean ms → Finds (left_events ms) (contents ms) []
  lefts-Find [] c = left_closed-Finds [] [] nothing-Finds
  lefts-Find (err e ∷ ms) c = absurd c
  lefts-Find (iter b ∷ ms) c =
      left_msg-Finds b (left_events ms) (contents ms) [] c.0 (lefts-Find ms c.1)

  interleave-closed : (picks : List Bool) (xs : List (Event E)) → interleave picks xs [] ≡ xs
  unfolding interleave
  interleave-closed picks [] = refl
  interleave-closed picks (x ∷ xs) = refl

  -- after the right channel is closed
  closed-Finds :
      (picks : List Bool) (ms : List (Msg E))
      → IsClean ms
      → Finds (right_closed ∷ interleave picks (left_events ms) []) (contents ms) []
  closed-Finds picks ms c =
      rw (interleave-closed picks (left_events ms))
        (right_closed-Finds (left_events ms) (contents ms) (lefts-Find ms c))

  abbrev rest : List Bool → List (Msg E) → List Text → List (Event E)
  rest picks ms rs = interleave picks (left_events ms) (right_events (map answer rs))

  interleave-Finds :
      (picks : List Bool) (ms : List (Msg E)) (rs : List Text)
      → IsClean ms
      → Finds (rest picks ms rs) (contents ms) rs
  unfolding interleave
  interleave-Finds picks (err e ∷ ms) rs c = absurd c
  interleave-Finds [] [] [] c = left_closed-Finds (right_events []) [] (rights-Find [])
  interleave-Finds [] [] (t ∷ rs) c =
      left_closed-Finds (right_events (map answer (t ∷ rs))) (t ∷ rs) (rights-Find (t ∷ rs))
  interleave-Finds [] (iter b ∷ ms) [] c =
      left_msg-Finds b (rest [] ms []) (contents ms) [] c.0 (interleave-Finds [] ms [] c.1)
  interleave-Finds [] (iter b ∷ ms) (t ∷ rs) c =
      left_msg-Finds b (rest [] ms (t ∷ rs)) (contents ms) (t ∷ rs) c.0
        (interleave-Finds [] ms (t ∷ rs) c.1)
  interleave-Finds (true ∷ picks) [] [] c = left_closed-Finds (right_events []) [] (rights-Find [])
  interleave-Finds (true ∷ picks) [] (t ∷ rs) c =
      left_closed-Finds (right_events (map answer (t ∷ rs))) (t ∷ rs) (rights-Find (t ∷ rs))
  interleave-Finds (true ∷ picks) (iter b ∷ ms) [] c =
      left_msg-Finds b (rest picks ms []) (contents ms) [] c.0 (interleave-Finds picks ms [] c.1)
  interleave-Finds (true ∷ picks) (iter b ∷ ms) (t ∷ rs) c =
      left_msg-Finds b (rest picks ms (t ∷ rs)) (contents ms) (t ∷ rs) c.0
        (interleave-Finds picks ms (t ∷ rs) c.1)
  interleave-Finds (false ∷ picks) [] [] c = closed-Finds picks [] c
  interleave-Finds (false ∷ picks) (iter b ∷ ms) [] c = closed-Finds picks (iter b ∷ ms) c
  interleave-Finds (false ∷ picks) [] (t ∷ rs) c =
      right_msg-Finds t (rest picks [] rs) [] rs (interleave-Finds picks [] rs c)
  interleave-Finds (false ∷ picks) (iter b ∷ ms) (t ∷ rs) c =
      right_msg-Finds t (rest picks (iter b ∷ ms) rs) (contents (iter b ∷ ms)) rs
        (interleave-Finds picks (iter b ∷ ms) rs c)

-- If the channels deliver no error, resolveFastPath allows exactly if they have a common object, in
-- whatever order their messages arrive, and returns no error.
pub resolve_fast_path-meets :
    {E : Type 0} (ms : List (Msg E)) (rs : List Text) (picks : List Bool)
    → IsClean ms
    → resolve_fast_path
        (map answer rs)
        (λ rights. interleave picks (left_events ms) (right_events rights))
      ≡ (meets (contents ms) rs, none)
unfolding resolve_fast_path
resolve_fast_path-meets ms [] picks c = ap (λ b. (b, none)) (sym (meets-nil (contents ms)))
resolve_fast_path-meets ms (t ∷ rs) picks c =
    interleave-Finds (t ∷ rs) picks ms rs c [] (t ∷ []) (λ x. ground arith) refl
    ∙ ap (λ b. (b, none)) (ground arith)
