-- ===== src/Graph/FastPath/AfterLoop.antt =====
-- What fastPathDifference sends after its loop, and what CleanDone finds of its streams.
use mongopenfga.Prelude.{
  ℕ, zero, suc, ◌≤◌, ◌<◌, ◌≡◌, refl, ◌∙◌, sym, subst, ap, inl, inr, ◌⊎◌, Bool, true, false, Option,
  none, some, List, [], ◌∷◌, ◌++◌, Text, arith, text_eq, nat_beq,
}
use mongopenfga.Storage.Iterators.Defs.{answer}
use mongopenfga.Graph.FastPath.Stream.{Iter, Msg, Stream, clean_done}
use mongopenfga.Graph.FastPath.Merge.{flush}
use mongopenfga.Graph.FastPath.Good.{IsGood, left, weight, HasBuffer}
use mongopenfga.Graph.FastPath.Positions.{append_assoc, append_nil}
use mongopenfga.Graph.FastPath.Deliver.{Delivers, flush-Delivers, send_full-Delivers}
use mongopenfga.Graph.FastPath.Good.{fetch_source-IsGood, fetch_all-cons}
use mongopenfga.Graph.FastPath.Stream.{
  fetch_source, after_fetch, fetch_all, delete_done, drain, is_done,
}
use mongopenfga.Graph.FastPath.DifferenceLoop.{
  drain_cleaned, drain_drained, drain_base, if_base, after_cleaned, after_difference,
}

module _ {E : Type 0} where
  abbrev pub keeps : Stream E → Bool → List (Stream E) → List (Stream E)
  keeps s true rest = rest
  keeps s false rest = s ∷ rest

  delete_done-keeps :
      (s : Stream E) (rest : List (Stream E)) (k : Bool)
      → is_done s ≡ k
      → delete_done (s ∷ rest) ≡ keeps s k (delete_done rest)
  unfolding delete_done
  delete_done-keeps s rest true e = rw e refl
  delete_done-keeps s rest false e = rw e refl

  clean_one :
      (s : Stream E) {s' : Stream E} (k : Bool)
      → fetch_source s ≡ (none, s')
      → is_done s' ≡ k
      → clean_done (s ∷ []) ≡ answer (keeps s' k [])
  unfolding clean_done fetch_all delete_done
  clean_one s {s' = s'} k f e =
      ap after_fetch (fetch_all-cons s [] f refl) ∙ ap answer (delete_done-keeps s' [] k e)

  pub clean_two :
      (b d : Stream E) {b' d' : Stream E} (k l : Bool)
      → fetch_source b ≡ (none, b')
      → fetch_source d ≡ (none, d')
      → is_done b' ≡ k
      → is_done d' ≡ l
      → clean_done (b ∷ d ∷ []) ≡ answer (keeps b' k (keeps d' l []))
  unfolding clean_done fetch_all delete_done
  clean_two b d {b' = b'} {d' = d'} k l f g e h =
      ap after_fetch (fetch_all-cons b (d ∷ []) f (fetch_all-cons d [] g refl))
      ∙ ap answer
          (delete_done-keeps b' (d' ∷ []) k e ∙ ap (keeps b' k) (delete_done-keeps d' [] l h))

  -- what CleanDone finds of one stream
  abbrev Single : Stream E → Type 0
  Single s =
      ((clean_done (s ∷ []) ≡ answer []) × (left s ≡ []))
      ⊎ ((s' : Stream E) × (clean_done (s ∷ []) ≡ answer (s' ∷ []))
          × IsGood s'
          × (left s' ≡ left s)
          × (weight s' ≤ weight s)
          × (s'.idx ≡ s.idx)
          × HasBuffer s')

  clean-Single : (s : Stream E) → IsGood s → Single s
  clean-Single s g =
      let (s', (f, g', l, w, i, d)) = fetch_source-IsGood s g in
      elim d [
        | inl (y, z) ↦ inl (clean_one s true f y, sym l ∙ z)
        | inr (y, b) ↦ inr (s', clean_one s false f y, g', l, w, i, b)
      ]

  -- draining a stream with a buffer: its items are in the batch, and less is left
  drained :
      (i : ℕ) (b : Option (Iter E)) (c : Bool) (ms : List (Msg E))
      → let s : Stream E = record { idx = i; buffer = b; source_is_closed = c; source = ms } in
        IsGood s
        → HasBuffer s
        → (items : List Text) × (s' : Stream E) × (drain s ≡ (answer items, s'))
          × IsGood s'
          × (left s ≡ items ++ left s')
          × (weight s' < weight s)
  unfolding drain
  drained i none c ms g h = absurd (ground (arith, h.1))
  drained i (some b) c ms g h = (
    b.items,
    record { idx = i; buffer = none; source_is_closed = c; source = ms },
    rw g.0 refl,
    (tt, g.1, g.2),
    refl,
    omega arith,
  )

  drain_base-empty : (fuel : ℕ) (batch : List Text) → drain_base {E = E} fuel batch [] ≡ flush batch
  unfolding drain_base
  drain_base-empty zero batch = refl
  drain_base-empty (suc fuel) batch = refl

  cleaned-Delivers :
      (fuel : ℕ) (s : Stream E)
      → IsGood s
      → weight s ≤ fuel
      → ((batch : List Text) (s' : Stream E)
          → IsGood s'
          → HasBuffer s'
          → weight s' ≤ fuel
          → Delivers (drain_base fuel batch (s' ∷ [])) (batch ++ left s'))
      → (b : List Text)
      → Delivers (drain_cleaned (drain_base fuel) b (clean_done (s ∷ []))) (b ++ left s)
  unfolding drain_cleaned
  cleaned-Delivers fuel s g l k b = elim (clean-Single s g) [
    | inl (e, z) ↦
        subst (λ sent. Delivers sent (b ++ left s))
          (sym (ap (drain_cleaned (drain_base fuel) b) e ∙ drain_base-empty fuel b))
          (rw (z, append_nil b) (flush-Delivers b))
    | inr (s', e, g', m, w, i, h) ↦
        subst (λ sent. Delivers sent (b ++ left s)) (sym (ap (drain_cleaned (drain_base fuel) b) e))
          (rw (sym m) (k b s' g' h (omega (arith, w, l))))
  ]

  drain_base-Delivers :
      (fuel : ℕ) (batch : List Text) (s : Stream E)
      → IsGood s
      → HasBuffer s
      → weight s ≤ fuel
      → Delivers (drain_base fuel batch (s ∷ [])) (batch ++ left s)
  unfolding drain_base drain_drained drain_cleaned
  drain_base-Delivers zero batch s g h l = absurd (omega (arith, l))
  drain_base-Delivers (suc fuel) batch s g h l =
      let (items, s', e, g', m, w) = drained s.idx s.buffer s.source_is_closed s.source g h in
      subst (λ sent. Delivers sent (batch ++ left s))
        (sym (ap (drain_drained (drain_base fuel) batch) e))
        (subst (Delivers _) (append_assoc batch items (left s') ∙ ap (◌++◌ batch) (sym m)) (
          send_full-Delivers (batch ++ items) (left s')
            (λ b. drain_cleaned (drain_base fuel) b (clean_done (s' ∷ [])))
            (cleaned-Delivers fuel s' g' (omega (arith, l, w)) (drain_base-Delivers fuel))))

  -- What follows the loop, if nothing or only the second stream is active.
  pub after-empty :
      (fuel : ℕ) (batch : List Text) → Delivers (after_difference {E = E} fuel batch []) batch
  unfolding after_difference after_cleaned clean_done fetch_all delete_done
  after-empty fuel batch = flush-Delivers batch

  pub after-diff :
      (fuel : ℕ) (batch : List Text) (d : Stream E)
      → IsGood d
      → d.idx ≡ 1
      → Delivers (after_difference fuel batch (d ∷ [])) batch
  unfolding after_difference after_cleaned if_base
  after-diff fuel batch d g i = elim (clean-Single d g) [
    | inl (e, z) ↦
        subst (λ sent. Delivers sent batch) (sym (ap (after_cleaned fuel batch) e))
          (flush-Delivers batch)
    | inr (d', e, g', m, w, i', h) ↦
        subst (λ sent. Delivers sent batch)
          (sym (
            ap (after_cleaned fuel batch) e
            ∙ ap (λ k. if_base k fuel batch (d' ∷ [])) (other d' (i' ∙ i))))
          (flush-Delivers batch)
  ]
    where
      other : (d' : Stream E) → d'.idx ≡ 1 → nat_beq d'.idx 0 ≡ false
      other d' e = ground (arith, e)

  -- If only the base is active, its items are sent.
  pub after-base :
      (fuel : ℕ) (batch : List Text) (b : Stream E)
      → IsGood b
      → b.idx ≡ 0
      → weight b ≤ fuel
      → Delivers (after_difference fuel batch (b ∷ [])) (batch ++ left b)
  unfolding after_difference after_cleaned if_base
  after-base fuel batch b g i l = elim (clean-Single b g) [
    | inl (e, z) ↦
        subst (λ sent. Delivers sent (batch ++ left b)) (sym (ap (after_cleaned fuel batch) e))
          (rw (z, append_nil batch) (flush-Delivers batch))
    | inr (b', e, g', m, w, i', h) ↦
        subst (λ sent. Delivers sent (batch ++ left b))
          (sym (
            ap (after_cleaned fuel batch) e
            ∙ ap (λ k. if_base k fuel batch (b' ∷ [])) (base b' (i' ∙ i))))
          (rw (sym m) (drain_base-Delivers fuel batch b' g' h (omega (arith, w, l))))
  ]
    where
      base : (b' : Stream E) → b'.idx ≡ 0 → nat_beq b'.idx 0 ≡ true
      base b' e = ground (arith, e)
