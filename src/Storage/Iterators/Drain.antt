-- ===== src/Storage/Iterators/Drain.antt =====
-- What the iterators yield.
use mongopenfga.Prelude.{
  ℕ, zero, suc, ◌<◌, ◌≡◌, refl, ap, ◌∙◌, Bool, true, false, Option, none, some, List, [], ◌∷◌,
  arith, select, length, ◌⊎◌, inl, inr, Bool-cases,
}
use mongopenfga.Storage.Iterators.Defs.{
  Answer, answer, failure, Next, item, filtered_next, ConditionsFiltered, conditions_next,
  conditions_step, conditions_head, drain_fuel, drain_rest,
}

pub Answer-cases :
    {E : Type 0} (r : Answer E Bool)
    → ((e : E) × (r ≡ failure e)) ⊎ (r ≡ answer true) ⊎ (r ≡ answer false)
Answer-cases (failure e) = inl (e, refl)
Answer-cases (answer true) = inr (inl refl)
Answer-cases (answer false) = inr (inr refl)

module _ {S E A : Type 0} (next : S → Next E A × S) where
  abbrev cons_item : A → List A × Option E → List A × Option E
  cons_item x p = (x ∷ p.0, p.1)

  pub drain-item :
      (fuel : ℕ) (s s' : S) (x : A)
      → next s ≡ (item x, s')
      → drain_fuel (suc fuel) next s ≡ cons_item x (drain_fuel fuel next s')
  unfolding drain_fuel
  drain-item fuel s s' x h = ap (drain_rest (drain_fuel fuel next)) h

  drain-same :
      (fuel : ℕ) (s t : S)
      → next s ≡ next t
      → drain_fuel (suc fuel) next s ≡ drain_fuel (suc fuel) next t
  unfolding drain_fuel
  drain-same fuel s t h = ap (drain_rest (drain_fuel fuel next)) h

module _ {E A : Type 0} where
  filtered_kept :
      (filter : A → Bool) (x : A) (items : List A)
      → filter x ≡ true
      → filtered_next {E = E} filter (x ∷ items) ≡ (item x, items)
  unfolding filtered_next
  filtered_kept filter x items h = rw h refl

  filtered_dropped :
      (filter : A → Bool) (x : A) (items : List A)
      → filter x ≡ false
      → filtered_next {E = E} filter (x ∷ items) ≡ filtered_next filter items
  unfolding filtered_next
  filtered_dropped filter x items h = rw h refl

  drain-filtered_empty :
      (filter : A → Bool) (fuel : ℕ)
      → drain_fuel {E = E} (suc fuel) (filtered_next filter) [] ≡ ([], none)
  unfolding drain_fuel filtered_next
  drain-filtered_empty filter fuel = refl

  -- The filtered iterator yields the items that pass, in their order, and no error.
  pub drain-filtered :
      (filter : A → Bool) (items : List A) (fuel : ℕ)
      → length items < fuel
      → drain_fuel {E = E} fuel (filtered_next filter) items ≡ (select filter items, none)
  drain-filtered filter items zero h = absurd (omega arith)
  drain-filtered filter [] (suc fuel) h = drain-filtered_empty filter fuel
  drain-filtered filter (x ∷ items) (suc fuel) h = elim (Bool-cases (filter x)) [
    | inl e ↦
        drain-item (filtered_next filter) fuel (x ∷ items) items x (filtered_kept filter x items e)
        ∙ rw e (
            ap (cons_item (filtered_next filter) x)
              (drain-filtered filter items fuel (omega arith)))
    | inr e ↦
        drain-same (filtered_next filter) fuel (x ∷ items) items (filtered_dropped filter x items e)
        ∙ rw e (drain-filtered filter items (suc fuel) (omega arith))
  ]

module _ {E A : Type 0} (filter : A → Answer E Bool) (x : A) (items : List A) where
  pub next-failed :
      (e : E) (last : Option E) (once : Bool)
      → filter x ≡ failure e
      → conditions_next filter (x ∷ items) last once ≡ conditions_next filter items (some e) once
  unfolding conditions_next
  next-failed e last once h = rw (h, conditions_next) refl

  next-met :
      (last : Option E) (once : Bool)
      → filter x ≡ answer true
      → conditions_next filter (x ∷ items) last once
        ≡ (item x, record { items = items; last_error = last; once_valid = true })
  unfolding conditions_next
  next-met last once h = rw (h, conditions_next) refl

  pub next-unmet :
      (last : Option E) (once : Bool)
      → filter x ≡ answer false
      → conditions_next filter (x ∷ items) last once ≡ conditions_next filter items last once
  unfolding conditions_next
  next-unmet last once h = rw (h, conditions_next) refl

  head-failed :
      (e : E) (last : Option E) (once : Bool)
      → filter x ≡ failure e
      → conditions_head filter (x ∷ items) last once ≡ conditions_head filter items (some e) once
  unfolding conditions_head
  head-failed e last once h = rw (h, conditions_head) refl

  head-met :
      (last : Option E) (once : Bool)
      → filter x ≡ answer true
      → conditions_head filter (x ∷ items) last once
        ≡ (item x, record { items = x ∷ items; last_error = last; once_valid = true })
  unfolding conditions_head
  head-met last once h = rw (h, conditions_head) refl

  head-unmet :
      (last : Option E) (once : Bool)
      → filter x ≡ answer false
      → conditions_head filter (x ∷ items) last once ≡ conditions_head filter items last once
  unfolding conditions_head
  head-unmet last once h = rw (h, conditions_head) refl

abbrev pub holds : {E : Type 0} → Answer E Bool → Bool
holds (failure e) = false
holds (answer b) = b

abbrev pub error_or : {E : Type 0} → Answer E Bool → Option E → Option E
error_or (failure e) last = some e
error_or (answer b) last = last

module _ {E A : Type 0} (filter : A → Answer E Bool) where
  head-empty :
      (last : Option E) (once : Bool)
      → (conditions_step filter (conditions_head filter [] last once).1).0
        ≡ (conditions_next filter [] last once).0
  unfolding conditions_next conditions_head
  head-empty last once = refl

  -- After Head, Next gives what it gives without Head.
  pub conditions_next-head :
      (items : List A) (last_error : Option E) (once_valid : Bool)
      → (conditions_step filter (conditions_head filter items last_error once_valid).1).0
        ≡ (conditions_next filter items last_error once_valid).0
  conditions_next-head [] last_error once_valid = head-empty last_error once_valid
  conditions_next-head (x ∷ items) last once = elim (Answer-cases (filter x)) [
    | inl (e, h) ↦
        rw (head-failed filter x items e last once h, next-failed filter x items e last once h)
          (conditions_next-head items (some e) once)
    | inr (inl h) ↦
        rw
          (
            head-met filter x items last once h,
            next-met filter x items last once h,
            next-met filter x items last true h,
          )
          refl
    | inr (inr h) ↦
        rw (head-unmet filter x items last once h, next-unmet filter x items last once h)
          (conditions_next-head items last once)
  ]

  -- the items whose condition is met
  abbrev pub is_met : A → Bool
  is_met x = holds (filter x)

  -- the last error among the conditions of the items
  abbrev pub last_failure : List A → Option E → Option E
  last_failure [] e = e
  last_failure (x ∷ items) e = last_failure items (error_or (filter x) e)

  -- an error if no item was yielded
  abbrev pub error_unless : Bool → List A → Option E → Option E
  error_unless true xs e = none
  error_unless false [] e = e
  error_unless false (x ∷ xs) e = none

  abbrev state : List A → Option E → Bool → ConditionsFiltered E A
  state items last once = record { items = items; last_error = last; once_valid = once }

  drain_end :
      (fuel : ℕ) (last : Option E) (once : Bool)
      → drain_fuel (suc fuel) (conditions_step filter) (state [] last once)
        ≡ ([], error_unless once [] last)
  unfolding drain_fuel conditions_next
  drain_end fuel none true = refl
  drain_end fuel none false = refl
  drain_end fuel (some e) true = refl
  drain_end fuel (some e) false = refl

  met-error :
      (once : Bool) (x : A) (xs : List A) (last : Option E)
      → error_unless true xs last ≡ error_unless once (x ∷ xs) last
  met-error true x xs last = refl
  met-error false x xs last = refl

  drain_lem :
      (items : List A) (last : Option E) (once : Bool) (fuel : ℕ)
      → length items < fuel
      → drain_fuel fuel (conditions_step filter) (state items last once)
        ≡ (select is_met items, error_unless once (select is_met items) (last_failure items last))
  drain_lem items last once zero h = absurd (omega arith)
  drain_lem [] last once (suc fuel) h = drain_end fuel last once
  drain_lem (x ∷ items) last once (suc fuel) h = elim (Answer-cases (filter x)) [
    | inl (e, k) ↦
        drain-same (conditions_step filter) fuel (state (x ∷ items) last once)
          (state items (some e) once) (next-failed filter x items e last once k)
        ∙ rw k (drain_lem items (some e) once (suc fuel) (omega arith))
    | inr (inl k) ↦
        drain-item (conditions_step filter) fuel (state (x ∷ items) last once)
          (state items last true) x (next-met filter x items last once k)
        ∙ rw k (
            ap (cons_item (conditions_step filter) x) (drain_lem items last true fuel (omega arith))
            ∙ ap (λ e. (x ∷ select is_met items, e))
                (met-error once x (select is_met items) (last_failure items last)))
    | inr (inr k) ↦
        drain-same (conditions_step filter) fuel (state (x ∷ items) last once)
          (state items last once) (next-unmet filter x items last once k)
        ∙ rw k (drain_lem items last once (suc fuel) (omega arith))
  ]

  -- The conditions iterator, read to its end, yields the items whose condition is met, in their
  -- order, and ends with an error exactly if it yields none and the condition of some item failed;
  -- the error is that of the last such item.
  pub drain-conditions :
      (items : List A) (fuel : ℕ)
      → length items < fuel
      → drain_fuel fuel (conditions_step filter) (state items none false)
        ≡ (select is_met items, error_unless false (select is_met items) (last_failure items none))
  drain-conditions items fuel h = drain_lem items none false fuel h
