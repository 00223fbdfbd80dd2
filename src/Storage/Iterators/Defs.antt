-- ===== src/Storage/Iterators/Defs.antt =====
-- The static, filtered and combined iterators, and Drain: Next called until it returns an error.
use mongopenfga.Prelude.{
  ℕ, zero, suc, Bool, true, false, Option, none, some, List, [], ◌∷◌, if◌then◌else◌,
}

-- The answer of an operation that may fail.
pub data Answer {ℓ} (E A : Type ℓ) : Type ℓ where
  answer : A → Answer E A
  failure : E → Answer E A

pub data Next (E A : Type 0) : Type 0 where
  item : A → Next E A
  done : Next E A
  fail : E → Next E A

module _ {E A : Type 0} where
  -- StaticIterator
  unfoldable pub static_next : List A → Next E A × List A
  static_next [] = (done, [])
  static_next (x ∷ items) = (item x, items)

  unfoldable pub static_head : List A → Next E A
  static_head [] = done
  static_head (x ∷ items) = item x

  -- filteredTupleKeyIterator over a static iterator
  unfoldable pub filtered_next : (A → Bool) → List A → Next E A × List A
  filtered_next filter [] = (done, [])
  filtered_next filter (x ∷ items) =
      let rest = filtered_next filter items in if filter x then (item x, items) else rest

  -- Head drops the items that do not pass.
  unfoldable pub filtered_head : (A → Bool) → List A → Next E A × List A
  filtered_head filter [] = (done, [])
  filtered_head filter (x ∷ items) =
      let rest = filtered_head filter items in if filter x then (item x, x ∷ items) else rest

-- ConditionsFilteredTupleKeyIterator over a static iterator
pub record ConditionsFiltered (E A : Type 0) : Type 0 where
  pub items : List A
  pub last_error : Option E
  pub once_valid : Bool

module _ {E A : Type 0} where
  -- what Next and Head return when the underlying iterator is done
  abbrev pub conditions_end : Option E → Bool → Next E A
  conditions_end none once_valid = done
  conditions_end (some e) once_valid = if once_valid then done else fail e

  unfoldable pub conditions_next :
      (A → Answer E Bool) → List A → Option E → Bool → Next E A × ConditionsFiltered E A
  conditions_next filter [] last_error once_valid = (
    conditions_end last_error once_valid,
    record {
      items = [];
      last_error = if once_valid then last_error else none;
      once_valid = once_valid;
    },
  )
  conditions_next filter (x ∷ items) last_error once_valid = elim (filter x) [
    | failure e ↦ conditions_next filter items (some e) once_valid
    | answer true ↦ (item x, record { items = items; last_error = last_error; once_valid = true })
    | answer false ↦ conditions_next filter items last_error once_valid
  ]

  -- Next, on the iterator's state
  abbrev pub conditions_step :
      (A → Answer E Bool) → ConditionsFiltered E A → Next E A × ConditionsFiltered E A
  conditions_step filter c = conditions_next filter c.items c.last_error c.once_valid

  unfoldable pub conditions_head :
      (A → Answer E Bool) → List A → Option E → Bool → Next E A × ConditionsFiltered E A
  conditions_head filter [] last_error once_valid = (
    conditions_end last_error once_valid,
    record { items = []; last_error = last_error; once_valid = once_valid },
  )
  conditions_head filter (x ∷ items) last_error once_valid = elim (filter x) [
    | failure e ↦ conditions_head filter items (some e) once_valid
    | answer true ↦
        (item x, record { items = x ∷ items; last_error = last_error; once_valid = true })
    | answer false ↦ conditions_head filter items last_error once_valid
  ]

-- How a loop `for { t, err := iter.Next() … }` sees an iterator: the items that it yields, and the
-- error that ends it, `none` for ErrIteratorDone. `drain_fuel` counts the calls of Next.
module _ {S E A : Type 0} where
  abbrev pub drain_rest : (S → List A × Option E) → Next E A × S → List A × Option E
  drain_rest rest (item x, s) = (x ∷ (rest s).0, (rest s).1)
  drain_rest rest (done, s) = ([], none)
  drain_rest rest (fail e, s) = ([], some e)

  unfoldable pub drain_fuel : ℕ → (S → Next E A × S) → S → List A × Option E
  drain_fuel zero next s = ([], none)
  drain_fuel (suc fuel) next s = drain_rest (drain_fuel fuel next) (next s)
