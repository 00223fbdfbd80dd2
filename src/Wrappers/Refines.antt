-- ===== src/Wrappers/Refines.antt =====
-- A reader over a list of tuples, with contextual tuples, is one over the longer list.
use mongopenfga.Prelude.{
  ℕ, suc, ◌+◌, ◌≡◌, ◌≢◌, refl, Bool, false, ◌&&◌, ◌||◌, Option, none, some, List, [], ◌∷◌, is_key,
  select, length, inl, inr, Bool-cases, text_eq, ◌==◌,
}
use mongopenfga.Tuple.{TupleKey, get_type}
use mongopenfga.Storage.Iterators.Defs.{Answer, answer, failure, drain_fuel}
use mongopenfga.Storage.Iterators.Ordered.{combined_next, ordered_next}
use mongopenfga.Storage.Iterators.Merge.{concat}
use mongopenfga.Typesystem.Model.{and_then}
use mongopenfga.Memory.Starting.{StartingWithUserFilter}
use mongopenfga.Memory.Usersets.{any}
use mongopenfga.Tuple.Valid.{ObjectShape}
use mongopenfga.Wrappers.{
  TupleReader, CombinedIterator, combined, ordered, user_filters, combined_read,
  combined_read_user_tuple, combined_read_userset_tuples, combined_read_starting_with_user,
}

module _ {C : Type 0} where
  abbrev pending_items : List (Option (List (TupleKey C))) → ℕ
  pending_items [] = 0
  pending_items (none ∷ rest) = pending_items rest
  pending_items (some items ∷ rest) = length items + pending_items rest

  -- the items of an iterator, read to its end
  abbrev items_of : {E : Type 0} → E → CombinedIterator C → List (TupleKey C)
  items_of {E = E} e (combined pending) =
      (drain_fuel {E = E} (suc (length (concat pending))) combined_next pending).0
  items_of e (ordered c) =
      (drain_fuel (suc (pending_items c.pending)) (ordered_next (λ t. t.object)) c).0

  -- the tuples that Read returns for a key: a part that is empty is not compared
  abbrev pub wanted : TupleKey C → TupleKey C → Bool
  wanted tk t =
      (tk.object == [] || t.object == tk.object) && (tk.relation == [] || t.relation == tk.relation)

  -- the tuples with a key
  abbrev pub same_key : TupleKey C → TupleKey C → Bool
  same_key tk t = t.object == tk.object && t.relation == tk.relation && t.user == tk.user

  -- the tuples that start with a user
  abbrev pub starts_with : StartingWithUserFilter → TupleKey C → Bool
  starts_with filter t =
      get_type t.object == filter.object_type
      && t.relation == filter.relation
      && is_key t.user (user_filters filter.user_filter)

module _ {E C : Type 0} where
  abbrev pub first_or : E → List (TupleKey C) → Answer E (TupleKey C)
  first_or not_found [] = failure not_found
  first_or not_found (t ∷ ts) = answer t

  -- what a read without an order selects of the tuples
  abbrev pub Starts :
      Answer E (List (TupleKey C)) → StartingWithUserFilter → List (TupleKey C) → Type 0
  Starts answered filter tuples =
      (items : List (TupleKey C)) × (answered ≡ answer items)
      × ((p : TupleKey C → Bool) → any p items ≡ any (λ t. p t && starts_with filter t) tuples)

  -- The reader answers as the list of tuples says: Read for an object `type:id` and no user,
  -- ReadUserTuple for an object `type:id`, a relation and a user, and ReadStartingWithUser, in some
  -- order, without object ids.
  pub record IsListReader (not_found : E) (stored : List (TupleKey C)) (ds : TupleReader E C)
      : Type 0 where
    pub reads :
        (tk : TupleKey C)
        → ObjectShape tk.object
        → tk.user ≡ []
        → ds.read tk ≡ answer (select (wanted tk) stored)
    pub reads_user :
        (tk : TupleKey C)
        → ObjectShape tk.object
        → tk.relation ≢ []
        → tk.user ≢ []
        → ds.read_user_tuple tk ≡ first_or not_found (select (same_key tk) stored)
    pub starts :
        (filter : StartingWithUserFilter)
        → filter.object_ids ≡ none
        → Starts (ds.read_starting_with_user filter false) filter stored

  -- CombinedTupleReader as a reader: its iterators are read to their end
  abbrev pub combined_reader : E → TupleReader E C → List (TupleKey C) → TupleReader E C
  combined_reader e ds contextual = record {
    read = λ tk. and_then (combined_read ds contextual tk) (λ i. answer (items_of e i));
    read_user_tuple = combined_read_user_tuple ds contextual;
    read_userset_tuples = λ filter.
        and_then (combined_read_userset_tuples ds contextual filter) (λ i. answer (items_of e i));
    read_starting_with_user = λ filter sorted.
        and_then (combined_read_starting_with_user ds contextual filter sorted)
          (λ i. answer (items_of e i));
  }

module _ {A : Type 0} where
  select-select :
      (p q : A → Bool) (xs : List A) → select p (select q xs) ≡ select (λ x. p x && q x) xs
  select-select p q [] = refl
  select-select p q (x ∷ xs) = elim (Bool-cases (q x)) [
    | inl y ↦ elim (Bool-cases (p x)) [
      | inl z ↦ rw (y, z, select-select p q xs) refl
      | inr z ↦ rw (y, z, select-select p q xs) refl
    ]
    | inr n ↦ elim (Bool-cases (p x)) [
      | inl z ↦ rw (n, z, select-select p q xs) refl
      | inr z ↦ rw (n, z, select-select p q xs) refl
    ]
  ]
