-- ===== src/Wrappers/Backend.antt =====
-- The memory backend as the datastore of a combined reader.
use mongopenfga.Prelude.{
  ◌≡◌, refl, ◌∙◌, sym, ap, Bool, false, ◌&&◌, Option, none, some, List, [], ◌∷◌, map, select, Text,
  All, arith, text_eq, ◌==◌, text_beq, text_beq_iff, Bool-cases, inl, inr, length, leb,
}
use mongopenfga.Tuple.{TupleKey, get_type, plain}
use mongopenfga.Tuple.Valid.{ObjectShape}
use mongopenfga.Tuple.Users.{object-object, object-ne, Run-ne_nil}
use mongopenfga.Storage.{Tuple, TupleRecord, as_tuple}
use mongopenfga.Storage.Iterators.Defs.{Answer, answer, failure}
use mongopenfga.Memory.State.{TupleBackend, tuples_of, match_record}
use mongopenfga.Memory.Match.{IsFullKey, keyed, match_record-keyed, object_beq, beq_comm, ne_nil}
use mongopenfga.Memory.Invariant.{IsKeyed, full_key}
use mongopenfga.Memory.Read.{Numerals, read_slice, read_matches, read, first_match, read_user_tuple}
use mongopenfga.Memory.Usersets.{any, any-map, read_userset_tuples}
use mongopenfga.Memory.Starting.{
  StartingWithUserFilter, ObjectRelation, target_user, has_target, starting_matches,
  read_starting_with_user_filter, any-starting_matches,
}
use mongopenfga.Wrappers.{TupleReader, user_filters}
use mongopenfga.Wrappers.Refines.{wanted, same_key, starts_with, first_or, Starts, IsListReader}

targets-user_filters : (us : List ObjectRelation) → map target_user us ≡ user_filters us
targets-user_filters [] = refl
targets-user_filters (u ∷ us) = elim (Bool-cases (text_beq u.relation [])) [
  | inl e ↦ rw (e, targets-user_filters us) refl
  | inr n ↦ rw (n, targets-user_filters us) refl
]

module _ {C : Type 0} (empty_struct : C) where
  abbrev pub key_of : TupleRecord C → TupleKey C
  key_of t = (as_tuple empty_struct t).key

  select-map :
      (f : TupleRecord C → Bool) (p : TupleKey C → Bool) (records : List (TupleRecord C))
      → All IsKeyed records
      → ((t : TupleRecord C) → IsKeyed t → f t ≡ p (key_of t))
      → map key_of (select f records) ≡ select p (map key_of records)
  select-map f p [] a e = refl
  select-map f p (t ∷ records) (k, a) e = elim (Bool-cases (f t)) [
    | inl y ↦ rw (y, sym (e t k) ∙ y, select-map f p records a e) refl
    | inr n ↦ rw (n, sym (e t k) ∙ n, select-map f p records a e) refl
  ]

  any-keyed :
      (f g : TupleRecord C → Bool) (records : List (TupleRecord C))
      → All IsKeyed records
      → ((t : TupleRecord C) → IsKeyed t → f t ≡ g t)
      → any f records ≡ any g records
  any-keyed f g [] a e = refl
  any-keyed f g (t ∷ records) (k, a) e = rw (e t k, any-keyed f g records a e) refl

  module _ (t : TupleRecord C) (k : IsKeyed t) where
    key-user : (key_of t).user ≡ t.user
    unfolding as_tuple
    key-user = rw (ne_nil t.user k.has_user) refl

    match-wanted :
        (tk : TupleKey C)
        → ObjectShape tk.object
        → tk.user ≡ []
        → match_record t tk ≡ wanted tk (key_of t)
    unfolding as_tuple match_record full_key
    match-wanted tk o u = ground (
      arith,
      object-object o,
      Run-ne_nil plain o.id o.id-Run,
      object-ne [] refl o,
      (text_beq_iff tk.user []).1 u,
      beq_comm o.type_ t.object_type,
      beq_comm o.id t.object_id,
      object_beq (full_key k).object-shape o,
    )

    match-same_key :
        (tk : TupleKey C) (f : IsFullKey tk) → match_record t tk ≡ same_key tk (key_of t)
    unfolding as_tuple keyed full_key
    match-same_key tk f = ground (
      arith,
      match_record-keyed t tk f,
      object_beq (full_key k).object-shape f.object-shape,
      key-user,
    )

    type-key : get_type (key_of t).object ≡ t.object_type
    unfolding as_tuple full_key
    type-key = ap (λ p. p.0) (object-object (full_key k).object-shape)

    starts-key :
        (filter : StartingWithUserFilter)
        → (t.object_type == filter.object_type
            && t.relation == filter.relation
            && has_target t.user filter.user_filter)
          ≡ starts_with filter (key_of t)
    unfolding as_tuple
    starts-key filter = rw (type-key, key-user, targets-user_filters filter.user_filter) refl

  module _ {E : Type 0} (not_found : E) (numerals : Numerals)
      (sort_by_object_id : List (TupleRecord C) → List (TupleRecord C)) (s : TupleBackend C)
      (store : Text) where
    abbrev pub found : Option (Tuple C) → Answer E (TupleKey C)
    found none = failure not_found
    found (some t) = answer t.key

    -- the memory backend, for one store
    abbrev pub memory_reader : TupleReader E C
    memory_reader = record {
      read = λ tk. answer (map (λ t. t.key) (read empty_struct numerals s store tk));
      read_user_tuple = λ tk. found (read_user_tuple empty_struct s store tk);
      read_userset_tuples =
          λ filter. answer (map (λ t. t.key) (read_userset_tuples empty_struct s store filter));
      read_starting_with_user = λ filter sorted. answer (
          map (λ t. t.key)
            (read_starting_with_user_filter empty_struct sort_by_object_id s store filter));
    }

    keys-records :
        (records : List (TupleRecord C))
        → map (λ t. t.key) (map (as_tuple empty_struct) records) ≡ map key_of records
    keys-records [] = refl
    keys-records (t ∷ records) = ap (◌∷◌ (key_of t)) (keys-records records)

    all_slice : (records : List (TupleRecord C)) → (read_slice numerals records 0 0).0 ≡ records
    unfolding read_slice
    all_slice records = elim (Bool-cases (leb 0 (length records))) [
      | inl y ↦ rw y refl
      | inr n ↦ rw n refl
    ]

    given_matches :
        (tk : TupleKey C) (records : List (TupleRecord C))
        → ObjectShape tk.object
        → read_matches records tk ≡ select (λ t. match_record t tk) records
    given_matches tk records o = rw (object-ne [] refl o) refl

    memory-reads :
        (tk : TupleKey C)
        → All IsKeyed (tuples_of s store)
        → ObjectShape tk.object
        → tk.user ≡ []
        → memory_reader.read tk ≡ answer (select (wanted tk) (map key_of (tuples_of s store)))
    unfolding read
    memory-reads tk a o u =
        let records = tuples_of s store in
        ap answer (
          ap (λ ms. map (λ t. t.key) (map (as_tuple empty_struct) ms))
            (all_slice (read_matches records tk) ∙ given_matches tk records o)
          ∙ keys-records (select (λ t. match_record t tk) records)
          ∙ select-map (λ t. match_record t tk) (wanted tk) records a
              (λ t k. match-wanted t k tk o u))

    first-keyed :
        (tk : TupleKey C) (records : List (TupleRecord C))
        → All IsKeyed records
        → IsFullKey tk
        → found (first_match empty_struct records tk)
          ≡ first_or not_found (select (same_key tk) (map key_of records))
    unfolding first_match
    first-keyed tk [] a f = refl
    first-keyed tk (t ∷ records) (k, a) f = elim (Bool-cases (match_record t tk)) [
      | inl y ↦ rw (y, sym (match-same_key t k tk f) ∙ y) refl
      | inr n ↦ rw (n, sym (match-same_key t k tk f) ∙ n) (first-keyed tk records a f)
    ]

    memory-Starts :
        (filter : StartingWithUserFilter)
        → All IsKeyed (tuples_of s store)
        → ((p : TupleRecord C → Bool) (xs : List (TupleRecord C))
            → any p (sort_by_object_id xs) ≡ any p xs)
        → filter.object_ids ≡ none
        → Starts
            (memory_reader.read_starting_with_user filter false)
            filter
            (map key_of (tuples_of s store))
    memory-Starts filter a sorts i = (
      _,
      refl,
      λ p.
          let records = tuples_of s store in
          let q : TupleRecord C → Bool = λ t. p (key_of t) in
          ap (any p) (keys-records (sort_by_object_id (starting_matches filter records)))
          ∙ any-map p key_of (sort_by_object_id (starting_matches filter records))
          ∙ sorts q (starting_matches filter records)
          ∙ any-starting_matches q filter records
          ∙ rw i (
              any-keyed _ (λ t. q t && starts_with filter (key_of t)) records a
                (λ t k. ground (arith, starts-key t k filter)))
          ∙ sym (any-map (λ t. p t && starts_with filter t) key_of records),
    )

    -- A store of the memory backend whose records have all their parts answers like the list of its
    -- tuples, if sort.Slice keeps the elements.
    pub memory_reader-IsListReader :
        All IsKeyed (tuples_of s store)
        → ((p : TupleRecord C → Bool) (xs : List (TupleRecord C))
            → any p (sort_by_object_id xs) ≡ any p xs)
        → IsListReader not_found (map key_of (tuples_of s store)) memory_reader
    memory_reader-IsListReader a sorts = record {
      reads = λ tk o u. memory-reads tk a o u;
      reads_user = λ tk o r u.
          first-keyed tk (tuples_of s store) a
            (record { object-shape = o; has_relation = r; has_user = u });
      starts = λ filter i. memory-Starts filter a sorts i;
    }
