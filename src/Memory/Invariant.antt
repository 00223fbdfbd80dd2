-- ===== src/Memory/Invariant.antt =====
-- No two records of a store have the same key, and Write keeps it so.
use mathlib.Core.List.{append_assoc, append-nil}
use mongopenfga.Prelude.{
  ℕ, ◌≡◌, refl, ◌≢◌, false, List, [], ◌∷◌, ◌++◌, arith, Text, length, All, All-append, ap, sym, ◌∙◌,
  subst, text_beq, inl, inr, Bool-cases, text_eq,
}
use mongopenfga.Regex.{Run}
use mongopenfga.Tuple.{TupleKey, TupleKeyWithoutCondition, plain, build_object, new_tuple_key}
use mongopenfga.Tuple.Users.{object-object}
use mongopenfga.Storage.{TupleRecord}
use mongopenfga.Memory.State.{
  TupleBackend, TupleChangeRec, Ulids, tuples_of, changes_of, match_record, find, any_delete,
  delete_loop, new_record, write_loop, write,
}
use mongopenfga.Memory.Match.{IsFullKey, keyed, match_record-keyed, beq_comm}
use mongopenfga.Memory.Write.{find-append, write-written, write_atomic}

-- A record with a type, an id, a relation and a user.
pub record IsKeyed {C : Type 0} (tr : TupleRecord C) : Type 0 where
  pub type-Run : Run plain tr.object_type
  pub id-Run : Run plain tr.object_id
  pub has_relation : tr.relation ≢ []
  pub has_user : tr.user ≢ []

abbrev pub record_key : {C : Type 0} → TupleRecord C → TupleKey C
record_key tr = new_tuple_key (build_object tr.object_type tr.object_id) tr.relation tr.user

module _ {C : Type 0} where
  unfoldable pub full_key : {tr : TupleRecord C} → IsKeyed tr → IsFullKey (record_key tr)
  full_key {tr} h = record {
    object-shape = record {
      type_ = tr.object_type;
      id = tr.object_id;
      type-Run = h.type-Run;
      id-Run = h.id-Run;
      shape = refl;
    };
    has_relation = h.has_relation;
    has_user = h.has_user;
  }

  pub match-sym :
      {x y : TupleRecord C}
      → IsKeyed x
      → IsKeyed y
      → match_record x (record_key y) ≡ match_record y (record_key x)
  unfolding keyed full_key
  match-sym {x} {y} hx hy = ground (
    arith,
    match_record-keyed x (record_key y) (full_key hy),
    match_record-keyed y (record_key x) (full_key hx),
    beq_comm x.object_type y.object_type,
    beq_comm x.object_id y.object_id,
    beq_comm x.relation y.relation,
    beq_comm x.user y.user,
  )

  abbrev pub Unique : List (TupleRecord C) → Type 0
  Unique [] = Unit
  Unique (x ∷ xs) = (find xs (record_key x) ≡ false) × Unique xs

  -- Every record has its parts, and no two have the same key.
  pub record IsWell (records : List (TupleRecord C)) : Type 0 where
    pub keys : All IsKeyed records
    pub unique : Unique records

  -- `find` reads the object, the relation and the user only.
  pub find-parts :
      (xs : List (TupleRecord C)) (t : TupleKey C)
      → find xs t ≡ find xs (new_tuple_key t.object t.relation t.user)
  unfolding find match_record
  find-parts [] t = refl
  find-parts (x ∷ xs) t = ground (arith, find-parts xs t)

  All-drop :
      (xs : List (TupleRecord C)) (t : TupleRecord C) (ys : List (TupleRecord C))
      → All IsKeyed (xs ++ t ∷ ys)
      → IsKeyed t × All IsKeyed (xs ++ ys)
  All-drop [] t ys h = h
  All-drop (x ∷ xs) t ys h = let (a, b) = All-drop xs t ys h.1 in (a, (h.0, b))

  -- A record in the middle has a key of its own, and can be taken out.
  Unique-drop :
      (xs : List (TupleRecord C)) (t : TupleRecord C) (ys : List (TupleRecord C))
      → All IsKeyed (xs ++ t ∷ ys)
      → Unique (xs ++ t ∷ ys)
      → (find (xs ++ ys) (record_key t) ≡ false) × Unique (xs ++ ys)
  unfolding find
  Unique-drop [] t ys a h = h
  Unique-drop (x ∷ xs) t ys a h =
      let (p, q) = Unique-drop xs t ys a.1 h.1 in
      let k = All-drop xs t ys a.1 in
      ground (
        arith,
        find-append xs (t ∷ ys) (record_key x),
        find-append xs ys (record_key x),
        match-sym a.0 k.0,
        p,
        q,
      )

  pub IsWell-drop :
      (xs : List (TupleRecord C)) (t : TupleRecord C) (ys : List (TupleRecord C))
      → IsWell (xs ++ t ∷ ys)
      → IsKeyed t × (find (xs ++ ys) (record_key t) ≡ false) × IsWell (xs ++ ys)
  IsWell-drop xs t ys h =
      let (a, b) = All-drop xs t ys h.keys in
      let (p, q) = Unique-drop xs t ys h.keys h.unique in (a, p, record { keys = b; unique = q })

  Unique-concat :
      (xs : List (TupleRecord C)) (t : TupleRecord C)
      → All IsKeyed xs
      → IsKeyed t
      → Unique xs
      → find xs (record_key t) ≡ false
      → Unique (xs ++ t ∷ [])
  unfolding find
  Unique-concat [] t a k h f = (refl, tt)
  Unique-concat (x ∷ xs) t a k h f = (
    ground (arith, find-append xs (t ∷ []) (record_key x), match-sym a.0 k),
    Unique-concat xs t a.1 k h.1 (ground arith),
  )

  pub IsWell-concat :
      (xs : List (TupleRecord C)) (t : TupleRecord C)
      → IsWell xs
      → IsKeyed t
      → find xs (record_key t) ≡ false
      → IsWell (xs ++ t ∷ [])
  IsWell-concat xs t h k f = record {
    keys = All-append IsKeyed xs (t ∷ []) h.keys (k, tt);
    unique = Unique-concat xs t h.keys k h.unique f;
  }

module _ {C : Type 0} (empty_struct : C) (u : Ulids) (now : ℕ) where
  pub IsKeyed-new_record :
      (store : Text) (t : TupleKey C) (n : ℕ)
      → IsFullKey t
      → IsKeyed (new_record empty_struct u now store t n)
        × (record_key (new_record empty_struct u now store t n)
            ≡ new_tuple_key t.object t.relation t.user)
  unfolding new_record
  IsKeyed-new_record store t n f =
      let o = f.object-shape in
      let e = object-object o in
      (
        record {
          type-Run = subst (λ p. Run plain p.0) (sym e) o.type-Run;
          id-Run = subst (λ p. Run plain p.1) (sym e) o.id-Run;
          has_relation = f.has_relation;
          has_user = f.has_user;
        },
        ap (λ x. new_tuple_key x t.relation t.user)
            (ap (λ p. build_object p.0 p.1) e ∙ sym o.shape),
      )

  pub delete_loop-IsWell :
      (deletes : List TupleKeyWithoutCondition) (tuples records : List (TupleRecord C))
      (changes : List (TupleChangeRec C))
      → IsWell (records ++ tuples)
      → IsWell (delete_loop empty_struct u now deletes tuples (records, changes)).0
  unfolding delete_loop
  delete_loop-IsWell deletes [] records changes h = subst IsWell (append-nil records) h
  delete_loop-IsWell deletes (tr ∷ rest) records changes h =
      elim (Bool-cases (any_delete tr deletes)) [
        | inl gone ↦
            rw (gone, delete_loop)
              (delete_loop-IsWell deletes rest records _ (IsWell-drop records tr rest h).2)
        | inr kept ↦
            rw (kept, delete_loop)
              (delete_loop-IsWell deletes rest (records ++ tr ∷ []) changes
                (subst IsWell (sym (append_assoc records (tr ∷ []) rest)) h))
      ]

  write_loop-IsWell :
      (store : Text) (writes : List (TupleKey C)) (records : List (TupleRecord C))
      (changes : List (TupleChangeRec C))
      → All IsFullKey writes
      → IsWell records
      → IsWell (write_loop empty_struct u now store writes (records, changes)).0
  unfolding write_loop
  write_loop-IsWell store [] records changes f h = h
  write_loop-IsWell store (t ∷ writes) records changes f h = elim (Bool-cases (find records t)) [
    | inl there ↦ rw (there, write_loop) (write_loop-IsWell store writes records changes f.1 h)
    | inr fresh ↦
        let (k, e) = IsKeyed-new_record store t (length changes) f.0 in
        rw (fresh, write_loop)
          (write_loop-IsWell store writes
            (records ++ new_record empty_struct u now store t (length changes) ∷ []) _ f.1
            (IsWell-concat records _ h k
              (ap (find records) e ∙ sym (find-parts records t) ∙ fresh)))
  ]

  -- Write, successful or not, keeps the records of every store with their parts and with keys of
  -- their own, if the tuples to write have all their parts. The tuples to delete may be any.
  pub write-IsWell :
      (store : Text) (deletes : List TupleKeyWithoutCondition) (writes : List (TupleKey C))
      (s : TupleBackend C)
      → All IsFullKey writes
      → ((j : Text) → IsWell (tuples_of s j))
      → (j : Text) → IsWell (tuples_of (write empty_struct u now store deletes writes s).1 j)
  write-IsWell store deletes writes s f h j =
      elim (write_atomic empty_struct u now store deletes writes s).1 [
        | inl ok ↦
            let e = (write-written empty_struct u now store deletes writes s j ok).0 in
            elim (Bool-cases (text_beq store j)) [
              | inl same ↦
                  rw (e, same)
                    (write_loop-IsWell store writes _ _ f (
                      delete_loop-IsWell deletes (tuples_of s store) [] (changes_of s store)
                        (h store)))
              | inr other ↦ rw (e, other) (h j)
            ]
        | inr unchanged ↦ rw unchanged (h j)
      ]
