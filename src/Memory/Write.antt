-- ===== src/Memory/Write.antt =====
-- What Write does to the set of tuples.
use mongopenfga.Prelude.{
  ◌↔◌, ◌⊎◌, ℕ, ◌≡◌, refl, Bool, true, false, not, ◌&&◌, ◌||◌, none, List, [], ◌∷◌, ◌++◌, arith,
  Text, length, text_beq, text_beq_iff, All, inl, inr, Bool-cases, if◌then◌else◌, text_eq,
}
use mongopenfga.Tuple.{TupleKey, TupleKeyWithoutCondition, tuple_key_without_condition_to_tuple_key}
use mongopenfga.Storage.{TupleRecord}
use mongopenfga.Storage.GoMap.{lookup-insert}
use mongopenfga.Memory.State.{
  TupleBackend, TupleChangeRec, Ulids, tuples_of, changes_of, match_record, find, any_delete,
  validate_writes, validate_tuples, delete_loop, delete_change, new_record, write_change,
  write_loop, write,
}
use mongopenfga.Memory.Match.{IsFullKey, IsFullDelete, key_beq, match-new_record, match-delete}

module _ {C : Type 0} where
  pub find-append :
      (xs ys : List (TupleRecord C)) (k : TupleKey C) → find (xs ++ ys) k ≡ (find xs k || find ys k)
  unfolding find
  find-append [] ys k = refl
  find-append (x ∷ xs) ys k = ground (arith, find-append xs ys k)

  -- Is the key among those of a batch?
  pub in_writes : List (TupleKey C) → TupleKey C → Bool
  in_writes [] k = false
  in_writes (t ∷ writes) k =
      key_beq t.object t.relation t.user k.object k.relation k.user || in_writes writes k

  pub in_deletes : List TupleKeyWithoutCondition → TupleKey C → Bool
  in_deletes [] k = false
  in_deletes (d ∷ deletes) k =
      key_beq d.object d.relation d.user k.object k.relation k.user || in_deletes deletes k

  any_delete-in :
      (tr : TupleRecord C) (deletes : List TupleKeyWithoutCondition) (k : TupleKey C)
      → All IsFullDelete deletes
      → IsFullKey k
      → match_record tr k ≡ true
      → any_delete tr deletes ≡ in_deletes deletes k
  unfolding any_delete in_deletes
  any_delete-in tr [] k fd fk m = refl
  any_delete-in tr (d ∷ deletes) k fd fk m = ground (
    arith,
    match-delete tr (tuple_key_without_condition_to_tuple_key d) k fd.0 fk m,
    any_delete-in tr deletes k fd.1 fk m,
  )

  pub find-key_beq :
      (records : List (TupleRecord C)) (t k : TupleKey C)
      → key_beq t.object t.relation t.user k.object k.relation k.user ≡ true
      → find records t ≡ find records k
  unfolding find match_record key_beq
  find-key_beq [] t k h = refl
  find-key_beq (tr ∷ records) t k h = ground (
    arith,
    find-key_beq records t k h,
    text_beq_iff t.object k.object,
    text_beq_iff t.relation k.relation,
    text_beq_iff t.user k.user,
  )

module _ {C : Type 0} (empty_struct : C) (u : Ulids) (now : ℕ) where
  find-delete_loop :
      (deletes : List TupleKeyWithoutCondition) (tuples records : List (TupleRecord C))
      (changes : List (TupleChangeRec C)) (k : TupleKey C)
      → All IsFullDelete deletes
      → IsFullKey k
      → find (delete_loop empty_struct u now deletes tuples (records, changes)).0 k
        ≡ (find records k || (find tuples k && not (in_deletes deletes k)))
  unfolding delete_loop find
  find-delete_loop deletes [] records changes k fd fk = ground arith
  find-delete_loop deletes (tr ∷ rest) records changes k fd fk =
      elim (Bool-cases (any_delete tr deletes)) [
        | inl gone ↦
            rw (gone, delete_loop)
              (ground (
                arith,
                find-delete_loop deletes rest records
                    (changes ++ delete_change empty_struct u now tr (length changes) ∷ []) k fd fk,
                any_delete-in tr deletes k fd fk,
              ))
        | inr kept ↦
            rw (kept, delete_loop)
              (ground (
                arith,
                find-delete_loop deletes rest (records ++ tr ∷ []) changes k fd fk,
                find-append records (tr ∷ []) k,
                any_delete-in tr deletes k fd fk,
              ))
      ]

  find-write_loop :
      (store : Text) (writes : List (TupleKey C)) (records : List (TupleRecord C))
      (changes : List (TupleChangeRec C)) (k : TupleKey C)
      → All IsFullKey writes
      → IsFullKey k
      → find (write_loop empty_struct u now store writes (records, changes)).0 k
        ≡ (in_writes writes k || find records k)
  unfolding write_loop find in_writes
  find-write_loop store [] records changes k fw fk = refl
  find-write_loop store (t ∷ writes) records changes k fw fk = elim (Bool-cases (find records t)) [
    | inl there ↦
        rw (there, write_loop)
          (ground (
            arith,
            find-write_loop store writes records changes k fw.1 fk,
            find-key_beq records t k,
          ))
    | inr fresh ↦
        rw (fresh, write_loop)
          (ground (
            arith,
            find-write_loop store writes
                (records ++ new_record empty_struct u now store t (length changes) ∷ [])
                (changes ++ write_change empty_struct u now t (length changes) ∷ []) k fw.1 fk,
            find-append records (new_record empty_struct u now store t (length changes) ∷ []) k,
            match-new_record empty_struct u now store t k (length changes) fw.0 fk,
          ))
  ]

module _ {C : Type 0} where
  validate_writes-none :
      (records : List (TupleRecord C)) (writes : List (TupleKey C))
      → (validate_writes records writes ≡ none) ↔ All (λ t. find records t ≡ false) writes
  unfolding validate_writes
  validate_writes-none records [] = (λ _. tt, λ _. refl)
  validate_writes-none records (t ∷ writes) = ground (arith, validate_writes-none records writes)

  validate_tuples-none :
      (records : List (TupleRecord C)) (deletes : List TupleKeyWithoutCondition)
      (writes : List (TupleKey C))
      → (validate_tuples records deletes writes ≡ none) ↔ (
          All (λ d. find records (tuple_key_without_condition_to_tuple_key d) ≡ true) deletes
          × All (λ t. find records t ≡ false) writes)
  unfolding validate_tuples
  validate_tuples-none records [] writes = ground (arith, validate_writes-none records writes)
  validate_tuples-none records (d ∷ deletes) writes =
      ground (arith, validate_tuples-none records deletes writes)

module _ {C : Type 0} (empty_struct : C) (u : Ulids) (now : ℕ) where
  -- Write succeeds exactly when every tuple to delete is there and no tuple to write is, and
  -- otherwise it changes nothing.
  pub write_atomic :
      (store : Text) (deletes : List TupleKeyWithoutCondition) (writes : List (TupleKey C))
      (s : TupleBackend C)
      → ((write empty_struct u now store deletes writes s).0 ≡ none ↔ (
          All
            (λ d. find (tuples_of s store) (tuple_key_without_condition_to_tuple_key d) ≡ true)
            deletes
          × All (λ t. find (tuples_of s store) t ≡ false) writes))
        × (((write empty_struct u now store deletes writes s).0 ≡ none)
            ⊎ ((write empty_struct u now store deletes writes s).1 ≡ s))
  unfolding write
  write_atomic store deletes writes s =
      ground (arith, validate_tuples-none (tuples_of s store) deletes writes)

  -- The slices that a successful Write leaves.
  abbrev pub written :
      Text
      → List TupleKeyWithoutCondition
      → List (TupleKey C)
      → TupleBackend C
      → List (TupleRecord C) × List (TupleChangeRec C)
  written store deletes writes s =
      write_loop empty_struct u now store writes
        (delete_loop empty_struct u now deletes (tuples_of s store) ([], changes_of s store))

  pub write-written :
      (store : Text) (deletes : List TupleKeyWithoutCondition) (writes : List (TupleKey C))
      (s : TupleBackend C) (j : Text)
      → (write empty_struct u now store deletes writes s).0 ≡ none
      → (tuples_of (write empty_struct u now store deletes writes s).1 j
          ≡ (if text_beq store j then (written store deletes writes s).0 else tuples_of s j))
        × (changes_of (write empty_struct u now store deletes writes s).1 j
            ≡ (if text_beq store j then (written store deletes writes s).1 else changes_of s j))
  unfolding write
  write-written store deletes writes s j h =
      let kept =
        delete_loop empty_struct u now deletes (tuples_of s store) ([], changes_of s store) in
      let (records, changes) = write_loop empty_struct u now store writes kept in
      ground
        (arith, lookup-insert s.tuples store records j, lookup-insert s.changes store changes j)

  -- After a successful Write of tuples with all their parts, a tuple is in the store exactly if it
  -- was written, or it was there and was not deleted. Other stores keep their tuples and changes.
  pub write_sets :
      (store : Text) (deletes : List TupleKeyWithoutCondition) (writes : List (TupleKey C))
      (s : TupleBackend C) (k : TupleKey C) (j : Text)
      → All IsFullDelete deletes
      → All IsFullKey writes
      → IsFullKey k
      → (write empty_struct u now store deletes writes s).0 ≡ none
      → (find (tuples_of (write empty_struct u now store deletes writes s).1 j) k ≡ (
          if text_beq store j
          then in_writes writes k || (find (tuples_of s store) k && not (in_deletes deletes k))
          else find (tuples_of s j) k))
  unfolding find
  write_sets store deletes writes s k j fd fw fk h =
      let (kept, changes) =
        delete_loop empty_struct u now deletes (tuples_of s store) ([], changes_of s store) in
      ground (
        arith,
        write-written store deletes writes s j h,
        find-write_loop empty_struct u now store writes kept changes k fw fk,
        find-delete_loop empty_struct u now deletes (tuples_of s store) [] (changes_of s store) k fd
            fk,
      )
