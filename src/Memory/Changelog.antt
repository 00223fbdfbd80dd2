-- ===== src/Memory/Changelog.antt =====
-- The changelog of a store, replayed, gives the set of its tuples.
use mathlib.Core.List.{append_assoc, append-nil}
use mongopenfga.Prelude.{
  ℕ, ◌≡◌, refl, Bool, true, false, ◌||◌, List, [], ◌∷◌, ◌++◌, arith, Text, length, All, ap, sym,
  ◌∙◌, subst, text_beq, text_beq_iff, inl, inr, Bool-cases, if◌then◌else◌, text_eq,
}
use mongopenfga.Tuple.{TupleKey, TupleKeyWithoutCondition, build_object}
use mongopenfga.Tuple.Users.{object-object}
use mongopenfga.Storage.{TupleRecord}
use mongopenfga.Storage.GoMap.{lookup}
use mongopenfga.Memory.State.{
  TupleOperation, write_op, delete_op, TupleBackend, TupleChangeRec, Ulids, tuples_of, changes_of,
  match_record, find, any_delete, delete_loop, delete_change, new_record, write_change, write_loop,
  write,
}
use mongopenfga.Memory.Match.{
  IsFullKey, key_beq, match-new_record, match-delete, ne_nil, keyed, match_record-keyed, beq_comm,
}
use mongopenfga.Memory.Write.{find-append, find-key_beq, write-written, write_atomic}
use mongopenfga.Memory.Invariant.{IsKeyed, IsWell, IsWell-drop, record_key, full_key, write-IsWell}

abbrev pub is_write : TupleOperation → Bool
is_write write_op = true
is_write delete_op = false

module _ {C : Type 0} where
  -- Is the tuple there after the changes, if `there` says whether it was before?
  pub replay : TupleKey C → List (TupleChangeRec C) → Bool → Bool
  replay k [] there = there
  replay k (c ∷ cs) there =
      let tk = c.tuple_key in
      replay k cs (
        if key_beq tk.object tk.relation tk.user k.object k.relation k.user
        then is_write c.operation
        else there)

  replay-concat :
      (k : TupleKey C) (cs : List (TupleChangeRec C)) (c : TupleChangeRec C) (there : Bool)
      → replay k (cs ++ c ∷ []) there ≡ (
          if key_beq c.tuple_key.object c.tuple_key.relation c.tuple_key.user k.object k.relation
            k.user
          then is_write c.operation
          else replay k cs there)
  unfolding replay
  replay-concat k [] c there = refl
  replay-concat k (d ∷ cs) c there = replay-concat k cs c _

  match-own : (tr : TupleRecord C) → IsKeyed tr → match_record tr (record_key tr) ≡ true
  unfolding keyed full_key
  match-own tr h = ground (
    arith,
    match_record-keyed tr (record_key tr) (full_key h),
    text_beq_iff tr.object_type tr.object_type,
    text_beq_iff tr.object_id tr.object_id,
    text_beq_iff tr.relation tr.relation,
    text_beq_iff tr.user tr.user,
  )

  -- A record matches exactly the tuples of its key.
  pub match-key :
      (tr : TupleRecord C) (k : TupleKey C)
      → IsKeyed tr
      → IsFullKey k
      → match_record tr k
        ≡ key_beq (record_key tr).object tr.relation tr.user k.object k.relation k.user
  unfolding key_beq
  match-key tr k h f = ground (
    arith,
    match-delete tr k (record_key tr) f (full_key h) (match-own tr h),
    beq_comm (record_key tr).object k.object,
    beq_comm tr.relation k.relation,
    beq_comm tr.user k.user,
  )

  -- The find of a list with a record in the middle.
  find-middle :
      (xs : List (TupleRecord C)) (t : TupleRecord C) (ys : List (TupleRecord C)) (k : TupleKey C)
      → find (xs ++ t ∷ ys) k ≡ (match_record t k || find (xs ++ ys) k)
  unfolding find
  find-middle xs t ys k = ground (arith, find-append xs (t ∷ ys) k, find-append xs ys k)

module _ {C : Type 0} (empty_struct : C) (u : Ulids) (now : ℕ) where
  delete_change-key :
      (tr : TupleRecord C) (n : ℕ)
      → IsKeyed tr
      → (delete_change empty_struct u now tr n).tuple_key ≡ record_key tr
  unfolding delete_change
  delete_change-key tr n h = ground (arith, ne_nil tr.user h.has_user)

  is_write-write_change :
      (t : TupleKey C) (n : ℕ) → is_write (write_change empty_struct u now t n).operation ≡ true
  unfolding write_change
  is_write-write_change t n = refl

  write_change-key :
      (t : TupleKey C) (n : ℕ)
      → IsFullKey t
      → ((write_change empty_struct u now t n).tuple_key.object ≡ t.object)
        × ((write_change empty_struct u now t n).tuple_key.relation ≡ t.relation)
        × ((write_change empty_struct u now t n).tuple_key.user ≡ t.user)
  unfolding write_change
  write_change-key t n f =
      let o = f.object-shape in
      (ap (λ p. build_object p.0 p.1) (object-object o) ∙ sym o.shape, refl, refl)

  -- the record that is taken out, and its change
  delete-step :
      (deletes : List TupleKeyWithoutCondition) (tr : TupleRecord C)
      (rest records : List (TupleRecord C)) (changes : List (TupleChangeRec C)) (k : TupleKey C)
      → IsWell (records ++ tr ∷ rest)
      → IsFullKey k
      → replay k changes false ≡ find (records ++ tr ∷ rest) k
      → replay k (changes ++ delete_change empty_struct u now tr (length changes) ∷ []) false
        ≡ find (records ++ rest) k
  delete-step deletes tr rest records changes k w f h =
      let (own, alone, _) = IsWell-drop records tr rest w in
      let c = delete_change empty_struct u now tr (length changes) in
      unfold delete_change in
      ground (
        arith,
        replay-concat k changes c false,
        delete_change-key tr (length changes) own,
        find-middle records tr rest k,
        match-key tr k own f,
        find-key_beq (records ++ rest) (record_key tr) k,
        alone,
        h,
      )

  replay-delete_loop :
      (deletes : List TupleKeyWithoutCondition) (tuples records : List (TupleRecord C))
      (changes : List (TupleChangeRec C)) (k : TupleKey C)
      → IsWell (records ++ tuples)
      → IsFullKey k
      → replay k changes false ≡ find (records ++ tuples) k
      → replay k (delete_loop empty_struct u now deletes tuples (records, changes)).1 false
        ≡ find (delete_loop empty_struct u now deletes tuples (records, changes)).0 k
  unfolding delete_loop
  replay-delete_loop deletes [] records changes k w f h =
      h ∙ ap (λ l. find l k) (append-nil records)
  replay-delete_loop deletes (tr ∷ rest) records changes k w f h =
      elim (Bool-cases (any_delete tr deletes)) [
        | inl gone ↦
            rw (gone, delete_loop)
              (replay-delete_loop deletes rest records _ k (IsWell-drop records tr rest w).2 f
                (delete-step deletes tr rest records changes k w f h))
        | inr kept ↦
            rw (kept, delete_loop)
              (replay-delete_loop deletes rest (records ++ tr ∷ []) changes k
                (subst IsWell (sym (append_assoc records (tr ∷ []) rest)) w) f
                (h ∙ ap (λ l. find l k) (sym (append_assoc records (tr ∷ []) rest))))
      ]

  -- the record that is added, and its change
  write-step :
      (store : Text) (t : TupleKey C) (records : List (TupleRecord C))
      (changes : List (TupleChangeRec C)) (k : TupleKey C)
      → IsFullKey t
      → IsFullKey k
      → replay k changes false ≡ find records k
      → replay k (changes ++ write_change empty_struct u now t (length changes) ∷ []) false
        ≡ find (records ++ new_record empty_struct u now store t (length changes) ∷ []) k
  unfolding find
  write-step store t records changes k f fk h =
      let n = length changes in
      let c = write_change empty_struct u now t n in
      let (o, r, us) = write_change-key t n f in
      ground (
        arith,
        replay-concat k changes c false,
        find-append records (new_record empty_struct u now store t n ∷ []) k,
        match-new_record empty_struct u now store t k n f fk,
        is_write-write_change t n,
        o,
        r,
        us,
        h,
      )

  replay-write_loop :
      (store : Text) (writes : List (TupleKey C)) (records : List (TupleRecord C))
      (changes : List (TupleChangeRec C)) (k : TupleKey C)
      → All IsFullKey writes
      → IsFullKey k
      → replay k changes false ≡ find records k
      → replay k (write_loop empty_struct u now store writes (records, changes)).1 false
        ≡ find (write_loop empty_struct u now store writes (records, changes)).0 k
  unfolding write_loop
  replay-write_loop store [] records changes k f fk h = h
  replay-write_loop store (t ∷ writes) records changes k f fk h =
      elim (Bool-cases (find records t)) [
        | inl there ↦
            rw (there, write_loop) (replay-write_loop store writes records changes k f.1 fk h)
        | inr fresh ↦
            rw (fresh, write_loop)
              (replay-write_loop store writes
                (records ++ new_record empty_struct u now store t (length changes) ∷ []) _ k f.1 fk
                (write-step store t records changes k f.0 fk h))
      ]

  -- If the changelog of every store replays to its tuples, it does so after any Write of tuples
  -- with all their parts, successful or not, from a state with no duplicate records.
  pub replay-write :
      (store : Text) (deletes : List TupleKeyWithoutCondition) (writes : List (TupleKey C))
      (s : TupleBackend C)
      → All IsFullKey writes
      → ((j : Text) → IsWell (tuples_of s j))
      → ((j : Text) (k : TupleKey C)
          → IsFullKey k
          → replay k (changes_of s j) false ≡ find (tuples_of s j) k)
      → (j : Text) (k : TupleKey C) → IsFullKey k
      → replay k (changes_of (write empty_struct u now store deletes writes s).1 j) false
        ≡ find (tuples_of (write empty_struct u now store deletes writes s).1 j) k
  replay-write store deletes writes s f w h j k fk =
      elim (write_atomic empty_struct u now store deletes writes s).1 [
        | inl ok ↦
            let (e, e') = write-written empty_struct u now store deletes writes s j ok in
            elim (Bool-cases (text_beq store j)) [
              | inl same ↦
                  rw (e, e', same)
                    (replay-write_loop store writes _ _ k f fk (
                      replay-delete_loop deletes (tuples_of s store) [] (changes_of s store) k
                        (w store) fk (h store k fk)))
              | inr other ↦ rw (e, e', other) (h j k fk)
            ]
        | inr unchanged ↦ rw unchanged (h j k fk)
      ]

-- One call of Write.
pub record Batch (C : Type 0) : Type 0 where
  pub now : ℕ
  pub store : Text
  pub deletes : List TupleKeyWithoutCondition
  pub writes : List (TupleKey C)

abbrev pub empty_backend : {C : Type 0} → TupleBackend C
empty_backend = record { tuples = []; changes = [] }

module _ {C : Type 0} (empty_struct : C) (u : Ulids) where
  -- The calls of Write in their order; an error ends only its own call.
  pub run_writes : List (Batch C) → TupleBackend C → TupleBackend C
  run_writes [] s = s
  run_writes (b ∷ bs) s = run_writes bs (write empty_struct u b.now b.store b.deletes b.writes s).1

  run_writes-keeps :
      (bs : List (Batch C)) (s : TupleBackend C)
      → All (λ b. All IsFullKey b.writes) bs
      → ((j : Text) → IsWell (tuples_of s j))
      → ((j : Text) (k : TupleKey C)
          → IsFullKey k
          → replay k (changes_of s j) false ≡ find (tuples_of s j) k)
      → (j : Text)
      → IsWell (tuples_of (run_writes bs s) j)
        × ((k : TupleKey C)
            → IsFullKey k
            → replay k (changes_of (run_writes bs s) j) false
              ≡ find (tuples_of (run_writes bs s) j) k)
  unfolding run_writes
  run_writes-keeps [] s f w h j = (w j, h j)
  run_writes-keeps (b ∷ bs) s f w h j =
      run_writes-keeps bs _ f.1
        (write-IsWell empty_struct u b.now b.store b.deletes b.writes s f.0 w)
        (replay-write empty_struct u b.now b.store b.deletes b.writes s f.0 w h) j

  empty-IsWell : (j : Text) → IsWell (tuples_of (empty_backend {C = C}) j)
  unfolding lookup
  empty-IsWell j = record { keys = tt; unique = tt }

  empty-replay :
      (j : Text) (k : TupleKey C)
      → replay k (changes_of (empty_backend {C = C}) j) false
        ≡ find (tuples_of (empty_backend {C = C}) j) k
  unfolding lookup replay find
  empty-replay j k = refl

  -- After any calls of Write on an empty backend, whose tuples to write have all their parts, no two
  -- records of a store have the same key.
  pub run_writes-IsWell :
      (bs : List (Batch C))
      → All (λ b. All IsFullKey b.writes) bs
      → (j : Text) → IsWell (tuples_of (run_writes bs empty_backend) j)
  run_writes-IsWell bs f j =
      (run_writes-keeps bs empty_backend f empty-IsWell (λ i k _. empty-replay i k) j).0

  -- After such calls a tuple with all its parts is in a store exactly if the last change of it in
  -- the store's changelog is a write.
  pub replay-run_writes :
      (bs : List (Batch C))
      → All (λ b. All IsFullKey b.writes) bs
      → (j : Text) (k : TupleKey C) → IsFullKey k
      → replay k (changes_of (run_writes bs empty_backend) j) false
        ≡ find (tuples_of (run_writes bs empty_backend) j) k
  replay-run_writes bs f j k fk =
      (run_writes-keeps bs empty_backend f empty-IsWell (λ i k' _. empty-replay i k') j).1 k fk
