-- ===== src/Commands/Write/Batch.antt =====
-- The check for duplicates and size, against a description of the batch.
use mongopenfga.Prelude.{
  ℕ, ◌+◌, ◌≡◌, refl, leb, Bool, true, false, not, ◌&&◌, none, some, List, [], ◌∷◌, ◌++◌, map, Text,
  text_eq, text_beq_iff, arith, is_key, length,
}
use mongopenfga.Tuple.{TupleKey, TupleKeyWithoutCondition, tuple_key_to_string}
use mongopenfga.Commands.Write.{
  Failed, delete_key, check_writes, check_deletes, validate_no_duplicates_and_correct_size,
}

abbrev pub are_distinct : List Text → Bool
are_distinct [] = true
are_distinct (k ∷ ks) = not (is_key k ks) && are_distinct ks

-- None of the keys was seen, and none occurs twice.
abbrev are_fresh : List Text → List Text → Bool
are_fresh [] seen = true
are_fresh (k ∷ ks) seen = not (is_key k seen) && are_fresh ks (k ∷ seen)

abbrev are_apart : List Text → List Text → Bool
are_apart [] seen = true
are_apart (k ∷ ks) seen = not (is_key k seen) && are_apart ks seen

apart-cons :
    (ks : List Text) (k : Text) (seen : List Text)
    → are_apart ks (k ∷ seen) ≡ (not (is_key k ks) && are_apart ks seen)
apart-cons [] k seen = refl
apart-cons (x ∷ ks) k seen =
    ground (arith, text_beq_iff x k, text_beq_iff k x, apart-cons ks k seen)

fresh-apart : (ks seen : List Text) → are_fresh ks seen ≡ (are_distinct ks && are_apart ks seen)
fresh-apart [] seen = refl
fresh-apart (k ∷ ks) seen = ground (arith, fresh-apart ks (k ∷ seen), apart-cons ks k seen)

apart-nil : (ks : List Text) → are_apart ks [] ≡ true
apart-nil [] = refl
apart-nil (k ∷ ks) = apart-nil ks

abbrev pub is_accepted : {Fault : Type 0} → Failed Fault → Bool
is_accepted none = true
is_accepted (some e) = false

abbrev pub batch_keys : {C : Type 0} → List TupleKeyWithoutCondition → List (TupleKey C) → List Text
batch_keys deletes writes = map delete_key deletes ++ map tuple_key_to_string writes

module _ {C : Type 0} (Fault : Type 0) where
  check_writes-fresh :
      (max : ℕ) (writes : List (TupleKey C)) (seen : List Text)
      → is_accepted (check_writes {Fault = Fault} max writes seen)
        ≡ (are_fresh (map tuple_key_to_string writes) seen && leb (length writes + length seen) max)
  unfolding check_writes
  check_writes-fresh max [] seen = ground arith
  check_writes-fresh max (tk ∷ writes) seen =
      ground (arith, check_writes-fresh max writes (tuple_key_to_string tk ∷ seen))

  check_deletes-fresh :
      (max : ℕ) (deletes : List TupleKeyWithoutCondition) (writes : List (TupleKey C))
      (seen : List Text)
      → is_accepted (check_deletes {Fault = Fault} max deletes writes seen) ≡ (
          are_fresh (batch_keys deletes writes) seen
          && leb (length deletes + length writes + length seen) max)
  unfolding check_deletes
  check_deletes-fresh max [] writes seen = ground (arith, check_writes-fresh max writes seen)
  check_deletes-fresh max (tk ∷ deletes) writes seen =
      ground (arith, check_deletes-fresh max deletes writes (delete_key tk ∷ seen))

  -- The check accepts a batch exactly if the texts `object#relation@user` of its deletes and writes
  -- are all different, and they are together no more than the limit.
  pub batch_bounds :
      (max : ℕ) (deletes : List TupleKeyWithoutCondition) (writes : List (TupleKey C))
      → is_accepted (validate_no_duplicates_and_correct_size {Fault = Fault} max deletes writes)
        ≡ (are_distinct (batch_keys deletes writes) && leb (length deletes + length writes) max)
  batch_bounds max deletes writes =
      let keys = batch_keys deletes writes in
      ground (arith, check_deletes-fresh max deletes writes [], fresh-apart keys [], apart-nil keys)
