-- ===== src/Commands/Write/Store.antt =====
-- A write through the command, into the memory backend.
use mongopenfga.Prelude.{
  ℕ, ◌≡◌, refl, sym, ap, ◌∙◌, ◌≢◌, inl, inr, Bool-cases, Option-cases, true, not, ◌&&◌, ◌||◌,
  Option, none, some, List, [], ◌∷◌, Text, text_eq, text_beq, arith, if◌then◌else◌, All,
}
use mongopenfga.Tuple.{
  TupleKey, TupleKeyWithoutCondition, is_valid_object, is_valid_relation, is_valid_user,
}
use mongopenfga.Regex.{matches}
use mongopenfga.Tuple.Valid.{is_valid_object_iff}
use mongopenfga.Storage.GoMap.{GoMap}
use mongopenfga.Storage.Iterators.Defs.{Answer, answer, failure}
use mongopenfga.Condition.{EvaluableCondition, ParameterTypes}
use mongopenfga.Typesystem.Model.{AuthorizationModel, TypeSystem, new}
use mongopenfga.Validation.{
  Err, validate_user, validate_object, validate_relation, validate_user_object_relation,
  validate_tuple_for_read, validate_tuple_for_write, unless_err, wrapped, unless_none, wrapped-none,
}
use mongopenfga.Memory.State.{TupleBackend, Ulids, WriteError, tuples_of, find, write}
use mongopenfga.Memory.Match.{IsFullKey, IsFullDelete}
use mongopenfga.Memory.Write.{in_writes, in_deletes, write_sets, write_atomic}
use mongopenfga.Commands.Write.{
  CommandError, Failed, CommandEnv, unless_failed-none, validated, validate_write,
  validate_writes_of, validate_for_model, validate_if_any, validate_write_request, execute,
}

module _ {Ref VarType Value Param : Type 0} (types : ParameterTypes Ref VarType Value Param) where
  valid_user :
      (t : TypeSystem (EvaluableCondition Ref)) (user : Text)
      → validate_user types t user ≡ none
      → is_valid_user user ≡ true
  unfolding validate_user
  valid_user t user h = elim (Bool-cases (is_valid_user user)) [
    | inl e ↦ e
    | inr e ↦ absurd (ground (arith, h))
  ]

  valid_object :
      (t : TypeSystem (EvaluableCondition Ref)) (tk : TupleKey (GoMap Value))
      → validate_object types t tk ≡ none
      → is_valid_object tk.object ≡ true
  unfolding validate_object
  valid_object t tk h = elim (Bool-cases (is_valid_object tk.object)) [
    | inl e ↦ e
    | inr e ↦ absurd (ground (arith, h))
  ]

  valid_relation :
      (t : TypeSystem (EvaluableCondition Ref)) (tk : TupleKey (GoMap Value))
      → validate_relation types t tk ≡ none
      → is_valid_relation tk.relation ≡ true
  unfolding validate_relation
  valid_relation t tk h = elim (Bool-cases (is_valid_relation tk.relation)) [
    | inl e ↦ e
    | inr e ↦ absurd (ground (arith, h))
  ]

relation-nonempty : (r : Text) → is_valid_relation r ≡ true → r ≢ []
unfolding matches
relation-nonempty r h e = cc (sym h ∙ ap is_valid_relation e)

user-nonempty : (u : Text) → is_valid_user u ≡ true → u ≢ []
unfolding is_valid_user matches text_beq
user-nonempty u h e = cc (sym h ∙ ap is_valid_user e)

module _ {Ref VarType Value Param : Type 0} (types : ParameterTypes Ref VarType Value Param) where
  -- A tuple that is valid for writing has all its parts.
  valid-IsFullKey :
      (t : TypeSystem (EvaluableCondition Ref)) (tk : TupleKey (GoMap Value))
      → validate_tuple_for_write types t tk ≡ none
      → IsFullKey tk
  unfolding validate_tuple_for_write validate_user_object_relation
  valid-IsFullKey t tk h =
      let well_formed =
        wrapped-none (validate_user_object_relation types t tk)
          (unless_none (wrapped (validate_user_object_relation types t tk))
            (validate_tuple_for_read types t tk) h).0 in
      let u =
        unless_none (validate_user types t tk.user)
          (unless_err (validate_object types t tk) (unless_err (validate_relation types t tk) none))
          well_formed in
      let o =
        unless_none (validate_object types t tk) (unless_err (validate_relation types t tk) none)
          u.1 in
      let r = unless_none (validate_relation types t tk) none o.1 in
      record {
        object-shape = is_valid_object_iff tk.object (valid_object types t tk o.0);
        has_relation = relation-nonempty tk.relation (valid_relation types t tk r.0);
        has_user = user-nonempty tk.user (valid_user types t tk.user u.0);
      }

  module _ {Fault : Type 0} (env : CommandEnv Ref Value Fault) where
    validated-none : (e : Err) → validated types env e ≡ none → e ≡ none
    validated-none none h = refl
    validated-none (some e) h = absurd (ground (arith, h))

    writes-AllFull :
        (t : TypeSystem (EvaluableCondition Ref)) (writes : List (TupleKey (GoMap Value)))
        → validate_writes_of types env t writes ≡ none
        → All IsFullKey writes
    unfolding validate_writes_of validate_write
    writes-AllFull t [] h = tt
    writes-AllFull t (tk ∷ writes) h =
        let each =
          unless_failed-none (validate_write types env t tk) (validate_writes_of types env t writes)
            h in
        let valid =
          unless_failed-none (validated types env (validate_tuple_for_write types t tk)) _ each.0 in
        (
          valid-IsFullKey t tk (validated-none (validate_tuple_for_write types t tk) valid.0),
          writes-AllFull t writes each.1,
        )

    for_model-AllFull :
        (a : Answer Fault (Option (AuthorizationModel (EvaluableCondition Ref))))
        (writes : List (TupleKey (GoMap Value)))
        → validate_for_model types env a writes ≡ none
        → All IsFullKey writes
    unfolding validate_for_model
    for_model-AllFull (failure e) writes h = absurd (ground (arith, h))
    for_model-AllFull (answer none) writes h = absurd (ground (arith, h))
    for_model-AllFull (answer (some model)) writes h =
        writes-AllFull (new model) writes (ground (arith, h))

    if_any-AllFull :
        (store model_id : Text) (writes : List (TupleKey (GoMap Value)))
        → validate_if_any types env store model_id writes ≡ none
        → All IsFullKey writes
    unfolding validate_if_any
    if_any-AllFull store model_id [] h = tt
    if_any-AllFull store model_id (tk ∷ writes) h =
        for_model-AllFull (env.read_authorization_model store model_id) (tk ∷ writes) h

    request-AllFull :
        (store model_id : Text) (deletes : List TupleKeyWithoutCondition)
        (writes : List (TupleKey (GoMap Value)))
        → validate_write_request types env store model_id deletes writes ≡ none
        → All IsFullKey writes
    unfolding validate_write_request
    request-AllFull store model_id deletes writes h =
        elim (Option-cases (validate_if_any types env store model_id writes)) [
          | inl e ↦ if_any-AllFull store model_id writes e
          | inr (e, is_e) ↦ absurd (ground (arith, h, is_e))
        ]

  -- the command on the memory backend
  module _ (env : CommandEnv Ref Value (WriteError (GoMap Value))) (u : Ulids) (now : ℕ) where
    abbrev pub execute_in_memory :
        Text
        → Text
        → List TupleKeyWithoutCondition
        → List (TupleKey (GoMap Value))
        → TupleBackend (GoMap Value)
        → Failed (WriteError (GoMap Value)) × TupleBackend (GoMap Value)
    execute_in_memory store model_id deletes writes s =
        execute types env (write [] u now) store model_id deletes writes s

    -- If WriteCommand succeeds on the memory backend, where the tuples to delete have all their parts,
    -- then a tuple is in the store exactly if it was written, or it was there and was not deleted: that
    -- the written tuples have all their parts is what the validation has checked. Other stores keep
    -- their tuples.
    pub execute_sets :
        (store model_id : Text) (deletes : List TupleKeyWithoutCondition)
        (writes : List (TupleKey (GoMap Value))) (s : TupleBackend (GoMap Value))
        (k : TupleKey (GoMap Value)) (j : Text)
        → All IsFullDelete deletes
        → IsFullKey k
        → (execute_in_memory store model_id deletes writes s).0 ≡ none
        → find (tuples_of (execute_in_memory store model_id deletes writes s).1 j) k ≡ (
            if text_beq store j
            then in_writes writes k || (find (tuples_of s store) k && not (in_deletes deletes k))
            else find (tuples_of s j) k)
    unfolding execute
    execute_sets store model_id deletes writes s k j fd fk h =
        elim (Option-cases (validate_write_request types env store model_id deletes writes)) [
          | inl e ↦ ground (
            arith,
            h,
            e,
            write_sets [] u now store deletes writes s k j fd
                (request-AllFull env store model_id deletes writes e) fk,
          )
          | inr (e, is_e) ↦ absurd (ground (arith, h, is_e))
        ]

    -- If WriteCommand fails on the memory backend, for whatever reason, it changes nothing.
    pub execute_fails :
        (store model_id : Text) (deletes : List TupleKeyWithoutCondition)
        (writes : List (TupleKey (GoMap Value))) (s : TupleBackend (GoMap Value))
        (e : CommandError (WriteError (GoMap Value)))
        → (execute_in_memory store model_id deletes writes s).0 ≡ some e
        → (execute_in_memory store model_id deletes writes s).1 ≡ s
    unfolding execute
    execute_fails store model_id deletes writes s e h =
        ground (arith, h, (write_atomic [] u now store deletes writes s).1)
