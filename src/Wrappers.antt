-- ===== src/Wrappers.antt =====
-- pkg/storage/storagewrappers/combinedtuplereader.go: a reader over a datastore and the contextual
-- tuples of a request. The timestamps of tuples are left out.
pub mod Refines
pub mod Backend
mod Tests
use mongopenfga.Prelude.{
  ℕ, suc, ◌<◌, ◌≡◌, refl, ◌∙◌, sym, ap, Bool, true, false, not, ◌&&◌, ◌||◌, Option, none, some,
  List, [], ◌∷◌, ◌++◌, map, Text, is_key, select, length, length-append, arith, inl, inr,
  Bool-cases, text_eq, ◌==◌, if◌then◌else◌,
}
use mongopenfga.Tuple.{
  TupleKey, RelationshipCondition, UserType, user_set, new_tuple_key_with_condition,
  get_user_type_from_user, get_type, is_typed_wildcard, is_object_relation,
  to_object_relation_string,
}
use mongopenfga.Tuple as Tuple
use mongopenfga.Tuple.Order.{condition_name}
use mongopenfga.Storage.Iterators.Defs.{Answer, answer, failure, drain_fuel}
use mongopenfga.Storage.Iterators.Ordered.{
  combined_next, OrderedCombined, new_ordered_combined_iterator,
}
use mongopenfga.Storage.Iterators.Merge.{concat, drain-combined}
use mongopenfga.Typesystem.Rewrite.{
  RelationReference, RelationOrWildcard, wildcard_ref, relation_ref, neither,
}
use mongopenfga.Typesystem.Model.{and_then}
use mongopenfga.Memory.Starting.{ObjectRelation, StartingWithUserFilter}
use mongopenfga.Memory.Usersets.{UsersetFilter, is_user_set, any}

-- RelationshipTupleReader; the iterators that it returns do not fail
pub record TupleReader (E C : Type 0) : Type 0 where
  pub read : TupleKey C → Answer E (List (TupleKey C))
  pub read_user_tuple : TupleKey C → Answer E (TupleKey C)
  pub read_userset_tuples : UsersetFilter → Answer E (List (TupleKey C))
  pub read_starting_with_user : StartingWithUserFilter → Bool → Answer E (List (TupleKey C))

abbrev pub context_of : {C : Type 0} → Option (RelationshipCondition C) → Option C
context_of none = none
context_of (some c) = c.context

abbrev no_users : List Text → Bool
no_users [] = true
no_users (u ∷ users) = false

-- tupleMatchesAllowedUserTypeRestrictions, for one restriction
abbrev pub allows : Text → RelationReference → Bool
allows u allowed = elim allowed.relation_or_wildcard [
  | neither ↦ false
  | wildcard_ref ↦ is_typed_wildcard u && get_type u == allowed.type_
  | relation_ref r ↦
      is_object_relation u && get_type u == allowed.type_ && Tuple.get_relation u == r
]

-- the loop over filter.UserFilter
abbrev pub user_filters : List ObjectRelation → List Text
user_filters [] = []
user_filters (u ∷ us) =
    (if u.relation == [] then u.object else to_object_relation_string u.object u.relation)
    ∷ user_filters us

module _ {C : Type 0} where
  -- NewCombinedTupleReader; `sort_by_object` is slices.SortFunc by the objects
  abbrev pub new_combined_tuple_reader :
      C → (List (TupleKey C) → List (TupleKey C)) → List (TupleKey C) → List (TupleKey C)
  new_combined_tuple_reader empty_struct sort_by_object contextual =
      sort_by_object (map copied contextual)
    where
      copied : TupleKey C → TupleKey C
      copied t =
          new_tuple_key_with_condition empty_struct t.object t.relation t.user
            (condition_name t.condition) (context_of t.condition)

  -- the test of filterTuples
  abbrev pub passes_filter : Text → Text → List Text → TupleKey C → Bool
  passes_filter target_object target_relation target_users tk =
      (target_object == [] || tk.object == target_object)
      && (target_relation == [] || tk.relation == target_relation)
      && (no_users target_users || is_key tk.user target_users)

  unfoldable pub filter_tuples : List (TupleKey C) → Text → Text → List Text → List (TupleKey C)
  filter_tuples tuples target_object target_relation target_users =
      select (passes_filter target_object target_relation target_users) tuples

  unfoldable pub tuple_matches_allowed_user_type_restrictions :
      List RelationReference → TupleKey C → Bool
  tuple_matches_allowed_user_type_restrictions allowed t =
      is_user_set (get_user_type_from_user t.user) && any (allows t.user) allowed

  abbrev pub first_of_user : Text → List (TupleKey C) → Option (TupleKey C)
  first_of_user u [] = none
  first_of_user u (t ∷ ts) = let rest = first_of_user u ts in if t.user == u then some t else rest

-- the iterator that a read returns: a combinedIterator or an OrderedCombinedIterator
pub data CombinedIterator (C : Type 0) : Type 0 where
  combined : List (List (TupleKey C)) → CombinedIterator C
  ordered : OrderedCombined (TupleKey C) → CombinedIterator C

abbrev pub or_else : {E A : Type 0} → Option A → Answer E A → Answer E A
or_else (some a) rest = answer a
or_else none rest = rest

module _ {E C : Type 0} (ds : TupleReader E C) (contextual : List (TupleKey C)) where
  -- CombinedTupleReader.Read
  unfoldable pub combined_read : TupleKey C → Answer E (CombinedIterator C)
  unfolding filter_tuples
  combined_read tk =
      let filtered = filter_tuples contextual tk.object tk.relation [] in
      and_then (ds.read tk) (λ items. answer (combined (filtered ∷ items ∷ [])))

  -- CombinedTupleReader.ReadUserTuple
  unfoldable pub combined_read_user_tuple : TupleKey C → Answer E (TupleKey C)
  unfolding filter_tuples
  combined_read_user_tuple tk =
      or_else
        (first_of_user tk.user (filter_tuples contextual tk.object tk.relation (tk.user ∷ [])))
        (ds.read_user_tuple tk)

  -- CombinedTupleReader.ReadUsersetTuples
  unfoldable pub combined_read_userset_tuples : UsersetFilter → Answer E (CombinedIterator C)
  unfolding filter_tuples tuple_matches_allowed_user_type_restrictions
  combined_read_userset_tuples filter =
      let userset_tuples =
        select (tuple_matches_allowed_user_type_restrictions filter.allowed_user_type_restrictions)
          (filter_tuples contextual filter.object filter.relation []) in
      and_then (ds.read_userset_tuples filter)
        (λ items. answer (combined (userset_tuples ∷ items ∷ [])))

  -- CombinedTupleReader.ReadStartingWithUser
  unfoldable pub combined_read_starting_with_user :
      StartingWithUserFilter → Bool → Answer E (CombinedIterator C)
  unfolding filter_tuples
  combined_read_starting_with_user filter with_results_sorted_ascending =
      let filtered =
        select (λ t. get_type t.object == filter.object_type)
          (filter_tuples contextual [] filter.relation (user_filters filter.user_filter)) in
      and_then (ds.read_starting_with_user filter with_results_sorted_ascending) (λ items. answer (
        if with_results_sorted_ascending
        then ordered
            (new_ordered_combined_iterator (λ t. t.object) (some filtered ∷ some items ∷ []))
        else combined (filtered ∷ items ∷ [])))
