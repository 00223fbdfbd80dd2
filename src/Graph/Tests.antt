-- ===== src/Graph/Tests.antt =====
-- A model with a difference over a userset, a check of it, and the reducers on concrete outcomes.
use mathlib.Core.List.{Permᴰ}
use mongopenfga.Prelude.{
  In, ◌≡◌, refl, true, false, ◌&&◌, ◌||◌, Option, none, some, List, [], ◌∷◌, map, Text, bytes, ◌==◌,
  text_eq, text_beq, text_beq_iff, Bool-cases, inl, inr, arith, if◌then◌else◌,
}
use mongopenfga.Strings.{index_byte, last_index_byte}
use mongopenfga.Tuple.{
  TupleKey, new_tuple_key, split_object, split_object_relation, tuple_key_to_string,
  is_self_defining,
}
use mongopenfga.Storage.Iterators.Defs.{Answer, answer, failure, drain_fuel, conditions_next}
use mongopenfga.Graph.Outcome.{
  CheckError, external, CheckOutcome, errored, allow, deny, deny_cycle, is_allowed, is_error,
  has_cycle_flag,
}
use mongopenfga.Graph.Reduce.{
  arrived, union_loop, union, intersection, exclusion_loop, exclusion, from, base, sub,
}
use mongopenfga.Graph.Decide.{union_decides, intersection_decides, exclusion_decides}
use mongopenfga.Typesystem.Rewrite.{
  Rewrite, this, computed_userset, difference, RelationError, relation_undefined,
}
use mongopenfga.Graph.Check.Env.{CheckEnv, Request, Schedule}
use mongopenfga.Graph.Check.Direct.{
  consume_loop, consume_dispatches, produce_userset_dispatches, user_tuple_outcome,
  check_direct_user_tuple, check_public_assignable, check_direct_userset_tuples, direct_outcomes,
  check_direct,
}
use mongopenfga.Graph.Check.Resolve.{check_rewrite, resolve_step, resolve_check}
use mongopenfga.Graph.Check.Complete.{resolve_check_complete}
use mongopenfga.Graph.Check.Member.{Member}
use mongopenfga.Graph.Check.Fuel.{resolve_from, resolve_check_terminates}
use mongopenfga.Graph.Check.Sound.Resolve.{Denial, resolve_check_sound}

abbrev Struct : Type 0
Struct = Unit {0}

abbrev eng_edits : TupleKey Struct
eng_edits = new_tuple_key (bytes "doc:1") (bytes "editor") (bytes "group:eng#member")

abbrev anne_in_eng : TupleKey Struct
anne_in_eng = new_tuple_key (bytes "group:eng") (bytes "member") (bytes "user:anne")

-- viewer is editor but not banned
abbrev relations : Text → Text → Answer RelationError Rewrite
relations t r =
    if t == bytes "doc" && r == bytes "viewer"
    then answer (difference (computed_userset (bytes "editor")) (computed_userset (bytes "banned")))
    else if t == bytes "doc" && (r == bytes "editor" || r == bytes "banned")
    then answer this
    else if t == bytes "group" && r == bytes "member"
    then answer this
    else failure relation_undefined

abbrev user_tuples : TupleKey Struct → Answer CheckError (Option (TupleKey Struct))
user_tuples key =
    if key.object == bytes "group:eng" && key.user == bytes "user:anne"
    then answer (some anne_in_eng)
    else answer none

abbrev userset_tuples : Text → Text → Answer CheckError (List (TupleKey Struct))
userset_tuples object relation =
    if relation == bytes "editor" then answer (eng_edits ∷ []) else answer []

abbrev docs : CheckEnv Struct
docs = record {
  get_relation = relations;
  path_exists = λ user relation object_type. answer true;
  is_directly_related = λ t r user_type user_relation. user_type == bytes "user";
  is_publicly_assignable = λ t r user_type. false;
  has_related_usersets = λ t r. r == bytes "editor";
  is_schema_version_supported = true;
  read_user_tuple = user_tuples;
  read_userset_tuples = userset_tuples;
  read_wildcards = λ o r t. answer [];
  read = λ o r. answer [];
  is_valid = λ t. true;
  condition_met = λ t. answer true;
  max_resolution_depth = 25;
}

abbrev in_order : Schedule Struct
in_order = record { arrive = λ req os. os; base_first = λ req. false }

in_order-fair : (os : List CheckOutcome) → Permᴰ os os
in_order-fair [] = Permᴰ.nil
in_order-fair (o ∷ os) = Permᴰ.cons refl (in_order-fair os)

abbrev views : Request Struct
views = record {
  tuple_key = new_tuple_key (bytes "doc:1") (bytes "viewer") (bytes "user:anne");
  depth = 0;
  visited_paths = [];
}

anne_views : is_allowed (resolve_check docs in_order 5 views) ≡ true
unfolding resolve_check resolve_step check_rewrite check_direct check_direct_userset_tuples
    check_public_assignable check_direct_user_tuple user_tuple_outcome produce_userset_dispatches
    consume_dispatches consume_loop direct_outcomes union union_loop exclusion exclusion_loop
    split_object split_object_relation tuple_key_to_string is_self_defining text_beq drain_fuel
    conditions_next index_byte last_index_byte
anne_views = refl

resolve_check_sound_example : Member docs (Denial docs in_order) views.tuple_key
resolve_check_sound_example =
    resolve_check_sound docs in_order (λ req os. in_order-fair os) 5 views anne_views

abbrev three : List CheckOutcome
three = errored (external 1) ∷ deny_cycle ∷ allow ∷ []

union_decides_example :
    (is_allowed (union (map arrived three)) ≡ true)
    × (is_error (union (map arrived three)) ≡ false)
    × (has_cycle_flag (union (map arrived three)) ≡ false)
union_decides_example = union_decides three refl

intersection_decides_example :
    (is_allowed (intersection (map arrived (errored (external 1) ∷ deny ∷ []))) ≡ false)
    × (is_error (intersection (map arrived (errored (external 1) ∷ deny ∷ []))) ≡ false)
intersection_decides_example = intersection_decides (errored (external 1)) (deny ∷ []) refl

exclusion_decides_example :
    (is_allowed (exclusion (from base allow ∷ from sub deny ∷ [])) ≡ true)
    × (is_allowed (exclusion (from sub deny ∷ from base allow ∷ [])) ≡ true)
    × (is_error (exclusion (from base allow ∷ from sub deny ∷ [])) ≡ false)
    × (is_error (exclusion (from sub deny ∷ from base allow ∷ []))
        ≡ is_error (exclusion (from base allow ∷ from sub deny ∷ [])))
exclusion_decides_example = exclusion_decides allow deny

abbrev names : List Text
names = bytes "viewer" ∷ bytes "editor" ∷ bytes "banned" ∷ bytes "member" ∷ []

names_cover : (t r : Text) (rewrite : Rewrite) → docs.get_relation t r ≡ answer rewrite → In r names
names_cover t r rewrite h = elim (Bool-cases (text_beq r (bytes "viewer"))) [
  | inl e ↦ inl ((text_beq_iff r (bytes "viewer")).0 e)
  | inr e ↦ elim (Bool-cases (text_beq r (bytes "editor"))) [
    | inl e' ↦ inr (inl ((text_beq_iff r (bytes "editor")).0 e'))
    | inr e' ↦ elim (Bool-cases (text_beq r (bytes "banned"))) [
      | inl e'' ↦ inr (inr (inl ((text_beq_iff r (bytes "banned")).0 e'')))
      | inr e'' ↦ elim (Bool-cases (text_beq r (bytes "member"))) [
        | inl e3 ↦ inr (inr (inr (inl ((text_beq_iff r (bytes "member")).0 e3))))
        | inr e3 ↦ absurd (ground arith)
      ]
    ]
  ]
]

resolve_check_terminates_example :
    resolve_check docs in_order 200 views ≡ resolve_from docs in_order (λ req. deny) 300 views
resolve_check_terminates_example =
    resolve_check_terminates docs in_order names names_cover 25 views refl 200 300 (omega arith)
      (omega arith) (λ req. deny)

-- the tuple of the request itself
abbrev is_member : Request Struct
is_member = record { tuple_key = anne_in_eng; depth = 0; visited_paths = [] }

resolve_check_complete_example : is_allowed (resolve_check docs in_order 1 is_member) ≡ true
unfolding split_object split_object_relation index_byte last_index_byte text_beq
resolve_check_complete_example =
    resolve_check_complete docs in_order (λ req os. in_order-fair os) 0 is_member this
      (record {
        stored = anne_in_eng;
        is_read = refl;
        is_valid = refl;
        is_met = refl;
        is_related = refl;
      })
      refl refl refl refl refl
