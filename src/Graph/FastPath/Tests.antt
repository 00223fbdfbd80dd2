-- ===== src/Graph/FastPath/Tests.antt =====
-- Fast paths on a small model.
use mongopenfga.Prelude.{
  ℕ, ◌≡◌, refl, Bool, true, false, ◌&&◌, none, List, [], ◌∷◌, map, select, Text, bytes, inl, inr,
  Bool-cases, is_key, arith, text_eq, text_beq, text_beq_iff, text_lt, if◌then◌else◌, ◌==◌,
}
use mongopenfga.Strings.{index_byte}
use mongopenfga.Regex.{matches}
use mongopenfga.Tuple.{TupleKey, new_tuple_key, is_valid_object, split_object}
use mongopenfga.Storage.Iterators.Defs.{Answer, answer, failure}
use mongopenfga.Typesystem.Rewrite.{
  Rewrite, RelationError, this, computed_userset, union_of, difference, child, no_child,
  relation_undefined,
}
use mongopenfga.Graph.Outcome.{CheckError, external}
use mongopenfga.Graph.Check.Env.{CheckEnv}
use mongopenfga.Graph.FastPath.Stream.{Stream, Msg, iter, new_stream}
use mongopenfga.Graph.FastPath.Advance.{IsTidy}
use mongopenfga.Graph.FastPath.Good.{IsGood}
use mongopenfga.Graph.FastPath.Loops.{fast_path_union, fast_path_intersection}
use mongopenfga.Graph.FastPath.DifferenceLoop.{fast_path_difference}
use mongopenfga.Graph.FastPath.Union.{fast_path_union-Unites, Unites}
use mongopenfga.Graph.FastPath.Intersection.{fast_path_intersection-Intersects, Intersects}
use mongopenfga.Graph.FastPath.Difference.{fast_path_difference-Subtracts, Subtracts}
use mongopenfga.Graph.FastPath.Rewrite.{Reader, fast_path_computed}
use mongopenfga.Graph.FastPath.Direct.{starts_with, ReadsDirect}
use mongopenfga.Memory.Usersets.{any-select}
use mongopenfga.Graph.FastPath.Exact.{IsReadable}
use mongopenfga.Graph.FastPath.Yields.{Yields}
use mongopenfga.Graph.FastPath.Computed.{related, IsReadableIn, fast_path_computed-Yields}
use mongopenfga.Graph.FastPath.Consume.{resolve_fast_path, interleave, left_events, right_events}
use mongopenfga.Graph.FastPath.Common.{meets, resolve_fast_path-meets}

above : Text → List Text → Bool
above x [] = true
above x (y ∷ ys) = text_lt x y && above x ys

tidy : List Text → Bool
tidy [] = true
tidy (x ∷ xs) = above x xs && (is_valid_object x && tidy xs)

above-lt :
    (x : Text) (xs : List Text)
    → above x xs ≡ true
    → (y : Text) → is_key y xs ≡ true
    → text_lt x y ≡ true
unfolding above
above-lt x [] a y k = absurd (ground (arith, k))
above-lt x (z ∷ xs) a y k = elim (Bool-cases (text_beq y z)) [
  | inl e ↦ ground (arith, (text_beq_iff y z).0 e, a)
  | inr n ↦ above-lt x xs (ground (arith, a)) y (ground (arith, k, n))
]

tidy-IsTidy : (xs : List Text) → tidy xs ≡ true → IsTidy xs
unfolding tidy
tidy-IsTidy [] h = (tt, λ y k. absurd (ground (arith, k)))
tidy-IsTidy (x ∷ xs) h =
    let (a, v) = tidy-IsTidy xs (ground (arith, h)) in
    (
      (above-lt x xs (ground (arith, h)), a),
      λ y k. elim (Bool-cases (text_beq y x)) [
        | inl e ↦ ground (arith, (text_beq_iff y x).0 e, h)
        | inr n ↦ v y (ground (arith, k, n))
      ],
    )

abbrev d1 : Text
d1 = bytes "d:1"

abbrev d2 : Text
d2 = bytes "d:2"

abbrev d3 : Text
d3 = bytes "d:3"

abbrev message : List Text → Msg CheckError
message items = iter (record { items = items; end = none })

abbrev first_stream : Stream CheckError
first_stream = new_stream 0 (message (d1 ∷ []) ∷ message (d3 ∷ []) ∷ [])

abbrev second_stream : Stream CheckError
second_stream = new_stream 1 (message (d2 ∷ d3 ∷ []) ∷ [])

abbrev both : List (Stream CheckError)
both = first_stream ∷ second_stream ∷ []

first-IsTidy : IsTidy (d1 ∷ d3 ∷ [])
unfolding tidy above text_lt matches
first-IsTidy = tidy-IsTidy (d1 ∷ d3 ∷ []) refl

second-IsTidy : IsTidy (d2 ∷ d3 ∷ [])
unfolding tidy above text_lt matches
second-IsTidy = tidy-IsTidy (d2 ∷ d3 ∷ []) refl

first-IsGood : IsGood first_stream
first-IsGood = (tt, (refl, (refl, tt)), λ h. absurd (ground (arith, h)))

second-IsGood : IsGood second_stream
second-IsGood = (tt, (refl, tt), λ h. absurd (ground (arith, h)))

fast_path_union-Unites_example : Unites (external 0) (fast_path_union (external 0) 20) both
fast_path_union-Unites_example =
    fast_path_union-Unites (external 0) 20 both (first-IsGood, (second-IsGood, tt))
      (first-IsTidy, (second-IsTidy, tt)) (omega arith)

fast_path_intersection-Intersects_example :
    Intersects
      (external 0)
      (external 1)
      2
      (fast_path_intersection (external 0) (external 1) 2 20)
      both
fast_path_intersection-Intersects_example =
    fast_path_intersection-Intersects (external 0) (external 1) 2 20 both (omega arith) refl
      (first-IsGood, (second-IsGood, tt)) (first-IsTidy, (second-IsTidy, tt)) (omega arith)

fast_path_difference-Subtracts_example :
    Subtracts
      (λ batch.
        fast_path_difference (external 0) (external 1) 20 batch (first_stream ∷ second_stream ∷ []))
      first_stream
      second_stream
fast_path_difference-Subtracts_example =
    fast_path_difference-Subtracts (external 0) (external 1) 20 first_stream second_stream
      (first-IsGood, second-IsGood, first-IsTidy, second-IsTidy, refl, refl) (omega arith)

-- On the right arrive d:2 and d:3, on the left d:1 and then d:3.
resolve_fast_path-meets_example :
    resolve_fast_path (map answer (d2 ∷ d3 ∷ [])) (λ rights.
      interleave (true ∷ false ∷ []) (left_events (first_stream.source)) (right_events rights))
    ≡ (meets (d1 ∷ d3 ∷ []) (d2 ∷ d3 ∷ []), none)
resolve_fast_path-meets_example =
    resolve_fast_path-meets (first_stream.source) (d2 ∷ d3 ∷ []) (true ∷ false ∷ [])
      (refl, (refl, tt))

-- `define v: ([user] or w) but not w` and `define w: [user]`
abbrev relation_of_doc : Text → Text → Answer RelationError Rewrite
relation_of_doc object_type relation =
    if relation == bytes "v"
    then answer (
        difference (union_of (child this (child (computed_userset (bytes "w")) no_child)))
          (computed_userset (bytes "w")))
    else if relation == bytes "w"
    then answer this
    else failure relation_undefined

abbrev doc_env : CheckEnv ℕ
doc_env = record {
  get_relation = relation_of_doc;
  path_exists = λ user relation object_type. answer true;
  is_directly_related = λ object_type relation user_type user_relation. true;
  is_publicly_assignable = λ object_type relation user_type. false;
  has_related_usersets = λ object_type relation. false;
  is_schema_version_supported = true;
  read_user_tuple = λ key. answer none;
  read_userset_tuples = λ object relation. answer [];
  read_wildcards = λ object relation user_type. answer [];
  read = λ object relation. answer [];
  is_valid = λ key. true;
  condition_met = λ key. answer true;
  max_resolution_depth = 25;
}

abbrev key_of : Text → Text → TupleKey ℕ
key_of relation object = new_tuple_key object relation (bytes "u:a")

abbrev docs : List (TupleKey ℕ)
docs =
    key_of (bytes "v") d1
    ∷ key_of (bytes "w") d2
    ∷ key_of (bytes "v") d3
    ∷ key_of (bytes "w") d3
    ∷ []

abbrev doc_reader : Reader ℕ
doc_reader = record {
  read_starting_with_user =
      λ object_type relation users. answer (select (starts_with object_type relation users) docs);
  iterator_done = external 0;
  invalid_target = external 1;
}

v-ReadsDirect : ReadsDirect doc_env doc_reader docs (bytes "u:a") (bytes "d") (bytes "v")
unfolding text_beq index_byte split_object
v-ReadsDirect = record {
  tuples = _;
  is_read = refl;
  selects = λ p. any-select p (starts_with (bytes "d") (bytes "v") (bytes "u:a" ∷ [])) docs;
  evaluates = (refl, (refl, tt));
  ascending = first-IsTidy;
}

w-ReadsDirect : ReadsDirect doc_env doc_reader docs (bytes "u:a") (bytes "d") (bytes "w")
unfolding text_beq index_byte split_object
w-ReadsDirect = record {
  tuples = _;
  is_read = refl;
  selects = λ p. any-select p (starts_with (bytes "d") (bytes "w") (bytes "u:a" ∷ [])) docs;
  evaluates = (refl, (refl, tt));
  ascending = second-IsTidy;
}

doc-IsReadable : IsReadableIn doc_env doc_reader docs (bytes "u:a") (bytes "d") 2 (bytes "v")
unfolding IsReadableIn IsReadable text_beq
doc-IsReadable =
    let w : IsReadableIn doc_env doc_reader docs (bytes "u:a") (bytes "d") 1 (bytes "w") =
      (this, refl, w-ReadsDirect) in
    (
      difference (union_of (child this (child (computed_userset (bytes "w")) no_child)))
          (computed_userset (bytes "w")),
      refl,
      ((v-ReadsDirect, (w, tt)), w),
    )

fast_path_computed-Yields_example :
    Yields
      (fast_path_computed doc_env doc_reader (bytes "u:a") (bytes "d") 2 (bytes "v"))
      (related doc_env doc_reader docs (bytes "u:a") (bytes "d") 2 (bytes "v"))
fast_path_computed-Yields_example =
    fast_path_computed-Yields doc_env doc_reader docs (bytes "u:a") (bytes "d") 2 (bytes "v")
      doc-IsReadable
