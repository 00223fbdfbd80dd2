-- ===== src/Graph/FastPath/Rewrite.antt =====
-- internal/graph/check_fast_path.go: fastPathRewrite, which yields the objects of a type that a
-- rewrite relates to the user. What is sent to a channel is the list of the messages.
use mongopenfga.Prelude.{
  ℕ, zero, suc, Bool, Option, none, some, List, [], ◌∷◌, map, Text, if◌then◌else◌, length, not,
  ◌||◌, ◌==◌, text_eq,
}
use mongopenfga.Tuple.{TupleKey, get_type, typed_public_wildcard}
use mongopenfga.Storage.Iterators.Defs.{Answer, answer, failure}
use mongopenfga.Typesystem.Rewrite.{
  Rewrite, Rewrites, this, unset, computed_userset, tuple_to_userset, union_of, intersection_of,
  difference, no_child, child, RelationError,
}
use mongopenfga.Typesystem.Model.{and_then}
use mongopenfga.Graph.Outcome.{CheckError, unknown_set_operator, undefined_relation, out_of_fuel}
use mongopenfga.Graph.Check.Env.{CheckEnv}
use mongopenfga.Graph.Check.Direct.{filtered_items, is_cancelled}
use mongopenfga.Graph.FastPath.Stream.{Iter, Msg, iter, Stream, new_stream}
use mongopenfga.Graph.FastPath.Merge.{Sent}
use mongopenfga.Graph.FastPath.Loops.{fast_path_union, fast_path_intersection}
use mongopenfga.Graph.FastPath.DifferenceLoop.{fast_path_difference}
use mongopenfga.Graph.FastPath.Good.{weights}

-- userFilter
abbrev pub user_filter : Bool → Text → Text → List Text
user_filter has_publicly_assigned_type user user_type =
    if not has_publicly_assigned_type || user == typed_public_wildcard user_type
    then user ∷ []
    else user ∷ typed_public_wildcard user_type ∷ []

-- what a fast path needs besides the check: ReadStartingWithUser of the datastore, sorted by object,
-- for an object type, a relation and users, and two errors: ErrIteratorDone, and that of a target
-- that is no object
pub record Reader (C : Type 0) : Type 0 where
  pub read_starting_with_user : Text → Text → List Text → Answer CheckError (List (TupleKey C))
  pub iterator_done : CheckError
  pub invalid_target : CheckError

abbrev pub Channel : Type 0
Channel = Answer CheckError (List (Msg CheckError))

abbrev pub ended : Option CheckError → Option CheckError
ended none = none
ended (some e) = if is_cancelled e then none else some e

-- the object mapper over the filtered iterator
abbrev pub object_ids : {C : Type 0} → List (TupleKey C) × Option CheckError → Iter CheckError
object_ids (ts, end) = record { items = map (λ t. t.object) ts; end = ended end }

-- the streams of fastPathOperationSetup
abbrev pub streams_from : ℕ → List (List (Msg CheckError)) → List (Stream CheckError)
streams_from idx [] = []
streams_from idx (c ∷ chans) = new_stream idx c ∷ streams_from (suc idx) chans

abbrev pub sent : Sent CheckError → Channel
sent none = failure out_of_fuel
sent (some ms) = answer ms

module _ {C : Type 0} (reader : Reader C) where
  -- The set handlers, with as much fuel as they need.
  unfoldable pub union_handler : List (Stream CheckError) → Channel
  unfolding fast_path_union
  union_handler streams = sent (fast_path_union reader.iterator_done (weights streams) [] streams)

  unfoldable pub intersection_handler : List (Stream CheckError) → Channel
  unfolding fast_path_intersection
  intersection_handler streams = sent (
      fast_path_intersection reader.iterator_done reader.invalid_target (length streams)
        (weights streams) [] streams)

  unfoldable pub difference_handler : List (Stream CheckError) → Channel
  unfolding fast_path_difference
  difference_handler streams =
      sent (
        fast_path_difference reader.iterator_done reader.invalid_target (weights streams) []
          streams)

module _ {C : Type 0} (env : CheckEnv C) (reader : Reader C) (user object_type : Text) where
  -- fastPathDirect, with IteratorReadStartingFromUser
  unfoldable pub fast_path_direct : Text → Channel
  fast_path_direct relation =
      let user_type = get_type user in
      let users =
        user_filter (env.is_publicly_assignable object_type relation user_type) user user_type in
      and_then (reader.read_starting_with_user object_type relation users)
        (λ ts. answer (iter (object_ids (filtered_items env ts)) ∷ []))

  module _ (computed : Text → Channel) where
    unfoldable mutual
      -- fastPathRewrite, for the relation that the rewrite belongs to
      pub fast_path_rewrite : Text → Rewrite → Channel
      fast_path_rewrite relation this = fast_path_direct relation
      fast_path_rewrite relation unset = failure unknown_set_operator
      fast_path_rewrite relation (computed_userset r) = computed r
      fast_path_rewrite relation (tuple_to_userset tupleset r) = answer []
      fast_path_rewrite relation (union_of rs) =
          and_then (fast_path_children relation rs)
            (λ chans. union_handler reader (streams_from 0 chans))
      fast_path_rewrite relation (intersection_of rs) =
          and_then (fast_path_children relation rs)
            (λ chans. intersection_handler reader (streams_from 0 chans))
      fast_path_rewrite relation (difference b s) = and_then (fast_path_rewrite relation b) (λ c.
          and_then (fast_path_rewrite relation s)
            (λ c'. difference_handler reader (streams_from 0 (c ∷ c' ∷ []))))

      -- the producers of fastPathOperationSetup
      pub fast_path_children : Text → Rewrites → Answer CheckError (List (List (Msg CheckError)))
      fast_path_children relation no_child = answer []
      fast_path_children relation (child r rs) =
          and_then (fast_path_rewrite relation r)
            (λ c. and_then (fast_path_children relation rs) (λ chans. answer (c ∷ chans)))

  abbrev pub computed_of :
      (Text → Rewrite → Channel) → Text → Answer RelationError Rewrite → Channel
  computed_of rewrites relation (failure e) = failure (undefined_relation relation object_type)
  computed_of rewrites relation (answer rewrite) = rewrites relation rewrite

  -- fastPathComputed, with fastPathRewrite; the fuel bounds the nesting of computed relations.
  unfoldable pub fast_path_computed : ℕ → Text → Channel
  unfolding fast_path_rewrite
  fast_path_computed zero relation = failure out_of_fuel
  fast_path_computed (suc fuel) relation =
      computed_of (fast_path_rewrite (fast_path_computed fuel)) relation
        (env.get_relation object_type relation)
