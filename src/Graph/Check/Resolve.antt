-- ===== src/Graph/Check/Resolve.antt =====
-- CheckRewrite and ResolveCheck.
use mongopenfga.Prelude.{
  is_key, ℕ, zero, suc, Bool, true, false, List, [], ◌∷◌, map, Text, nat_beq, if◌then◌else◌,
}
use mongopenfga.Tuple.{new_tuple_key, tuple_key_to_string, is_self_defining, split_object}
use mongopenfga.Storage.Iterators.Defs.{Answer, answer, failure}
use mongopenfga.Graph.Outcome.{
  CheckError, resolution_depth_exceeded, unknown_set_operator, undefined_relation, out_of_fuel,
  CheckOutcome, errored, allow, deny, deny_cycle,
}
use mongopenfga.Graph.Reduce.{arrived, union, intersection, base, sub, from, exclusion}
use mongopenfga.Typesystem.Rewrite.{
  Rewrite, Rewrites, this, unset, computed_userset, tuple_to_userset, union_of, intersection_of,
  difference, no_child, child, RelationError,
}
use mongopenfga.Graph.Check.Env.{CheckEnv, Request, Schedule}
use mongopenfga.Graph.Check.Direct.{check_direct, check_ttu}

-- exclusion of two outcomes in their order of arrival
abbrev pub exclusion_of : Bool → CheckOutcome → CheckOutcome → CheckOutcome
exclusion_of true b s = exclusion (from base b ∷ from sub s ∷ [])
exclusion_of false b s = exclusion (from sub s ∷ from base b ∷ [])

module _ {C : Type 0} where
  -- hasCycle adds the key to the visited paths.
  abbrev pub visit : Request C → Request C
  visit req = record {
    tuple_key = req.tuple_key;
    depth = req.depth;
    visited_paths = tuple_key_to_string req.tuple_key ∷ req.visited_paths;
  }

  -- checkComputedUserset's request: the same depth
  abbrev pub computed_request : Request C → Text → Request C
  computed_request req relation = record {
    tuple_key = new_tuple_key req.tuple_key.object relation req.tuple_key.user;
    depth = req.depth;
    visited_paths = req.visited_paths;
  }

module _ {C : Type 0} (env : CheckEnv C) (schedule : Schedule C)
    (resolve : Request C → CheckOutcome) where
  unfoldable mutual
    -- CheckRewrite, with checkSetOperation
    pub check_rewrite : Request C → Rewrite → CheckOutcome
    check_rewrite req this = check_direct env schedule resolve req
    check_rewrite req unset = errored unknown_set_operator
    check_rewrite req (computed_userset relation) = resolve (computed_request req relation)
    check_rewrite req (tuple_to_userset tupleset computed) =
        check_ttu env schedule resolve req tupleset computed
    check_rewrite req (union_of rs) =
        union (map arrived (schedule.arrive req (check_rewrites req rs)))
    check_rewrite req (intersection_of rs) =
        intersection (map arrived (schedule.arrive req (check_rewrites req rs)))
    check_rewrite req (difference b s) =
        exclusion_of (schedule.base_first req) (check_rewrite req b) (check_rewrite req s)

    -- the outcomes of a set operation's handlers
    pub check_rewrites : Request C → Rewrites → List CheckOutcome
    check_rewrites req no_child = []
    check_rewrites req (child r rs) = check_rewrite req r ∷ check_rewrites req rs

  abbrev pub after_path : Request C → Rewrite → Answer CheckError Bool → CheckOutcome
  after_path req rewrite (failure e) = errored e
  after_path req rewrite (answer false) = deny
  after_path req rewrite (answer true) = check_rewrite (visit req) rewrite

  abbrev pub after_relation : Request C → Answer RelationError Rewrite → CheckOutcome
  after_relation req (failure e) =
      errored (undefined_relation req.tuple_key.relation (split_object req.tuple_key.object).0)
  after_relation req (answer rewrite) =
      let key = req.tuple_key in
      after_path req rewrite (env.path_exists key.user key.relation (split_object key.object).0)

  -- ResolveCheck, which calls `resolve` for its sub-requests
  unfoldable pub resolve_step : Request C → CheckOutcome
  resolve_step req =
      let key = req.tuple_key in
      if nat_beq req.depth env.max_resolution_depth
      then errored resolution_depth_exceeded
      else if is_key (tuple_key_to_string key) req.visited_paths
      then deny_cycle
      else if is_self_defining key
      then allow
      else after_relation req (env.get_relation (split_object key.object).0 key.relation)

-- ResolveCheck; the fuel bounds the nesting of its calls.
unfoldable pub resolve_check : {C : Type 0} → CheckEnv C → Schedule C → ℕ → Request C → CheckOutcome
resolve_check env schedule zero req = errored out_of_fuel
resolve_check env schedule (suc fuel) req =
    resolve_step env schedule (resolve_check env schedule fuel) req
