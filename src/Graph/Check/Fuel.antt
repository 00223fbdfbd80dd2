-- ===== src/Graph/Check/Fuel.antt =====
-- Enough fuel: a bound on the calls of ResolveCheck that are nested in each other.
use mongopenfga.Prelude.{
  unvisited, unvisited-le, unvisited_drops, In, is_key, ℕ, zero, suc, ◌+◌, ◌≤◌, ◌<◌, ◌≡◌, refl, sym,
  ◌∙◌, false, List, Text, arith, length, text_eq,
}
use mongopenfga.Tuple.{new_tuple_key, split_object, tuple_key_to_string}
use mongopenfga.Storage.Iterators.Defs.{answer}
use mongopenfga.Graph.Outcome.{CheckOutcome, errored, resolution_depth_exceeded}
use mongopenfga.Typesystem.Rewrite.{Rewrite}
use mongopenfga.Graph.Check.Env.{CheckEnv, Request, Schedule}
use mongopenfga.Graph.Check.Direct.{child_request}
use mongopenfga.Graph.Check.Resolve.{visit, computed_request, resolve_step, resolve_check}
use mongopenfga.Graph.Check.Agree.{check_rewrite_agrees, resolve_step_agrees}

-- the nested calls that `levels` further levels of depth can make
abbrev pub budget : ℕ → ℕ → ℕ
budget zero relations = 0
budget (suc levels) relations = suc relations + budget levels relations

-- the visited path of a relation on the object and for the user
abbrev pub key_of : Text → Text → Text → Text
key_of object u r = tuple_key_to_string {C = Unit} (new_tuple_key object r u)

-- The unvisited relations of a request's object and user.
abbrev pub unvisited_of : {C : Type 0} → List Text → Request C → ℕ
unvisited_of rs req =
    unvisited (key_of req.tuple_key.object req.tuple_key.user) rs req.visited_paths

module _ {C : Type 0} (env : CheckEnv C) (schedule : Schedule C) where
  depth_ends :
      (resolve : Request C → CheckOutcome) (req : Request C)
      → req.depth ≡ env.max_resolution_depth
      → resolve_step env schedule resolve req ≡ errored resolution_depth_exceeded
  unfolding resolve_step
  depth_ends resolve req h = ground arith

  visit_drops :
      (rs : List Text) (req : Request C)
      → In req.tuple_key.relation rs
      → is_key (tuple_key_to_string req.tuple_key) req.visited_paths ≡ false
      → unvisited_of rs (visit req) < unvisited_of rs req
  unfolding tuple_key_to_string
  visit_drops rs req h k =
      let key = req.tuple_key in
      unvisited_drops (key_of key.object key.user) key.relation rs req.visited_paths h k

  module _ (relations : List Text)
      (listed : (t r : Text) (rewrite : Rewrite)
        → env.get_relation t r ≡ answer rewrite
        → In r relations)
      (f g : ℕ → Request C → CheckOutcome)
      (f_step : (n : ℕ) (req : Request C) → f (suc n) req ≡ resolve_step env schedule (f n) req)
      (g_step : (n : ℕ) (req : Request C)
        → g (suc n) req ≡ resolve_step env schedule (g n) req) where
    resolvers_agree :
        (m levels : ℕ) (req : Request C)
        → req.depth + levels ≡ env.max_resolution_depth
        → budget levels (length relations) + unvisited_of relations req ≤ m
        → (a b : ℕ) → m < a
        → m < b
        → f a req ≡ g b req
    resolvers_agree m levels req d h zero b p q = absurd (omega arith)
    resolvers_agree m levels req d h (suc a) zero p q = absurd (omega arith)
    resolvers_agree m zero req d h (suc a) (suc b) p q =
        f_step a req
        ∙ depth_ends (f a) req (omega arith)
        ∙ sym (g_step b req ∙ depth_ends (g b) req (omega arith))
    resolvers_agree zero (suc levels) req d h (suc a) (suc b) p q = absurd (omega arith)
    resolvers_agree (suc m) (suc levels) req d h (suc a) (suc b) p q =
        f_step a req
        ∙ resolve_step_agrees env schedule (f a) (g b) req (λ fresh rewrite r.
          check_rewrite_agrees env schedule (f a) (g b) (visit req)
            (λ key.
              resolvers_agree m levels (child_request (visit req) key) (omega arith)
                (omega (
                  arith,
                  unvisited-le (key_of key.object key.user) relations (visit req).visited_paths,
                ))
                a b (omega arith) (omega arith))
            (λ relation.
              resolvers_agree m (suc levels) (computed_request (visit req) relation) d
                (omega (
                  arith,
                  visit_drops relations req
                      (listed (split_object req.tuple_key.object).0 req.tuple_key.relation rewrite
                        r)
                      fresh,
                ))
                a b (omega arith) (omega arith))
            rewrite)
        ∙ sym (g_step b req)

-- ResolveCheck with its calls nested `fuel` deep, where `rest` answers the deeper ones
unfoldable pub resolve_from :
    {C : Type 0}
    → CheckEnv C
    → Schedule C
    → (Request C → CheckOutcome)
    → ℕ
    → Request C
    → CheckOutcome
resolve_from env schedule rest zero req = rest req
resolve_from env schedule rest (suc fuel) req =
    resolve_step env schedule (resolve_from env schedule rest fuel) req

-- ResolveCheck returns: if the type system defines no relation but the listed ones and a request
-- has `levels` left to the maximal depth, then no call is nested deeper than `levels` times the
-- number of relations and one, and once more the number of relations. So with more fuel than that
-- the outcome is the same for all fuels, and whatever deeper calls would return.
pub resolve_check_terminates :
    {C : Type 0} (env : CheckEnv C) (schedule : Schedule C) (relations : List Text)
    → ((t r : Text) (rewrite : Rewrite) → env.get_relation t r ≡ answer rewrite → In r relations)
    → (levels : ℕ) (req : Request C) → req.depth + levels ≡ env.max_resolution_depth
    → (fuel fuel' : ℕ) → budget levels (length relations) + length relations < fuel
    → budget levels (length relations) + length relations < fuel'
    → (rest : Request C → CheckOutcome)
    → resolve_check env schedule fuel req ≡ resolve_from env schedule rest fuel' req
unfolding resolve_check resolve_from
resolve_check_terminates env schedule relations listed levels req d fuel fuel' p q rest =
    let bound = budget levels (length relations) + length relations in
    resolvers_agree env schedule relations listed (resolve_check env schedule)
      (resolve_from env schedule rest) (λ n r. refl) (λ n r. refl) bound levels req d
      (omega (
        arith,
        unvisited-le (key_of req.tuple_key.object req.tuple_key.user) relations req.visited_paths,
      ))
      fuel fuel' p q
