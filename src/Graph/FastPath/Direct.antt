-- ===== src/Graph/FastPath/Direct.antt =====
-- What fastPathDirect yields, from the tuples that are stored.
use mongopenfga.Prelude.{
  suc, ◌≡◌, refl, ◌∙◌, sym, ap, Bool, true, false, ◌||◌, ◌&&◌, inl, inr, Bool-cases, none, subst,
  List, [], ◌∷◌, ◌++◌, map, select, Text, is_key, length, All, arith, text_eq, ◌==◌, text_beq_iff,
}
use mongopenfga.Tuple.{TupleKey, get_type, typed_public_wildcard}
use mongopenfga.Storage.Iterators.Defs.{Answer, answer, failure}
use mongopenfga.Storage.Iterators.Drain.{
  drain-conditions, is_met, holds, last_failure, error_unless, error_or,
}
use mongopenfga.Typesystem.Model.{and_then}
use mongopenfga.Memory.Usersets.{any, any-same, any-select}
use mongopenfga.Graph.Check.Env.{CheckEnv}
use mongopenfga.Graph.Check.Direct.{filtered_items}
use mongopenfga.Graph.FastPath.Stream.{iter}
use mongopenfga.Graph.FastPath.Advance.{IsTidy}
use mongopenfga.Graph.FastPath.Rewrite.{Reader, user_filter, object_ids, fast_path_direct}
use mongopenfga.Graph.FastPath.Yields.{Yields}

abbrev pub evaluated : {E : Type 0} → Answer E Bool → Bool
evaluated (failure e) = false
evaluated (answer b) = true

module _ {A : Type 0} where
  is_key-any :
      (f : A → Text) (x : Text) (xs : List A) → is_key x (map f xs) ≡ any (λ a. f a == x) xs
  is_key-any f x [] = refl
  is_key-any f x (a ∷ xs) =
      ground (arith, is_key-any f x xs, text_beq_iff (f a) x, text_beq_iff x (f a))

  module _ {E : Type 0} (filter : A → Answer E Bool) where
    no_failure :
        (xs : List A)
        → All (λ x. evaluated (filter x) ≡ true) xs
        → last_failure filter xs none ≡ none
    no_failure [] h = refl
    no_failure (x ∷ xs) h =
        ap (last_failure filter xs) (unfailed (filter x) h.0) ∙ no_failure xs h.1
      where
        unfailed : (a : Answer E Bool) → evaluated a ≡ true → error_or a none ≡ none
        unfailed (failure e) k = absurd (ground (arith, k))
        unfailed (answer b) k = refl

    no_error : (xs : List A) → error_unless filter false xs none ≡ none
    no_error [] = refl
    no_error (x ∷ xs) = refl

-- the tuples of a type and a relation that one of the users has
abbrev pub starts_with : {C : Type 0} → Text → Text → List Text → TupleKey C → Bool
starts_with object_type relation users t =
    get_type t.object == object_type && t.relation == relation && is_key t.user users

module _ {C : Type 0} (env : CheckEnv C) (stored : List (TupleKey C))
    (user object_type : Text) where
  -- the stored tuple relates the user, or everyone of the user's type if the model allows that,
  -- directly to the object, and its condition holds
  abbrev pub relates_directly : Text → Text → TupleKey C → Bool
  relates_directly relation x t =
      t.object == x
      && get_type t.object == object_type
      && t.relation == relation
      && (t.user == user
          || env.is_publicly_assignable object_type relation (get_type user)
            && t.user == typed_public_wildcard (get_type user))
      && env.is_valid t
      && holds (env.condition_met t)

  abbrev pub direct_has : Text → Text → Bool
  direct_has relation x = any (relates_directly relation x) stored

module _ {C : Type 0} (env : CheckEnv C) (reader : Reader C) (stored : List (TupleKey C))
    (user object_type : Text) where
  abbrev pub users_of : Text → List Text
  users_of relation =
      user_filter (env.is_publicly_assignable object_type relation (get_type user)) user
        (get_type user)

  -- ReadStartingWithUser gives the stored tuples of the type and the relation whose user is one of
  -- those that it asks for. The conditions of the valid ones can be evaluated, and the objects of
  -- those whose condition holds strictly ascend.
  pub record ReadsDirect (relation : Text) : Type 0 where
    pub tuples : List (TupleKey C)
    pub is_read :
        reader.read_starting_with_user object_type relation (users_of relation) ≡ answer tuples
    pub selects :
        (p : TupleKey C → Bool)
        → any p tuples
          ≡ any (λ t. p t && starts_with object_type relation (users_of relation) t) stored
    pub evaluates : All (λ t. evaluated (env.condition_met t) ≡ true) (select env.is_valid tuples)
    pub ascending :
        IsTidy
          (map (λ t. t.object) (select (is_met env.condition_met) (select env.is_valid tuples)))

  abbrev usable : List (TupleKey C) → List (TupleKey C)
  usable ts = select (is_met env.condition_met) (select env.is_valid ts)

  filtered-usable :
      (ts : List (TupleKey C))
      → All (λ t. evaluated (env.condition_met t) ≡ true) (select env.is_valid ts)
      → filtered_items env ts ≡ (usable ts, none)
  filtered-usable ts h =
      let valid = select env.is_valid ts in
      drain-conditions env.condition_met valid (suc (length valid)) (omega arith)
      ∙ ap (λ e. (usable ts, e))
          (ap (error_unless env.condition_met false (usable ts))
              (no_failure env.condition_met valid h)
            ∙ no_error env.condition_met (usable ts))

  users-cases :
      (relation : Text) (u : Text)
      → is_key u (users_of relation) ≡ (
          u == user
          || env.is_publicly_assignable object_type relation (get_type user)
            && u == typed_public_wildcard (get_type user))
  users-cases relation u =
      elim (Bool-cases (env.is_publicly_assignable object_type relation (get_type user))) [
        | inr n ↦ rw n (ground arith)
        | inl y ↦ elim (Bool-cases (user == typed_public_wildcard (get_type user))) [
          | inl e ↦
              rw (y, e)
                (ground (arith, (text_beq_iff user (typed_public_wildcard (get_type user))).0 e))
          | inr n ↦ rw (y, n) (ground arith)
        ]
      ]

  usable-related :
      (relation x : Text) (r : ReadsDirect relation)
      → is_key x (map (λ t. t.object) (usable r.tuples))
        ≡ direct_has env stored user object_type relation x
  usable-related relation x r =
      let met = is_met env.condition_met in
      is_key-any (λ t. t.object) x (usable r.tuples)
      ∙ any-select (λ t. t.object == x) met (select env.is_valid r.tuples)
      ∙ any-select (λ t. t.object == x && met t) env.is_valid r.tuples
      ∙ r.selects (λ t. (t.object == x && met t) && env.is_valid t)
      ∙ any-same _ (relates_directly env stored user object_type relation x) stored
          (λ t. ground (arith, users-cases relation t.user))

  -- The fast path of a direct relation yields the objects that stored tuples relate to the user.
  pub fast_path_direct-Yields :
      (relation : Text)
      → ReadsDirect relation
      → Yields
          (fast_path_direct env reader user object_type relation)
          (direct_has env stored user object_type relation)
  unfolding fast_path_direct
  fast_path_direct-Yields relation r =
      let objects = map (λ t. t.object) (usable r.tuples) in
      let same = append_nil objects in
      (
        iter (record { items = objects; end = none }) ∷ [],
        ap (λ a. and_then a (λ ts. answer (iter (object_ids (filtered_items env ts)) ∷ [])))
              r.is_read
            ∙ ap (λ f. answer (iter (object_ids f) ∷ [])) (filtered-usable r.tuples r.evaluates),
        ((refl, tt), subst IsTidy (sym same) r.ascending),
        λ x. ap (is_key x) same ∙ usable-related relation x r,
      )
    where
      append_nil : {A : Type 0} (xs : List A) → xs ++ [] ≡ xs
      append_nil [] = refl
      append_nil (x ∷ xs) = ap (◌∷◌ x) (append_nil xs)
