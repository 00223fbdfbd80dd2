-- ===== src/Tuple/Order.antt =====
-- TupleKeys.Less
use mongopenfga.Prelude.{
  ◌≡◌, refl, inl, inr, Bool, true, false, not, ◌&&◌, ◌||◌, Option, none, some, List, [], ◌∷◌, arith,
  Text, text_beq, text_beq_iff, text_lt, text_lt_irrefl, text_lt_trans, text_lt_tri, if◌then◌else◌,
  ◌==◌, text_eq, ◌⊎◌, ◌↔◌, sym, ◌∙◌,
}
use mongopenfga.Tuple.{TupleKey, RelationshipCondition}

-- the getter of a condition that may be nil
abbrev pub condition_name : {C : Type 0} → Option (RelationshipCondition C) → Text
condition_name none = []
condition_name (some c) = c.name

is_some : {C : Type 0} → Option (RelationshipCondition C) → Bool
is_some none = false
is_some (some c) = true

-- Less, on two elements
unfoldable pub less : {C : Type 0} → TupleKey C → TupleKey C → Bool
unfolding is_some
less a b =
    if not (a.object == b.object)
    then text_lt a.object b.object
    else if not (a.relation == b.relation)
    then text_lt a.relation b.relation
    else if not (a.user == b.user)
    then text_lt a.user b.user
    else if (is_some a.condition || is_some b.condition)
        && not (condition_name a.condition == condition_name b.condition)
    then text_lt (condition_name a.condition) (condition_name b.condition)
    else true

-- One field: the later fields are compared only if this one is equal.
lex : Text → Text → Bool → Bool
lex x y rest = if not (x == y) then text_lt x y else rest

module _ {C : Type 0} where
  less-lex :
      (a b : TupleKey C)
      → less a b
        ≡ lex a.object b.object (
            lex a.relation b.relation (
              lex a.user b.user
                (lex (condition_name a.condition) (condition_name b.condition) true)))
  unfolding less lex text_beq
  less-lex a b = ground arith

lex_trans :
    (x y z : Text) (r q p : Bool)
    → lex x y r ≡ true
    → lex y z q ≡ true
    → (r ≡ true → q ≡ true → p ≡ true)
    → lex x z p ≡ true
unfolding lex
lex_trans x y z r q p h k f = ground (
  arith,
  text_lt_trans x y z,
  text_lt_irrefl x,
  text_lt_tri x y,
  text_lt_tri y z,
  text_lt_tri x z,
  text_beq_iff x y,
  text_beq_iff y z,
  text_beq_iff x z,
  f,
)

lex_total :
    (x y : Text) (r q : Bool) → (r ≡ true) ⊎ (q ≡ true) → (lex x y r ≡ true) ⊎ (lex y x q ≡ true)
unfolding lex
lex_total x y r q h = ground (arith, text_lt_tri x y, text_beq_iff x y, text_beq_iff y x)

lex_both :
    (x y : Text) (r q : Bool)
    → lex x y r ≡ true
    → lex y x q ≡ true
    → (x ≡ y) × (r ≡ true) × (q ≡ true)
unfolding lex
lex_both x y r q h k = ground (arith, text_lt_tri x y, text_beq_iff x y, text_beq_iff y x)

module _ {C : Type 0} where
  -- Of two tuples one is less than the other, a tuple being less than itself.
  pub less_total : (a b : TupleKey C) → (less a b ≡ true) ⊎ (less b a ≡ true)
  less_total a b =
      rw (less-lex a b, less-lex b a)
        (lex_total a.object b.object _ _ (
          lex_total a.relation b.relation _ _ (
            lex_total a.user b.user _ _ (
              lex_total (condition_name a.condition) (condition_name b.condition) _ _ (inl refl)))))

  -- Tuples that are less than each other have the same object, relation, user and condition name.
  pub less_both :
      (a b : TupleKey C)
      → less a b ≡ true
      → less b a ≡ true
      → (a.object ≡ b.object)
        × (a.relation ≡ b.relation)
        × (a.user ≡ b.user)
        × (condition_name a.condition ≡ condition_name b.condition)
  less_both a b h k =
      let (o, h1, k1) =
        lex_both a.object b.object _ _ (sym (less-lex a b) ∙ h) (sym (less-lex b a) ∙ k) in
      let (r, h2, k2) = lex_both a.relation b.relation _ _ h1 k1 in
      let (u, h3, k3) = lex_both a.user b.user _ _ h2 k2 in
      let (n, h4, k4) =
        lex_both (condition_name a.condition) (condition_name b.condition) _ _ h3 k3 in
      (o, r, u, n)

  -- Less is transitive, through every field.
  pub less_trans : (a b c : TupleKey C) → less a b ≡ true → less b c ≡ true → less a c ≡ true
  less_trans a b c h k =
      less-lex a c
      ∙ lex_trans a.object b.object c.object _ _ _ (sym (less-lex a b) ∙ h) (sym (less-lex b c) ∙ k)
          (λ h1 k1. lex_trans a.relation b.relation c.relation _ _ _ h1 k1 (λ h2 k2.
            lex_trans a.user b.user c.user _ _ _ h2 k2 (λ h3 k3.
              lex_trans (condition_name a.condition) (condition_name b.condition)
                (condition_name c.condition) _ _ _ h3 k3 (λ _ _. refl))))

-- One list comes before another of the same length, or is the same: they differ first where it has
-- the lesser text.
abbrev pub Precedes : List Text → List Text → Type 0
Precedes [] [] = Unit
Precedes [] (y ∷ ys) = ⊥
Precedes (x ∷ xs) [] = ⊥
Precedes (x ∷ xs) (y ∷ ys) = (text_lt x y ≡ true) ⊎ ((x ≡ y) × Precedes xs ys)

lex_first :
    (x y : Text) (rest : Bool)
    → lex x y rest ≡ true
    → (text_lt x y ≡ true) ⊎ ((x ≡ y) × (rest ≡ true))
unfolding lex
lex_first x y rest h = ground (arith, h, text_beq_iff x y)

lex_back :
    (x y : Text) (rest : Bool)
    → (text_lt x y ≡ true) ⊎ ((x ≡ y) × (rest ≡ true))
    → lex x y rest ≡ true
unfolding lex
lex_back x y rest h = ground (arith, h, text_beq_iff x y, text_lt_irrefl x)

-- the texts that one after the other are compared
lex_all : List Text → List Text → Bool
lex_all (x ∷ xs) (y ∷ ys) = lex x y (lex_all xs ys)
lex_all [] [] = true
lex_all [] (y ∷ ys) = false
lex_all (x ∷ xs) [] = false

lex_all-Precedes : (xs ys : List Text) → (lex_all xs ys ≡ true) ↔ Precedes xs ys
unfolding lex_all
lex_all-Precedes [] [] = (λ h. tt, λ h. refl)
lex_all-Precedes [] (y ∷ ys) = (λ h. absurd (ground (arith, h)), λ h. absurd h)
lex_all-Precedes (x ∷ xs) [] = (λ h. absurd (ground (arith, h)), λ h. absurd h)
lex_all-Precedes (x ∷ xs) (y ∷ ys) =
    let (to, from) = lex_all-Precedes xs ys in
    (
      λ h. elim (lex_first x y (lex_all xs ys) h) [ inl l ↦ inl l | inr (e, r) ↦ inr (e, to r) ],
      λ h. elim h [
        | inl l ↦ lex_back x y (lex_all xs ys) (inl l)
        | inr (e, r) ↦ lex_back x y (lex_all xs ys) (inr (e, from r))
      ],
    )

module _ {C : Type 0} where
  abbrev pub fields : TupleKey C → List Text
  fields t = t.object ∷ t.relation ∷ t.user ∷ condition_name t.condition ∷ []

  less-lex_all : (a b : TupleKey C) → less a b ≡ lex_all (fields a) (fields b)
  unfolding lex_all
  less-lex_all a b = less-lex a b

  -- A tuple is less than another exactly if they have the same object, relation, user and condition
  -- name, no condition counting as an empty name, or the first of these in which they differ is less.
  pub less_iff : (a b : TupleKey C) → (less a b ≡ true) ↔ Precedes (fields a) (fields b)
  less_iff a b =
      let (to, from) = lex_all-Precedes (fields a) (fields b) in
      (λ h. to (sym (less-lex_all a b) ∙ h), λ h. less-lex_all a b ∙ from h)
