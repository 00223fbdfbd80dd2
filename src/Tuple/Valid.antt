-- ===== src/Tuple/Valid.antt =====
-- The shapes of text that IsValidObject, IsValidRelation and IsValidUser accept.
use mathlib.Core.List.{append-nil}
use mongopenfga.Prelude.{
  ℕ, ◌≡◌, refl, ◌↔◌, ◌⊎◌, inl, inr, Bool, true, [], ◌∷◌, ◌++◌, arith, Text, text_beq, text_beq_iff,
  Bool-cases, subst, ◌∙◌, sym, ap,
}
use mongopenfga.Regex.{
  plus, matches, Run, matches-plus, matches-plus_inv, matches-lit, matches-lit_inv, matches-nil,
  matches-nil_inv,
}
use mongopenfga.Tuple.{
  plain, plain_no_star, plain_no_at, user_id_regex, object_regex, user_set_regex, is_valid_relation,
  is_valid_object, is_valid_user, wildcard,
}

-- `type:id`
pub record ObjectShape (s : Text) : Type 0 where
  pub type_ : Text
  pub id : Text
  pub type-Run : Run plain type_
  pub id-Run : Run plain id
  pub shape : s ≡ type_ ++ b':' ∷ id

-- `type:id#relation`
pub record UserSetShape (s : Text) : Type 0 where
  pub type_ : Text
  pub id : Text
  pub relation : Text
  pub type-Run : Run plain type_
  pub id-Run : Run plain_no_star id
  pub relation-Run : Run plain_no_star relation
  pub shape : s ≡ type_ ++ (b':' ∷ id ++ (b'#' ∷ relation))

-- one run at the end of a pattern
matches_last : (p : ℕ → Bool) (s : Text) → (matches (plus p ∷ []) s ≡ true) ↔ Run p s
matches_last p s = (there, back)
  where
    there : matches (plus p ∷ []) s ≡ true → Run p s
    there m =
        let (a, b, e, r, k) = matches-plus_inv p [] s m in
        subst (Run p) (sym (e ∙ ap (λ t. a ++ t) (matches-nil_inv b k) ∙ append-nil a)) r

    back : Run p s → matches (plus p ∷ []) s ≡ true
    back r = rw (← append-nil s) (matches-plus p [] s [] r matches-nil)

-- A text is an object exactly when it is `type:id` with a type and an id.
pub is_valid_object_iff : (s : Text) → (is_valid_object s ≡ true) → ObjectShape s
is_valid_object_iff s m =
    let (t, u, e, r, k) = matches-plus_inv plain _ s m in
    let (v, f, l) = matches-lit_inv b':' _ u k in
    record {
      type_ = t;
      id = v;
      type-Run = r;
      id-Run = (matches_last plain v).0 l;
      shape = e ∙ ap (λ w. t ++ w) f;
    }

pub ObjectShape-is_valid : {s : Text} → ObjectShape s → is_valid_object s ≡ true
ObjectShape-is_valid o = rw (o.shape) (
    matches-plus plain _ o.type_ (b':' ∷ o.id) o.type-Run
      (matches-lit b':' _ o.id ((matches_last plain o.id).1 o.id-Run)))

pub user_set_shape : (s : Text) → matches user_set_regex s ≡ true → UserSetShape s
user_set_shape s m =
    let (t, u, e, r, k) = matches-plus_inv plain _ s m in
    let (v, f, l) = matches-lit_inv b':' _ u k in
    let (i, w, g, q, n) = matches-plus_inv plain_no_star _ v l in
    let (x, h, o) = matches-lit_inv b'#' _ w n in
    record {
      type_ = t;
      id = i;
      relation = x;
      type-Run = r;
      id-Run = q;
      relation-Run = (matches_last plain_no_star x).0 o;
      shape = e ∙ ap (λ y. t ++ y) (f ∙ ap (λ y. b':' ∷ y) (g ∙ ap (λ y. i ++ y) h));
    }

pub UserSetShape-matches : {s : Text} → UserSetShape s → matches user_set_regex s ≡ true
UserSetShape-matches o = rw (o.shape) (
    matches-plus plain _ o.type_ _ o.type-Run (
      matches-lit b':' _ _ (
        matches-plus plain_no_star _ o.id _ o.id-Run
          (matches-lit b'#' _ _ ((matches_last plain_no_star o.relation).1 o.relation-Run)))))

-- The forms of a user; `*` is one of the first form.
abbrev pub UserShape : Text → Type 0
UserShape s = Run plain s ⊎ ObjectShape s ⊎ UserSetShape s

pub is_valid_user_shape : (s : Text) → is_valid_user s ≡ true → UserShape s
unfolding is_valid_user
is_valid_user_shape s m = elim (Bool-cases (text_beq s wildcard)) [
  | inl e ↦ inl (subst (Run plain) (sym ((text_beq_iff s wildcard).0 e)) refl)
  | inr e ↦ elim (Bool-cases (matches user_id_regex s)) [
    | inl f ↦ inl ((matches_last plain s).0 f)
    | inr f ↦ elim (Bool-cases (matches object_regex s)) [
      | inl g ↦ inr (inl (is_valid_object_iff s g))
      | inr g ↦ inr (inr (user_set_shape s (ground arith)))
    ]
  ]
]

pub is_valid_relation-Run : (s : Text) → is_valid_relation s ≡ true → Run plain_no_at s
is_valid_relation-Run s m = (matches_last plain_no_at s).0 m
