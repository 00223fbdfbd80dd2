-- ===== src/Tuple/Users.antt =====
-- Users as text, as parts and as protobuf messages.
use mathlib.Core.List.{append_assoc}
use mongopenfga.Prelude.{
  ℕ, ◌≡◌, refl, ◌≢◌, ◌↔◌, ◌⊎◌, inl, inr, Bool, true, false, [], ◌∷◌, ◌++◌, arith, Text, text_beq,
  text_beq_iff, text_eq, has, Bool-cases, if◌then◌else◌, ap, ◌∙◌, sym,
}
use mongopenfga.Strings.{has-append}
use mongopenfga.Regex.{Run, has-Run, matches}
use mongopenfga.Tuple.{
  User, object_user, userset_user, wildcard_user, user, user_set, wildcard, plain, plain_no_star,
  split_object, split_object_relation, to_user_parts, from_user_parts, user_proto_to_string,
  string_to_user_proto, is_valid_user, is_valid_object, get_user_type_from_user, user_set_regex,
}
use mongopenfga.Tuple.Split.{
  split_object-append, split_object-none, split_object_relation-append, split_object_relation-none,
}
use mongopenfga.Tuple.Valid.{
  ObjectShape, UserSetShape, UserShape, is_valid_object_iff, user_set_shape, is_valid_user_shape,
}

pub Run-ne_nil : (p : ℕ → Bool) (s : Text) → Run p s → text_beq s [] ≡ false
unfolding text_beq
Run-ne_nil p [] r = absurd r
Run-ne_nil p (x ∷ s) r = refl

-- What the two splits give on each shape.
module _ {s : Text} (r : Run plain s) where
  pub relation-plain : split_object_relation s ≡ (s, [])
  relation-plain = split_object_relation-none s (has-Run plain b'#' s refl r)

  pub object-plain : split_object s ≡ ([], s)
  object-plain = split_object-none s (has-Run plain b':' s refl r)

module _ {s : Text} (o : ObjectShape s) where
  open o use {type_, id, type-Run, id-Run, shape}

  pub object-object : split_object s ≡ (type_, id)
  object-object =
      ap split_object shape ∙ split_object-append type_ id (has-Run plain b':' type_ refl type-Run)

  pub object-no_hash : has b'#' s ≡ false
  object-no_hash = ground (
    arith,
    ap (has b'#') shape,
    has-append b'#' type_ (b':' ∷ id),
    has-Run plain b'#' type_ refl type-Run,
    has-Run plain b'#' id refl id-Run,
  )

  pub relation-object : split_object_relation s ≡ (s, [])
  relation-object = split_object_relation-none s object-no_hash

module _ {s : Text} (u : UserSetShape s) where
  open u use {type_, id, relation, type-Run, id-Run, relation-Run, shape}

  abbrev userset_object : Text
  userset_object = type_ ++ (b':' ∷ id)

  pub relation-userset : split_object_relation s ≡ (type_ ++ (b':' ∷ id), relation)
  relation-userset =
      ap split_object_relation shape
      ∙ ap split_object_relation (sym (append_assoc type_ (b':' ∷ id) (b'#' ∷ relation)))
      ∙ split_object_relation-append (type_ ++ (b':' ∷ id)) relation
          (has-Run plain_no_star b'#' relation refl relation-Run)

  pub object-userset : split_object (type_ ++ (b':' ∷ id)) ≡ (type_, id)
  object-userset = split_object-append type_ id (has-Run plain b':' type_ refl type-Run)

  pub object-userset_whole : split_object s ≡ (type_, id ++ (b'#' ∷ relation))
  object-userset_whole =
      ap split_object shape
      ∙ split_object-append type_ (id ++ (b'#' ∷ relation)) (has-Run plain b':' type_ refl type-Run)

-- A valid user, of any of its forms, is rebuilt from its parts.
pub from_user_parts-to_user_parts :
    (u : Text)
    → is_valid_user u ≡ true
    → from_user_parts (to_user_parts u).0 (to_user_parts u).1 (to_user_parts u).2 ≡ u
unfolding from_user_parts to_user_parts text_beq
from_user_parts-to_user_parts u h = elim (is_valid_user_shape u h) [
  | inl r ↦ rw (relation-plain r, object-plain r, from_user_parts)
  | inr (inl o) ↦
      rw (relation-object o, object-object o, from_user_parts, Run-ne_nil plain o.type_ o.type-Run)
        (sym o.shape)
  | inr (inr s) ↦
      rw
        (
          relation-userset s,
          object-userset s,
          from_user_parts,
          Run-ne_nil plain s.type_ s.type-Run,
          Run-ne_nil plain_no_star s.relation s.relation-Run,
        )
        (append_assoc s.type_ (b':' ∷ s.id) (b'#' ∷ s.relation) ∙ sym s.shape)
]

-- An object or a userset, and not a plain user, comes back from its protobuf message.
pub string-proto-string :
    (s : Text)
    → (is_valid_object s ≡ true) ⊎ (matches user_set_regex s ≡ true)
    → user_proto_to_string (string_to_user_proto s) ≡ s
unfolding string_to_user_proto user_proto_to_string text_beq
string-proto-string s (inl h) =
    let o = is_valid_object_iff s h in
    rw (relation-object o, object-object o, string_to_user_proto)
      (elim (Bool-cases (text_beq o.id wildcard)) [
        | inl e ↦
            rw e (
              ap (λ t. o.type_ ++ (b':' ∷ t)) (sym ((text_beq_iff o.id wildcard).0 e))
              ∙ sym o.shape)
        | inr e ↦ rw e (sym o.shape)
      ])
string-proto-string s (inr h) =
    let u = user_set_shape s h in
    rw
      (
        relation-userset u,
        object-userset u,
        string_to_user_proto,
        Run-ne_nil plain_no_star u.relation u.relation-Run,
      )
      (sym u.shape)

-- The users that UserProtoToString writes so that they can be read back.
abbrev pub IsReadable : User → Type 0
IsReadable (object_user t id) =
    (has b':' t ≡ false) × (has b'#' t ≡ false) × (has b'#' id ≡ false) × (id ≢ wildcard)
IsReadable (userset_user t id r) = (has b':' t ≡ false) × (has b'#' r ≡ false) × (r ≢ [])
IsReadable (wildcard_user t) = (has b':' t ≡ false) × (has b'#' t ≡ false)

ne_of_not : (s t : Text) → s ≢ t → text_beq s t ≡ false
ne_of_not s t h = ground (arith, text_beq_iff s t)

-- A user message comes back from its text, if its type has no ':', its parts no '#' that would be
-- taken for the relation's, an object's id is not '*' and a userset's relation is not empty.
pub proto-string-proto :
    (u : User) → IsReadable u → string_to_user_proto (user_proto_to_string u) ≡ u
unfolding string_to_user_proto user_proto_to_string text_beq
proto-string-proto (object_user t id) h = rw (
  split_object_relation-none (t ++ (b':' ∷ id)) (ground (arith, has-append b'#' t (b':' ∷ id), h)),
  split_object-append t id h.0,
  string_to_user_proto,
  ne_of_not id wildcard h.3,
)
proto-string-proto (userset_user t id r) h = rw (
  ← append_assoc t (b':' ∷ id) (b'#' ∷ r),
  split_object_relation-append (t ++ (b':' ∷ id)) r h.1,
  split_object-append t id h.0,
  string_to_user_proto,
  ne_of_not r [] h.2,
)
proto-string-proto (wildcard_user t) h = rw (
  split_object_relation-none (t ++ (b':' ∷ wildcard))
      (ground (arith, has-append b'#' t (b':' ∷ wildcard), h)),
  split_object-append t wildcard h.0,
  string_to_user_proto,
)

pub user_type-plain :
    (u : Text)
    → Run plain u
    → get_user_type_from_user u ≡ (if text_beq u wildcard then user_set else user)
unfolding get_user_type_from_user text_beq
user_type-plain u r = ground (arith, object-plain r, relation-plain r)

-- An object is no text without a ':'.
pub object-ne : {u : Text} (w : Text) → has b':' w ≡ false → ObjectShape u → text_beq u w ≡ false
object-ne {u} w h o = elim (Bool-cases (text_beq u w)) [
  | inl e ↦ ground (
    arith,
    ap (has b':') o.shape,
    ap (has b':') ((text_beq_iff u w).0 e),
    has-append b':' o.type_ (b':' ∷ o.id),
  )
  | inr e ↦ e
]

pub user_type-object :
    (u : Text) (o : ObjectShape u)
    → get_user_type_from_user u ≡ (if text_beq o.id wildcard then user_set else user)
unfolding get_user_type_from_user text_beq
user_type-object u o = ground (
  arith,
  object-object o,
  relation-object o,
  Run-ne_nil plain o.type_ o.type-Run,
  object-ne wildcard refl o,
)

pub user_type-userset : (u : Text) → UserSetShape u → get_user_type_from_user u ≡ user_set
unfolding get_user_type_from_user text_beq
user_type-userset u s = ground (
  arith,
  object-userset_whole s,
  relation-userset s,
  Run-ne_nil plain s.type_ s.type-Run,
  Run-ne_nil plain_no_star s.relation s.relation-Run,
)

user_type-star : get_user_type_from_user wildcard ≡ user_set
unfolding get_user_type_from_user text_beq
user_type-star = ground arith

-- A valid user is of type "userset" exactly when it is `type:id#relation`, `*` or `type:*`.
pub user_type-valid :
    (u : Text)
    → is_valid_user u ≡ true
    → (get_user_type_from_user u ≡ user_set)
      ↔ (UserSetShape u ⊎ (u ≡ wildcard) ⊎ ((o : ObjectShape u) × (o.id ≡ wildcard)))
user_type-valid u h = (there (is_valid_user_shape u h), back)
  where
    there :
        UserShape u
        → get_user_type_from_user u ≡ user_set
        → UserSetShape u ⊎ (u ≡ wildcard) ⊎ ((o : ObjectShape u) × (o.id ≡ wildcard))
    there (inl r) e = inr (inl (ground (arith, user_type-plain u r, text_beq_iff u wildcard)))
    there (inr (inl o)) e =
        inr (inr (o, ground (arith, user_type-object u o, text_beq_iff o.id wildcard)))
    there (inr (inr s)) e = inl s

    back :
        UserSetShape u ⊎ (u ≡ wildcard) ⊎ ((o : ObjectShape u) × (o.id ≡ wildcard))
        → get_user_type_from_user u ≡ user_set
    back (inl s) = user_type-userset u s
    back (inr (inl e)) = rw e user_type-star
    back (inr (inr (o, e))) = ground (arith, user_type-object u o, text_beq_iff o.id wildcard)
