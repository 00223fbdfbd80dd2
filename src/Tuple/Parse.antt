-- ===== src/Tuple/Parse.antt =====
-- ParseTupleString against TupleKeyToString, and IsSelfDefining.
use mongopenfga.Prelude.{
  ◌≡◌, refl, ◌↔◌, inl, inr, true, ◌∷◌, ◌++◌, arith, Text, text_beq_iff, Option-cases, ap, sym,
  subst,
}
use mongopenfga.Strings.{cut, cut-append, cut-eq_some}
use mongopenfga.Regex.{Run, has-Run}
use mongopenfga.Tuple.{
  TupleKey, parsed, plain_no_at, is_valid_object, is_valid_relation, is_valid_user, new_tuple_key,
  tuple_key_to_string, parse_tuple_string, is_self_defining, split_object_relation,
  to_object_relation_string,
}
use mongopenfga.Tuple.Split.{split_object_relation-append, split_object_relation_inv}
use mongopenfga.Tuple.Valid.{is_valid_object_iff, is_valid_relation-Run}
use mongopenfga.Tuple.Users.{object-no_hash}

-- A tuple of valid parts is parsed back from its text.
pub parse-to_string :
    {C : Type 0} (o r u : Text)
    → is_valid_object o ≡ true
    → is_valid_relation r ≡ true
    → is_valid_user u ≡ true
    → parse_tuple_string {C = C} (tuple_key_to_string (new_tuple_key {C = C} o r u))
      ≡ parsed (new_tuple_key o r u)
unfolding parse_tuple_string tuple_key_to_string
parse-to_string o r u ho hr hu = rw (
  cut-append b'#' o (r ++ (b'@' ∷ u)) (object-no_hash (is_valid_object_iff o ho)),
  parse_tuple_string,
  ho,
  cut-append b'@' r u (has-Run plain_no_at b'@' r refl (is_valid_relation-Run r hr)),
  hr,
  hu,
)

-- What was parsed is the text that was read, its parts are valid, and it has no condition.
pub parse_sound :
    {C : Type 0} (s : Text) (tk : TupleKey C)
    → parse_tuple_string s ≡ parsed tk
    → (tuple_key_to_string tk ≡ s)
      × (is_valid_object tk.object ≡ true)
      × (is_valid_relation tk.relation ≡ true)
      × (is_valid_user tk.user ≡ true)
      × (tk ≡ new_tuple_key tk.object tk.relation tk.user)
unfolding parse_tuple_string tuple_key_to_string
parse_sound s tk h = elim (Option-cases (cut b'#' s)) [
  | inl e ↦ ground arith
  | inr ((object, rhs), e) ↦ elim (Option-cases (cut b'@' rhs)) [
    | inl f ↦ ground arith
    | inr ((relation, u), f) ↦
        ground (arith, cut-eq_some b'#' s object rhs e, cut-eq_some b'@' rhs relation u f)
  ]
]

-- A tuple with a relation is self-defining exactly when its user is `object#relation`.
pub is_self_defining_iff :
    {C : Type 0} (tk : TupleKey C)
    → is_valid_relation tk.relation ≡ true
    → (is_self_defining tk ≡ true) ↔ (tk.user ≡ to_object_relation_string tk.object tk.relation)
unfolding is_self_defining
is_self_defining_iff tk h = (there, back)
  where
    r : Text
    r = tk.relation

    run : Run plain_no_at r
    run = is_valid_relation-Run r h

    there : is_self_defining tk ≡ true → tk.user ≡ to_object_relation_string tk.object r
    there d =
        let (o', r') = split_object_relation tk.user in
        let p : tk.object ≡ o' = (text_beq_iff tk.object o').0 (ground arith) in
        let q : r ≡ r' = (text_beq_iff r r').0 (ground arith) in
        (split_object_relation_inv tk.user tk.object r (λ i. (sym p i, sym q i))
          (λ e. subst (Run plain_no_at) e run)).0

    back : tk.user ≡ to_object_relation_string tk.object r → is_self_defining tk ≡ true
    back e = ground (
      arith,
      ap split_object_relation e,
      split_object_relation-append tk.object r (has-Run plain_no_at b'#' r refl run),
      text_beq_iff r r,
      text_beq_iff tk.object tk.object,
    )
