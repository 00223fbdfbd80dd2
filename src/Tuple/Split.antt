-- ===== src/Tuple/Split.antt =====
-- SplitObject and SplitObjectRelation: what they return on each shape of text.
use mongopenfga.Prelude.{
  ℕ, ◌+◌, ◌-◌, ◌≡◌, ◌≢◌, ap, false, [], ◌∷◌, ◌++◌, arith, Text, has, length, length-append, take,
  drop, inl, inr, nat_beq, if◌then◌else◌,
}
use mongopenfga.Strings.{
  index_byte-append, index_byte-none, last_index_byte-append, last_index_byte-none, last_split,
  take-length_append, drop-length_append,
}
use mongopenfga.Tuple.{split_object, split_object_relation}
use native.Mathlib.Numerals.{add-one}

-- The three cases of either function agree: the last byte is dropped like any other.
abbrev pieces : Text → ℕ → Text × Text
pieces s i = if nat_beq i (length s - 1) then (take i s, []) else (take i s, drop (i + 1) s)

pieces-append : (c : ℕ) (s t : Text) → pieces (s ++ c ∷ t) (length s) ≡ (s, t)
pieces-append c s [] = ground (arith, length-append s (c ∷ []), take-length_append s (c ∷ []))
pieces-append c s (x ∷ t) = ground (
  arith,
  length-append s (c ∷ x ∷ t),
  take-length_append s (c ∷ x ∷ t),
  drop-length_append s (x ∷ t) c,
  add-one (length s),
)

-- The first ':' splits an object.
pub split_object-append :
    (t id : Text) → has b':' t ≡ false → split_object (t ++ b':' ∷ id) ≡ (t, id)
unfolding split_object
split_object-append t id h =
    rw (index_byte-append b':' t id h, split_object) (pieces-append b':' t id)

pub split_object-none : (s : Text) → has b':' s ≡ false → split_object s ≡ ([], s)
unfolding split_object
split_object-none s h = rw (index_byte-none b':' s h, split_object)

-- The last '#' splits a userset.
pub split_object_relation-append :
    (o r : Text) → has b'#' r ≡ false → split_object_relation (o ++ b'#' ∷ r) ≡ (o, r)
unfolding split_object_relation
split_object_relation-append o r h =
    rw (last_index_byte-append b'#' o r h, split_object_relation) (pieces-append b'#' o r)

pub split_object_relation-none : (s : Text) → has b'#' s ≡ false → split_object_relation s ≡ (s, [])
unfolding split_object_relation
split_object_relation-none s h = rw (last_index_byte-none b'#' s h, split_object_relation)

pub split_object_relation_inv :
    (s o r : Text)
    → split_object_relation s ≡ (o, r)
    → r ≢ []
    → (s ≡ o ++ b'#' ∷ r) × (has b'#' r ≡ false)
split_object_relation_inv s o r e h = elim (last_split b'#' s) [
  | inl none_there ↦ absurd (h (cc (e, split_object_relation-none s none_there)))
  | inr (a, b, p, q) ↦
      let f = ap split_object_relation p in
      let g = split_object_relation-append a b q in
      (ground (arith, e, f, g, p), ground (arith, e, f, g, q))
]
