-- ===== src/Memory/Match.antt =====
-- What `match` decides for a tuple with all its parts, and for a record that was written.
use mongopenfga.Prelude.{
  ℕ, ◌≡◌, refl, ◌≢◌, Bool, true, false, ◌&&◌, [], arith, Text, text_beq, text_beq_iff, ◌==◌,
  text_eq, ◌∙◌,
}
use mongopenfga.Tuple.{TupleKey, TupleKeyWithoutCondition, plain}
use mongopenfga.Tuple.Valid.{ObjectShape}
use mongopenfga.Tuple.Users.{object-object, object-ne, Run-ne_nil}
use mongopenfga.Storage.{TupleRecord}
use mongopenfga.Memory.State.{match_record, new_record, Ulids}

-- A tuple with an object `type:id`, a relation and a user.
pub record IsFull (object relation user : Text) : Type 0 where
  pub object-shape : ObjectShape object
  pub has_relation : relation ≢ []
  pub has_user : user ≢ []

abbrev pub IsFullKey : {C : Type 0} → TupleKey C → Type 0
IsFullKey tk = IsFull tk.object tk.relation tk.user

abbrev pub IsFullDelete : TupleKeyWithoutCondition → Type 0
IsFullDelete tk = IsFull tk.object tk.relation tk.user

-- The record's own key is `type_:id`, `relation`, `user`.
unfoldable pub keyed : {C : Type 0} → TupleRecord C → Text → Text → Text → Text → Bool
keyed tr type_ id relation user =
    tr.object_type == type_ && tr.object_id == id && tr.relation == relation && tr.user == user

pub beq_comm : (s t : Text) → text_beq s t ≡ text_beq t s
beq_comm s t = ground (arith, text_beq_iff s t, text_beq_iff t s)

pub ne_nil : (s : Text) → s ≢ [] → text_beq s [] ≡ false
ne_nil s h = ground (arith, text_beq_iff s [])

-- On a tuple with all its parts, `match` compares every part.
pub match_record-keyed :
    {C : Type 0} (tr : TupleRecord C) (tk : TupleKey C) (f : IsFullKey tk)
    → match_record tr tk ≡ keyed tr f.object-shape.type_ f.object-shape.id tk.relation tk.user
unfolding match_record keyed
match_record-keyed tr tk f = ground (
  arith,
  object-object f.object-shape,
  Run-ne_nil plain f.object-shape.id f.object-shape.id-Run,
  object-ne [] refl f.object-shape,
  ne_nil tk.relation f.has_relation,
  ne_nil tk.user f.has_user,
  beq_comm f.object-shape.type_ tr.object_type,
  beq_comm f.object-shape.id tr.object_id,
)

-- Whether two keys are equal in object, relation and user.
unfoldable pub key_beq : (o r u o' r' u' : Text) → Bool
key_beq o r u o' r' u' = o == o' && r == r' && u == u'

pub object_beq :
    {o o' : Text} (a : ObjectShape o) (b : ObjectShape o')
    → (text_beq a.type_ b.type_ && text_beq a.id b.id) ≡ text_beq o o'
object_beq {o} {o'} a b = ground (
  arith,
  text_beq_iff a.type_ b.type_,
  text_beq_iff a.id b.id,
  text_beq_iff o o',
  a.shape,
  b.shape,
  object-object a,
  object-object b,
)

-- The key of a record that was written is that of its tuple.
pub match-new_record :
    {C : Type 0} (empty_struct : C) (v : Ulids) (now : ℕ) (store : Text) (t tk : TupleKey C) (n : ℕ)
    → IsFullKey t
    → IsFullKey tk
    → match_record (new_record empty_struct v now store t n) tk
      ≡ key_beq t.object t.relation t.user tk.object tk.relation tk.user
unfolding new_record keyed key_beq
match-new_record {C} empty_struct v now store t tk n full f =
    match_record-keyed (new_record empty_struct v now store t n) tk f
    ∙ ground (arith, object-object full.object-shape, object_beq full.object-shape f.object-shape)

-- A record matches a tuple exactly if it matches another of the same key.
pub match-delete :
    {C : Type 0} (tr : TupleRecord C) (d tk : TupleKey C)
    → IsFullKey d
    → IsFullKey tk
    → match_record tr tk ≡ true
    → match_record tr d ≡ key_beq d.object d.relation d.user tk.object tk.relation tk.user
unfolding keyed key_beq
match-delete tr d tk fd fk h = ground (
  arith,
  match_record-keyed tr d fd,
  match_record-keyed tr tk fk,
  object_beq fd.object-shape fk.object-shape,
  text_beq_iff tr.object_type fd.object-shape.type_,
  text_beq_iff tr.object_id fd.object-shape.id,
  text_beq_iff tr.relation d.relation,
  text_beq_iff tr.user d.user,
  text_beq_iff tr.object_type fk.object-shape.type_,
  text_beq_iff tr.object_id fk.object-shape.id,
  text_beq_iff tr.relation tk.relation,
  text_beq_iff tr.user tk.user,
  text_beq_iff fd.object-shape.type_ fk.object-shape.type_,
  text_beq_iff fd.object-shape.id fk.object-shape.id,
  text_beq_iff d.relation tk.relation,
  text_beq_iff d.user tk.user,
)
