-- ===== src/Storage/GoMap.antt =====
-- Go's maps with string keys, as association lists. Where the program ranges over a map, the order
-- of the list stands for the order of that iteration.
use mongopenfga.Prelude.{
  ◌≡◌, refl, Option, none, some, List, [], ◌∷◌, Text, ◌==◌, text_eq, text_beq, text_beq_iff, arith,
  if◌then◌else◌,
}

abbrev pub GoMap {ℓ} : Type ℓ → Type ℓ
GoMap V = List (Text × V)

module _ {ℓ} {V : Type ℓ} where
  -- m[key], with `none` for a missing key
  unfoldable pub lookup : GoMap V → Text → Option V
  lookup [] key = none
  lookup ((name, value) ∷ rest) key = if name == key then some value else lookup rest key

  -- m[key] = new
  unfoldable pub insert : GoMap V → Text → V → GoMap V
  insert [] key new = (key, new) ∷ []
  insert ((name, value) ∷ rest) key new =
      if name == key then (name, new) ∷ rest else (name, value) ∷ insert rest key new

  -- delete(m, key)
  unfoldable pub delete : GoMap V → Text → GoMap V
  delete [] key = []
  delete ((name, value) ∷ rest) key =
      let others = delete rest key in if name == key then others else (name, value) ∷ others

  pub lookup-insert :
      (m : GoMap V) (key : Text) (new : V) (other : Text)
      → lookup (insert m key new) other ≡ (if text_beq key other then some new else lookup m other)
  unfolding lookup insert
  lookup-insert [] key new other = refl
  lookup-insert ((name, value) ∷ rest) key new other = ground (
    arith,
    text_beq_iff name key,
    text_beq_iff name other,
    text_beq_iff key other,
    lookup-insert rest key new other,
  )

  pub lookup-delete :
      (m : GoMap V) (key other : Text)
      → lookup (delete m key) other ≡ (if text_beq key other then none else lookup m other)
  unfolding lookup delete
  lookup-delete [] key other = ground arith
  lookup-delete ((name, value) ∷ rest) key other = ground (
    arith,
    text_beq_iff name key,
    text_beq_iff name other,
    text_beq_iff key other,
    lookup-delete rest key other,
  )
