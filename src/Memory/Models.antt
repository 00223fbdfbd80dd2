-- ===== src/Memory/Models.antt =====
-- The authorization models, stores and assertions of the memory backend.
use mongopenfga.Prelude.{
  ℕ, ◌≡◌, refl, ◌∙◌, ap, Bool, true, false, Option, none, some, List, [], ◌∷◌, ◌++◌, Text, bytes,
  ◌==◌, text_eq, text_beq, arith, if◌then◌else◌,
}
use mongopenfga.Storage.GoMap.{GoMap, lookup, insert, delete, lookup-insert}
use mongopenfga.Storage.Iterators.Defs.{Answer, answer, failure}
use mongopenfga.Typesystem.Model.{TypeDefinition, AuthorizationModel}

-- openfgav1.AuthorizationModel with its id
pub record StoredModel (Cond : Type 0) : Type 0 where
  pub id : Text
  pub model : AuthorizationModel Cond

pub record AuthorizationModelEntry (Cond : Type 0) : Type 0 where
  pub model : StoredModel Cond
  pub latest : Bool

-- ErrNotFound and ErrCollision
pub data StorageError : Type 0 where
  not_found collision : StorageError

abbrev pub is_empty : List TypeDefinition → Bool
is_empty [] = true
is_empty (td ∷ tds) = false

module _ {Cond : Type 0} where
  -- the loop of findAuthorizationModelByID
  unfoldable pub find_latest : GoMap (AuthorizationModelEntry Cond) → Option (StoredModel Cond)
  find_latest [] = none
  find_latest ((id, entry) ∷ rest) =
      let later = find_latest rest in if entry.latest then some entry.model else later

  abbrev pub model_of : Option (AuthorizationModelEntry Cond) → Option (StoredModel Cond)
  model_of none = none
  model_of (some entry) = some entry.model

  -- findAuthorizationModelByID
  unfoldable pub find_authorization_model_by_id :
      Text → GoMap (AuthorizationModelEntry Cond) → Option (StoredModel Cond)
  unfolding find_latest
  find_authorization_model_by_id id configurations =
      if id == [] then find_latest configurations else model_of (lookup configurations id)

  abbrev pub nonempty : Option (StoredModel Cond) → Answer StorageError (StoredModel Cond)
  nonempty none = failure not_found
  nonempty (some m) = if is_empty m.model.type_definitions then failure not_found else answer m

  -- ReadAuthorizationModel
  unfoldable pub read_authorization_model :
      GoMap (GoMap (AuthorizationModelEntry Cond))
      → Text
      → Text
      → Answer StorageError (StoredModel Cond)
  unfolding find_authorization_model_by_id
  read_authorization_model s store id = elim (lookup s store) [
    | none ↦ failure not_found
    | some entries ↦ nonempty (find_authorization_model_by_id id entries)
  ]

  abbrev pub found_or_not : Option (StoredModel Cond) → Answer StorageError (StoredModel Cond)
  found_or_not none = failure not_found
  found_or_not (some m) = answer m

  -- FindLatestAuthorizationModel
  unfoldable pub find_latest_authorization_model :
      GoMap (GoMap (AuthorizationModelEntry Cond)) → Text → Answer StorageError (StoredModel Cond)
  unfolding find_authorization_model_by_id
  find_latest_authorization_model s store = elim (lookup s store) [
    | none ↦ failure not_found
    | some entries ↦ found_or_not (find_authorization_model_by_id [] entries)
  ]

  -- the loop of WriteAuthorizationModel
  unfoldable pub none_latest :
      GoMap (AuthorizationModelEntry Cond) → GoMap (AuthorizationModelEntry Cond)
  none_latest [] = []
  none_latest ((id, entry) ∷ rest) = (id, record entry { latest = false }) ∷ none_latest rest

  abbrev pub entries_of :
      Option (GoMap (AuthorizationModelEntry Cond)) → GoMap (AuthorizationModelEntry Cond)
  entries_of none = []
  entries_of (some entries) = entries

  -- WriteAuthorizationModel
  unfoldable pub write_authorization_model :
      GoMap (GoMap (AuthorizationModelEntry Cond))
      → Text
      → StoredModel Cond
      → GoMap (GoMap (AuthorizationModelEntry Cond))
  unfolding none_latest
  write_authorization_model s store m = insert s store (
      insert (none_latest (entries_of (lookup s store))) m.id (record { model = m; latest = true }))

  -- calls of WriteAuthorizationModel, in their order
  unfoldable pub write_models :
      List (Text × StoredModel Cond)
      → GoMap (GoMap (AuthorizationModelEntry Cond))
      → GoMap (GoMap (AuthorizationModelEntry Cond))
  unfolding write_authorization_model
  write_models [] s = s
  write_models ((store, m) ∷ rest) s = write_models rest (write_authorization_model s store m)

  -- the model that was written last to the store, or the given answer
  abbrev pub last_written :
      Text
      → List (Text × StoredModel Cond)
      → Answer StorageError (StoredModel Cond)
      → Answer StorageError (StoredModel Cond)
  last_written store [] before = before
  last_written store ((other, m) ∷ rest) before =
      last_written store rest (if other == store then answer m else before)

  find_latest-insert :
      (entries : GoMap (AuthorizationModelEntry Cond)) (id : Text) (m : StoredModel Cond)
      → find_latest (insert (none_latest entries) id (record { model = m; latest = true })) ≡ some m
  unfolding find_latest insert none_latest
  find_latest-insert [] id m = refl
  find_latest-insert ((other, entry) ∷ rest) id m = ground (arith, find_latest-insert rest id m)

  find_latest-write :
      (s : GoMap (GoMap (AuthorizationModelEntry Cond))) (store : Text) (m : StoredModel Cond)
      (j : Text)
      → find_latest_authorization_model (write_authorization_model s store m) j
        ≡ (if text_beq store j then answer m else find_latest_authorization_model s j)
  unfolding find_latest_authorization_model find_authorization_model_by_id write_authorization_model
      text_beq
  find_latest-write s store m j =
      let entries = none_latest (entries_of (lookup s store)) in
      let written = insert entries m.id (record { model = m; latest = true }) in
      ground (
        arith,
        lookup-insert s store written j,
        find_latest-insert (entries_of (lookup s store)) m.id m,
      )

  -- After any calls of WriteAuthorizationModel, FindLatestAuthorizationModel returns the model that was
  -- last written to the store, or what it returned before if none was.
  pub find_latest-write_models :
      (ws : List (Text × StoredModel Cond)) (s : GoMap (GoMap (AuthorizationModelEntry Cond)))
      (j : Text)
      → find_latest_authorization_model (write_models ws s) j
        ≡ last_written j ws (find_latest_authorization_model s j)
  unfolding write_models
  find_latest-write_models [] s j = refl
  find_latest-write_models ((store, m) ∷ rest) s j =
      find_latest-write_models rest (write_authorization_model s store m) j
      ∙ ap (last_written j rest) (find_latest-write s store m j)

-- openfgav1.Store
pub record Store : Type 0 where
  pub id : Text
  pub name : Text
  pub created_at : ℕ
  pub updated_at : ℕ

-- GetStore
abbrev pub get_store : GoMap Store → Text → Answer StorageError Store
get_store stores id = elim (lookup stores id) [ none ↦ failure not_found | some s ↦ answer s ]

-- CreateStore, at the given time
unfoldable pub create_store : ℕ → Store → GoMap Store → Answer StorageError Store × GoMap Store
create_store now new_store stores = elim (lookup stores new_store.id) [
  | some s ↦ (failure collision, stores)
  | none ↦
      let s : Store = record {
        id = new_store.id;
        name = new_store.name;
        created_at = now;
        updated_at = now;
      } in
      (answer s, insert stores new_store.id s)
]

-- DeleteStore
abbrev pub delete_store : GoMap Store → Text → GoMap Store
delete_store stores id = delete stores id

abbrev assertions_id : Text → Text → Text
assertions_id store model_id = store ++ (bytes "|" ++ model_id)

module _ {Assertion : Type 0} where
  -- WriteAssertions
  abbrev pub write_assertions :
      GoMap (List Assertion) → Text → Text → List Assertion → GoMap (List Assertion)
  write_assertions s store model_id assertions = insert s (assertions_id store model_id) assertions

  -- ReadAssertions
  abbrev pub read_assertions : GoMap (List Assertion) → Text → Text → List Assertion
  read_assertions s store model_id = elim (lookup s (assertions_id store model_id)) [
    | none ↦ []
    | some assertions ↦ assertions
  ]
