-- ===== src/Graph/Check/Env.antt =====
-- What LocalChecker works with: a request, and the type system and the datastore that it asks.
use mongopenfga.Prelude.{ℕ, Bool, Option, List, Text, text_eq}
use mongopenfga.Tuple.{TupleKey}
use mongopenfga.Storage.Iterators.Defs.{Answer}
use mongopenfga.Typesystem.Rewrite.{Rewrite, RelationError}
use mongopenfga.Graph.Outcome.{CheckError, CheckOutcome}

-- The operations of the type system and of the tuple reader that a check calls, for one store, one
-- model and one request context.
pub record CheckEnv (C : Type 0) : Type 0 where
  -- typesystem: GetRelation(objectType, relation) and its rewrite
  pub get_relation : Text → Text → Answer RelationError Rewrite
  -- PathExists(user, relation, objectType)
  pub path_exists : Text → Text → Text → Answer CheckError Bool
  -- IsDirectlyRelated(objectType, relation, the user's type, the user's relation)
  pub is_directly_related : Text → Text → Text → Text → Bool
  -- IsPubliclyAssignable(objectType, relation, the user's type)
  pub is_publicly_assignable : Text → Text → Text → Bool
  -- does DirectlyRelatedUsersets(objectType, relation) yield some?
  pub has_related_usersets : Text → Text → Bool
  -- IsSchemaVersionSupported(GetSchemaVersion())
  pub is_schema_version_supported : Bool
  -- datastore: ReadUserTuple(object, relation, user); no tuple is ErrNotFound
  pub read_user_tuple : TupleKey C → Answer CheckError (Option (TupleKey C))
  -- ReadUsersetTuples(object, relation) restricted to the directly related usersets
  pub read_userset_tuples : Text → Text → Answer CheckError (List (TupleKey C))
  -- ReadUsersetTuples(object, relation) restricted to the wildcard of the user's type
  pub read_wildcards : Text → Text → Text → Answer CheckError (List (TupleKey C))
  -- Read(object, relation)
  pub read : Text → Text → Answer CheckError (List (TupleKey C))
  -- validation.ValidateTupleForRead
  pub is_valid : TupleKey C → Bool
  -- checkutil.BuildTupleKeyConditionFilter
  pub condition_met : TupleKey C → Answer CheckError Bool
  pub max_resolution_depth : ℕ

-- ResolveCheckRequest: what changes from a request to its sub-requests
pub record Request (C : Type 0) : Type 0 where
  pub tuple_key : TupleKey C
  pub depth : ℕ
  pub visited_paths : List Text

-- The order in which the outcomes of concurrent handlers arrive at a reducer of a request.
pub record Schedule (C : Type 0) : Type 0 where
  pub arrive : Request C → List CheckOutcome → List CheckOutcome
  pub base_first : Request C → Bool
