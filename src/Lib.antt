-- ===== src/Lib.antt =====
-- The core of OpenFGA, with the MongoDB datastore of this repository beside its other backends: the
-- strings that name objects, usersets and users, the type system of an authorization model, the
-- validation of tuples, the write command, the memory datastore's tuples and changelog, the iterators
-- over tuples, the contextual tuples of a request, and the evaluation of Check with its fast paths.
--
-- The parts and how they meet. A model's type definitions become a type system, which looks up the
-- rewrite of a relation and what the relation may be assigned. A tuple `object#relation@user` is
-- validated against it by the write command, and written into a datastore, which keeps records and a
-- changelog. A Check asks whether a user has a relation to an object. It looks up the relation's
-- rewrite in the type system, reads tuples through iterators that leave out the invalid ones and
-- those whose condition is not met, dispatches a sub-check for every userset that it finds, and
-- reduces the outcomes of concurrent handlers by union, intersection or exclusion. A fast path lists
-- the objects that a user is related to instead: it reads them in ascending order, merges the streams
-- of the operands of a set operation, and looks for an object that a second channel has too.
--
--   Prelude, Strings, Regex   Boolean tests, lists over native numbers, visited sets, texts as lists
--                             of bytes, the functions of Go's `strings`, and the regular expressions
--   Tuple, Tuple/*            pkg/tuple/tuple.go: the functions keep their names (SplitObject is
--                             `split_object`, TupleKeys.Less is `less`)
--   Storage, Storage/GoMap    pkg/storage/record.go, and maps as association lists
--   Storage/Iterators/*       pkg/storage/tuple_iterators.go: static, filtered, condition-filtered,
--                             combined and ordered iterators; `static_next` is StaticIterator.Next,
--                             `scan` is OrderedCombinedIterator.head
--   Condition                 internal/condition/condition.go: CastContextToTypedParameters
--   Typesystem, Typesystem/*  pkg/typesystem/typesystem.go: Rewrite has the rewrites and references,
--                             Model `new` (New) and the lookups, Cycle `has_cycle` (HasCycle), Walk
--                             `walk_userset_rewrite`, Involves `relation_involves`, Paths
--                             `path_exists` (PathExists), Valid the validation of rewrites, names
--                             and type restrictions
--   Validation, Validation/*  internal/validation/validation.go: the functions keep their names
--   Wrappers, Wrappers/*      pkg/storage/storagewrappers/combinedtuplereader.go: the reads of
--                             CombinedTupleReader over an interface of the datastore, which
--                             Backend fills from the memory backend
--   Commands/Write            pkg/server/commands/write.go: `execute` (WriteCommand.Execute)
--   Memory, Memory/*          pkg/storage/memory/memory.go: `match_record` (match), `find`,
--                             `validate_tuples`, `write` (Write) with its two loops, and
--                             `read_page` (ReadPage) over Read's matches; Usersets has
--                             ReadUsersetTuples, Starting ReadStartingWithUser, Models the models,
--                             stores and assertions
--   Graph/Outcome, Graph/Reduce, Graph/Decide
--                             internal/graph/check.go: responses, errors, and the reducers
--   Graph/Check/*             internal/graph/check.go: Env holds the request and the operations
--                             that a check calls, Instance these operations for a model and the
--                             memory backend, Direct the handlers of checkDirect and checkTTU,
--                             Resolve `check_rewrite` (CheckRewrite) and `resolve_check`
--                             (ResolveCheck), Member the relation that a check decides, and the
--                             other files the proofs
--   Graph/FastPath/*          internal/graph/check_fast_path.go and internal/iterator/stream.go:
--                             Stream has the streams, Merge the heads and the batches, Loops
--                             `fast_path_union` and `fast_path_intersection`, DifferenceLoop
--                             `fast_path_difference`, Rewrite `fast_path_rewrite`, Consume
--                             `resolve_fast_path`, and the other files the proofs
--
-- State is passed explicitly: Write takes the backend and returns it with an error or none, and an
-- iterator's Next returns the iterator that is left. An error is a value: `errored`, `failure`, or
-- `some` where nil is `none`. Concurrent handlers are their outcomes in an order of arrival: the
-- reducers read any list of outcomes, and a check is run under a schedule, which may order the
-- outcomes as it likes for each request. A channel is the list of the messages that it delivers before
-- it is closed, and what is received from two channels is any interleaving of them. ULIDs, the clock
-- and sorting are parameters, and so are the types of condition parameters and the size of a
-- condition's context.
--
-- Fuel. `resolve_check` counts nested calls of ResolveCheck: a dispatch adds one to the depth, and a
-- computed relation keeps the depth but adds a visited path, so that the levels left to the maximal
-- depth times the number of relations and one, and once more the number of relations, bound them.
-- `has_cycle` counts the computed relations that it follows, of which no more than the relations of
-- the type are new. `drain_fuel` counts calls of Next, of which one more than the items is enough.
-- `relation_involves` counts its nested calls. The loops of a fast path count their rounds, of which
-- no more than one for each stream, two for each message and one for each object are needed, and
-- `fast_path_computed` counts nested computed relations.
--
-- Not modelled: contexts that are cancelled in the middle of a check (the reducers do model it), the
-- error of a handler that panics, which a reducer returns after its loop and the model takes for an
-- error that arrived, how a check chooses a fast path, the recursive fast paths and other resolvers
-- than the local one, the graphs of a model, which a third-party library builds and searches,
-- hasEntrypoints, the evaluation of conditions, the databases, and the server around them.
pub mod Prelude
pub mod Strings
pub mod Regex
pub mod Tuple
pub mod Storage
pub mod Condition
pub mod Typesystem
pub mod Validation
pub mod Wrappers
pub mod Memory
pub mod Commands
pub mod Graph
