-- ===== src/Typesystem/Paths.antt =====
-- PathExists, over the graph of the model that a third-party library builds and searches.
use mongopenfga.Prelude.{Bool, true, false, not, [], Text, ◌==◌, text_eq, if◌then◌else◌}
use mongopenfga.Tuple.{to_user_parts, to_object_relation_string, typed_public_wildcard}
use mongopenfga.Storage.Iterators.Defs.{Answer, answer, failure}

-- a search whose error means that its start is not in the graph
abbrev pub no_path_on_error : {E : Type 0} → Answer E Bool → Answer E Bool
no_path_on_error (failure e) = answer false
no_path_on_error (answer b) = answer b

-- the second search, for the wildcard of the user's type
abbrev pub unless_path : {E : Type 0} → Answer E Bool → Bool → Answer E Bool → Answer E Bool
unless_path (failure e) is_userset second = failure e
unless_path (answer true) is_userset second = answer true
unless_path (answer false) is_userset second =
    if is_userset then answer false else no_path_on_error second

-- PathExists; `graph_path_exists` is PathExists of the graph, from one label to another
unfoldable pub path_exists :
    {E : Type 0} → (Text → Text → Answer E Bool) → Text → Text → Text → Answer E Bool
unfolding to_user_parts
path_exists graph_path_exists user relation object_type =
    let (user_type, user_id, user_relation) = to_user_parts user in
    let is_userset = not (user_relation == []) in
    let from =
      if is_userset then to_object_relation_string user_type user_relation else user_type in
    let to = to_object_relation_string object_type relation in
    unless_path (graph_path_exists from to) is_userset
      (graph_path_exists (typed_public_wildcard user_type) to)
