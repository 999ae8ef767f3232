-- ===== src/Contract/Paths.antt =====
-- `_presence` of src/usagebassoon/contracts.py: the types of every path, and on how many members
-- it is present. Python leaves the order of a set's elements open; here it is that of first sight.
use usagebassoon.Prelude.{
  ℕ, suc, String, Bool, true, List, [], ◌∷◌, ◌++◌, or_else, is_some, length, all, Dict, lookup,
  insert, keys, add, union, to_set, sorted, map, if◌then◌else◌, string_eq, string_ord,
}
use usagebassoon.Contract.Json.{
  Json, array, object, Items, nil, cons, Fields, end, field, JsonType, json_type, join_path,
  array_path,
}

-- What one array member holds: the types of each of its paths.
abbrev pub Member : Type 0
Member = Dict String (List JsonType)

-- `collect_member`
unfoldable mutual
  pub collect_member : Json → String → Member → Member
  collect_member (object fs) current fields = collect_fields fs current fields
  collect_member (array xs) current fields = collect_items xs (array_path current) fields
  collect_member _ current fields = fields

  pub collect_fields : Fields → String → Member → Member
  collect_fields end current fields = fields
  collect_fields (field name child rest) current fields =
      let path = join_path current name in
      let types = or_else (lookup path fields) [] in
      collect_fields rest current
        (collect_member child path (insert path (add (json_type child) types) fields))

  pub collect_items : Items → String → Member → Member
  collect_items nil current fields = fields
  collect_items (cons child rest) current fields =
      collect_items rest current (collect_member child current fields)

-- The types seen at a path, each with whether the path was present.
abbrev pub Occurrences : Type 0
Occurrences = Dict String (List (JsonType × Bool))

-- `add` of `_presence`
unfoldable pub add_occurrence : String → JsonType → Bool → Occurrences → Occurrences
add_occurrence path json_type present seen =
    insert path (or_else (lookup path seen) [] ++ (json_type, present) ∷ []) seen

pub members_of : Items → String → List Member
unfolding collect_member
members_of nil current = []
members_of (cons child rest) current = collect_member child current [] ∷ members_of rest current

-- `set().union(*(set(fields) for fields in members))`
pub member_paths : List Member → List String
member_paths [] = []
member_paths (fields ∷ members) = union (keys fields) (member_paths members)

pub member_types : List Member → String → List JsonType
member_types [] path = []
member_types (fields ∷ members) path =
    union (or_else (lookup path fields) []) (member_types members path)

unfoldable pub add_types : String → Bool → List JsonType → Occurrences → Occurrences
unfolding add_occurrence
add_types path present [] seen = seen
add_types path present (t ∷ types) seen =
    add_types path present types (add_occurrence path t present seen)

-- The loop over the paths of an array's members.
unfoldable pub add_members : List Member → List String → Occurrences → Occurrences
unfolding add_types member_types sorted
add_members members [] seen = seen
add_members members (path ∷ paths) seen = add_members members paths (
    add_types path (all (λ fields. is_some (lookup path fields)) members)
      (sorted (member_types members path)) seen)

-- `walk`; an array's members are not walked again.
unfoldable mutual
  pub walk : Json → String → Occurrences → Occurrences
  walk (object fs) current seen = walk_fields fs current seen
  walk (array xs) current seen =
      let members = members_of xs (array_path current) in
      add_members members (member_paths members) seen
  walk _ current seen = seen

  pub walk_fields : Fields → String → Occurrences → Occurrences
  walk_fields end current seen = seen
  walk_fields (field name child rest) current seen =
      let path = join_path current name in
      walk_fields rest current (walk child path (add_occurrence path (json_type child) true seen))

-- The types of a path, the members that have it, and the members there are.
abbrev pub Seen : Type 0
Seen = List JsonType × ℕ × ℕ

abbrev pub Presence : Type 0
Presence = Dict String Seen

count_present : List (JsonType × Bool) → ℕ
count_present [] = 0
count_present ((t, present) ∷ entries) =
    if present then suc (count_present entries) else count_present entries

unfoldable pub summary : String × List (JsonType × Bool) → String × Seen
unfolding count_present
summary (path, entries) =
    (path, (to_set (map (λ e. e.0) entries), count_present entries, length entries))

-- `_presence`
unfoldable pub presence : Json → Presence
unfolding walk summary
presence value = map summary (walk value "" [])
