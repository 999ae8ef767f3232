-- ===== src/Contract/Distinct.antt =====
-- The paths that `_presence` of src/usagebassoon/contracts.py collects are distinct.
use usagebassoon.Prelude.{
  String, Bool, true, List, [], ◌∷◌, ◌++◌, or_else, is_some, all, lookup, keys, sorted, map,
  string_eq, string_ord, nat_eq, ◌≡◌, refl, ap, arith, distinct_keys, distinct_keys-insert,
}
use usagebassoon.Contract.Json.{
  Json, array, object, Fields, end, field, JsonType, json_type, join_path, array_path,
}
use usagebassoon.Contract.Paths.{
  Member, Occurrences, add_occurrence, add_types, add_members, members_of, member_paths,
  member_types, walk, walk_fields, summary, presence,
}

-- The walk keeps the paths distinct.
add_occurrence-distinct :
    (path : String) (t : JsonType) (present : Bool) (seen : Occurrences)
    → distinct_keys seen ≡ true
    → distinct_keys (add_occurrence path t present seen) ≡ true
unfolding add_occurrence
add_occurrence-distinct path t present seen h =
    distinct_keys-insert path (or_else (lookup path seen) [] ++ (t, present) ∷ []) seen h

add_types-distinct :
    (path : String) (present : Bool) (types : List JsonType) (seen : Occurrences)
    → distinct_keys seen ≡ true
    → distinct_keys (add_types path present types seen) ≡ true
unfolding add_types
add_types-distinct path present [] seen h = h
add_types-distinct path present (t ∷ types) seen h =
    add_types-distinct path present types (add_occurrence path t present seen)
      (add_occurrence-distinct path t present seen h)

add_members-distinct :
    (members : List Member) (paths : List String) (seen : Occurrences)
    → distinct_keys seen ≡ true
    → distinct_keys (add_members members paths seen) ≡ true
unfolding add_members
add_members-distinct members [] seen h = h
add_members-distinct members (path ∷ paths) seen h = add_members-distinct members paths _ (
    add_types-distinct path (all (λ fields. is_some (lookup path fields)) members)
      (sorted (member_types members path)) seen h)

mutual
  unfolding walk

  walk-distinct :
      (value : Json) (current : String) (seen : Occurrences)
      → distinct_keys seen ≡ true
      → distinct_keys (walk value current seen) ≡ true
  walk-distinct (object fs) current seen h = walk_fields-distinct fs current seen h
  walk-distinct (array xs) current seen h =
      let members = members_of xs (array_path current) in
      add_members-distinct members (member_paths members) seen h
  walk-distinct _ current seen h = h

  walk_fields-distinct :
      (fs : Fields) (current : String) (seen : Occurrences)
      → distinct_keys seen ≡ true
      → distinct_keys (walk_fields fs current seen) ≡ true
  walk_fields-distinct end current seen h = h
  walk_fields-distinct (field name child rest) current seen h =
      let path = join_path current name in
      walk_fields-distinct rest current
        (walk child path (add_occurrence path (json_type child) true seen))
        (walk-distinct child path (add_occurrence path (json_type child) true seen)
          (add_occurrence-distinct path (json_type child) true seen h))

keys-summary : (seen : Occurrences) → keys (map summary seen) ≡ keys seen
unfolding summary
keys-summary [] = refl
keys-summary ((path, entries) ∷ seen) = ap (λ ks. path ∷ ks) (keys-summary seen)

distinct-summary :
    (seen : Occurrences) → distinct_keys seen ≡ true → distinct_keys (map summary seen) ≡ true
unfolding distinct_keys summary
distinct-summary [] h = refl
distinct-summary ((path, entries) ∷ seen) h =
    rw keys-summary (ground (arith, distinct-summary seen))

pub presence-distinct : (value : Json) → distinct_keys (presence value) ≡ true
unfolding presence
presence-distinct value =
    distinct-summary (walk value "" []) (walk-distinct value "" [] (unfold distinct_keys in refl))
