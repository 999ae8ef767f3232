-- ===== src/Contract/Builds.antt =====
-- A contract that src/usagebassoon/contracts.py builds from a payload accepts that payload.
use usagebassoon.Prelude.{
  ℕ, String, true, false, none, some, List, [], ◌∷◌, ◌&&◌, ◌||◌, not, ◌==◌, any, Dict, lookup,
  insert, keys, contains, difference, sort_by, sorted, map, ok, string_eq, string_ord, nat_eq, ◌≡◌,
  refl, sym, ◌∙◌, arith, All, All-map, All-insert, All-imp, All-sort_by, any-sort_by,
  contains-keys-insert, All-lookup, All-keys, contains-sorted, beq_refl,
}
use usagebassoon.Contract.Json.{Json, JsonType}
use usagebassoon.Contract.Paths.{Seen, Presence, presence}
use usagebassoon.Contract.Diff.{
  ContractEntry, PayloadContract, build_contract, built_entry, by_path, entry_drift,
  unexpected_types, expected_entries, diff_entries, unknown_fields, diff_contract,
}
use usagebassoon.Contract.Distinct.{presence-distinct}

-- What an entry built from the payload says of its path.
record IsBuilt (optional_paths : List String) (seen : Presence) (entry : ContractEntry)
    : Type 0 where
  types : List JsonType
  present : ℕ
  total : ℕ
  at_path : lookup entry.path seen ≡ some (types, present, total)
  expected : entry.expected_types ≡ sorted types
  required : entry.required ≡ (not (contains optional_paths entry.path) && (present == total))

difference-nil :
    (xs ys : List JsonType)
    → ((x : JsonType) → contains xs x ≡ true → contains ys x ≡ true)
    → difference xs ys ≡ []
unfolding difference contains
difference-nil [] ys h = refl
difference-nil (x ∷ xs) ys h =
    ground
      (arith, h x (ground (arith, beq_refl x)), difference-nil xs ys (λ y p. h y (ground arith)))

unexpected_types-built :
    (entry : ContractEntry) (types : List JsonType)
    → entry.expected_types ≡ sorted types
    → unexpected_types entry types ≡ []
unfolding unexpected_types
unexpected_types-built entry types e =
    let d : difference types entry.expected_types ≡ [] =
      rw e (difference-nil types (sorted types) (λ x p. contains-sorted types x ∙ p)) in
    rw d (unfold difference in ground arith)

entry_drift-built :
    (optional_paths : List String) (observed : Json) (seen : Presence) (entry : ContractEntry)
    → IsBuilt optional_paths seen entry
    → entry_drift entry observed (lookup entry.path seen) ≡ (none, false)
unfolding entry_drift
entry_drift-built optional_paths observed seen entry b =
    rw (b.at_path, entry_drift)
      (ground (arith, unexpected_types-built entry b.types b.expected, b.required))

-- The dictionary of expected entries holds entries of the contract, each under its own path.
expected_entries-All :
    (P : ContractEntry → Type 0) (entries : List ContractEntry) (d : Dict String ContractEntry)
    → All P entries
    → All (λ x. (x.0 ≡ x.1.path) × P x.1) d
    → All (λ x. (x.0 ≡ x.1.path) × P x.1) (expected_entries entries d)
unfolding expected_entries
expected_entries-All P [] d h hd = hd
expected_entries-All P (entry ∷ entries) d h hd =
    expected_entries-All P entries (insert entry.path entry d) h.1
      (All-insert (λ x. (x.0 ≡ x.1.path) × P x.1) entry.path entry d (refl, h.0) hd)

keys-expected_entries :
    (entries : List ContractEntry) (d : Dict String ContractEntry) (p : String)
    → contains (keys (expected_entries entries d)) p
      ≡ (any (λ e. e.path == p) entries || contains (keys d) p)
unfolding expected_entries
keys-expected_entries [] d p = refl
keys-expected_entries (entry ∷ entries) d p = ground (
  arith,
  keys-expected_entries entries (insert entry.path entry d) p,
  contains-keys-insert entry.path p entry d,
)

diff_entries-built :
    (contract : PayloadContract) (observed : Json) (optional_paths : List String) (seen : Presence)
    (expected : Dict String ContractEntry)
    → All (λ x. (x.0 ≡ x.1.path) × IsBuilt optional_paths seen x.1) expected
    → diff_entries contract observed seen expected ≡ record { events = []; fatal = false }
unfolding diff_entries
diff_entries-built contract observed optional_paths seen [] h = refl
diff_entries-built contract observed optional_paths seen ((path, entry) ∷ expected) h = rw h.0.0 (
    ground (
      arith,
      entry_drift-built optional_paths observed seen entry h.0.1,
      diff_entries-built contract observed optional_paths seen expected h.1,
    ))

unknown_fields-known :
    (contract : PayloadContract) (expected : Dict String ContractEntry) (seen : Presence)
    → All (λ x. contains (keys expected) x.0 ≡ true) seen
    → unknown_fields contract expected seen ≡ []
unfolding unknown_fields
unknown_fields-known contract expected [] h = refl
unknown_fields-known contract expected ((path, (types, present, total)) ∷ seen) h =
    rw h.0 (unknown_fields-known contract expected seen h.1)

any-built :
    (optional_paths : List String) (seen : Presence) (p : String)
    → any (λ e. e.path == p) (map (built_entry optional_paths) seen) ≡ contains (keys seen) p
unfolding built_entry contains
any-built optional_paths [] p = refl
any-built optional_paths ((path, (types, present, total)) ∷ seen) p =
    ground (arith, any-built optional_paths seen p)

abbrev built_entries : List String → Json → List ContractEntry
built_entries optional_paths payload =
    map (built_entry optional_paths) (sort_by by_path (presence payload))

built_entry-IsBuilt :
    (optional_paths : List String) (seen : Presence) (x : String × Seen)
    → lookup x.0 seen ≡ some x.1
    → IsBuilt optional_paths seen (built_entry optional_paths x)
unfolding built_entry
built_entry-IsBuilt optional_paths seen (path, (types, present, total)) h = record {
  types = types;
  present = present;
  total = total;
  at_path = h;
  expected = refl;
  required = refl;
}

built_entries-All :
    (optional_paths : List String) (payload : Json)
    → All (IsBuilt optional_paths (presence payload)) (built_entries optional_paths payload)
built_entries-All optional_paths payload =
    let seen = presence payload in
    All-map (IsBuilt optional_paths seen) (built_entry optional_paths) (sort_by by_path seen) (
      All-sort_by (λ x. IsBuilt optional_paths seen (built_entry optional_paths x)) by_path seen
        (All-imp (built_entry-IsBuilt optional_paths seen) seen
          (All-lookup seen (presence-distinct payload))))

any-keys : (p : String) (seen : Presence) → any (λ x. x.0 == p) seen ≡ contains (keys seen) p
unfolding contains
any-keys p [] = refl
any-keys p ((path, s) ∷ seen) = ground (arith, any-keys p seen)

built_entries-paths :
    (optional_paths : List String) (seen : Presence) (p : String)
    → any (λ e. e.path == p) (map (built_entry optional_paths) (sort_by by_path seen))
      ≡ contains (keys seen) p
built_entries-paths optional_paths seen p =
    any-built optional_paths (sort_by by_path seen) p
    ∙ sym (any-keys p (sort_by by_path seen))
    ∙ any-sort_by (λ x. x.0 == p) by_path seen
    ∙ any-keys p seen

built_entries-known :
    (optional_paths : List String) (payload : Json)
    → All
        (λ x.
          contains (keys (expected_entries (built_entries optional_paths payload) [])) x.0 ≡ true)
        (presence payload)
built_entries-known optional_paths payload =
    let seen = presence payload in
    All-imp
      (λ x h. ground (
        arith,
        keys-expected_entries (built_entries optional_paths payload) [] x.0,
        built_entries-paths optional_paths seen x.0,
      ))
      seen (All-keys seen (presence-distinct payload))

build_contract-entries :
    (kind version : String) (payload : Json) (optional_paths : List String) (c : PayloadContract)
    → build_contract kind payload version optional_paths ≡ ok c
    → c.entries ≡ built_entries optional_paths payload
unfolding build_contract
build_contract-entries kind version payload optional_paths c h = ground arith

-- A contract that is built from a payload accepts that payload: the comparison finds no drift at
-- all, neither a fatal nor a tolerated one, whichever paths were declared optional.
pub build_contract-accepts :
    (kind version : String) (payload : Json) (optional_paths : List String) (c : PayloadContract)
    → build_contract kind payload version optional_paths ≡ ok c
    → diff_contract c payload ≡ record { events = []; fatal = false }
unfolding diff_contract
build_contract-accepts kind version payload optional_paths c h =
    let seen = presence payload in
    let entries = built_entries optional_paths payload in
    let expected = expected_entries entries [] in
    let known = diff_entries-built c payload optional_paths seen expected (
      expected_entries-All (IsBuilt optional_paths seen) entries []
        (built_entries-All optional_paths payload) tt) in
    let unknown =
      unknown_fields-known c expected seen (built_entries-known optional_paths payload) in
    ground (arith, build_contract-entries kind version payload optional_paths c h, known, unknown)
