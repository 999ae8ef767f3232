-- ===== src/Contract/Diff.antt =====
-- `build_contract`, `diff_contract` and `validate_payloads` of src/usagebassoon/contracts.py. The
-- detail of an event holds the values that its text is formatted from.
use Prim.Native.String.{◌++◌ as concat}
use usagebassoon.Prelude.{
  ℕ, String, Bool, true, false, Option, none, some, List, [], ◌∷◌, ◌++◌, ◌&&◌, ◌||◌, not, ◌==◌, ltb,
  or_else, is_empty, Dict, lookup, insert, keys, contains, difference, sort_by, sorted, map,
  if◌then◌else◌, Result, ok, err, ◌>>=◌, string_eq, string_ord, nat_eq, string_at_most,
}
use usagebassoon.Contract.Json.{Json, array, object, nil, cons, JsonType, get_field, all_items}
use usagebassoon.Contract.Paths.{Seen, Presence, presence}

pub record ContractEntry : Type 0 where
  pub path : String
  pub expected_types : List JsonType
  pub required : Bool

pub record PayloadContract : Type 0 where
  pub payload_kind : String
  pub tokscale_version : String
  pub entries : List ContractEntry

pub data DriftKind : Type 0 where
  unknown_field missing_field type_change : DriftKind

pub data Detail : Type 0 where
  absent : List JsonType → Detail
  partly_present : ℕ → ℕ → Detail
  types_differ : List JsonType → List JsonType → Detail
  tolerated : List JsonType → Detail

pub record ContractDrift : Type 0 where
  pub domain : String
  pub drift_kind : DriftKind
  pub path : String
  pub detail : Detail
  pub contract_tokscale_ver : String

kind_label : DriftKind → String
kind_label unknown_field = "unknown_field"
kind_label missing_field = "missing_field"
kind_label type_change = "type_change"

-- `ContractDrift.drift_key`
pub drift_key : ContractDrift → String
unfolding kind_label
drift_key drift = concat (kind_label drift.drift_kind) (concat ":" drift.path)

pub record ContractValidation : Type 0 where
  pub events : List ContractDrift
  pub fatal : Bool

pub data ContractError : Type 0 where
  unsupported_kind : String → ContractError
  unknown_kinds : ContractError
  unsupported_required : ContractError
  missing_payload : String → ContractError
  no_contract : String → ContractError

abbrev pub payload_kinds : List String
payload_kinds = "models" ∷ "graph" ∷ "pricing" ∷ "report" ∷ []

-- `_payload_kind`
pub payload_kind : String → Result ContractError String
payload_kind value = if contains payload_kinds value then ok value else err (unsupported_kind value)

-- The entry that a path of the observed payload gives.
unfoldable pub built_entry : List String → String × Seen → ContractEntry
built_entry optional_paths (path, (types, present, total)) = record {
  path = path;
  expected_types = sorted types;
  required = not (contains optional_paths path) && (present == total);
}

-- `sorted(_presence(payload).items())`: the paths are distinct, so they decide.
abbrev pub by_path : String × Seen → String × Seen → Bool
by_path a b = string_at_most a.0 b.0

unfoldable pub build_contract :
    String → Json → String → List String → Result ContractError PayloadContract
unfolding payload_kind built_entry
build_contract kind payload version optional_paths = do
  k ← payload_kind kind
  ok (record {
    payload_kind = k;
    tokscale_version = version;
    entries = map (built_entry optional_paths) (sort_by by_path (presence payload));
  })

-- `path.split(".")`: what repeated `partition(".")` takes from the path.
unfoldable pub segments : String → List String
segments String.[] = "" ∷ []
segments (String.◌∷◌ c s) = elim (segments s) [
  | [] ↦ (String.◌∷◌ c "") ∷ []
  | segment ∷ more ↦
      if String.◌∷◌ c "" == "." then "" ∷ segment ∷ more else (String.◌∷◌ c segment) ∷ more
]

-- `head[:-2]` where the head ends in `[]`
without_brackets : String → Option String
without_brackets String.[] = none
without_brackets (String.◌∷◌ c s) =
    if String.◌∷◌ c s == "[]"
    then some ""
    else elim (without_brackets s) [ none ↦ none | some t ↦ some (String.◌∷◌ c t) ]

-- `value[name]`, or the value itself where the name is empty
descend : String → Json → Option Json
descend name (object fs) = if name == "" then some (object fs) else get_field name fs
descend name value = if name == "" then some value else none

-- The part of `_empty_array_ancestor` that looks at an array's members.
empty_members : Bool → (Json → Bool) → Json → Bool
empty_members separator below (array nil) = true
empty_members separator below (array (cons x xs)) = separator && all_items below (cons x xs)
empty_members separator below _ = false

-- `_empty_array_ancestor` on the segments of the path
unfoldable pub empty_array_ancestor : List String → Json → Bool
unfolding without_brackets descend empty_members
empty_array_ancestor [] value = false
empty_array_ancestor (head ∷ tail) value =
    let below = empty_array_ancestor tail in
    let separator = not (is_empty tail) in
    elim (without_brackets head) [
      | none ↦ elim (descend head value) [ none ↦ false | some v ↦ separator && below v ]
      | some name ↦ elim (descend name value) [
        | none ↦ false
        | some v ↦ empty_members separator below v
      ]
    ]

make_event : PayloadContract → DriftKind → String → Detail → ContractDrift
make_event contract kind path detail = record {
  domain = contract.payload_kind;
  drift_kind = kind;
  path = path;
  detail = detail;
  contract_tokscale_ver = contract.tokscale_version;
}

-- `observed_types - expected`, where a whole-valued float may appear as an integer
unfoldable pub unexpected_types : ContractEntry → List JsonType → List JsonType
unexpected_types entry observed =
    let unexpected = difference observed entry.expected_types in
    if contains entry.expected_types "float" then difference unexpected ("int" ∷ []) else unexpected

-- The comparison of one expected entry with what was seen at its path: its event, if any, and
-- whether that is fatal.
unfoldable pub entry_drift : ContractEntry → Json → Option Seen → Option (DriftKind × Detail) × Bool
unfolding unexpected_types
entry_drift entry observed none =
    if empty_array_ancestor (segments entry.path) observed
    then (none, false)
    else if entry.required
    then (some (missing_field, absent entry.expected_types), true)
    else (none, false)
entry_drift entry observed (some (types, present, total)) =
    if entry.required && ltb present total
    then (some (missing_field, partly_present present total), true)
    else if not (is_empty (unexpected_types entry types))
    then (some (type_change, types_differ entry.expected_types (sorted types)), entry.required)
    else (none, false)

-- `{entry.path: entry for entry in contract.entries}`
unfoldable pub expected_entries :
    List ContractEntry → Dict String ContractEntry → Dict String ContractEntry
expected_entries [] expected = expected
expected_entries (entry ∷ entries) expected =
    expected_entries entries (insert entry.path entry expected)

-- The loop over the expected entries.
unfoldable pub diff_entries :
    PayloadContract → Json → Presence → Dict String ContractEntry → ContractValidation
unfolding make_event
diff_entries contract observed seen [] = record { events = []; fatal = false }
diff_entries contract observed seen ((path, entry) ∷ expected) =
    let rest = diff_entries contract observed seen expected in
    let (drift, fatal) = entry_drift entry observed (lookup path seen) in
    elim drift [
      | none ↦ rest
      | some (kind, detail) ↦ record {
        events = make_event contract kind path detail ∷ rest.events;
        fatal = fatal || rest.fatal;
      }
    ]

-- The loop over the observed paths.
unfoldable pub unknown_fields :
    PayloadContract → Dict String ContractEntry → Presence → List ContractDrift
unfolding make_event
unknown_fields contract expected [] = []
unknown_fields contract expected ((path, (types, present, total)) ∷ seen) =
    let rest = unknown_fields contract expected seen in
    if contains (keys expected) path
    then rest
    else make_event contract unknown_field path (tolerated (sorted types)) ∷ rest

unfoldable pub diff_contract : PayloadContract → Json → ContractValidation
unfolding expected_entries diff_entries entry_drift unknown_fields
diff_contract contract observed =
    let seen = presence observed in
    let expected = expected_entries contract.entries [] in
    let known = diff_entries contract observed seen expected in
    record { events = known.events ++ unknown_fields contract expected seen; fatal = known.fatal }

-- The loop over the observations of one kind.
unfoldable pub validate_observations : PayloadContract → List Json → ContractValidation
unfolding diff_contract
validate_observations contract [] = record { events = []; fatal = false }
validate_observations contract (observed ∷ observations) =
    let rest = validate_observations contract observations in
    let result = diff_contract contract observed in
    record { events = result.events ++ rest.events; fatal = result.fatal || rest.fatal }

abbrev pub Payloads : Type 0
Payloads = Dict String (List Json)

abbrev pub Contracts : Type 0
Contracts = Dict String PayloadContract

-- The round for one kind: an absent or an empty list of observations is refused if it is required.
unfoldable pub validate_kind :
    Bool → String → List Json → Option PayloadContract → Result ContractError ContractValidation
unfolding validate_observations
validate_kind true kind [] contract = err (missing_payload kind)
validate_kind false kind [] contract = ok (record { events = []; fatal = false })
validate_kind required kind (observed ∷ more) none = err (no_contract kind)
validate_kind required kind (observed ∷ more) (some contract) =
    ok (validate_observations contract (observed ∷ more))

-- The loop over `PAYLOAD_KINDS`.
unfoldable pub validate_kinds :
    Payloads → Contracts → List String → List String → Result ContractError ContractValidation
unfolding validate_kind
validate_kinds payloads contracts required [] = ok (record { events = []; fatal = false })
validate_kinds payloads contracts required (kind ∷ kinds) =
    let rest = validate_kinds payloads contracts required kinds in
    do
      first ←
          validate_kind (contains required kind) kind (or_else (lookup kind payloads) [])
            (lookup kind contracts)
      others ← rest
      ok (record { events = first.events ++ others.events; fatal = first.fatal || others.fatal })

-- `validate_payloads`
unfoldable pub validate_payloads :
    Payloads → Contracts → List String → Result ContractError ContractValidation
unfolding validate_kinds
validate_payloads payloads contracts required =
    if not (is_empty (difference (keys payloads) payload_kinds))
    then err unknown_kinds
    else if not (is_empty (difference required payload_kinds))
    then err unsupported_required
    else validate_kinds payloads contracts required payload_kinds
