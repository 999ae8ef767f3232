-- ===== src/Contract/Verdict.antt =====
-- When `diff_contract` and `validate_payloads` of src/usagebassoon/contracts.py give a fatal verdict.
use usagebassoon.Prelude.{
  String, Bool, true, false, Option, none, some, List, [], ◌∷◌, ◌++◌, ◌&&◌, ◌||◌, not, ltb, or_else,
  is_empty, any, Dict, lookup, keys, contains, difference, ok, string_eq, nat_eq, ◌≡◌, >>=-eq-ok,
  refl, arith, Bool-cases, inl, inr,
}
use usagebassoon.Contract.Json.{Json}
use usagebassoon.Contract.Paths.{Seen, Presence, presence}
use usagebassoon.Contract.Diff.{
  ContractEntry, PayloadContract, ContractValidation, entry_drift, unexpected_types,
  expected_entries, diff_entries, diff_contract, empty_array_ancestor, segments,
  validate_observations, validate_kind, validate_kinds, validate_payloads, payload_kinds, Payloads,
  Contracts, unknown_fields,
}

-- A required entry that the payload breaks: its path is absent, though not for want of members of
-- an array above it, or missing on some member, or of a type that the entry does not name.
abbrev pub is_broken : Json → ContractEntry → Option Seen → Bool
is_broken observed entry none =
    entry.required && not (empty_array_ancestor (segments entry.path) observed)
is_broken observed entry (some (types, present, total)) =
    entry.required && (ltb present total || not (is_empty (unexpected_types entry types)))

-- The verdict on one entry, and that a fatal one comes with an event.
entry_drift-fatal :
    (observed : Json) (entry : ContractEntry) (s : Option Seen)
    → ((entry_drift entry observed s).1 ≡ is_broken observed entry s)
      × ((entry_drift entry observed s).0 ≡ none → is_broken observed entry s ≡ false)
unfolding entry_drift
entry_drift-fatal observed entry none = (ground arith, λ h. ground arith)
entry_drift-fatal observed entry (some (types, present, total)) = (ground arith, λ h. ground arith)

module _ (contract : PayloadContract) (observed : Json) (seen : Presence) where
  abbrev breaks : String × ContractEntry → Bool
  breaks (path, entry) = is_broken observed entry (lookup path seen)

  diff_entries-fatal :
      (expected : Dict String ContractEntry)
      → let v = diff_entries contract observed seen expected in
        (v.fatal ≡ any breaks expected) × (v.fatal ≡ true → is_empty v.events ≡ false)
  unfolding diff_entries
  diff_entries-fatal [] = (refl, λ h. ground arith)
  diff_entries-fatal ((path, entry) ∷ expected) =
      let e = entry_drift-fatal observed entry (lookup path seen) in
      let ih = diff_entries-fatal expected in
      (ground (arith, e.0, e.1, ih.0), λ h. ground (arith, ih.1))

is_empty-append {ℓ} :
    {A : Type ℓ} (xs ys : List A) → is_empty xs ≡ false → is_empty (xs ++ ys) ≡ false
is_empty-append [] ys h = ground arith
is_empty-append (x ∷ xs) ys h = refl

-- A comparison is fatal exactly when the payload breaks a required entry, whatever unknown fields
-- it has and however its optional entries differ; and a fatal verdict comes with an event.
pub diff_contract-fatal :
    (contract : PayloadContract) (observed : Json)
    → let v = diff_contract contract observed in
      (v.fatal
        ≡ any
            (λ x. is_broken observed x.1 (lookup x.0 (presence observed)))
            (expected_entries contract.entries []))
      × ((v.fatal && is_empty v.events) ≡ false)
unfolding diff_contract
diff_contract-fatal contract observed =
    let seen = presence observed in
    let expected = expected_entries contract.entries [] in
    let d = diff_entries-fatal contract observed seen expected in
    (
      d.0,
      ground (
        arith,
        d.1,
        is_empty-append (diff_entries contract observed seen expected).events
            (unknown_fields contract expected seen),
      ),
    )

validate_observations-fatal :
    (contract : PayloadContract) (observations : List Json)
    → (validate_observations contract observations).fatal
      ≡ any (λ o. (diff_contract contract o).fatal) observations
unfolding validate_observations
validate_observations-fatal contract [] = refl
validate_observations-fatal contract (o ∷ observations) =
    rw (validate_observations-fatal contract observations)

-- Some observation breaks the contract.
abbrev observations_fail : List Json → Option PayloadContract → Bool
observations_fail observations none = false
observations_fail observations (some contract) =
    any (λ o. (diff_contract contract o).fatal) observations

validate_kind-fatal :
    (required : Bool) (kind : String) (observations : List Json) (found : Option PayloadContract)
    (v : ContractValidation)
    → validate_kind required kind observations found ≡ ok v
    → v.fatal ≡ observations_fail observations found
unfolding validate_kind
validate_kind-fatal true kind [] found v h = cc
validate_kind-fatal false kind [] none v h = ground arith
validate_kind-fatal false kind [] (some contract) v h = ground arith
validate_kind-fatal required kind (o ∷ more) none v h = cc
validate_kind-fatal required kind (o ∷ more) (some contract) v h =
    ground (arith, validate_observations-fatal contract (o ∷ more))

abbrev pub kind_fails : Payloads → Contracts → String → Bool
kind_fails payloads contracts kind =
    observations_fail (or_else (lookup kind payloads) []) (lookup kind contracts)

validate_kinds-fatal :
    (payloads : Payloads) (contracts : Contracts) (required kinds : List String)
    (v : ContractValidation)
    → validate_kinds payloads contracts required kinds ≡ ok v
    → v.fatal ≡ any (kind_fails payloads contracts) kinds
unfolding validate_kinds
validate_kinds-fatal payloads contracts required [] v h = ground arith
validate_kinds-fatal payloads contracts required (kind ∷ kinds) v h =
    let obs = or_else (lookup kind payloads) [] in
    let (first, e, h') =
      >>=-eq-ok (validate_kind (contains required kind) kind obs (lookup kind contracts)) _ h in
    let (others, e', h'') = >>=-eq-ok (validate_kinds payloads contracts required kinds) _ h' in
    ground (
      arith,
      h'',
      validate_kind-fatal (contains required kind) kind obs (lookup kind contracts) first e,
      validate_kinds-fatal payloads contracts required kinds others e',
    )

-- Where the aggregate of a collection's payloads is returned, it is fatal exactly when some
-- observation of some supported kind breaks the contract of its kind.
validate_payloads-fatal :
    (payloads : Payloads) (contracts : Contracts) (required : List String) (v : ContractValidation)
    → validate_payloads payloads contracts required ≡ ok v
    → v.fatal ≡ any (kind_fails payloads contracts) payload_kinds
unfolding validate_payloads
validate_payloads-fatal payloads contracts required v h =
    elim (Bool-cases (is_empty (difference (keys payloads) payload_kinds))) [
      | inl known ↦ elim (Bool-cases (is_empty (difference required payload_kinds))) [
        | inl supported ↦
            validate_kinds-fatal payloads contracts required payload_kinds v (ground arith)
        | inr unsupported ↦ absurd (ground arith)
      ]
      | inr unknown ↦ absurd (ground arith)
    ]
