-- ===== src/Contract/Tests.antt =====
-- Runs of the contract of a price payload, src/usagebassoon/contracts.py.
use usagebassoon.Prelude.{
  String, Bool, true, false, List, [], ◌∷◌, ◌&&◌, any, is_empty, lookup, ok, ◌≡◌, refl, string_eq,
}
use usagebassoon.Contract.Json.{Json, str, int, float, object, array, field, end, cons, nil}
use usagebassoon.Contract.Paths.{presence}
use usagebassoon.Contract.Diff.{
  ContractEntry, PayloadContract, ContractValidation, Contracts, Payloads, build_contract,
  diff_contract, expected_entries, payload_kinds, validate_payloads,
}
use usagebassoon.Contract.Builds.{build_contract-accepts}
use usagebassoon.Contract.Verdict.{is_broken, diff_contract-fatal}

abbrev price : Json
price =
    object
      (field "modelId" (str "opus") (field "rates" (object (field "input" (float "0.1") end)) end))

abbrev price_contract : PayloadContract
price_contract = record {
  payload_kind = "pricing";
  tokscale_version = "4.5";
  entries =
      record { path = "modelId"; expected_types = "str" ∷ []; required = true }
      ∷ record { path = "rates"; expected_types = "object" ∷ []; required = true }
      ∷ record { path = "rates.input"; expected_types = "float" ∷ []; required = true }
      ∷ [];
}

build_contract-of-price : build_contract "pricing" price "4.5" [] ≡ ok price_contract
unfolding build_contract presence usagebassoon.Prelude.contains usagebassoon.Prelude.sort_by
    usagebassoon.Contract.Paths.add_occurrence usagebassoon.Prelude.insert
    usagebassoon.Contract.Json.join_path usagebassoon.Prelude.place usagebassoon.Prelude.sorted
    lookup usagebassoon.Prelude.to_set usagebassoon.Prelude.add usagebassoon.Contract.Json.json_type
build_contract-of-price = refl

build_contract-accepts_example :
    diff_contract price_contract price ≡ record { events = []; fatal = false }
build_contract-accepts_example =
    build_contract-accepts "pricing" "4.5" price [] price_contract build_contract-of-price

-- A price without rates.
abbrev broken_price : Json
broken_price = object (field "modelId" (str "opus") (field "extra" (int "1") end))

diff_contract-of-broken : (diff_contract price_contract broken_price).fatal ≡ true
unfolding diff_contract presence usagebassoon.Prelude.insert lookup
    usagebassoon.Contract.Paths.add_occurrence usagebassoon.Contract.Json.join_path
    usagebassoon.Prelude.contains usagebassoon.Prelude.difference usagebassoon.Prelude.to_set
    usagebassoon.Prelude.add usagebassoon.Contract.Json.json_type
    usagebassoon.Contract.Diff.empty_array_ancestor usagebassoon.Contract.Diff.segments
    usagebassoon.Contract.Json.get_field
diff_contract-of-broken = refl

diff_contract-fatal_example :
    ((diff_contract price_contract broken_price).fatal
      ≡ any
          (λ x. is_broken broken_price x.1 (lookup x.0 (presence broken_price)))
          (expected_entries price_contract.entries []))
    × (((diff_contract price_contract broken_price).fatal
          && is_empty (diff_contract price_contract broken_price).events)
        ≡ false)
diff_contract-fatal_example = diff_contract-fatal price_contract broken_price

abbrev contracts : Contracts
contracts = ("pricing", price_contract) ∷ []

abbrev payloads : Payloads
payloads = ("pricing", price ∷ []) ∷ []

abbrev accepted : ContractValidation
accepted = record { events = []; fatal = false }

validate_payloads-of-price : validate_payloads payloads contracts ("pricing" ∷ []) ≡ ok accepted
unfolding validate_payloads diff_contract presence usagebassoon.Prelude.difference
    usagebassoon.Prelude.contains lookup usagebassoon.Prelude.insert
    usagebassoon.Contract.Paths.add_occurrence usagebassoon.Contract.Json.join_path
    usagebassoon.Prelude.to_set usagebassoon.Prelude.add usagebassoon.Contract.Json.json_type
validate_payloads-of-price = refl
