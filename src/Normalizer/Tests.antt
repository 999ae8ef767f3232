-- ===== src/Normalizer/Tests.antt =====
-- Runs of src/usagebassoon/normalizer.py on the bundle of two days.
use usagebassoon.Prelude.{
  ℕ, ◌+◌, String, Bool, true, false, Option, none, some, List, [], ◌∷◌, not, ◌==◌, any, length,
  is_empty, sum_of, values, All, map, string_eq, ◌≡◌, ◌≢◌, ◌⊎◌, ◌↔◌, refl,
}
use usagebassoon.Reconcile.{is_ok}
use usagebassoon.Reconcile.Tests.{}
use usagebassoon.Ingest.Tests.{two_day_bundle}
use usagebassoon.Normalizer.Facts.{StoredPrice}
use usagebassoon.Normalizer.Diagnostics.{ledger_rows}
use usagebassoon.Normalizer.Laws.{}

ledger_statuses :
    map (λ row. row.status) (ledger_rows two_day_bundle)
    ≡ "payload_drift" ∷ "complete" ∷ "partial" ∷ "failed" ∷ "partial" ∷ "complete" ∷ "failed" ∷ []
unfolding ledger_rows usagebassoon.Ingest.Bundle.build_collection_bundle
    usagebassoon.Prelude.contains usagebassoon.Prelude.lookup usagebassoon.Prelude.difference
    usagebassoon.Reconcile.reconcile_all usagebassoon.Report.parse_report
    usagebassoon.Prelude.to_set usagebassoon.Prelude.add usagebassoon.Prelude.insert
    usagebassoon.Prelude.inter usagebassoon.Prelude.union
ledger_statuses = refl

abbrev review_price : StoredPrice
review_price = record {
  source_id = "source";
  day = 10;
  model = "codex-auto-review";
  source = "LiteLLM";
  matched_key = none;
  match_kind = "exact";
  price_input_per_token = some 5;
  price_output_per_token = none;
  price_cache_read_per_token = none;
  price_cache_write_per_token = none;
  collected_at = 5;
}
