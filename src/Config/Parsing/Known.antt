-- ===== src/Config/Parsing/Known.antt =====
-- The sections of a configuration whose keys are known: `_reject_unknown_keys` and `_table` of
-- src/usagebassoon/config.py.
use usagebassoon.Prelude.{
  String, true, Option, none, some, List, [], ◌∷◌, not, string_eq, contains, select, is_empty, ok,
  >>=-eq-ok, ◌≡◌, refl, arith,
}
use usagebassoon.Config.{
  Toml, text, boolean, whole, negative, real, odd_real, moment, array, Table, Host, keys_of,
  table_of, reject_unknown_keys,
}
use usagebassoon.Config.Sections.{TokscaleConfig, LoggingConfig, tokscale_config, logging_config}

-- A section that is absent, or a table whose keys are all among the known ones.
pub IsKnown : List String → Option Toml → Type 0
IsKnown known none = Unit
IsKnown known (some (Toml.table keyed)) = select (λ k. not (contains known k)) (keys_of keyed) ≡ []
IsKnown known (some toml) = ⊥

pub reject_unknown_keys-eq-ok :
    (keyed : Table) (name : String) (allowed_keys : List String) (result : Table)
    → reject_unknown_keys keyed name allowed_keys ≡ ok result
    → select (λ k. not (contains allowed_keys k)) (keys_of keyed) ≡ []
unfolding reject_unknown_keys
reject_unknown_keys-eq-ok keyed name allowed_keys result h =
    emptied (select (λ k. not (contains allowed_keys k)) (keys_of keyed)) (ground (arith, h))
  where
    emptied : (xs : List String) → is_empty xs ≡ true → xs ≡ []
    emptied [] e = refl
    emptied (x ∷ xs) e = cc

pub table_of-IsKnown :
    (toml : Option Toml) (name : String) (known : List String) (keyed : Table)
    → table_of toml name known ≡ ok keyed
    → IsKnown known toml
unfolding table_of IsKnown
table_of-IsKnown none name known keyed h = tt
table_of-IsKnown (some (Toml.table found)) name known keyed h =
    reject_unknown_keys-eq-ok found name known keyed h
table_of-IsKnown (some (text s)) name known keyed h = cc
table_of-IsKnown (some (boolean b)) name known keyed h = cc
table_of-IsKnown (some (whole n)) name known keyed h = cc
table_of-IsKnown (some (negative n)) name known keyed h = cc
table_of-IsKnown (some (real n)) name known keyed h = cc
table_of-IsKnown (some odd_real) name known keyed h = cc
table_of-IsKnown (some moment) name known keyed h = cc
table_of-IsKnown (some (array items)) name known keyed h = cc

abbrev pub backend_keys : List String
backend_keys = "provider" ∷ "duckdb" ∷ "motherduck" ∷ "bigquery" ∷ []

abbrev pub collection_keys : List String
collection_keys = "max_retries" ∷ "retry_initial_seconds" ∷ "schedule" ∷ []

abbrev pub snapshots_keys : List String
snapshots_keys = "local" ∷ "gcs" ∷ "schedule" ∷ "max_snapshots" ∷ "timeout" ∷ []

abbrev pub tokscale_keys : List String
tokscale_keys = "bin" ∷ "env" ∷ "timeout" ∷ "max_stdout_bytes" ∷ "max_stderr_bytes" ∷ []

abbrev pub logging_keys : List String
logging_keys = "directory" ∷ "max_files" ∷ "max_bytes" ∷ "disable" ∷ []

pub tokscale_config-IsKnown :
    (host : Host) (toml : Option Toml) (tokscale : TokscaleConfig)
    → tokscale_config host toml ≡ ok tokscale
    → IsKnown tokscale_keys toml
unfolding tokscale_config
tokscale_config-IsKnown host toml tokscale h =
    let (settings, section, h1) = >>=-eq-ok (table_of toml "tokscale" _) _ h in
    table_of-IsKnown _ _ _ _ section

pub logging_config-IsKnown :
    (host : Host) (toml : Option Toml) (logging : LoggingConfig)
    → logging_config host toml ≡ ok logging
    → IsKnown logging_keys toml
unfolding logging_config
logging_config-IsKnown host toml logging h =
    let (settings, section, h1) = >>=-eq-ok (table_of toml "logging" _) _ h in
    table_of-IsKnown _ _ _ _ section
