-- ===== src/Config/Parsing/Accepted.antt =====
-- About the configurations that `_parse_config` of src/usagebassoon/config.py returns.
use mathlib.Core.Path.{subst}
use usagebassoon.Config.Parsing.Known.{
  IsKnown, reject_unknown_keys-eq-ok, table_of-IsKnown, backend_keys, collection_keys,
  snapshots_keys, tokscale_keys, logging_keys, tokscale_config-IsKnown, logging_config-IsKnown,
}
use usagebassoon.Queries.{is_simple_identifier}
use usagebassoon.Prelude.{
  ◌+◌, ◌≤◌, ◌<◌, String, Bool, true, false, Option, some, List, [], ◌&&◌, not, all, string_eq, leb,
  contains, select, is_empty, Result, ok, >>=-eq-ok, ◌≡◌, refl, sym, arith, Bool-cases, inl, inr,
  or_else,
}
use usagebassoon.Config.{
  Toml, text, Table, Host, get, keys_of, table_of, reject_unknown_keys, required_string,
  parse_interval,
}
use usagebassoon.Config.Sections.{
  CollectionConfig, TokscaleConfig, StorageConfig, supported_backends, tokscale_config,
  collection_config, logging_config, storage_config, units_mh, distinct,
}
use usagebassoon.Config.Archives.{snapshots_config}
use usagebassoon.Config.Sections.Settings.{
  collection_config-interval, tokscale_config-env, provider_of, storage_config-provider_of,
}
use usagebassoon.Config.Archives.Settings.{snapshots_config-le}
use usagebassoon.Config.Parsing.{
  UsagebassoonConfig, root_keys, tokscale_cleanup, checked, canonical_id, override,
  timed_collection, parse_sections, parse_config,
}

-- A result with one value has it only.
ok-inj : {E A : Type 0} → (a b : A) → (◌≡◌ {A = Result E A} (ok a) (ok b)) → a ≡ b
ok-inj a b e = cc

checked-eq-ok : (b : Bool) (name : String) (value : Bool) → checked b name ≡ ok value → b ≡ true
unfolding checked
checked-eq-ok true name value h = refl
checked-eq-ok false name value h = cc

-- A collection whose interval is what its text says, and longer than a command and its cleanup.
IsTimed : Host → TokscaleConfig → CollectionConfig → Type 0
IsTimed host tokscale collection =
    (parse_interval host units_mh collection.interval ≡ some collection.interval_length)
    × (tokscale.timeout + tokscale_cleanup < collection.interval_length)

timed_collection-IsTimed :
    (host : Host) (tokscale : TokscaleConfig) (schedule_interval : Option String)
    (toml : Option Toml) (collection : CollectionConfig)
    → timed_collection host tokscale schedule_interval toml ≡ ok collection
    → IsTimed host tokscale collection × IsKnown collection_keys toml
unfolding timed_collection IsTimed
timed_collection-IsTimed host tokscale schedule_interval toml collection h =
    let (keyed, section, h1) = >>=-eq-ok (table_of toml "collection" _) _ h in
    let (chosen, _, h2) = >>=-eq-ok (override schedule_interval "collection.schedule" keyed) _ h1 in
    let (found, made, h3) = >>=-eq-ok (collection_config host chosen) _ h2 in
    let (long, enough, h4) =
      >>=-eq-ok
        (checked (not (leb found.interval_length (tokscale.timeout + tokscale_cleanup)))
          "collection.schedule.interval")
        _ h3 in
    let same : found ≡ collection = ground (arith, h4) in
    let longer = checked-eq-ok _ _ _ enough in
    let known = collection_config-interval host chosen found made in
    (
      subst (IsTimed host tokscale) same (known, ground (arith, longer)),
      table_of-IsKnown _ _ _ _ section,
    )

-- The part of it that the sections after the backend make.
pub record IsBuilt (host : Host) (root : Table) (source_id : String) (storage : StorageConfig)
    (config : UsagebassoonConfig) : Type 0 where
  pub source_kept : source_id ≡ config.source_id
  pub storage_kept : storage ≡ config.storage
  pub collection_known : IsKnown collection_keys (get "collection" root)
  pub snapshots_known : IsKnown snapshots_keys (get "snapshots" root)
  pub tokscale_known : IsKnown tokscale_keys (get "tokscale" root)
  pub logging_known : IsKnown logging_keys (get "logging" root)
  pub timed :
      parse_interval host units_mh config.collection.interval
      ≡ some config.collection.interval_length
  pub spaced : config.tokscale.timeout + tokscale_cleanup < config.collection.interval_length
  pub named : (distinct config.tokscale.env && all is_simple_identifier config.tokscale.env) ≡ true
  pub kept : 1 ≤ config.snapshots.max_snapshots

parse_sections-IsBuilt :
    (host : Host) (root : Table) (schedule_interval snapshot_interval : Option String)
    (spinner source_id : String) (storage : StorageConfig) (config : UsagebassoonConfig)
    → parse_sections host root schedule_interval snapshot_interval spinner source_id storage
      ≡ ok config
    → IsBuilt host root source_id storage config
unfolding parse_sections
parse_sections-IsBuilt host root schedule_interval snapshot_interval spinner source_id storage
      config h =
    let (tokscale, ran, h10) = >>=-eq-ok (tokscale_config host (get "tokscale" root)) _ h in
    let (collection, timed, h11) =
      >>=-eq-ok (timed_collection host tokscale schedule_interval (get "collection" root)) _ h10 in
    let (snapshots, archives_section, h12) =
      >>=-eq-ok (table_of (get "snapshots" root) "snapshots" _) _ h11 in
    let (chosen, _, h13) =
      >>=-eq-ok (override snapshot_interval "snapshots.schedule" snapshots) _ h12 in
    let (logging, logged, h14) = >>=-eq-ok (logging_config host (get "logging" root)) _ h13 in
    let (archives, archived, h15) = >>=-eq-ok (snapshots_config host chosen) _ h14 in
    let is_timed =
      timed_collection-IsTimed host tokscale schedule_interval (get "collection" root) collection
        timed in
    subst (IsBuilt host root source_id storage) (ok-inj _ config h15) (record {
      source_kept = refl;
      storage_kept = refl;
      collection_known = is_timed.1;
      snapshots_known = table_of-IsKnown _ _ _ _ archives_section;
      tokscale_known = tokscale_config-IsKnown host (get "tokscale" root) tokscale ran;
      logging_known = logging_config-IsKnown host (get "logging" root) logging logged;
      timed = unfold IsTimed in is_timed.0.0;
      spaced = unfold IsTimed in is_timed.0.1;
      named = tokscale_config-env host (get "tokscale" root) tokscale ran;
      kept = snapshots_config-le host chosen archives archived;
    })

-- A configuration that may be used, and its file.
pub record IsAccepted (host : Host) (payload : Table) (config : UsagebassoonConfig) : Type 0 where
  pub known : select (λ k. not (contains root_keys k)) (keys_of payload) ≡ []
  pub collection_known : IsKnown collection_keys (get "collection" payload)
  pub snapshots_known : IsKnown snapshots_keys (get "snapshots" payload)
  pub tokscale_known : IsKnown tokscale_keys (get "tokscale" payload)
  pub logging_known : IsKnown logging_keys (get "logging" payload)
  pub backend_known : IsKnown backend_keys (get "backend" payload)
  pub backends : Table
  pub found : table_of (get "backend" payload) "backend" backend_keys ≡ ok backends
  pub selected :
      required_string (some (or_else (get "provider" backends) (text "duckdb"))) "backend.provider"
      ≡ ok (provider_of config.storage)
  pub provider : contains supported_backends (provider_of config.storage) ≡ true
  pub source : String
  pub named_source : required_string (get "source_id" payload) "source_id" ≡ ok source
  pub canonical : canonical_id host source ≡ ok config.source_id
  pub timed :
      parse_interval host units_mh config.collection.interval
      ≡ some config.collection.interval_length
  pub spaced : config.tokscale.timeout + tokscale_cleanup < config.collection.interval_length
  pub named : (distinct config.tokscale.env && all is_simple_identifier config.tokscale.env) ≡ true
  pub kept : 1 ≤ config.snapshots.max_snapshots

reject_unknown_keys-same :
    (keyed : Table) (name : String) (allowed_keys : List String) (result : Table)
    → reject_unknown_keys keyed name allowed_keys ≡ ok result
    → keyed ≡ result
unfolding reject_unknown_keys
reject_unknown_keys-same keyed name allowed_keys result h =
    elim (Bool-cases (is_empty (select (λ k. not (contains allowed_keys k)) (keys_of keyed)))) [
      | inl e ↦ ground (arith, h, e)
      | inr e ↦ ground (arith, h, e)
    ]

accepted :
    (host : Host) (payload root backends : Table) (source source_id backend : String)
    (storage : StorageConfig) (config : UsagebassoonConfig)
    → payload ≡ root
    → select (λ k. not (contains root_keys k)) (keys_of payload) ≡ []
    → table_of (get "backend" root) "backend" backend_keys ≡ ok backends
    → required_string (some (or_else (get "provider" backends) (text "duckdb"))) "backend.provider"
      ≡ ok backend
    → contains supported_backends backend ≡ true
    → required_string (get "source_id" root) "source_id" ≡ ok source
    → canonical_id host source ≡ ok source_id
    → provider_of storage ≡ backend
    → IsBuilt host root source_id storage config
    → IsAccepted host payload config
accepted host payload root backends source source_id backend storage config same known found
      selected supported named_source canonical provider built =
    let selects : backend ≡ provider_of config.storage =
      (let kept_storage = built.storage_kept in cc) in
    record {
      known = known;
      collection_known =
          subst (λ t. IsKnown collection_keys (get "collection" t)) (sym same)
            built.collection_known;
      snapshots_known =
          subst (λ t. IsKnown snapshots_keys (get "snapshots" t)) (sym same) built.snapshots_known;
      tokscale_known =
          subst (λ t. IsKnown tokscale_keys (get "tokscale" t)) (sym same) built.tokscale_known;
      logging_known =
          subst (λ t. IsKnown logging_keys (get "logging" t)) (sym same) built.logging_known;
      backend_known =
          subst (λ t. IsKnown backend_keys (get "backend" t)) (sym same)
            (table_of-IsKnown _ _ _ _ found);
      backends = backends;
      found = cc;
      selected = cc;
      provider = subst (λ name. contains supported_backends name ≡ true) selects supported;
      source = source;
      named_source = cc;
      canonical = (let kept_source = built.source_kept in cc);
      timed = built.timed;
      spaced = built.spaced;
      named = built.named;
      kept = built.kept;
    }

pub parse_config-IsAccepted :
    (host : Host) (payload : Table) (schedule_interval snapshot_interval : Option String)
    (config : UsagebassoonConfig)
    → parse_config host payload schedule_interval snapshot_interval ≡ ok config
    → IsAccepted host payload config
unfolding parse_config
parse_config-IsAccepted host payload schedule_interval snapshot_interval config h =
    let (root, keyed, h1) = >>=-eq-ok (reject_unknown_keys payload "root" root_keys) _ h in
    let (spinner, _, h2) =
      >>=-eq-ok (required_string (some (or_else (get "spinner" root) (text "pong"))) "spinner") _
        h1 in
    let (spun, _, h3) = >>=-eq-ok (checked (contains host.spinners spinner) "spinner") _ h2 in
    let (source, named_source, h4) =
      >>=-eq-ok (required_string (get "source_id" root) "source_id") _ h3 in
    let (backends, found, h5) = >>=-eq-ok (table_of (get "backend" root) "backend" _) _ h4 in
    let (backend, selected, h6) =
      >>=-eq-ok
        (required_string (some (or_else (get "provider" backends) (text "duckdb")))
          "backend.provider")
        _ h5 in
    let (is_supported, supported, h7) =
      >>=-eq-ok (checked (contains supported_backends backend) "backend.provider") _ h6 in
    let (source_id, canonical, h8) = >>=-eq-ok (canonical_id host source) _ h7 in
    let (storage, stored, h9) = >>=-eq-ok (storage_config host backend backends) _ h8 in
    let known_backend = checked-eq-ok _ _ _ supported in
    accepted host payload root backends source source_id backend storage config
      (reject_unknown_keys-same payload "root" root_keys root keyed)
      (reject_unknown_keys-eq-ok payload "root" root_keys root keyed) found selected known_backend
      named_source canonical
      (storage_config-provider_of host backend backends storage known_backend stored)
      (parse_sections-IsBuilt host root schedule_interval snapshot_interval spinner source_id
        storage config h9)
