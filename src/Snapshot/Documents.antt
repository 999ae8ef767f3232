-- ===== src/Snapshot/Documents.antt =====
-- The documents of an archive: `Catalog.control` and `Catalog.state` of
-- src/usagebassoon/snapshot/catalog.py. A moment is a number of microseconds, so an instant that
-- the source keeps as ISO text is the number it stands for.
use usagebassoon.Prelude.{
  ℕ, String, Bool, Option, none, some, List, [], ◌&&◌, ◌==◌, is_some, Dict, lookup, option_eq,
  string_eq, or_else, if◌then◌else◌,
}
use usagebassoon.Usage.{Time}

-- A key that `control` does not check: it is absent (or null, where the code asks for `None`), holds
-- a value of the type that the code expects, or holds anything else.
pub data Field {ℓ} (A : Type ℓ) : Type ℓ where
  absent : Field A
  held : A → Field A
  malformed : Field A

-- One object that a retirement deletes: `{"name": ..., "version": ...}`.
pub record Reference : Type 0 where
  pub name : Field String
  pub version : Field String

-- The lifecycle record of a snapshot. `rest` is the keys that the catalog does not read.
pub record Lifecycle : Type 0 where
  pub pinned : Option Bool
  pub retired : Option Bool
  pub published : Option Bool
  pub indexed : Option Bool
  pub roles : Option (List String)
  pub revision : Field ℕ
  pub archive_id : Option String
  pub owner : Field String
  pub fence : Field ℕ
  pub captured_at : Field Time
  pub verified_at : Option Time
  pub weekly_slot : Field String
  pub cleanup : Field (List Reference)
  pub rest : Dict String String

pub record Reservation : Type 0 where
  pub owner : String
  pub fence : ℕ
  pub expires_at : Time

pub record Policy : Type 0 where
  pub max_snapshots : ℕ
  pub weekly_slots : ℕ

-- `evidence` of `record_outcome`.
pub record Evidence : Type 0 where
  pub snapshot_id : String
  pub at : Time
  pub error : Option String

-- `control.json`.
pub record Control : Type 0 where
  pub fence : ℕ
  pub reservation : Option Reservation
  pub archive_id : Option String
  pub policy : Option Policy
  pub records : Option (Dict String Lifecycle)
  pub last_success : Option Evidence
  pub last_failure : Option Evidence
  pub repair_warnings : List String

-- What `control` returns where the archive has no control document.
abbrev pub no_control : Control
no_control = record {
  fence = 0;
  reservation = none;
  archive_id = none;
  policy = none;
  records = none;
  last_success = none;
  last_failure = none;
  repair_warnings = [];
}

-- `document.get("records", {})`
abbrev pub records_of : Control → Dict String Lifecycle
records_of document = or_else document.records []

-- The errors that the catalog raises, by the class of the exception.
pub data Error : Type 0 where
  archive_busy value_error key_error precondition_error operation_timeout bucket_error : Error

-- `state`: the record of the control document, or else the sidecar unless it is of this archive.
pub state : String → Dict String Lifecycle → Control → Option Lifecycle
state identifier portable document = elim (lookup identifier (records_of document)) [
  | some recorded ↦ some recorded
  | none ↦ elim (lookup identifier portable) [
    | none ↦ none
    | some sidecar ↦
        if is_some document.archive_id && (sidecar.archive_id == document.archive_id)
        then none
        else some sidecar
  ]
]
