-- ===== src/Report/Laws.antt =====
-- What the merge of src/usagebassoon/parsers/report.py keeps of the rows of one session.
use usagebassoon.Prelude.{
  ℕ, String, Option, none, some, List, [], ◌∷◌, ◌++◌, ◌||◌, min, max, ◌==◌, if◌then◌else◌, lookup,
  insert, contains, contains-append, lookup-insert, string_eq, pair_eq, option_eq, arith,
  Option-cases, Bool-cases, beq_refl, inl, inr, ◌≡◌, refl, sym, ◌∙◌, All, eq_iff, pair_beq_iff,
  option_beq_iff,
}
use usagebassoon.Usage.{SessionRow, Time}
use usagebassoon.Report.{
  merged_row, SessionKey, session_key, merge_models, newest_report_row, combine_times,
  merge_duplicate_session, Sessions, report_row, report_rows,
}

-- The merged models are those of either row.
contains-merge_models :
    (xs ys : List String) (m : String)
    → contains (merge_models xs ys) m ≡ (contains xs m || contains ys m)
unfolding merge_models contains
contains-merge_models xs [] m = ground arith
contains-merge_models xs (y ∷ ys) m = ground (
  arith,
  contains-merge_models (if contains xs y then xs else xs ++ y ∷ []) ys m,
  contains-append xs (y ∷ []) m,
  string_eq.beq_iff y m,
)

-- A successful merge keeps the key of the first row.
merge-key :
    (a b c : SessionRow) → merge_duplicate_session a b ≡ some c → session_key c ≡ session_key a
unfolding merge_duplicate_session newest_report_row
merge-key a b c h = ground (arith, eq_iff a.client b.client, eq_iff a.session_id b.session_id)

-- The fields of the session under the key, if it is there.
abbrev pub created_of : SessionKey → Sessions → Option Time
created_of key rows = elim (lookup key rows) [ none ↦ none | some s ↦ s.created_at ]

abbrev pub active_of : SessionKey → Sessions → Option Time
active_of key rows = elim (lookup key rows) [ none ↦ none | some s ↦ s.last_active ]

abbrev pub models_of : SessionKey → Sessions → List String
models_of key rows = elim (lookup key rows) [ none ↦ [] | some s ↦ s.models_used ]

-- The entry that a row leaves under its own key.
record Leaves (rows : Sessions) (row : SessionRow) (left : SessionRow) : Type 0 where
  created : left.created_at ≡ combine_times min (created_of (session_key row) rows) row.created_at
  active : left.last_active ≡ combine_times max (active_of (session_key row) rows) row.last_active
  models :
      (m : String)
      → contains left.models_used m
        ≡ (contains (models_of (session_key row) rows) m || contains row.models_used m)

merge-Leaves :
    (rows : Sessions) (a b c : SessionRow)
    → lookup (session_key b) rows ≡ some a
    → merge_duplicate_session a b ≡ some c
    → Leaves rows b c
unfolding merge_duplicate_session
merge-Leaves rows a b c e h = record {
  created = ground arith;
  active = ground arith;
  models = λ m. ground (arith, contains-merge_models a.models_used b.models_used m);
}

new-Leaves :
    (rows : Sessions) (b : SessionRow) → lookup (session_key b) rows ≡ none → Leaves rows b b
unfolding combine_times contains
new-Leaves rows b e = record {
  created = ground arith;
  active = ground arith;
  models = λ m. ground arith;
}

report_row-Leaves :
    (rows : Sessions) (row : SessionRow) (next : Sessions)
    → report_row rows row ≡ some next
    → (left : SessionRow) × Leaves rows row left × (next ≡ insert (session_key row) left rows)
unfolding report_row
report_row-Leaves rows row next h = elim (Option-cases (lookup (session_key row) rows)) [
  | inl new ↦ (row, new-Leaves rows row new, ground arith)
  | inr (old, e) ↦ elim (Option-cases (merge_duplicate_session old row)) [
    | inl conflict ↦ absurd (ground arith)
    | inr (merged, m) ↦ (merged, merge-Leaves rows old row merged e m, ground arith)
  ]
]

module _ (key : SessionKey) where
  -- What a reader of the payload expects: the extreme of the times that rows of the session state.
  abbrev extreme :
      (ℕ → ℕ → ℕ) → (SessionRow → Option Time) → Option Time → List SessionRow → Option Time
  extreme op time acc [] = acc
  extreme op time acc (row ∷ payload) =
      extreme op time (if session_key row == key then combine_times op acc (time row) else acc)
        payload

  row-at :
      (rows : Sessions) (row : SessionRow) (next : Sessions)
      → report_row rows row ≡ some next
      → (created_of key next ≡ (
          if session_key row == key
          then combine_times min (created_of key rows) row.created_at
          else created_of key rows))
        × (active_of key next ≡ (
            if session_key row == key
            then combine_times max (active_of key rows) row.last_active
            else active_of key rows))
  row-at rows row next h =
      let (left, l, e) = report_row-Leaves rows row next h in
      elim (Bool-cases (session_key row == key)) [
        | inl same ↦
            let k : session_key row ≡ key = (pair_beq_iff (session_key row) key).0 same in
            rw (← k) (
              ground (
                arith,
                lookup-insert (session_key row) (session_key row) left rows,
                beq_refl (session_key row),
                l.created,
                l.active,
              ))
        | inr other ↦ ground (arith, lookup-insert (session_key row) key left rows)
      ]

  -- Every successful parse leaves, for each session, the earliest creation and the latest activity
  -- that any of its rows states, and nothing for a session with no row.
  report_rows-extremes :
      (rows : Sessions) (payload : List SessionRow) (out : Sessions)
      → report_rows rows payload ≡ some out
      → (created_of key out ≡ extreme min (λ r. r.created_at) (created_of key rows) payload)
        × (active_of key out ≡ extreme max (λ r. r.last_active) (active_of key rows) payload)
  unfolding report_rows
  report_rows-extremes rows [] out h = ground arith
  report_rows-extremes rows (row ∷ payload) out h = elim (Option-cases (report_row rows row)) [
    | inl conflict ↦ absurd (ground arith)
    | inr (next, e) ↦ ground (arith, row-at rows row next e, report_rows-extremes next payload out)
  ]

-- The workspace and its label, which repeated rows of a session must share.
abbrev workspaces : SessionRow → Option String × Option String
workspaces row = (row.workspace, row.workspace_label)

module _ (agreed : SessionKey → Option String × Option String) where
  abbrev Agrees : Sessions → Type 0
  Agrees rows =
      (key : SessionKey) (s : SessionRow)
      → lookup key rows ≡ some s
      → (session_key s ≡ key) × (workspaces s ≡ agreed key)

  Agrees-insert :
      (rows : Sessions) (s : SessionRow)
      → Agrees rows
      → workspaces s ≡ agreed (session_key s)
      → Agrees (insert (session_key s) s rows)
  Agrees-insert rows s ok h key t found = elim (Bool-cases (session_key s == key)) [
    | inl same ↦
        let k : session_key s ≡ key = (pair_beq_iff (session_key s) key).0 same in
        let e : s ≡ t = ground (arith, lookup-insert (session_key s) key s rows) in
        rw (← e) (k, rw k at h)
    | inr other ↦ ok key t (ground (arith, lookup-insert (session_key s) key s rows))
  ]

  merged-agrees :
      (old row : SessionRow)
      → session_key old ≡ session_key row
      → workspaces old ≡ workspaces row
      → (merge_duplicate_session old row ≡ some (merged_row old row))
        × (session_key (merged_row old row) ≡ session_key row)
        × (workspaces (merged_row old row) ≡ workspaces row)
  unfolding merge_duplicate_session newest_report_row
  merged-agrees old row k w = ground (
    arith,
    pair_beq_iff (session_key old) (session_key row),
    eq_iff old.client row.client,
    eq_iff old.session_id row.session_id,
    option_beq_iff old.workspace row.workspace,
    option_beq_iff old.workspace_label row.workspace_label,
  )

  row-total :
      (rows : Sessions) (row : SessionRow)
      → Agrees rows
      → workspaces row ≡ agreed (session_key row)
      → (next : Sessions) × (report_row rows row ≡ some next) × Agrees next
  unfolding report_row
  row-total rows row ok h = elim (Option-cases (lookup (session_key row) rows)) [
    | inl new ↦ (insert (session_key row) row rows, ground arith, Agrees-insert rows row ok h)
    | inr (old, e) ↦
        let (k, w) = ok (session_key row) old e in
        let (m, mk, mw) = merged-agrees old row k (w ∙ sym h) in
        (
          insert (session_key row) (merged_row old row) rows,
          ground arith,
          rw (← mk) (Agrees-insert rows (merged_row old row) ok (rw (mk, mw) h)),
        )
  ]

  -- Rows that agree on the workspace of each session, and its label, always parse.
  report_rows-total :
      (rows : Sessions) (payload : List SessionRow)
      → Agrees rows
      → All (λ row. workspaces row ≡ agreed (session_key row)) payload
      → (out : Sessions) × (report_rows rows payload ≡ some out)
  unfolding report_rows
  report_rows-total rows [] ok h = (rows, refl)
  report_rows-total rows (row ∷ payload) ok h =
      let (next, e, ok') = row-total rows row ok h.0 in
      let (out, e') = report_rows-total next payload ok' h.1 in (out, ground arith)
