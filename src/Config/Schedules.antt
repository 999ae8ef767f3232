-- ===== src/Config/Schedules.antt =====
-- The lines of a configuration file with one schedule replaced: `update_schedule_interval` of
-- src/usagebassoon/config.py. The file is the list of its lines, each with its end.
mod Tests
use Prim.Native.Char.{code}
use usagebassoon.Prelude.{
  ℕ, zero, suc, String, Bool, true, false, Option, none, some, List, [], ◌∷◌, ◌++◌, ◌&&◌, ◌||◌, not,
  ◌==◌, nat_eq, is_some, if◌then◌else◌, Result, ok, err,
}
use usagebassoon.Config.{Host, is_space, is_blank, parse_interval}
use usagebassoon.Config.Sections.{units_mh}
use usagebassoon.Config.Archives.{units_mhd}

pub data Domain : Type 0 where
  collection : Domain
  snapshots : Domain

pub data ScheduleError : Type 0 where
  invalid_interval : Domain → ScheduleError

-- `first + second`
pub append : String → String → String
append String.[] second = second
append (String.◌∷◌ c first) second = String.◌∷◌ c (append first second)

-- `f"[{name}]"`
pub header : Domain → String
header collection = "[collection.schedule]"
header snapshots = "[snapshots.schedule]"

-- What follows a text in front of another.
pub after : String → String → Option String
after String.[] s = some s
after (String.◌∷◌ c p) String.[] = none
after (String.◌∷◌ c p) (String.◌∷◌ d s) =
    let rest = after p s in if code c == code d then rest else none

-- What follows `\s*`.
pub after_space : String → String
after_space String.[] = String.[]
after_space (String.◌∷◌ c s) =
    let rest = after_space s in if is_space (code c) then rest else String.◌∷◌ c s

is_comment : String → Bool
is_comment String.[] = true
is_comment (String.◌∷◌ c s) = code c == b'#'

-- Whether a line is the header of the section, `\s*\[name\]\s*(?:#.*)?(?:\r?\n)?`.
pub is_header : Domain → String → Bool
unfolding after after_space is_comment header
is_header domain line = elim (after (header domain) (after_space line)) [
  | none ↦ false
  | some rest ↦ is_comment (after_space rest)
]

has_bracket : String → Bool
has_bracket String.[] = false
has_bracket (String.◌∷◌ c s) = (code c == b']') || has_bracket s

-- Whether a line begins a table, `\s*\[.*\]`.
pub is_table : String → Bool
unfolding after after_space has_bracket
is_table line = elim (after "[" (after_space line)) [ none ↦ false | some rest ↦ has_bracket rest ]

-- Whether a line sets the interval, `\s*interval\s*=`.
pub is_interval : String → Bool
unfolding after after_space
is_interval line = elim (after "interval" (after_space line)) [
  | none ↦ false
  | some rest ↦ is_some (after "=" (after_space rest))
]

-- What the loop finds: whether there is the section, the line it ends before, and its last interval.
pub record Place : Type 0 where
  pub found : Bool
  pub finish : ℕ
  pub line : Option ℕ

pub is_end : Domain → Bool → String → Bool
is_end domain found line = not (is_header domain line) && found && is_table line

pub is_setting : Domain → Bool → String → Bool
is_setting domain found line = not (is_header domain line) && found && is_interval line

-- The loop over the lines from an index on.
pub locate : Domain → List String → ℕ → Bool → Option ℕ → Place
locate domain [] index found line = record { found = found; finish = index; line = line }
locate domain (text ∷ rest) index found line =
    let later =
      locate domain rest (suc index) (is_header domain text || found)
        (if is_setting domain found text then some index else line) in
    if is_end domain found text
    then record { found = found; finish = index; line = line }
    else later

-- `lines[index] = line`
pub set_at : ℕ → String → List String → List String
set_at index line [] = []
set_at zero line (text ∷ rest) = line ∷ rest
set_at (suc index) line (text ∷ rest) = text ∷ set_at index line rest

-- `lines.insert(index, line)`
pub insert_at : ℕ → String → List String → List String
insert_at index line [] = line ∷ []
insert_at zero line (text ∷ rest) = line ∷ text ∷ rest
insert_at (suc index) line (text ∷ rest) = text ∷ insert_at index line rest

-- `line.endswith(("\n", "\r"))`, after the end of what stands in front.
pub ends_from : Bool → String → Bool
ends_from ended String.[] = ended
ends_from ended (String.◌∷◌ c s) = ends_from ((code c == 10) || (code c == 13)) s

pub is_ended : String → Bool
unfolding ends_from
is_ended line = ends_from false line

-- The last line with an end.
pub end_last : List String → List String
unfolding is_ended append
end_last [] = []
end_last (text ∷ []) = (if is_ended text then text else append text "\n") ∷ []
end_last (text ∷ next ∷ rest) = text ∷ end_last (next ∷ rest)

-- An empty line, unless the last line is one.
pub gap : List String → List String
unfolding is_blank
gap [] = []
gap (text ∷ []) = if is_blank text then [] else "\n" ∷ []
gap (text ∷ next ∷ rest) = gap (next ∷ rest)

-- `replacement`
pub setting : String → String
unfolding append
setting interval = append "interval = \"" (append interval "\"\n")

pub place_setting : Domain → String → List String → List String
unfolding locate set_at insert_at end_last gap header
place_setting domain line lines =
    let place = locate domain lines 0 false none in
    elim place.line [
      | some index ↦ set_at index line lines
      | none ↦
          if place.found
          then insert_at place.finish line lines
          else end_last lines ++ (gap lines ++ append (header domain) "\n" ∷ line ∷ [])
    ]

units_of : Domain → List ℕ
units_of collection = units_mh
units_of snapshots = units_mhd

-- `update_schedule_interval`
pub update_schedule_interval :
    Host → Domain → String → List String → Result ScheduleError (List String)
unfolding place_setting setting units_of parse_interval
update_schedule_interval host domain interval lines =
    if is_some (parse_interval host (units_of domain) interval)
    then ok (place_setting domain (setting interval) lines)
    else err (invalid_interval domain)
