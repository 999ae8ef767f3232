-- ===== src/Config.antt =====
-- The decoded configuration file and its plain settings: `_reject_unknown_keys`, `_table`, `_string` and
-- the like, and `parse_interval`, of src/usagebassoon/config.py.
pub mod Settings
pub mod Sections
pub mod Archives
pub mod Parsing
pub mod Schedules
mod Tests
use Prim.Native.Char.{code}
use usagebassoon.Prelude.{
  ℕ, zero, suc, ◌+◌, ◌*◌, String, Bool, true, false, Option, none, some, List, [], ◌∷◌, ◌&&◌, ◌||◌,
  not, all, any, ◌==◌, string_eq, nat_eq, leb, contains, is_empty, select, if◌then◌else◌, Result,
  ok, err, ◌>>=◌,
}

-- A value of TOML as Python decodes it. A float that is positive and finite is a number of millionths:
-- a finer one is left out.
mutual
  pub data Toml : Type 0 where
    text : String → Toml
    boolean : Bool → Toml
    whole : ℕ → Toml
    negative : ℕ → Toml
    real : ℕ → Toml
    odd_real : Toml
    moment : Toml
    array : Values → Toml
    table : Table → Toml

  pub data Values : Type 0 where
    no_values : Values
    value : Toml → Values → Values

  pub data Table : Type 0 where
    no_keys : Table
    key : String → Toml → Table → Table

pub data ConfigError : Type 0 where
  unknown_keys : String → List String → ConfigError
  invalid : String → ConfigError
  missing : String → ConfigError

-- What the libraries and the host give: the reading of an amount of so many seconds in microseconds,
-- the expansion of a path, the default places, the spinners, the form of a UUID, and for archives
-- whether a URI is accepted and whether an emulator is set.
pub record Host : Type 0 where
  pub measure : String → ℕ → Option ℕ
  pub expand : String → String
  pub log_directory : String
  pub snapshot_directory : String
  pub local_database : String
  pub spinners : List String
  pub canonical : String → Option String
  pub accepts_gcs : String → Bool
  pub is_emulated : Bool

-- `table.get(name)`
pub get : String → Table → Option Toml
get name no_keys = none
get name (key k toml rest) = if k == name then some toml else get name rest

pub keys_of : Table → List String
keys_of no_keys = []
keys_of (key k toml rest) = k ∷ keys_of rest

-- `{**table, name: toml}`
pub with_key : String → Toml → Table → Table
with_key name toml no_keys = key name toml no_keys
with_key name toml (key k old rest) =
    if k == name then key k toml rest else key k old (with_key name toml rest)

-- `_reject_unknown_keys`. The keys of the error stand in the order of the file; the source sorts them.
pub reject_unknown_keys : Table → String → List String → Result ConfigError Table
unfolding keys_of
reject_unknown_keys keyed name allowed_keys =
    let unknown = select (λ k. not (contains allowed_keys k)) (keys_of keyed) in
    if is_empty unknown then ok keyed else err (unknown_keys name unknown)

-- `_table`
pub table_of : Option Toml → String → List String → Result ConfigError Table
unfolding reject_unknown_keys
table_of none name allowed_keys = ok no_keys
table_of (some (table keyed)) name allowed_keys = reject_unknown_keys keyed name allowed_keys
table_of (some toml) name allowed_keys = err (invalid name)

-- The characters that `str.strip` takes away.
is_space : ℕ → Bool
is_space c =
    (leb 9 c && leb c 13)
    || (leb 28 c && leb c 32)
    || (leb 8192 c && leb c 8202)
    || contains (133 ∷ 160 ∷ 5760 ∷ 8232 ∷ 8233 ∷ 8239 ∷ 8287 ∷ 12288 ∷ []) c

-- `not value.strip()`
pub is_blank : String → Bool
unfolding is_space
is_blank String.[] = true
is_blank (String.◌∷◌ c s) = is_space (code c) && is_blank s

-- `_string`, for a setting that may be absent and for one that may not.
pub optional_string : Option Toml → String → Result ConfigError (Option String)
unfolding is_blank
optional_string none name = ok none
optional_string (some (text s)) name = if is_blank s then err (invalid name) else ok (some s)
optional_string (some toml) name = err (invalid name)

pub required_string : Option Toml → String → Result ConfigError String
unfolding is_blank
required_string none name = err (missing name)
required_string (some (text s)) name = if is_blank s then err (invalid name) else ok s
required_string (some toml) name = err (invalid name)

-- `_boolean(table.get(key, False), name)`
pub boolean_or_false : Option Toml → String → Result ConfigError Bool
boolean_or_false none name = ok false
boolean_or_false (some (boolean b)) name = ok b
boolean_or_false (some toml) name = err (invalid name)

-- `_positive_int(table.get(key, default), name)`
pub positive_int : Option Toml → ℕ → String → Result ConfigError ℕ
positive_int none default name = if leb 1 default then ok default else err (invalid name)
positive_int (some (whole n)) default name = if leb 1 n then ok n else err (invalid name)
positive_int (some toml) default name = err (invalid name)

-- A digit of ASCII. The digits of other scripts, which `\d` takes too, are left out.
is_digit : ℕ → Bool
is_digit c = leb b'0' c && leb c b'9'

-- What follows the digits at the front of a text, and whether there is one.
after_digits : String → String
unfolding is_digit
after_digits String.[] = ""
after_digits (String.◌∷◌ c s) =
    let rest = after_digits s in if is_digit (code c) then rest else String.◌∷◌ c s

starts_with_digit : String → Bool
unfolding is_digit
starts_with_digit String.[] = false
starts_with_digit (String.◌∷◌ c s) = is_digit (code c)

-- What follows the amount of an interval, `\d+(?:\.\d+)?`, if there is one.
after_fraction : String → Option String
unfolding starts_with_digit after_digits
after_fraction String.[] = some ""
after_fraction (String.◌∷◌ c s) =
    if code c == b'.'
    then (if starts_with_digit s then some (after_digits s) else none)
    else some (String.◌∷◌ c s)

after_amount : String → Option String
unfolding after_fraction starts_with_digit after_digits
after_amount s = if starts_with_digit s then after_fraction (after_digits s) else none

-- The seconds of a unit, in either case, if it is among those that are permitted.
unit_seconds : String → List ℕ → Option ℕ
unit_seconds (String.◌∷◌ c String.[]) units =
    let lower = if leb b'A' (code c) && leb (code c) b'Z' then code c + 32 else code c in
    if not (contains units lower)
    then none
    else if lower == b's'
    then some 1
    else if lower == b'm'
    then some 60
    else if lower == b'h'
    then some 3600
    else if lower == b'd'
    then some 86400
    else none
unit_seconds _ units = none

-- `parse_interval` of a text, in microseconds. The amount is what stands before the unit.
pub parse_interval : Host → List ℕ → String → Option ℕ
unfolding after_amount unit_seconds
parse_interval host units s = elim (after_amount s) [
  | none ↦ none
  | some unit ↦ elim (unit_seconds unit units) [
    | none ↦ none
    | some seconds ↦ elim (host.measure s seconds) [
      | none ↦ none
      | some zero ↦ none
      | some (suc n) ↦ some (suc n)
    ]
  ]
]

-- `_duration(table.get(key, default), name, units=units)`: the text and its microseconds.
pub duration_or : Host → Option Toml → String → List ℕ → String → Result ConfigError (String × ℕ)
unfolding parse_interval is_blank
duration_or host none default units name = elim (parse_interval host units default) [
  | none ↦ err (invalid name)
  | some n ↦ ok (default, n)
]
duration_or host (some (text s)) default units name =
    if is_blank s
    then err (invalid name)
    else elim (parse_interval host units s) [ none ↦ err (invalid name) | some n ↦ ok (s, n) ]
duration_or host (some toml) default units name = err (invalid name)
