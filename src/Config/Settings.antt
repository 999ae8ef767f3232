-- ===== src/Config/Settings.antt =====
-- What the plain settings of src/usagebassoon/config.py guarantee when they are accepted.
use usagebassoon.Prelude.{ℕ, ◌≤◌, String, Option, none, some, List, string_eq, ok, ◌≡◌, arith}
use usagebassoon.Config.{Toml, text, whole, Host, parse_interval, duration_or, positive_int}

pub duration_or-parse_interval :
    (host : Host) (toml : Option Toml) (default : String) (units : List ℕ) (name : String)
    (result : String × ℕ)
    → duration_or host toml default units name ≡ ok result
    → parse_interval host units result.0 ≡ some result.1
unfolding duration_or
duration_or-parse_interval host none default units name result h = ground (arith, h)
duration_or-parse_interval host (some (text s)) default units name result h = ground (arith, h)
duration_or-parse_interval host (some toml) default units name result h = ground (arith, h)

pub positive_int-le :
    (toml : Option Toml) (default : ℕ) (name : String) (n : ℕ)
    → positive_int toml default name ≡ ok n
    → 1 ≤ n
unfolding positive_int
positive_int-le none default name n h = ground (arith, h)
positive_int-le (some (whole m)) default name n h = ground (arith, h)
positive_int-le (some toml) default name n h = ground (arith, h)
