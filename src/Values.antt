-- ===== src/Values.antt =====
-- The JSON values that src/coda_node/server/config.py and src/coda_node/vpn/service.py read and write.
use coda_self_service.Prelude.{
  String, Bool, true, false, Option, none, some, List, [], ◌∷◌, ◌==◌, not, if◌then◌else◌,
}
use coda_self_service.Prelude.Int.{ℤ, pos, negsuc}
use coda_self_service.Prelude.Text.{is_blank}

-- A value of the decoded JSON; of a value of another type, whether it counts as true.
pub data Value : Type 0 where
  null : Value
  bool : Bool → Value
  int : ℤ → Value
  str : String → Value
  strings : List String → Value
  other : Bool → Value

abbrev pub Dict : Type 0
Dict = List (String × Value)

-- `isinstance(value, str) and value`
abbrev pub nonempty_str : Option Value → Option String
nonempty_str none = none
nonempty_str (some (str s)) = if is_blank s then none else some s
nonempty_str (some _) = none

-- the truth of a value
abbrev pub is_true : Value → Bool
is_true null = false
is_true (bool b) = b
is_true (int (pos n)) = not (n == 0)
is_true (int (negsuc n)) = true
is_true (str s) = not (is_blank s)
is_true (strings []) = false
is_true (strings (s ∷ ss)) = true
is_true (other b) = b
