-- ===== src/Json.antt =====
-- JSON values as json.loads gives them, and what the webhook code uses of Python on them: dict.get,
-- bool(), str() and int(). A float is what the code makes of it: its int(), its str() and whether it is
-- zero. `Builtins` are the standard library's results that no table here gives: int() and str.upper on
-- texts outside ASCII, and repr() of a list or a dict.
pub mod Numbers
use ledger_loop.Prelude.{
  ℕ, zero, suc, ◌+◌, ◌-◌, ◌/◌, ◌%◌, String, Bool, true, false, ◌&&◌, not, Option, none, some, ◌≡◌,
  ltb, leb, ◌==◌, if◌then◌else◌, str_eq, ℤ, pos, negsuc,
}
use Prim.Native.Char.{Char, code}
use Prim.Native.String.{◌++◌ as append}
use ledger_loop.Text.{Text, codes, is_ascii, int_of}

pub record Real : Type 0 where
  pub truncated : Option ℤ
  pub printed : String
  pub nonzero : Bool

-- `Items` and `Fields` are the contents of a list and of a dict.
mutual
  pub data Json : Type 0 where
    null : Json
    bool : Bool → Json
    int : ℤ → Json
    real : Real → Json
    str : String → Json
    array : Items → Json
    object : Fields → Json

  pub data Items : Type 0 where
    no_items : Items
    item : Json → Items → Items

  pub data Fields : Type 0 where
    no_fields : Fields
    field : String → Json → Fields → Fields

pub record Builtins : Type 0 where
  pub exotic_int : Text → Option ℤ
  pub exotic_upper : String → String
  pub repr : Json → String

unfoldable pub lookup : String → Fields → Option Json
lookup key no_fields = none
lookup key (field k v rest) = let found = lookup key rest in if str_eq k key then some v else found

-- `key in value`, for a dict, and its value.
abbrev pub member : String → Json → Option Json
member key (object fields) = lookup key fields
member key _ = none

abbrev pub is_dict : Json → Bool
is_dict (object _) = true
is_dict _ = false

-- The value or, where there is none, the default.
abbrev pub or_default : Json → Option Json → Json
or_default default none = default
or_default default (some value) = value

abbrev pub truthy : Json → Bool
truthy null = false
truthy (bool b) = b
truthy (int (pos zero)) = false
truthy (int _) = true
truthy (real r) = r.nonzero
truthy (str s) = not (str_eq s "")
truthy (array no_items) = false
truthy (array _) = true
truthy (object no_fields) = false
truthy (object _) = true

-- `value or other`
abbrev pub or_else : Json → Json → Json
or_else value other = if truthy value then value else other

-- The character at an index of a text, or a default.
abbrev pub pick : ℕ → String → Char → Char
pick i String.[] c = c
pick zero (String.◌∷◌ d s) c = d
pick (suc i) (String.◌∷◌ d s) c = pick i s c

-- The decimal digits of `n` in front of a text, by fuel.
unfoldable pub text_digits : ℕ → ℕ → String → String
text_digits zero n out = out
text_digits (suc fuel) n out = elim (ltb n 10) [
  | true ↦ String.◌∷◌ (pick n "0123456789" "0") out
  | false ↦ text_digits fuel (n / 10) (String.◌∷◌ (pick (n % 10) "0123456789" "0") out)
]

unfoldable pub num_str : ℕ → String
num_str n = text_digits (suc n) n ""

abbrev pub int_str : ℤ → String
int_str (pos n) = num_str n
int_str (negsuc n) = append "-" (num_str (suc n))

abbrev pub upper_char : Char → Char
upper_char c =
    if leb 97 (code c) && leb (code c) 122
    then pick (code c - 97) "ABCDEFGHIJKLMNOPQRSTUVWXYZ" c
    else c

abbrev pub upper_ascii : String → String
upper_ascii String.[] = ""
upper_ascii (String.◌∷◌ c s) = String.◌∷◌ (upper_char c) (upper_ascii s)

-- The exceptions of int().
pub data IntError : Type 0 where
  type_error value_error : IntError

pub data IntResult : Type 0 where
  number : ℤ → IntResult
  raises : IntError → IntResult

abbrev pub or_value_error : Option ℤ → IntResult
or_value_error none = IntResult.raises IntError.value_error
or_value_error (some n) = IntResult.number n

module _ (py : Builtins) where
  -- `value.upper()`
  unfoldable pub upper : String → String
  upper s = if is_ascii (codes s) then upper_ascii s else py.exotic_upper s

  -- `str(value)`
  unfoldable pub str_of : Json → String
  str_of null = "None"
  str_of (bool true) = "True"
  str_of (bool false) = "False"
  str_of (int n) = int_str n
  str_of (real r) = r.printed
  str_of (str s) = s
  str_of (array items) = py.repr (array items)
  str_of (object fields) = py.repr (object fields)

  -- `int(value)`; the OverflowError of an infinite float counts as a ValueError, which the code treats
  -- alike.
  unfoldable pub int_value : Json → IntResult
  int_value null = IntResult.raises IntError.type_error
  int_value (bool true) = IntResult.number (pos 1)
  int_value (bool false) = IntResult.number (pos 0)
  int_value (int n) = IntResult.number n
  int_value (real r) = or_value_error r.truncated
  int_value (str s) = or_value_error (int_of py.exotic_int (codes s))
  int_value (array _) = IntResult.raises IntError.type_error
  int_value (object _) = IntResult.raises IntError.type_error
