-- ===== src/Text.antt =====
-- The texts of a request as lists of character codes, and what the webhook and read code uses of
-- Python on them: str.strip, str.partition, str.split, str.encode, str() and int() of a number. The
-- encoding is UTF-8 of a text without surrogates, as a header's text is. `exotic` is int() on a text with
-- a character outside ASCII, where the digits and spaces of every script count; it is an argument.
pub mod Decimal
use ledger_loop.Prelude.{
  ℕ, zero, suc, ◌+◌, ◌-◌, ◌*◌, ◌/◌, ◌%◌, String, Bool, true, false, ◌&&◌, ◌||◌, Option, none, some,
  List, [], ◌∷◌, ◌++◌, ltb, leb, ◌==◌, if◌then◌else◌, length, filter, ℤ, pos, negsuc,
}
use Prim.Native.Char.{code}

abbrev pub Text : Type 0
Text = List ℕ

-- The codes of a literal.
abbrev pub codes : String → Text
codes String.[] = []
codes (String.◌∷◌ c s) = code c ∷ codes s

abbrev pub text_eq : Text → Text → Bool
text_eq [] [] = true
text_eq (a ∷ s) (b ∷ t) = (a == b) && text_eq s t
text_eq _ _ = false

abbrev pub is_empty : Text → Bool
is_empty [] = true
is_empty (c ∷ cs) = false

abbrev pub is_ascii : Text → Bool
is_ascii [] = true
is_ascii (c ∷ cs) = ltb c 128 && is_ascii cs

-- str.isspace of one character.
abbrev pub is_space : ℕ → Bool
is_space c =
    (leb 9 c && leb c 13)
    || (leb 28 c && leb c 32)
    || (c == 133)
    || (c == 160)
    || (c == 5760)
    || (leb 8192 c && leb c 8202)
    || (c == 8232)
    || (c == 8233)
    || (c == 8239)
    || (c == 8287)
    || (c == 12288)

module _ (space : ℕ → Bool) where
  abbrev pub lstrip_by : Text → Text
  lstrip_by [] = []
  lstrip_by (c ∷ cs) = if space c then lstrip_by cs else c ∷ cs

  abbrev pub rstrip_by : Text → Text
  rstrip_by [] = []
  rstrip_by (c ∷ cs) = let rest = rstrip_by cs in if is_empty rest && space c then [] else c ∷ rest

  abbrev pub strip_by : Text → Text
  strip_by s = rstrip_by (lstrip_by s)

unfoldable pub strip : Text → Text
strip s = strip_by is_space s

-- `s.partition(sep)`, with a separator of one character: what stands before it, whether it is there,
-- and what follows it.
unfoldable pub partition : ℕ → Text → Text × Bool × Text
partition sep [] = ([], false, [])
partition sep (c ∷ cs) =
    let (before, found, after) = partition sep cs in
    if c == sep then ([], true, cs) else (c ∷ before, found, after)

-- Puts a character in front of the first part.
abbrev pub onto_first : ℕ → List Text → List Text
onto_first c [] = (c ∷ []) ∷ []
onto_first c (part ∷ parts) = (c ∷ part) ∷ parts

-- `s.split(sep)`, with a separator of one character.
unfoldable pub split : ℕ → Text → List Text
split sep [] = [] ∷ []
split sep (c ∷ cs) = let rest = split sep cs in if c == sep then [] ∷ rest else onto_first c rest

-- UTF-8 of one character.
abbrev pub encode_char : ℕ → List ℕ
encode_char c =
    if ltb c 128
    then c ∷ []
    else if ltb c 2048
    then (192 + c / 64) ∷ (128 + c % 64) ∷ []
    else if ltb c 65536
    then (224 + c / 4096) ∷ (128 + c / 64 % 64) ∷ (128 + c % 64) ∷ []
    else (240 + c / 262144) ∷ (128 + c / 4096 % 64) ∷ (128 + c / 64 % 64) ∷ (128 + c % 64) ∷ []

unfoldable pub encode : Text → List ℕ
encode [] = []
encode (c ∷ cs) = encode_char c ++ encode cs

abbrev pub is_digit : ℕ → Bool
is_digit c = leb 48 c && leb c 57

pub data Kind : Type 0 where
  digit : ℕ → Kind
  underscore : Kind
  other : Kind

abbrev pub kind_of : ℕ → Kind
kind_of c =
    if is_digit c then Kind.digit (c - 48) else if c == b'_' then Kind.underscore else Kind.other

-- The digits of int(), with single underscores between them; `pending` says that a digit must come.
unfoldable pub scan : Text → Bool → ℕ → Option ℕ
scan [] pending n = if pending then none else some n
scan (c ∷ cs) pending n = elim (kind_of c) [
  | Kind.digit d ↦ scan cs false (n * 10 + d)
  | Kind.underscore ↦ elim pending [ true ↦ none | false ↦ scan cs true n ]
  | Kind.other ↦ none
]

-- The limit of sys.set_int_max_str_digits.
abbrev pub max_digits : ℕ
max_digits = 4300

-- Digits without a sign; a text of too many digits is refused.
unfoldable pub magnitude_of : Text → Option ℕ
magnitude_of s = if ltb max_digits (length (filter is_digit s)) then none else scan s true 0

abbrev pub as_positive : Option ℕ → Option ℤ
as_positive none = none
as_positive (some n) = some (pos n)

abbrev pub as_negative : Option ℕ → Option ℤ
as_negative none = none
as_negative (some zero) = some (pos 0)
as_negative (some (suc n)) = some (negsuc n)

unfoldable pub signed : Text → Option ℤ
signed [] = none
signed (c ∷ cs) =
    if c == b'-'
    then as_negative (magnitude_of cs)
    else if c == b'+'
    then as_positive (magnitude_of cs)
    else as_positive (magnitude_of (c ∷ cs))

-- The spaces that int() skips around the digits.
abbrev pub is_ascii_space : ℕ → Bool
is_ascii_space c = (leb 9 c && leb c 13) || (c == 32)

-- `int(s)`; none where it raises ValueError.
unfoldable pub int_of : (Text → Option ℤ) → Text → Option ℤ
int_of exotic s = if is_ascii s then signed (strip_by is_ascii_space s) else exotic s

-- The digits of `n` in front of a text; more fuel than `n` is enough.
unfoldable pub digits : ℕ → ℕ → Text → Text
digits zero n out = out
digits (suc fuel) n out = elim (ltb n 10) [
  | true ↦ (48 + n) ∷ out
  | false ↦ digits fuel (n / 10) ((48 + n % 10) ∷ out)
]

-- `str(n)`
unfoldable pub str_of : ℕ → Text
str_of n = digits (suc n) n []
