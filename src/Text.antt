-- ===== src/Text.antt =====
-- std::string and <cctype> as the scanners use them, on lists of bytes. The classes are those of
-- the C locale, where no byte from 0x80 on is a letter, a digit, a blank or punctuation.
pub mod Find
pub mod Lines
pub mod Same
pub mod Trim
pub mod While
use Prim.Native.Char.{code}
use Prim.Native.String.{String}
use duckdb_panduck.Base.{
  ℕ, zero, suc, ◌+◌, ◌-◌, ◌*◌, Bool, true, false, not, ◌&&◌, ◌||◌, List, [], ◌∷◌, ◌++◌, map, Option,
  none, some, leb, ltb, ◌==◌, if◌then◌else◌,
}

abbrev pub Bytes : Type 0
Bytes = List ℕ

-- The bytes of a literal, all of them ASCII.
abbrev pub codes : String → Bytes
codes String.[] = []
codes (String.◌∷◌ c s) = code c ∷ codes s

abbrev pub within : ℕ → ℕ → ℕ → Bool
within lo hi c = leb lo c && leb c hi

abbrev pub is_upper : ℕ → Bool
is_upper c = within b'A' b'Z' c

abbrev pub is_lower : ℕ → Bool
is_lower c = within b'a' b'z' c

abbrev pub is_alpha : ℕ → Bool
is_alpha c = is_lower c || is_upper c

abbrev pub is_digit : ℕ → Bool
is_digit c = within b'0' b'9' c

abbrev pub is_alnum : ℕ → Bool
is_alnum c = is_alpha c || is_digit c

-- The ASCII graphic characters that are not alphanumeric.
abbrev pub is_punct : ℕ → Bool
is_punct c = within 33 47 c || within 58 64 c || within 91 96 c || within 123 126 c

-- Space, and tab to carriage return.
abbrev pub is_space : ℕ → Bool
is_space c = c == 32 || within 9 13 c

abbrev pub to_lower : ℕ → ℕ
to_lower c = if is_upper c then c + 32 else c

abbrev pub to_upper : ℕ → ℕ
to_upper c = if is_lower c then c - 32 else c

abbrev pub upper : Bytes → Bytes
upper s = map to_upper s

-- `s == t`
abbrev pub same : Bytes → Bytes → Bool
same [] [] = true
same (x ∷ xs) (y ∷ ys) = x == y && same xs ys
same _ _ = false

abbrev pub empty : Bytes → Bool
empty [] = true
empty (c ∷ s) = false

-- `s.compare(0, p.size(), p) == 0`, and `s.rfind(p, 0) == 0`
abbrev pub starts_with : Bytes → Bytes → Bool
starts_with [] s = true
starts_with (c ∷ p) [] = false
starts_with (c ∷ p) (d ∷ s) = c == d && starts_with p s

-- `s.find(c)`
unfoldable pub find : ℕ → Bytes → Option ℕ
find c [] = none
find c (d ∷ s) = if d == c then some 0 else elim (find c s) [ none ↦ none | some i ↦ some (suc i) ]

-- `s.find(p)` for a string `p` that is not empty
unfoldable pub find_text : Bytes → Bytes → Option ℕ
find_text p [] = none
find_text p (d ∷ s) =
    if starts_with p (d ∷ s)
    then some 0
    else elim (find_text p s) [ none ↦ none | some i ↦ some (suc i) ]

unfoldable pub take_while : (ℕ → Bool) → Bytes → Bytes
take_while p [] = []
take_while p (c ∷ s) = let rest = take_while p s in if p c then c ∷ rest else []

unfoldable pub drop_while : (ℕ → Bool) → Bytes → Bytes
drop_while p [] = []
drop_while p (c ∷ s) = let rest = drop_while p s in if p c then rest else c ∷ s

abbrev pub cons_right : Bool → ℕ → Bytes → Bytes
cons_right blank c [] = if blank then [] else c ∷ []
cons_right blank c (d ∷ s) = c ∷ d ∷ s

-- `s.substr(0, s.find_last_not_of(blanks) + 1)`, empty where every byte is a blank
unfoldable pub trim_right : (ℕ → Bool) → Bytes → Bytes
trim_right p [] = []
trim_right p (c ∷ s) = cons_right (p c) c (trim_right p s)

-- `find_first_not_of` to `find_last_not_of`
unfoldable pub trim : (ℕ → Bool) → Bytes → Bytes
unfolding trim_right drop_while
trim p s = trim_right p (drop_while p s)

-- `s[i]` of a byte that is there; the source tests the size first
abbrev pub at : Bytes → ℕ → ℕ
at [] i = 0
at (c ∷ s) zero = c
at (c ∷ s) (suc i) = at s i

-- `s.back()`
abbrev pub back : Bytes → ℕ
back [] = 0
back (c ∷ []) = c
back (c ∷ d ∷ s) = back (d ∷ s)

abbrev pub all_bytes : (ℕ → Bool) → Bytes → Bool
all_bytes p [] = true
all_bytes p (c ∷ s) = p c && all_bytes p s

abbrev pub any_byte : (ℕ → Bool) → Bytes → Bool
any_byte p [] = false
any_byte p (c ∷ s) = p c || any_byte p s

-- `atoi` on a run of digits; a value that no `int` holds is undefined in C.
unfoldable pub digits_value : ℕ → Bytes → ℕ
digits_value n [] = n
digits_value n (c ∷ s) = digits_value (n * 10 + (c - b'0')) s

abbrev cons_line : ℕ → List Bytes → List Bytes
cons_line c [] = (c ∷ []) ∷ []
cons_line c (l ∷ ls) = (c ∷ l) ∷ ls

-- The loop `nl = src.find('\n', pos)`: one line more than there are newlines.
unfoldable pub split_lines : Bytes → List Bytes
split_lines [] = [] ∷ []
split_lines (c ∷ s) = if c == b'\n' then [] ∷ split_lines s else cons_line c (split_lines s)
