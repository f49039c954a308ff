-- ===== src/Scan.antt =====
-- Formatted input from a std::istringstream, and the loop that splits received bytes into lines: the
-- server's subscriber, the client and the benchmark read text in these ways.
pub mod Digits
pub mod Numbers
pub mod Lines
pub mod Words
pub mod Convert
pub mod Converted
use sensor_link.Prelude.{
  ℕ, zero, suc, ◌+◌, ◌-◌, ◌*◌, ◌%◌, ◌^◌, ltb, leb, ◌==◌, if◌then◌else◌, Bool, true, false, ◌&&◌,
  ◌||◌,
}
use sensor_link.Prelude.{List, [], ◌∷◌, ◌++◌, length, Option, none, some}
use sensor_link.Prelude.Int.{ℤ, pos, negsuc}
use sensor_link.Prelude.Text.{Text}

-- A line without the carriage return at its end.
abbrev pub strip_cr : Text → Text
strip_cr [] = []
strip_cr (c ∷ []) = if c == 13 then [] else c ∷ []
strip_cr (c ∷ d ∷ line) = c ∷ strip_cr (d ∷ line)

-- The loop over the bytes, `line` being those from `line_start` on: the complete lines, and the bytes
-- that are not consumed.
unfoldable pub split : Text → Text → List Text × Text
split line [] = ([], line)
split line (b ∷ bs) =
    let (lines, rest) = split [] bs in
    let more = split (line ++ b ∷ []) bs in if b == 10 then (strip_cr line ∷ lines, rest) else more

abbrev pub is_space : ℕ → Bool
is_space c = c == 32 || leb 9 c && leb c 13

unfoldable pub skip_spaces : Text → Text
skip_spaces [] = []
skip_spaces (c ∷ s) = let rest = skip_spaces s in if is_space c then rest else c ∷ s

-- The digits at the front of a text, as a number behind `n`, and what follows them.
unfoldable pub read_digits : ℕ → Text → ℕ × Text
read_digits n [] = (n, [])
read_digits n (c ∷ s) =
    let more = read_digits (n * 10 + (c - 48)) s in
    if leb 48 c && leb c 57 then more else (n, c ∷ s)

-- `stream >> value` for an unsigned type of `w` bits: a sign is allowed and a negative number wraps.
pub read_magnitude : ℕ → Bool → Text → Option (ℕ × Text)
read_magnitude w negative s =
    let (n, rest) = read_digits 0 s in
    if length rest == length s || leb (2 ^ w) n
    then none
    else some (if negative then (2 ^ w - n) % 2 ^ w else n, rest)

pub read_sign : ℕ → Text → Option (ℕ × Text)
read_sign w [] = none
read_sign w (c ∷ s) =
    if c == 45
    then read_magnitude w true s
    else if c == 43
    then read_magnitude w false s
    else read_magnitude w false (c ∷ s)

abbrev pub read_unsigned : ℕ → Text → Option (ℕ × Text)
read_unsigned w s = read_sign w (skip_spaces s)

-- `stream >> value` for int32_t: a magnitude that does not fit fails.
pub signed_magnitude : Bool → Text → Option (ℤ × Text)
signed_magnitude negative s =
    let (n, rest) = read_digits 0 s in
    if length rest == length s || leb (2 ^ 31) (if negative then n - 1 else n)
    then none
    else some (if negative then (if n == 0 then pos 0 else negsuc (n - 1)) else pos n, rest)

pub signed_sign : Text → Option (ℤ × Text)
signed_sign [] = none
signed_sign (c ∷ s) =
    if c == 45
    then signed_magnitude true s
    else if c == 43
    then signed_magnitude false s
    else signed_magnitude false (c ∷ s)

abbrev pub read_signed : Text → Option (ℤ × Text)
read_signed s = signed_sign (skip_spaces s)

-- The characters in front of the next space, and what follows them.
unfoldable pub take_word : Text → Text × Text
take_word [] = ([], [])
take_word (c ∷ s) =
    let (word, rest) = take_word s in if is_space c then ([], c ∷ s) else (c ∷ word, rest)

-- `stream >> word` for a std::string.
pub some_word : Text × Text → Option (Text × Text)
some_word ([], rest) = none
some_word (c ∷ word, rest) = some (c ∷ word, rest)

abbrev pub read_word : Text → Option (Text × Text)
read_word s = some_word (take_word (skip_spaces s))

-- `!(stream >> trailing)`: there is no other word.
abbrev pub at_end : Text → Bool
at_end s = length (skip_spaces s) == 0
