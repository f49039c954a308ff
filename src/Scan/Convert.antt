-- ===== src/Scan/Convert.antt =====
-- The conversions of text that the option loops and the benchmark use: std::atoi, std::strtoul and
-- std::stoll in base ten on a 64-bit machine, and a text cut at a character.
use sensor_link.Prelude.{
  ℕ, ◌+◌, ◌-◌, ◌%◌, ◌^◌, ltb, leb, ◌==◌, if◌then◌else◌, Bool, true, false, ◌||◌, [], ◌∷◌, length,
  min, Option, none, some,
}
use sensor_link.Prelude.Int.{ℤ, pos, negsuc}
use sensor_link.Prelude.Text.{Text}
use sensor_link.Scan.{skip_spaces, read_digits}

-- The sign that is in front of a number, and what follows it.
unfoldable pub cut_sign : Text → Bool × Text
cut_sign [] = (false, [])
cut_sign (c ∷ s) = if c == 45 then (true, s) else if c == 43 then (false, s) else (false, c ∷ s)

-- -n or n.
abbrev pub signed : Bool → ℕ → ℤ
signed negative n = if negative then (if n == 0 then pos 0 else negsuc (n - 1)) else pos n

-- The conversion to an unsigned type of `w` bits.
unfoldable pub cast_unsigned : ℕ → ℤ → ℕ
cast_unsigned w (pos n) = n % 2 ^ w
cast_unsigned w (negsuc n) = 2 ^ w - 1 - n % 2 ^ w

-- std::strtol, which atoi is: what is out of range is brought to the bound, and no number is 0. The
-- callers cast the result to a narrower type.
unfoldable pub strtol : Text → ℤ
strtol s =
    let (negative, digits) = cut_sign (skip_spaces s) in
    let (n, rest) = read_digits 0 digits in
    signed negative (min n (if negative then 2 ^ 63 else 2 ^ 63 - 1))

-- `static_cast<std::uint16_t>(std::atoi(s))` and its kin.
unfoldable pub atoi_unsigned : ℕ → Text → ℕ
atoi_unsigned w s = cast_unsigned w (strtol s)

-- The cast of std::strtol's result to int, which std::atoi returns.
unfoldable pub cast_int : ℤ → ℤ
cast_int z = let w = cast_unsigned 32 z in if ltb w (2 ^ 31) then pos w else negsuc (2 ^ 32 - 1 - w)

-- std::strtoul cast to `w` bits: a negative number wraps.
unfoldable pub strtoul_unsigned : ℕ → Text → ℕ
strtoul_unsigned w s =
    let (negative, digits) = cut_sign (skip_spaces s) in
    let (n, rest) = read_digits 0 digits in
    if leb (2 ^ 64) n then (2 ^ 64 - 1) % 2 ^ w else cast_unsigned w (signed negative n)

-- std::stoll: an exception when there is no number or it is out of range.
unfoldable pub stoll : Text → Option ℤ
stoll s =
    let (negative, digits) = cut_sign (skip_spaces s) in
    let (n, rest) = read_digits 0 digits in
    if length rest == length digits || leb (if negative then 2 ^ 63 + 1 else 2 ^ 63) n
    then none
    else some (signed negative n)

-- `find` of a character and the two `substr` around it.
unfoldable pub cut_at : ℕ → Text → Option (Text × Text)
cut_at b [] = none
cut_at b (c ∷ s) = elim (cut_at b s) [
  | none ↦ if c == b then some ([], s) else none
  | some (front, back) ↦ if c == b then some ([], s) else some (c ∷ front, back)
]
