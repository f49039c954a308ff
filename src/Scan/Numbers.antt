-- ===== src/Scan/Numbers.antt =====
-- What std::to_string prints, formatted input reads back.
use sensor_link.Prelude.{
  ℕ, zero, suc, ◌+◌, ◌-◌, ◌/◌, ◌%◌, ◌^◌, ◌≤◌, ◌<◌, ◌≡◌, ◌∙◌, refl, ap, sym, arith, ltb, leb, ◌==◌,
  true, false, Bool-cases, ◌||◌, inl, inr,
}
use sensor_link.Prelude.{[], ◌∷◌, ◌++◌, length, some, All}
use sensor_link.Prelude.Int.{ℤ, pos, negsuc}
use sensor_link.Prelude.Text.{Text, digits, to_string, int_to_string}
use sensor_link.Proto.Messages.RoundTrip.{IsI32}
use sensor_link.Scan.{
  skip_spaces, read_digits, read_magnitude, read_sign, read_unsigned, signed_magnitude, signed_sign,
  read_signed,
}
use sensor_link.Scan.Digits.{
  Stops, IsDigit, Printed, digits-Printed, to_string-append, skip_digit, read_printed,
}

read_sign-digit :
    (w c : ℕ) (s : Text) → IsDigit c → read_sign w (c ∷ s) ≡ read_magnitude w false (c ∷ s)
unfolding read_sign
read_sign-digit w c s d = rw (no_minus c d, no_plus c d) refl
  where
    no_minus : (c : ℕ) → IsDigit c → (c == 45) ≡ false
    no_minus c d = ground arith

    no_plus : (c : ℕ) → IsDigit c → (c == 43) ≡ false
    no_plus c d = ground arith

-- A magnitude that was printed and fits.
in_range : (a b n m : ℕ) → a < b → n < m → (a == b || leb m n) ≡ false
in_range a b n m h k = ground arith

read_magnitude-printed :
    (w n : ℕ) (t rest : Text)
    → read_digits 0 t ≡ (n, rest)
    → length rest < length t
    → n < 2 ^ w
    → read_magnitude w false t ≡ some (n, rest)
unfolding read_magnitude
read_magnitude-printed w n t rest e h k =
    rw (e, in_range (length rest) (length t) n (2 ^ w) h k) refl

signed_magnitude-positive :
    (n : ℕ) (t rest : Text)
    → read_digits 0 t ≡ (n, rest)
    → length rest < length t
    → n < 2 ^ 31
    → signed_magnitude false t ≡ some (pos n, rest)
unfolding signed_magnitude
signed_magnitude-positive n t rest e h k =
    rw (e, in_range (length rest) (length t) n (2 ^ 31) h k) refl

signed_magnitude-negative :
    (n : ℕ) (t rest : Text)
    → read_digits 0 t ≡ (suc n, rest)
    → length rest < length t
    → n < 2 ^ 31
    → signed_magnitude true t ≡ some (negsuc n, rest)
unfolding signed_magnitude
signed_magnitude-negative n t rest e h k =
    rw (e, in_range (length rest) (length t) (suc n - 1) (2 ^ 31) h (omega arith)) (ground arith)

-- A number that is printed and stands in front of a text where digits stop is read back.
pub read_unsigned-to_string :
    (w n : ℕ) (rest : Text)
    → n < 2 ^ w
    → Stops rest
    → read_unsigned w (to_string n ++ rest) ≡ some (n, rest)
read_unsigned-to_string w n rest h k =
    ap (λ (s : Text). read_unsigned w s) (to_string-append n rest ∙ p.shape)
    ∙ ap (λ (s : Text). read_sign w s) (skip_digit p.first p.others p.digit)
    ∙ read_sign-digit w p.first p.others p.digit
    ∙ ap (λ (s : Text). read_magnitude w false s) (sym p.shape)
    ∙ read_magnitude-printed w n (digits (suc n) n rest) rest (read_printed n rest k) p.longer h
  where
    p : Printed (digits (suc n) n rest) rest
    p = digits-Printed n n rest

skip_sign : (s : Text) → skip_spaces (45 ∷ s) ≡ 45 ∷ s
unfolding skip_spaces
skip_sign s = refl

signed_sign-digit :
    (c : ℕ) (s : Text) → IsDigit c → signed_sign (c ∷ s) ≡ signed_magnitude false (c ∷ s)
unfolding signed_sign
signed_sign-digit c s d = rw (no_minus c d, no_plus c d) refl
  where
    no_minus : (c : ℕ) → IsDigit c → (c == 45) ≡ false
    no_minus c d = ground arith

    no_plus : (c : ℕ) → IsDigit c → (c == 43) ≡ false
    no_plus c d = ground arith

signed_sign-minus : (s : Text) → signed_sign (45 ∷ s) ≡ signed_magnitude true s
unfolding signed_sign
signed_sign-minus s = refl

-- The same for an int32_t, negative ones included.
pub read_signed-int_to_string :
    (z : ℤ) (rest : Text)
    → IsI32 z
    → Stops rest
    → read_signed (int_to_string z ++ rest) ≡ some (z, rest)
unfolding int_to_string
read_signed-int_to_string (pos n) rest h k =
    ap (λ (s : Text). read_signed s) (to_string-append n rest ∙ p.shape)
    ∙ ap (λ (s : Text). signed_sign s) (skip_digit p.first p.others p.digit)
    ∙ signed_sign-digit p.first p.others p.digit
    ∙ ap (λ (s : Text). signed_magnitude false s) (sym p.shape)
    ∙ signed_magnitude-positive n (digits (suc n) n rest) rest (read_printed n rest k) p.longer h
  where
    p : Printed (digits (suc n) n rest) rest
    p = digits-Printed n n rest
read_signed-int_to_string (negsuc n) rest h k =
    ap (λ (s : Text). read_signed (45 ∷ s)) (to_string-append (suc n) rest)
    ∙ ap (λ (s : Text). signed_sign s) (skip_sign (digits (suc (suc n)) (suc n) rest))
    ∙ signed_sign-minus (digits (suc (suc n)) (suc n) rest)
    ∙ signed_magnitude-negative n (digits (suc (suc n)) (suc n) rest) rest
        (read_printed (suc n) rest k) (digits-Printed (suc n) (suc n) rest).longer h

-- A space in front is skipped.
pub skip_spaces-space : (s : Text) → skip_spaces (32 ∷ s) ≡ skip_spaces s
unfolding skip_spaces
skip_spaces-space s = refl

-- A printed number is of digits.
digits-All :
    (k n : ℕ) (rest : Text) {P : ℕ → Type 0}
    → ((c : ℕ) → (48 ≤ c) × (c ≤ 57) → P c)
    → All P rest
    → All P (digits k n rest)
unfolding digits
digits-All zero n rest {P} d h = h
digits-All (suc k) n rest {P} d h = elim (Bool-cases (ltb n 10)) [
  | inl z ↦ rw z (d (48 + n % 10) (omega arith, omega arith), h)
  | inr z ↦ rw z (
      digits-All k (n / 10) ((48 + n % 10) ∷ rest) d
        (d (48 + n % 10) (omega arith, omega arith), h))
]

pub to_string-All :
    {P : ℕ → Type 0} (n : ℕ) → ((c : ℕ) → (48 ≤ c) × (c ≤ 57) → P c) → All P (to_string n)
unfolding to_string
to_string-All n d = digits-All (suc n) n [] d _

pub int_to_string-All :
    {P : ℕ → Type 0} (z : ℤ)
    → P 45
    → ((c : ℕ) → (48 ≤ c) × (c ≤ 57) → P c)
    → All P (int_to_string z)
unfolding int_to_string
int_to_string-All (pos n) m d = to_string-All n d
int_to_string-All (negsuc n) m d = (m, to_string-All (suc n) d)
