-- ===== src/Scan/Digits.antt =====
-- The digits that std::to_string prints, as the reading of digits finds them.
use sensor_link.Prelude.{
  ℕ, zero, suc, ◌+◌, ◌*◌, ◌/◌, ◌%◌, ◌≤◌, ◌<◌, ◌≡◌, ◌∙◌, refl, ap, sym, subst, arith, ltb_lt, ltb_ge,
  ltb, leb, if◌then◌else◌, Bool, true, false, Bool-cases, ◌&&◌, inl, inr,
}
use sensor_link.Prelude.{[], ◌∷◌, ◌++◌, length}
use sensor_link.Prelude.Text.{Text, digits, to_string}
use sensor_link.Scan.{is_space, skip_spaces, read_digits}

-- A text at which the reading of digits stops.
abbrev pub Stops : Text → Type 0
Stops [] = Unit
Stops (c ∷ s) = (leb 48 c && leb c 57) ≡ false

read_digits_stop : (n : ℕ) (s : Text) → Stops s → read_digits n s ≡ (n, s)
unfolding read_digits
read_digits_stop n [] h = refl
read_digits_stop n (c ∷ s) h = rw h refl

-- One printed digit more.
read_digits-step :
    (acc n : ℕ) (rest : Text)
    → read_digits acc ((48 + n % 10) ∷ rest) ≡ read_digits (acc * 10 + n % 10) rest
unfolding read_digits
read_digits-step acc n rest =
    rw (digit_test n) (ap (λ (m : ℕ). read_digits (acc * 10 + m) rest) (omega arith))
  where
    digit_test : (n : ℕ) → (leb 48 (48 + n % 10) && leb (48 + n % 10) 57) ≡ true
    digit_test n = ground arith

-- The number of a printed text, behind the digits that are read.
read_digits-digits :
    (k n : ℕ) (rest : Text) → n < k → read_digits 0 (digits k n rest) ≡ read_digits n rest
unfolding read_digits digits
read_digits-digits zero n rest h = absurd (omega arith)
read_digits-digits (suc k) n rest h = elim (Bool-cases (ltb n 10)) [
  | inl z ↦ rw z (
      read_digits-step 0 n rest ∙ ap (λ (m : ℕ). read_digits m rest) (omega (arith, ltb_lt n 10 z)))
  | inr z ↦ rw z (
      read_digits-digits k (n / 10) ((48 + n % 10) ∷ rest) (omega (arith, ltb_ge n 10 z))
      ∙ read_digits-step (n / 10) n rest
      ∙ ap (λ (m : ℕ). read_digits m rest) (omega arith))
]

digits-append : (k n : ℕ) (s t : Text) → digits k n s ++ t ≡ digits k n (s ++ t)
unfolding digits
digits-append zero n s t = refl
digits-append (suc k) n s t = elim (Bool-cases (ltb n 10)) [
  | inl z ↦ rw z refl
  | inr z ↦ rw z (digits-append k (n / 10) ((48 + n % 10) ∷ s) t)
]

-- A digit that stands first, and the length.
abbrev pub IsDigit : ℕ → Type 0
IsDigit c = (48 ≤ c) × (c ≤ 57)

pub record Printed (t rest : Text) : Type 0 where
  pub first : ℕ
  pub others : Text
  pub shape : t ≡ first ∷ others
  pub digit : IsDigit first
  pub longer : length rest < length t

one_digit : (n : ℕ) (rest : Text) → Printed ((48 + n % 10) ∷ rest) rest
one_digit n rest = record {
  first = 48 + n % 10;
  others = rest;
  shape = refl;
  digit = (omega arith, omega arith);
  longer = omega arith;
}

with_more : (t : Text) (c : ℕ) (rest : Text) → Printed t (c ∷ rest) → Printed t rest
with_more t c rest p = record {
  first = p.first;
  others = p.others;
  shape = p.shape;
  digit = p.digit;
  longer = omega (arith, p.longer);
}

pub digits-Printed : (k n : ℕ) (rest : Text) → Printed (digits (suc k) n rest) rest
unfolding digits
digits-Printed zero n rest = elim (Bool-cases (ltb n 10)) [
  | inl z ↦ rw z (one_digit n rest)
  | inr z ↦ rw z (one_digit n rest)
]
digits-Printed (suc k) n rest = elim (Bool-cases (ltb n 10)) [
  | inl z ↦ rw z (one_digit n rest)
  | inr z ↦
      subst
        (λ (b : Bool).
          Printed
            (if b then (48 + n % 10) ∷ rest else digits (suc k) (n / 10) ((48 + n % 10) ∷ rest))
            rest)
        (sym z)
        (with_more (digits (suc k) (n / 10) ((48 + n % 10) ∷ rest)) (48 + n % 10) rest
          (digits-Printed k (n / 10) ((48 + n % 10) ∷ rest)))
]

-- A printed number in front of a text.
pub to_string-append : (n : ℕ) (rest : Text) → to_string n ++ rest ≡ digits (suc n) n rest
unfolding to_string
to_string-append n rest = digits-append (suc n) n [] rest

pub skip_digit : (c : ℕ) (s : Text) → IsDigit c → skip_spaces (c ∷ s) ≡ c ∷ s
unfolding skip_spaces
skip_digit c s d = rw (test c d) refl
  where
    test : (c : ℕ) → IsDigit c → is_space c ≡ false
    test c d = ground arith

pub read_printed :
    (n : ℕ) (rest : Text) → Stops rest → read_digits 0 (digits (suc n) n rest) ≡ (n, rest)
read_printed n rest h = read_digits-digits (suc n) n rest (omega arith) ∙ read_digits_stop n rest h
