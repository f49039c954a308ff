-- ===== src/Scan/Converted.antt =====
-- What std::to_string prints, the conversions read back; and a text that is cut at a character.
use native.Mathlib.Nat.{mod-eq_of_lt}
use sensor_link.Prelude.{
  ℕ, suc, ◌-◌, ◌%◌, ◌^◌, ◌<◌, ◌≡◌, ◌∙◌, refl, ap, sym, arith, leb, min, ◌==◌, true, false, ◌||◌, [],
  ◌∷◌, ◌++◌, append-nil, length, some, Option-cases, inl, inr, All,
}
use sensor_link.Prelude.Int.{pos}
use sensor_link.Prelude.Text.{Text, digits, to_string}
use sensor_link.Scan.{skip_spaces}
use sensor_link.Scan.Digits.{
  IsDigit, Printed, digits-Printed, to_string-append, skip_digit, read_printed,
}
use sensor_link.Scan.Convert.{cut_sign, cast_unsigned, strtol, atoi_unsigned, stoll, cut_at}

cut_sign-digit : (c : ℕ) (s : Text) → IsDigit c → cut_sign (c ∷ s) ≡ (false, c ∷ s)
unfolding cut_sign
cut_sign-digit c s d = ground arith

-- A number that is printed has no sign, and its digits are read.
sign_of : (n : ℕ) → cut_sign (skip_spaces (to_string n)) ≡ (false, digits (suc n) n [])
sign_of n =
    ap (λ (s : Text). cut_sign (skip_spaces s))
      (sym (append-nil (to_string n)) ∙ to_string-append n [] ∙ p.shape)
    ∙ ap cut_sign (skip_digit p.first p.others p.digit)
    ∙ cut_sign-digit p.first p.others p.digit
    ∙ ap (λ (s : Text). (false, s)) (sym p.shape)
  where
    p : Printed (digits (suc n) n []) []
    p = digits-Printed n n []

pub stoll-to_string : (n : ℕ) → n < 2 ^ 63 → stoll (to_string n) ≡ some (pos n)
unfolding stoll
stoll-to_string n h =
    rw
      (
        sign_of n,
        read_printed n [] _,
        in_range 0 (length (digits (suc n) n [])) n (digits-Printed n n []).longer h,
      )
      refl
  where
    in_range : (a b n : ℕ) → a < b → n < 2 ^ 63 → (a == b || leb (2 ^ 63) n) ≡ false
    in_range a b n h k = ground arith

pub atoi_unsigned-to_string : (w n : ℕ) → n < 2 ^ w → n < 2 ^ 63 → atoi_unsigned w (to_string n) ≡ n
unfolding atoi_unsigned strtol cast_unsigned
atoi_unsigned-to_string w n h k =
    rw (sign_of n, read_printed n [] _)
      (ap (λ (m : ℕ). m % 2 ^ w) {x = min n (2 ^ 63 - 1)} {y = n} (omega arith) ∙ mod-eq_of_lt h)

-- What stands in front of the first `b`.
pub cut_at-append :
    (b : ℕ) (m s : Text) → All (λ (c : ℕ). (c == b) ≡ false) m → cut_at b (m ++ b ∷ s) ≡ some (m, s)
unfolding cut_at
cut_at-append b [] s h = elim (Option-cases (cut_at b s)) [
  | inl e ↦ rw (e, same b) refl
  | inr (r, e) ↦ rw (e, same b) refl
]
  where
    same : (b : ℕ) → (b == b) ≡ true
    same b = ground arith
cut_at-append b (c ∷ m) s h = rw (cut_at-append b m s h.1, h.0) refl
