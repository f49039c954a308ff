-- ===== src/Scan/Words.antt =====
-- Words and numbers that are behind one another with a space between, as formatted input reads them;
-- and one line of a text.
use sensor_link.Prelude.{
  ℕ, ◌^◌, ◌≤◌, ◌<◌, ◌≡◌, ◌∙◌, refl, sym, ap, arith, ◌==◌, true, false, [], ◌∷◌, ◌++◌, append-nil,
  length, none, some, All,
}
use sensor_link.Prelude.Int.{ℤ}
use sensor_link.Prelude.Text.{Text, to_string, int_to_string}
use sensor_link.Proto.Messages.RoundTrip.{IsI32}
use sensor_link.Scan.{
  split, strip_cr, is_space, take_word, some_word, read_word, skip_spaces, read_digits,
  read_unsigned, read_signed, read_sign, read_magnitude, at_end,
}
use sensor_link.Scan.Lines.{split-partial, IsInLine}
use sensor_link.Scan.Digits.{Stops}
use sensor_link.Scan.Numbers.{read_unsigned-to_string, read_signed-int_to_string}

-- A word: something, and without a space.
abbrev pub IsLetter : ℕ → Type 0
IsLetter c = is_space c ≡ false

abbrev pub IsWord : Text → Type 0
IsWord m = All IsLetter m × (1 ≤ length m)

take_word-append : (m s : Text) → All IsLetter m → take_word (m ++ 32 ∷ s) ≡ (m, 32 ∷ s)
unfolding take_word
take_word-append [] s h = refl
take_word-append (c ∷ m) s h = rw (h.0, take_word-append m s h.1) refl

skip_spaces-letter : (c : ℕ) (s : Text) → IsLetter c → skip_spaces (c ∷ s) ≡ c ∷ s
unfolding skip_spaces
skip_spaces-letter c s h = rw h refl

-- A word at the front of a text, up to the space.
pub read_word-append : (m s : Text) → IsWord m → read_word (m ++ 32 ∷ s) ≡ some (m, 32 ∷ s)
unfolding some_word
read_word-append [] s h = absurd (omega arith)
read_word-append (c ∷ m) s h =
    ap (λ (t : Text). some_word (take_word t)) (skip_spaces-letter c (m ++ 32 ∷ s) h.0.0)
    ∙ ap (λ (r : Text × Text). some_word r) (take_word-append (c ∷ m) s h.0)

-- The same behind a space.
pub next_word : (m s : Text) → IsWord m → read_word (32 ∷ m ++ 32 ∷ s) ≡ some (m, 32 ∷ s)
unfolding skip_spaces
next_word m s h = read_word-append m s h

-- A number behind a space.
pub next_unsigned :
    (w n : ℕ) (rest : Text)
    → n < 2 ^ w
    → Stops rest
    → read_unsigned w (32 ∷ to_string n ++ rest) ≡ some (n, rest)
unfolding skip_spaces
next_unsigned w n rest h k = read_unsigned-to_string w n rest h k

-- A number behind a space, at the end.
pub last_unsigned : (w n : ℕ) → n < 2 ^ w → read_unsigned w (32 ∷ to_string n) ≡ some (n, [])
last_unsigned w n h =
    ap (λ (s : Text). read_unsigned w (32 ∷ s)) (sym (append-nil (to_string n)))
    ∙ next_unsigned w n [] h _

pub last_signed : (z : ℤ) → IsI32 z → read_signed (32 ∷ int_to_string z) ≡ some (z, [])
unfolding skip_spaces
last_signed z h =
    ap (λ (s : Text). read_signed s) (sym (append-nil (int_to_string z)))
    ∙ read_signed-int_to_string z [] h _

-- A letter is no number.
pub unsigned-letter : (w c : ℕ) (s : Text) → 65 ≤ c → read_unsigned w (32 ∷ c ∷ s) ≡ none
unfolding skip_spaces read_sign read_magnitude read_digits
unsigned-letter w c s h = ground arith

pub at_end-nil : at_end [] ≡ true
unfolding skip_spaces
at_end-nil = refl

-- A character that a line can hold at its end.
abbrev pub IsPlain : ℕ → Type 0
IsPlain c = ((c == 10) ≡ false) × ((c == 13) ≡ false)

strip_cr-IsPlain : (line : Text) → All IsPlain line → strip_cr line ≡ line
strip_cr-IsPlain [] h = refl
strip_cr-IsPlain (c ∷ []) h = rw h.0.1 refl
strip_cr-IsPlain (c ∷ d ∷ line) h = ap (λ (t : Text). c ∷ t) (strip_cr-IsPlain (d ∷ line) h.1)

IsPlain-IsInLine : (line : Text) → All IsPlain line → All IsInLine line
IsPlain-IsInLine [] h = h
IsPlain-IsInLine (c ∷ line) h = (h.0.0, IsPlain-IsInLine line h.1)

-- The first line of a text.
pub split-line :
    (line s : Text)
    → All IsPlain line
    → split [] (line ++ 10 ∷ s) ≡ (line ∷ (split [] s).0, (split [] s).1)
unfolding split
split-line line s h =
    split-partial [] line (10 ∷ s) (IsPlain-IsInLine line h)
    ∙ ap (λ (t : Text). (t ∷ (split [] s).0, (split [] s).1)) (strip_cr-IsPlain line h)

-- What is no line yet.
pub split-rest : (line : Text) → All IsInLine line → split [] line ≡ ([], line)
unfolding split
split-rest line h =
    ap (λ (s : Text). split [] s) (sym (append-nil line)) ∙ split-partial [] line [] h

pub IsLetter-IsPlain : (m : Text) → All IsLetter m → All IsPlain m
IsLetter-IsPlain [] h = h
IsLetter-IsPlain (c ∷ m) h = (plain c h.0, IsLetter-IsPlain m h.1)
  where
    plain : (c : ℕ) → IsLetter c → IsPlain c
    plain c h = ground arith
