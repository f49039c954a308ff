-- ===== src/Scan/Lines.antt =====
-- How bytes are grouped does not change the lines: the loop of server/subscriber.cpp, and its twins in
-- client/line_protocol.cpp and bench/latency_subscriber.cpp.
use sensor_link.Prelude.{
  ℕ, ◌≡◌, ◌∙◌, refl, ap, sym, ◌==◌, Bool-cases, inl, inr, false, List, [], ◌∷◌, ◌++◌, append_assoc,
  append-nil, All, All-append,
}
use sensor_link.Prelude.Text.{Text}
use sensor_link.Scan.{split, strip_cr}

split-append :
    (line : Text) (xs ys : Text)
    → split line (xs ++ ys)
      ≡ ((split line xs).0 ++ (split (split line xs).1 ys).0, (split (split line xs).1 ys).1)
unfolding split
split-append line [] ys = refl
split-append line (b ∷ xs) ys = elim (Bool-cases (b == 10)) [
  | inl z ↦ rw z (ap (λ (r : List Text × Text). (strip_cr line ∷ r.0, r.1)) (split-append [] xs ys))
  | inr z ↦ rw z (split-append (line ++ b ∷ []) xs ys)
]

abbrev pub IsInLine : ℕ → Type 0
IsInLine b = (b == 10) ≡ false

-- Text without a newline are all kept.
pub split-partial :
    (line : Text) (xs ys : Text) → All IsInLine xs → split line (xs ++ ys) ≡ split (line ++ xs) ys
unfolding split
split-partial line [] ys h = ap (λ (l : Text). split l ys) (sym (append-nil line))
split-partial line (b ∷ xs) ys h = rw h.0 (
    split-partial (line ++ b ∷ []) xs ys h.1
    ∙ ap (λ (l : Text). split l ys) (append_assoc line (b ∷ []) xs))

pub rest-IsInLine : (line : Text) (xs : Text) → All IsInLine line → All IsInLine (split line xs).1
unfolding split
rest-IsInLine line [] h = h
rest-IsInLine line (b ∷ xs) h = elim (Bool-cases (b == 10)) [
  | inl z ↦ rw z (rest-IsInLine [] xs _)
  | inr z ↦ rw z (rest-IsInLine (line ++ b ∷ []) xs (All-append IsInLine line (b ∷ []) h (z, _)))
]

-- When bytes arrive in two parts, and the second is read behind what the first left unconsumed, the
-- lines are those of the bytes that arrive at once, and so is what is left.
pub split_twice :
    (xs ys : Text)
    → split [] (xs ++ ys) ≡ (
      (split [] xs).0 ++ (split [] ((split [] xs).1 ++ ys)).0,
      (split [] ((split [] xs).1 ++ ys)).1,
    )
split_twice xs ys =
    split-append [] xs ys
    ∙ ap (λ (r : List Text × Text). ((split [] xs).0 ++ r.0, r.1))
        (sym (split-partial [] (split [] xs).1 ys (rest-IsInLine [] xs _)))
