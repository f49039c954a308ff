-- ===== src/Proto/Parser/Refine.antt =====
-- `push_byte` of proto/frame_parser.hpp takes the steps of `Phases`, whatever bytes arrive.
use sensor_link.Prelude.{ℕ, ◌+◌, ◌≤◌, ◌<◌, ◌≡◌, ◌∙◌, refl, ap, ap₂, sym, arith, ◌==◌, inl, inr, ◌⊎◌}
use sensor_link.Prelude.{
  [], ◌∷◌, ◌++◌, length, take, drop, get_or, take-append, take-append_le, take-set, Option, none,
  some, length-take, Bool-cases,
}
use native.Mathlib.Decide.{dec_lt}
use sensor_link.Proto.Messages.{Bytes}
use sensor_link.Proto.Cobs
use sensor_link.Proto.Cobs.{CobsResult, CobsStatus, cobs_decode, succeeded, failed}
use sensor_link.Proto.Cobs.Decode.{decoded, Decodes, cobs_decode-Decodes}
use sensor_link.Proto.Parser.{
  ParsedFrame, Parser, State, no_error, cobs_error, fail, check_blob, decode_into, finish_frame,
  act, push_byte, table, max_blob, hunting, in_frame, skip_to_delimiter,
}
use sensor_link.Proto.Parser.Inv.{IsValid}
use sensor_link.Proto.Parser.Phases.{
  Event, dropped, Phase, judge, judge_blob, step, phase, event, phase_of,
}

nothing_before : (n : ℕ) → 0 + n ≡ n
nothing_before n = omega arith

-- The checks on a blob that holds `ys` in front.
check_blob-judge :
    (max_payload : ℕ) (ys tail : Bytes) (p : Parser)
    → length ys ≤ max_blob max_payload
    → p.blob ≡ ys ++ tail
    → event (check_blob (succeeded (length ys)) p) ≡ judge_blob max_payload ys
unfolding check_blob judge_blob fail
check_blob-judge m [] tail p h e = ground arith
check_blob-judge m (a ∷ []) tail p h e = ground arith
check_blob-judge m (a ∷ b ∷ zs) tail p h e = ground (
  arith,
  ap (λ (l : Bytes). get_or l 0 0) e,
  ap (λ (l : Bytes). get_or l 1 0) e,
  ap (λ (l : Bytes). take (length (a ∷ b ∷ zs)) l) e,
  take-append (a ∷ b ∷ zs) tail,
  ap (λ (l : Bytes). take b (drop 2 l)) e,
  take-append_le b zs tail,
)

failed-event :
    (r : CobsResult × Bytes) (p : Parser)
    → (r.0 ≡ failed Cobs.invalid_input) ⊎ (r.0 ≡ failed Cobs.output_overflow)
    → event (decode_into r p) ≡ dropped cobs_error
unfolding decode_into fail
failed-event (c, l) p (inl e) = ap (λ c. event (decode_into (c, l) p)) e
failed-event (c, l) p (inr e) = ap (λ c. event (decode_into (c, l) p)) e

judge_too_long :
    (m : ℕ) (ys : Bytes) → max_blob m < length ys → judge_blob m ys ≡ dropped cobs_error
unfolding judge_blob
judge_too_long m ys h = ground arith

decode_into-ok :
    (n : ℕ) (l : Bytes) (p : Parser)
    → decode_into (succeeded n, l) p ≡ check_blob (succeeded n) (record p { blob = l })
unfolding decode_into
decode_into-ok n l p = refl

-- The verdict, from what is known of the decoder's result.
decode_into-judge :
    (m : ℕ) (o : Option Bytes) (r : CobsResult × Bytes) (p : Parser)
    → Decodes (max_blob m) [] p.blob o r
    → event (decode_into r p) ≡ (elim o [ none ↦ dropped cobs_error | some ys ↦ judge_blob m ys ])
decode_into-judge m none r p h = failed-event r p h
decode_into-judge m (some ys) r p h = elim (dec_lt (max_blob m) (length ys)) [
  | yes f ↦ failed-event r p (inr (h.1 (omega arith))) ∙ sym (judge_too_long m ys f)
  | no f ↦
      ap (λ (r : CobsResult × Bytes). event (decode_into r p)) (h.0 (omega arith))
      ∙ ap event (decode_into-ok (0 + length ys) (ys ++ drop (length ys) p.blob) p)
      ∙ ap
          (λ (n : ℕ).
            event (check_blob (succeeded n) (record p { blob = ys ++ drop (length ys) p.blob })))
          (nothing_before (length ys))
      ∙ check_blob-judge m ys (drop (length ys) p.blob)
          (record p { blob = ys ++ drop (length ys) p.blob }) (omega arith) refl
]

finish_frame-judge :
    (m : ℕ) (p : Parser)
    → IsValid m p
    → event (finish_frame m p) ≡ judge m (take p.buffered p.buffer)
unfolding finish_frame judge
finish_frame-judge m p v =
    decode_into-judge m (decoded (take p.buffered p.buffer)) _ p
      (cobs_decode-Decodes (take p.buffered p.buffer) p.blob (max_blob m) (omega arith))

event_settled :
    (r : Option ParsedFrame × Parser) (next : State)
    → event (r.0, record (r.1) { buffered = 0; state = next }) ≡ event r
event_settled (none, p) next = refl
event_settled (some f, p) next = refl

module _ (m : ℕ) (p : Parser) (b : ℕ) (v : IsValid m p) where
  abbrev cleared : Parser
  cleared = record p { last_error = no_error }

  cleared-IsValid : IsValid m cleared
  cleared-IsValid = ground arith

  abbrev Steps : State → Type 0
  Steps s =
      (
        event (act m (table s (b == 0)).action (table s (b == 0)).next b cleared),
        phase (act m (table s (b == 0)).action (table s (b == 0)).next b cleared).1,
      )
      ≡ step m (phase_of s (take p.buffered p.buffer)) b

  Steps-hunting : Steps hunting
  unfolding act table step
  Steps-hunting = ground (arith, take-set 0 p.buffer b)

  Steps-skipping : Steps skip_to_delimiter
  unfolding act table step
  Steps-skipping = ground arith

  Steps-in_frame : Steps in_frame
  unfolding act table step fail
  Steps-in_frame = elim (Bool-cases (b == 0)) [
    | inl z ↦ rw z (
        ap₂ (λ (e : Event) (q : Phase). (e, q))
          (event_settled (finish_frame m cleared) hunting
            ∙ finish_frame-judge m cleared cleared-IsValid)
          refl)
    | inr z ↦ rw z (ground (arith, take-set p.buffered p.buffer b, length-take p.buffered p.buffer))
  ]

  steps : (s : State) → Steps s
  steps hunting = Steps-hunting
  steps in_frame = Steps-in_frame
  steps skip_to_delimiter = Steps-skipping

  -- From a valid state every byte causes the event that `step` gives, and leads to its phase.
  pub push_byte-step : (event (push_byte m p b), phase (push_byte m p b).1) ≡ step m (phase p) b
  unfolding push_byte
  push_byte-step = steps p.state
