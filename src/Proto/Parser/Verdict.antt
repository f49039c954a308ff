-- ===== src/Proto/Parser/Verdict.antt =====
-- proto/frame_parser.hpp: what a delimiter completes, for the parser as it is written.
use sensor_link.Prelude.{
  ℕ, ◌≤◌, ◌≡◌, ◌≢◌, ◌↔◌, ◌∙◌, ap, sym, ◌∷◌, ◌++◌, length, Option, none, some, Option-cases, inl,
  inr,
}
use sensor_link.Proto.Messages.{Bytes, MessageType, AllBytes, IsByte}
use sensor_link.Proto.Cobs.Decode.{decoded}
use sensor_link.Proto.Encoder.Frames.{frame_blob}
use sensor_link.Proto.Parser.{
  ParsedFrame, ParseError, no_error, cobs_error, bad_length, bad_crc, frame_too_long, Parser,
  push_byte,
}
use sensor_link.Proto.Parser.Inv.{IsValid}
use sensor_link.Proto.Parser.Phases.{
  Event, delivered, Phase, collecting, judge, step, phase, event, error_event,
}
use sensor_link.Proto.Parser.Refine.{push_byte-step}
use sensor_link.Proto.Parser.Judge.{message, judge_iff, judge_corrupt}

error_not_delivered : (e : ParseError) (f : ParsedFrame) → error_event e ≢ delivered f
error_not_delivered no_error f h = cc
error_not_delivered cobs_error f h = cc
error_not_delivered bad_length f h = cc
error_not_delivered bad_crc f h = cc
error_not_delivered frame_too_long f h = cc

delivered_inj : (f g : ParsedFrame) → delivered f ≡ delivered g → f ≡ g
delivered_inj f g h = cc

-- The result of a byte is a frame exactly when its event delivers it.
completes_iff :
    (o : Option ParsedFrame) (p : Parser) (f : ParsedFrame)
    → (o ≡ some f) ↔ (event (o, p) ≡ delivered f)
completes_iff none p f = ((λ h. absurd cc), (λ h. absurd (error_not_delivered p.last_error f h)))
completes_iff (some g) p f = ((λ h. ap delivered cc), (λ h. ap some (delivered_inj g f h)))

module _ (m : ℕ) (p : Parser) (xs : Bytes) (v : IsValid m p) (c : phase p ≡ collecting xs) where
  delimiter-event : event (push_byte m p 0) ≡ judge m xs
  unfolding step
  delimiter-event =
      ap (λ (r : Event × Phase). r.0) (push_byte-step m p 0 v)
      ∙ ap (λ (ph : Phase). (step m ph 0).0) c

  -- A valid parser that has collected the bytes `xs` hands over a frame at the delimiter exactly when
  -- `xs` decode to what `encode_frame` lays out for its type and payload, the CRC included, and the
  -- payload is within the parser's maximum.
  pub delimiter_iff :
      (f : ParsedFrame)
      → AllBytes xs
      → ((push_byte m p 0).0 ≡ some f) ↔ (
          (decoded xs ≡ some (frame_blob f.type f.payload))
          × (f ≡ message f.type f.payload)
          × (length f.payload ≤ m))
  delimiter_iff f h =
      let r = push_byte m p 0 in
      let completes = completes_iff r.0 r.1 f in
      let verdict = judge_iff m xs f h in
      (
        (λ e. verdict.0 (sym delimiter-event ∙ completes.0 e)),
        (λ e. completes.1 (delimiter-event ∙ verdict.1 e)),
      )

  -- A valid parser that has collected bytes that decode to a frame with one byte of it changed,
  -- wherever that stands in the frame, hands over nothing at the delimiter.
  pub delimiter_corrupt :
      (type : MessageType) (payload front back : Bytes) (a b : ℕ)
      → AllBytes back
      → IsByte a
      → IsByte b
      → a ≢ b
      → frame_blob type payload ≡ front ++ a ∷ back
      → decoded xs ≡ some (front ++ b ∷ back)
      → (push_byte m p 0).0 ≡ none
  delimiter_corrupt type payload front back a b h ha hb ne e d =
      let r = push_byte m p 0 in
      elim (Option-cases r.0) [
        | inl z ↦ z
        | inr (f, z) ↦ absurd (
            judge_corrupt m xs type payload front back a b f h ha hb ne e d
              (sym delimiter-event ∙ (completes_iff r.0 r.1 f).0 z))
      ]
