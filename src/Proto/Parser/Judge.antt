-- ===== src/Proto/Parser/Judge.antt =====
-- The verdict of `finish_frame` (proto/frame_parser.hpp) against the encoder: which bytes are a frame.
use sensor_link.Prelude.{
  ℕ, zero, suc, ◌+◌, ◌-◌, ◌/◌, ◌%◌, ◌≤◌, ◌<◌, ◌≡◌, ◌≢◌, ◌↔◌, ◌∙◌, refl, ap, ap₂, sym, subst, arith,
  ◌==◌, not, inl, inr, Bool, false,
}
use sensor_link.Prelude.{
  [], ◌∷◌, ◌++◌, length, length-append, take, drop, take-append, take-append-drop, length-take,
  length-drop, Option, none, some, Option-cases, Bool-cases,
}
use mathlib.Core.Option
use sensor_link.Proto.Messages.{Bytes, MessageType, AllBytes, IsByte}
use sensor_link.Proto.Crc.{crc16}
use sensor_link.Proto.Crc.Residue.{crc16_residue, crc16_residue_unique}
use sensor_link.Proto.Crc.Detect.{crc16_detects_byte}
use sensor_link.Proto.Cobs.Decode.{decoded, plain}
use sensor_link.Proto.Cobs.RoundTrip.{decoded-encoded}
use sensor_link.Proto.Encoder.Frames.{frame_blob, wire, body}
use sensor_link.Proto.Parser.{ParsedFrame, ParseError, cobs_error}
use sensor_link.Proto.Parser.Phases.{dropped, delivered, judge, judge_blob}

-- The frame that stands for a message.
abbrev pub message : MessageType → Bytes → ParsedFrame
message type payload = record { type = type; payload = payload; payload_size = length payload }

judge_blob-frame_blob :
    (m : ℕ) (type : MessageType) (payload : Bytes)
    → length payload ≤ m
    → judge_blob m (frame_blob type payload) ≡ delivered (message type payload)
unfolding judge_blob frame_blob
judge_blob-frame_blob m type payload h = ground (
  arith,
  length-append payload (crc16 (body type payload) / 256 ∷ crc16 (body type payload) % 256 ∷ []),
  take-append payload (crc16 (body type payload) / 256 ∷ crc16 (body type payload) % 256 ∷ []),
  crc16_residue (body type payload),
)

pub judge-wire :
    (m : ℕ) (type : MessageType) (payload : Bytes)
    → length payload ≤ m
    → judge m (wire type payload) ≡ delivered (message type payload)
unfolding judge
judge-wire m type payload h =
    ap (λ (o : Option Bytes). elim o [ none ↦ dropped cobs_error | some ys ↦ judge_blob m ys ])
      (decoded-encoded (frame_blob type payload))
    ∙ judge_blob-frame_blob m type payload h

-- Decoding bytes gives bytes.
abbrev AllDecoded : Option Bytes → Type 0
AllDecoded none = Unit
AllDecoded (some ys) = AllBytes ys

AllDecoded-map :
    (b : ℕ) (o : Option Bytes) → b < 256 → AllDecoded o → AllDecoded (Option.map (λ ys. b ∷ ys) o)
AllDecoded-map b none h k = tt
AllDecoded-map b (some ys) h k = (h, k)

plain-AllDecoded :
    (left : ℕ) (pending : Bool) (xs : Bytes) → AllBytes xs → AllDecoded (plain left pending xs)
unfolding plain
plain-AllDecoded zero pending [] h = tt
plain-AllDecoded (suc left) pending [] h = tt
plain-AllDecoded zero pending (c ∷ cs) h =
    let rest = plain-AllDecoded (c - 1) (not (c == 0xff)) cs h.1 in
    elim (Bool-cases (c == 0)) [
      | inl z ↦ rw z tt
      | inr z ↦ rw z (elim (Bool-cases pending) [
        | inl p ↦ rw p (AllDecoded-map 0 (plain (c - 1) (not (c == 0xff)) cs) (omega arith) rest)
        | inr p ↦ rw p rest
      ])
    ]
plain-AllDecoded (suc left) pending (b ∷ bs) h =
    let rest = plain-AllDecoded left pending bs h.1 in
    elim (Bool-cases (b == 0)) [
      | inl z ↦ rw z tt
      | inr z ↦ rw z (AllDecoded-map b (plain left pending bs) h.0 rest)
    ]

two_left : (xs : Bytes) → length xs ≡ 2 → (c : ℕ) × (d : ℕ) × (xs ≡ c ∷ d ∷ [])
two_left [] h = absurd (omega arith)
two_left (c ∷ []) h = absurd (omega arith)
two_left (c ∷ d ∷ []) h = (c, d, refl)
two_left (c ∷ d ∷ x ∷ xs) h = absurd (omega arith)

-- What the checks have established when they all pass.
passed :
    (m a b : ℕ) (zs : Bytes) (f : ParsedFrame)
    → judge_blob m (a ∷ b ∷ zs) ≡ delivered f
    → (length zs ≡ b + 2)
      × (b ≤ m)
      × (crc16 (a ∷ b ∷ zs) ≡ 0)
      × (f ≡ record { type = a; payload = take b zs; payload_size = b })
unfolding judge_blob
passed m a b zs f e = ground arith

-- A header, a payload of the declared length and two bytes that end the CRC at zero.
blob_of_parts :
    (a b c d : ℕ) (payload : Bytes)
    → length payload ≡ b
    → c < 256
    → d < 256
    → crc16 (a ∷ b ∷ (payload ++ c ∷ d ∷ [])) ≡ 0
    → a ∷ b ∷ (payload ++ c ∷ d ∷ []) ≡ frame_blob a payload
unfolding frame_blob
blob_of_parts a b c d payload n hc hd e =
    rw (sym n) (ap₂ (λ (x y : ℕ). a ∷ length payload ∷ (payload ++ x ∷ y ∷ [])) u.0 u.1)
  where
    u : (c ≡ crc16 (body a payload) / 256) × (d ≡ crc16 (body a payload) % 256)
    u =
        crc16_residue_unique (body a payload) c d hc hd
          (ap (λ (k : ℕ). crc16 (a ∷ k ∷ (payload ++ c ∷ d ∷ []))) n ∙ e)

AllBytes-append_right : (xs ys : Bytes) → AllBytes (xs ++ ys) → AllBytes ys
AllBytes-append_right [] ys h = h
AllBytes-append_right (x ∷ xs) ys h = AllBytes-append_right xs ys h.1

-- A blob that passes every check is the one that the encoder lays out for the frame.
judge_blob_delivers :
    (m : ℕ) (ys : Bytes) (f : ParsedFrame)
    → AllBytes ys
    → judge_blob m ys ≡ delivered f
    → (ys ≡ frame_blob f.type f.payload) × (f ≡ message f.type f.payload) × (length f.payload ≤ m)
judge_blob_delivers m [] f h e = absurd (unfold judge_blob in ground arith)
judge_blob_delivers m (a ∷ []) f h e = absurd (unfold judge_blob in ground arith)
judge_blob_delivers m (a ∷ b ∷ zs) f h e =
    subst
      (λ (g : ParsedFrame).
        (a ∷ b ∷ zs ≡ frame_blob g.type g.payload)
        × (g ≡ message g.type g.payload)
        × (length g.payload ≤ m))
      (sym checked.3)
      (
        whole,
        ap (λ (k : ℕ). record { type = a; payload = take b zs; payload_size = k }) (sym size),
        omega (arith, size, checked.1),
      )
  where
    checked :
        (length zs ≡ b + 2)
        × (b ≤ m)
        × (crc16 (a ∷ b ∷ zs) ≡ 0)
        × (f ≡ record { type = a; payload = take b zs; payload_size = b })
    checked = passed m a b zs f e

    size : length (take b zs) ≡ b
    size = omega (arith, length-take b zs, checked.0)

    ends : (c : ℕ) × (d : ℕ) × (drop b zs ≡ c ∷ d ∷ [])
    ends = two_left (drop b zs) (omega (arith, length-drop b zs, checked.0))

    parts : zs ≡ take b zs ++ ends.0 ∷ ends.1 ∷ []
    parts = sym (take-append-drop b zs) ∙ ap (λ (l : Bytes). take b zs ++ l) ends.2

    crc_bytes : AllBytes (ends.0 ∷ ends.1 ∷ [])
    crc_bytes = AllBytes-append_right (take b zs) _ (subst AllBytes parts h.1.1)

    whole : a ∷ b ∷ zs ≡ frame_blob a (take b zs)
    whole =
        ap (λ (l : Bytes). a ∷ b ∷ l) parts
        ∙ blob_of_parts a b ends.0 ends.1 (take b zs) size crc_bytes.0 crc_bytes.1.0
            (ap (λ (l : Bytes). crc16 (a ∷ b ∷ l)) (sym parts) ∙ checked.2)

judge-some : (m : ℕ) (xs ys : Bytes) → decoded xs ≡ some ys → judge m xs ≡ judge_blob m ys
unfolding judge
judge-some m xs ys e =
    ap (λ (o : Option Bytes). elim o [ none ↦ dropped cobs_error | some ys ↦ judge_blob m ys ]) e

judge-none : (m : ℕ) (xs : Bytes) → decoded xs ≡ none → judge m xs ≡ dropped cobs_error
unfolding judge
judge-none m xs e =
    ap (λ (o : Option Bytes). elim o [ none ↦ dropped cobs_error | some ys ↦ judge_blob m ys ]) e

dropped-ne-delivered : {e : ParseError} {f : ParsedFrame} → dropped e ≡ delivered f → ⊥
dropped-ne-delivered p = cc

residue_of_delivered :
    (m : ℕ) (ys : Bytes) (f : ParsedFrame) → judge_blob m ys ≡ delivered f → crc16 ys ≡ 0
unfolding judge_blob
residue_of_delivered m ys f e = ground arith

-- Bytes between two delimiters are delivered exactly when they stand for what `encode_frame` lays
-- out for the delivered type and payload, and the payload is within the parser's maximum.
pub judge_iff :
    (m : ℕ) (xs : Bytes) (f : ParsedFrame)
    → AllBytes xs
    → (judge m xs ≡ delivered f) ↔ (
        (decoded xs ≡ some (frame_blob f.type f.payload))
        × (f ≡ message f.type f.payload)
        × (length f.payload ≤ m))
judge_iff m xs f h = (there, back)
  where
    there :
        judge m xs ≡ delivered f
        → (decoded xs ≡ some (frame_blob f.type f.payload))
          × (f ≡ message f.type f.payload)
          × (length f.payload ≤ m)
    there e = elim (Option-cases (decoded xs)) [
      | inl n ↦ absurd (dropped-ne-delivered (sym (judge-none m xs n) ∙ e))
      | inr (ys, y) ↦
          let r =
            judge_blob_delivers m ys f (subst AllDecoded y (plain-AllDecoded 0 false xs h))
              (sym (judge-some m xs ys y) ∙ e) in
          (y ∙ ap some r.0, r.1, r.2)
    ]

    back :
        (decoded xs ≡ some (frame_blob f.type f.payload))
          × (f ≡ message f.type f.payload)
          × (length f.payload ≤ m)
        → judge m xs ≡ delivered f
    back e =
        judge-some m xs (frame_blob f.type f.payload) e.0
        ∙ judge_blob-frame_blob m f.type f.payload e.2
        ∙ ap delivered (sym e.1)

-- A frame with one byte of its blob changed, wherever it stands, is not delivered.
pub judge_corrupt :
    (m : ℕ) (xs : Bytes) (type : MessageType) (payload front back : Bytes) (a b : ℕ)
    (f : ParsedFrame)
    → AllBytes back
    → IsByte a
    → IsByte b
    → a ≢ b
    → frame_blob type payload ≡ front ++ a ∷ back
    → decoded xs ≡ some (front ++ b ∷ back)
    → judge m xs ≢ delivered f
judge_corrupt m xs type payload front back a b f h ha hb ne e d j =
    crc16_detects_byte front back a b h ha hb ne (
      ap crc16 (sym e)
      ∙ unfold frame_blob in
        crc16_residue (body type payload)
        ∙ sym (residue_of_delivered m (front ++ b ∷ back) f (sym (judge-some m xs _ d) ∙ j)))
