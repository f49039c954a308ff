-- ===== src/Proto/Parser/Deliver.antt =====
-- The two ends of proto/ together: what `encode_frame` writes, `frame_parser` delivers, and after any
-- delimiter the next whole frame gets through.
use sensor_link.Prelude.{ℕ, ◌+◌, ◌≤◌, ◌<◌, ◌≡◌, ◌≢◌, ◌∙◌, refl, ap, ap₂, sym, arith}
use sensor_link.Prelude.{
  List, [], ◌∷◌, ◌++◌, append_assoc, append-nil, length, length-append, take, take-append,
  replicate, length-replicate, All, All-append,
}
use sensor_link.Proto.Messages.{Bytes, MessageType, AllBytes, IsByte}
use sensor_link.Proto.Crc.Residue.{crc16-lt}
use sensor_link.Proto.Cobs.Blocks.{IsStuffed, blocks-IsStuffed, length-blocks, length-blocks_lower}
use sensor_link.Proto.Encoder.{encode_frame, max_encoded_frame_size, EncodeResult}
use sensor_link.Proto.Encoder.Frames.{
  wire, frame_blob, length-frame_blob, body, encode_frame_lem, length-wire,
}
use sensor_link.Proto.Parser.{ParsedFrame, Parser, push_bytes, buffer_size}
use sensor_link.Proto.Parser.Inv.{IsValid}
use sensor_link.Proto.Parser.Phases.{
  Event, silent, Phase, between, collecting, skipping, judge, step, phase,
}
use sensor_link.Proto.Parser.Judge.{message, judge-wire}
use sensor_link.Proto.Parser.Stream.{
  frames, deliveries, deliveries-append, feed, feed-append, Received, push_bytes-Received,
}

step_collects :
    (m : ℕ) (xs : Bytes) (b : ℕ)
    → b ≢ 0
    → length xs < buffer_size m
    → step m (collecting xs) b ≡ (silent, collecting (xs ++ b ∷ []))
unfolding step
step_collects m xs b h n = ground arith

step_starts : (m b : ℕ) → b ≢ 0 → step m between b ≡ (silent, collecting (b ∷ []))
unfolding step
step_starts m b h = ground arith

-- One step of a run.
deliveries-cons :
    (m : ℕ) (ph : Phase) (b : ℕ) (bs : Bytes) (e : Event) (next : Phase)
    → step m ph b ≡ (e, next)
    → deliveries m ph (b ∷ bs) ≡ (frames e ++ (deliveries m next bs).0, (deliveries m next bs).1)
unfolding deliveries
deliveries-cons m ph b bs e next p =
    ap (λ (r : Event × Phase). (frames r.0 ++ (deliveries m r.1 bs).0, (deliveries m r.1 bs).1)) p

deliveries-nil : (m : ℕ) (ph : Phase) → deliveries m ph [] ≡ ([], ph)
unfolding deliveries
deliveries-nil m ph = refl

-- Bytes other than the delimiter are collected while there is room, and judged at the delimiter.
collects :
    (m : ℕ) (xs bs : Bytes)
    → All IsStuffed bs
    → length xs + length bs ≤ buffer_size m
    → deliveries m (collecting xs) (bs ++ 0 ∷ []) ≡ (frames (judge m (xs ++ bs)), between)
collects m xs [] h n =
    deliveries-cons m (collecting xs) 0 [] (judge m xs) between (unfold step in refl)
    ∙ ap (λ (r : List ParsedFrame × Phase). (frames (judge m xs) ++ r.0, r.1))
        (deliveries-nil m between)
    ∙ ap₂ (λ (l : List ParsedFrame) (ys : Bytes). (l, between)) (append-nil _) (sym (append-nil xs))
    ∙ ap (λ (ys : Bytes). (frames (judge m ys), between)) (sym (append-nil xs))
collects m xs (b ∷ bs) h n =
    deliveries-cons m (collecting xs) b (bs ++ 0 ∷ []) silent (collecting (xs ++ b ∷ []))
      (step_collects m xs b h.0.0 (omega arith))
    ∙ collects m (xs ++ b ∷ []) bs h.1 (omega (arith, length-append xs (b ∷ [])))
    ∙ ap (λ (l : Bytes). (frames (judge m l), between)) (append_assoc xs (b ∷ []) bs)

collects_first :
    (m : ℕ) (bs : Bytes)
    → 1 ≤ length bs
    → All IsStuffed bs
    → length bs ≤ buffer_size m
    → deliveries m between (bs ++ 0 ∷ []) ≡ (frames (judge m bs), between)
collects_first m [] k h n = absurd (omega arith)
collects_first m (b ∷ bs) k h n =
    deliveries-cons m between b (bs ++ 0 ∷ []) silent (collecting (b ∷ [])) (step_starts m b h.0.0)
    ∙ collects m (b ∷ []) bs h.1 (omega arith)

frame_blob-AllBytes :
    (type : MessageType) (payload : Bytes)
    → IsByte type
    → length payload ≤ 255
    → AllBytes payload
    → AllBytes (frame_blob type payload)
unfolding frame_blob
frame_blob-AllBytes type payload ht n hp = (
  ht,
  (omega arith, All-append IsByte payload _ hp (omega (arith, crc16-lt (body type payload)))),
)

-- One frame, as it stands on the wire.
pub deliveries-wire :
    (m : ℕ) (type : MessageType) (payload : Bytes)
    → IsByte type
    → AllBytes payload
    → length payload ≤ 255
    → length payload ≤ m
    → deliveries m between (wire type payload ++ 0 ∷ []) ≡ (message type payload ∷ [], between)
deliveries-wire m type payload ht hp n k =
    collects_first m (wire type payload) (length-blocks_lower [] (frame_blob type payload))
      (blocks-IsStuffed [] (frame_blob type payload) (omega arith) tt
        (frame_blob-AllBytes type payload ht n hp))
      (omega (
        arith,
        length-blocks [] (frame_blob type payload) (omega arith),
        length-frame_blob type payload,
      ))
    ∙ ap (λ (e : Event). (frames e, between)) (judge-wire m type payload k)

-- A delimiter ends whatever phase the receiver is in.
delimiter_resyncs : (m : ℕ) (ph : Phase) (g : Bytes) → (deliveries m ph (g ++ 0 ∷ [])).1 ≡ between
delimiter_resyncs m ph g =
    ap (λ (r : List ParsedFrame × Phase). r.1) (deliveries-append m ph g (0 ∷ []))
    ∙ zero_resyncs (deliveries m ph g).1
  where
    zero_resyncs : (ph : Phase) → (deliveries m ph (0 ∷ [])).1 ≡ between
    zero_resyncs between = unfold deliveries step in refl
    zero_resyncs (collecting xs) = unfold deliveries step in refl
    zero_resyncs skipping = unfold deliveries step in refl

-- A message that fits the wire format and the receiver.
pub record IsSendable (m : ℕ) (type : MessageType) (payload : Bytes) : Type 0 where
  pub type_byte : IsByte type
  pub payload_bytes : AllBytes payload
  pub fits_format : length payload ≤ 255
  pub fits_parser : length payload ≤ m

-- What a sender puts on the wire from a buffer of `capacity` bytes.
abbrev pub transmitted : MessageType → Bytes → Bytes → ℕ → Bytes
transmitted type payload out capacity =
    take (encode_frame type payload out capacity).0.size (encode_frame type payload out capacity).1

pub transmitted-wire :
    (type : MessageType) (payload out : Bytes) (capacity : ℕ)
    → length payload ≤ 255
    → max_encoded_frame_size (length payload) ≤ capacity
    → capacity ≤ length out
    → transmitted type payload out capacity ≡ wire type payload ++ 0 ∷ []
transmitted-wire type payload out capacity n fits room =
    ap (λ (r : EncodeResult × Bytes). take r.0.size r.1)
      ((encode_frame_lem type payload out capacity room).1 n
        (omega (arith, length-wire type payload)))
    ∙ ap₂ take (sym (length-append (wire type payload) (0 ∷ [])))
        (sym (append_assoc (wire type payload) (0 ∷ []) _))
    ∙ take-append (wire type payload ++ 0 ∷ []) _

-- Resynchronisation: whatever state a valid parser is in and whatever bytes it has had up to a
-- delimiter, the next frame that `encode_frame` writes, into any buffer of the documented size, is
-- handed to the sink once, and the parser is between frames again.
pub frame_after_delimiter {ℓ} :
    {S : Type ℓ} (m : ℕ) (sink : ParsedFrame → S → S) (s : S) (p : Parser) (g : Bytes)
    (type : MessageType) (payload out : Bytes) (capacity : ℕ)
    → IsValid m p
    → IsSendable m type payload
    → max_encoded_frame_size (length payload) ≤ capacity
    → capacity ≤ length out
    → ((push_bytes m sink ((g ++ 0 ∷ []) ++ transmitted type payload out capacity) s p).0
        ≡ sink (message type payload) (push_bytes m sink (g ++ 0 ∷ []) s p).0)
      × (phase (push_bytes m sink ((g ++ 0 ∷ []) ++ transmitted type payload out capacity) s p).1
          ≡ between)
frame_after_delimiter {S = S} m sink s p g type payload out capacity v h fits room = (
  rw sent_bytes (
      all.sank
      ∙ ap (λ (r : List ParsedFrame × Phase). feed sink r.0 s) split
      ∙ feed-append sink (deliveries m (phase p) (g ++ 0 ∷ [])).0 (message type payload ∷ []) s
      ∙ ap (sink (message type payload)) (sym front.sank)),
  rw sent_bytes (all.reached ∙ ap (λ (r : List ParsedFrame × Phase). r.1) split),
)
  where
    sent_bytes : transmitted type payload out capacity ≡ wire type payload ++ 0 ∷ []
    sent_bytes = transmitted-wire type payload out capacity h.fits_format fits room

    front : Received m sink (phase p) (g ++ 0 ∷ []) s (push_bytes m sink (g ++ 0 ∷ []) s p)
    front = push_bytes-Received m sink (g ++ 0 ∷ []) s p v

    all :
        Received m sink
          (phase p)
          ((g ++ 0 ∷ []) ++ (wire type payload ++ 0 ∷ []))
          s
          (push_bytes m sink ((g ++ 0 ∷ []) ++ (wire type payload ++ 0 ∷ [])) s p)
    all = push_bytes-Received m sink _ s p v

    split :
        deliveries m (phase p) ((g ++ 0 ∷ []) ++ (wire type payload ++ 0 ∷ []))
        ≡ ((deliveries m (phase p) (g ++ 0 ∷ [])).0 ++ message type payload ∷ [], between)
    split =
        deliveries-append m (phase p) (g ++ 0 ∷ []) (wire type payload ++ 0 ∷ [])
        ∙ ap
            (λ (r : List ParsedFrame × Phase).
              ((deliveries m (phase p) (g ++ 0 ∷ [])).0 ++ r.0, r.1))
            (ap (λ (ph : Phase). deliveries m ph (wire type payload ++ 0 ∷ []))
                (delimiter_resyncs m (phase p) g)
              ∙ deliveries-wire m type payload h.type_byte h.payload_bytes h.fits_format
                  h.fits_parser)

-- Every message sent one after the other, each from a buffer of exactly the documented size.
abbrev pub stream : List (MessageType × Bytes) → Bytes
stream [] = []
stream ((type, payload) ∷ rest) =
    let n = max_encoded_frame_size (length payload) in
    transmitted type payload (replicate n 0) n ++ stream rest

abbrev pub AllSendable : ℕ → List (MessageType × Bytes) → Type 0
AllSendable m [] = Unit
AllSendable m ((type, payload) ∷ rest) = IsSendable m type payload × AllSendable m rest

abbrev pub messages : List (MessageType × Bytes) → List ParsedFrame
messages [] = []
messages ((type, payload) ∷ rest) = message type payload ∷ messages rest

deliveries-stream :
    (m : ℕ) (ms : List (MessageType × Bytes))
    → AllSendable m ms
    → deliveries m between (stream ms) ≡ (messages ms, between)
deliveries-stream m [] h = deliveries-nil m between
deliveries-stream m ((type, payload) ∷ rest) h =
    ap (λ (l : Bytes). deliveries m between (l ++ stream rest))
      (transmitted-wire type payload (replicate n 0) n h.0.fits_format (omega arith)
        (omega (arith, length-replicate {A = ℕ} n 0)))
    ∙ deliveries-append m between (wire type payload ++ 0 ∷ []) (stream rest)
    ∙ ap
        (λ (r : List ParsedFrame × Phase).
          (r.0 ++ (deliveries m r.1 (stream rest)).0, (deliveries m r.1 (stream rest)).1))
        (deliveries-wire m type payload h.0.type_byte h.0.payload_bytes h.0.fits_format
          h.0.fits_parser)
    ∙ ap (λ (r : List ParsedFrame × Phase). (message type payload ∷ r.0, r.1))
        (deliveries-stream m rest h.1)
  where
    n : ℕ
    n = max_encoded_frame_size (length payload)

-- The round trip: whatever messages are sent, a parser between frames hands each to its sink, in the
-- order in which they were sent, once, and nothing else.
pub stream_round_trip {ℓ} :
    {S : Type ℓ} (m : ℕ) (sink : ParsedFrame → S → S) (s : S) (p : Parser)
    (ms : List (MessageType × Bytes))
    → IsValid m p
    → phase p ≡ between
    → AllSendable m ms
    → (push_bytes m sink (stream ms) s p).0 ≡ feed sink (messages ms) s
stream_round_trip m sink s p ms v e h =
    (push_bytes-Received m sink (stream ms) s p v).sank
    ∙ ap (λ (ph : Phase). feed sink (deliveries m ph (stream ms)).0 s) e
    ∙ ap (λ (r : List ParsedFrame × Phase). feed sink r.0 s) (deliveries-stream m ms h)
