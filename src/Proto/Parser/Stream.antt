-- ===== src/Proto/Parser/Stream.antt =====
-- `push_bytes` of proto/frame_parser.hpp over whole streams: what reaches the sink.
use sensor_link.Prelude.{ℕ, ◌≡◌, ◌∙◌, refl, ap, ap₂, sym}
use sensor_link.Prelude.{List, [], ◌∷◌, ◌++◌, append_assoc, Option, none, some}
use sensor_link.Proto.Messages.{Bytes}
use sensor_link.Proto.Parser.{
  ParsedFrame, ParseError, no_error, cobs_error, bad_length, bad_crc, frame_too_long, Parser,
  push_byte, push_bytes,
}
use sensor_link.Proto.Parser.Inv.{IsValid, push_byte-IsValid}
use sensor_link.Proto.Parser.Phases.{
  Event, silent, dropped, delivered, Phase, step, phase, event, error_event,
}
use sensor_link.Proto.Parser.Refine.{push_byte-step}

abbrev pub frames : Event → List ParsedFrame
frames (delivered f) = f ∷ []
frames silent = []
frames (dropped e) = []

-- The frames that a run of bytes completes, and the phase that it leads to.
unfoldable pub deliveries : ℕ → Phase → Bytes → List ParsedFrame × Phase
deliveries m ph [] = ([], ph)
deliveries m ph (b ∷ bs) =
    let (e, ph') = step m ph b in let (fs, last) = deliveries m ph' bs in (frames e ++ fs, last)

-- The sink's state after some frames.
abbrev pub feed {ℓ} : {S : Type ℓ} → (ParsedFrame → S → S) → List ParsedFrame → S → S
feed sink [] s = s
feed sink (f ∷ fs) s = feed sink fs (sink f s)

pub feed-append {ℓ} :
    {S : Type ℓ} (sink : ParsedFrame → S → S) (fs gs : List ParsedFrame) (s : S)
    → feed sink (fs ++ gs) s ≡ feed sink gs (feed sink fs s)
feed-append sink [] gs s = refl
feed-append sink (f ∷ fs) gs s = feed-append sink fs gs (sink f s)

pub deliveries-append :
    (m : ℕ) (ph : Phase) (xs ys : Bytes)
    → deliveries m ph (xs ++ ys) ≡ (
      (deliveries m ph xs).0 ++ (deliveries m (deliveries m ph xs).1 ys).0,
      (deliveries m (deliveries m ph xs).1 ys).1,
    )
unfolding deliveries
deliveries-append m ph [] ys = refl
deliveries-append m ph (b ∷ xs) ys =
    ap (λ (r : List ParsedFrame × Phase). (frames (step m ph b).0 ++ r.0, r.1))
      (deliveries-append m (step m ph b).1 xs ys)
    ∙ ap (λ (l : List ParsedFrame). (l, (deliveries m (deliveries m (step m ph b).1 xs).1 ys).1))
        (sym (append_assoc (frames (step m ph b).0) _ _))

-- The sink sees exactly the completed frame.
error_sinks_nothing {ℓ} :
    {S : Type ℓ} (sink : ParsedFrame → S → S) (s : S) (e : ParseError)
    → s ≡ feed sink (frames (error_event e)) s
error_sinks_nothing sink s no_error = refl
error_sinks_nothing sink s cobs_error = refl
error_sinks_nothing sink s bad_length = refl
error_sinks_nothing sink s bad_crc = refl
error_sinks_nothing sink s frame_too_long = refl

sunk {ℓ} :
    {S : Type ℓ} (sink : ParsedFrame → S → S) (s : S) (o : Option ParsedFrame) (p : Parser)
    → (elim o [ none ↦ s | some f ↦ sink f s ]) ≡ feed sink (frames (event (o, p))) s
sunk sink s none p = error_sinks_nothing sink s p.last_error
sunk sink s (some f) p = refl

-- What `push_bytes` leaves: the sink has had the completed frames in order, and the parser is valid
-- and in the phase that the bytes lead to.
pub record Received {ℓ} {S : Type ℓ} (m : ℕ) (sink : ParsedFrame → S → S) (ph : Phase) (bs : Bytes)
    (s : S) (r : S × Parser) : Type ℓ where
  pub sank : r.0 ≡ feed sink (deliveries m ph bs).0 s
  pub reached : phase r.1 ≡ (deliveries m ph bs).1
  pub valid : IsValid m r.1

-- On any bytes, from any valid state.
pub push_bytes-Received {ℓ} :
    {S : Type ℓ} (m : ℕ) (sink : ParsedFrame → S → S) (bs : Bytes) (s : S) (p : Parser)
    → IsValid m p
    → Received m sink (phase p) bs s (push_bytes m sink bs s p)
unfolding push_bytes deliveries
push_bytes-Received m sink [] s p v = record { sank = refl; reached = refl; valid = v }
push_bytes-Received {S = S} m sink (b ∷ bs) s p v =
    let st : Event × Phase = step m (phase p) b in
    let q : Option ParsedFrame × Parser = push_byte m p b in
    let s' : S = (elim q.0 [ none ↦ s | some f ↦ sink f s ]) in
    let ih : Received m sink (phase q.1) bs s' (push_bytes m sink bs s' q.1) =
      push_bytes-Received m sink bs s' q.1 (push_byte-IsValid m p b v) in
    let es : event q ≡ st.0 = ap (λ (r : Event × Phase). r.0) (push_byte-step m p b v) in
    let ps : phase q.1 ≡ st.1 = ap (λ (r : Event × Phase). r.1) (push_byte-step m p b v) in
    record {
      sank =
          ih.sank
          ∙ ap₂ (λ (x : Phase) (t : S). feed sink (deliveries m x bs).0 t) ps
              (sunk sink s q.0 q.1 ∙ ap (λ (e : Event). feed sink (frames e) s) es)
          ∙ sym (feed-append sink (frames st.0) (deliveries m st.1 bs).0 s);
      reached = ih.reached ∙ ap (λ (x : Phase). (deliveries m x bs).1) ps;
      valid = ih.valid;
    }
