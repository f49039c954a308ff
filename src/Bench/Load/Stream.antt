-- ===== src/Bench/Load/Stream.antt =====
-- bench/load_generator.cpp: what a run puts on the wire.
use mathlib.Core.List.{map-append}
use sensor_link.Prelude.{
  ℕ, zero, suc, ◌+◌, ◌*◌, ◌^◌, ◌≤◌, ◌<◌, ◌≡◌, ◌∙◌, refl, ap, ap₂, sym, arith, ltb, ltb-false, subst,
  Bool-cases, inl, inr, List, [], ◌∷◌, ◌++◌, append_assoc, append-nil, map, length, length-append,
  length-replicate, replicate, take, Option, none, some, All, All-append,
}
use sensor_link.Prelude.Int.{ℤ, pos}
use sensor_link.Proto.Messages
use sensor_link.Proto.Messages.{
  Bytes, MessageType, HelloPayload, SamplePayload, protocol_version, hello_to_bytes,
  sample_to_bytes,
}
use sensor_link.Proto.Encoder
use sensor_link.Proto.Encoder.{EncodeStatus, EncodeResult, encode_frame, max_encoded_frame_size}
use sensor_link.Proto.Encoder.Frames.{encode_frame_lem, length-wire}
use sensor_link.Proto.Parser.{ParsedFrame, push_bytes, fresh}
use sensor_link.Proto.Parser.Inv.{fresh-IsValid}
use sensor_link.Proto.Parser.Stream.{feed}
use sensor_link.Proto.Parser.Deliver.{
  IsSendable, transmitted, stream, messages, AllSendable, stream_round_trip,
}
use sensor_link.Bench.Load.{
  now_ms, Accepted, whole, refused, part, Generator, accept, send_frame, encoded, accept_ok,
  take_nap, sleep_until, nap_until, count_sent, pace, send_sample, next_value, value_of, looked,
  load_loop, run_load,
}

abbrev pub IsWhole : Accepted → Type 0
IsWhole whole = Unit
IsWhole refused = ⊥
IsWhole (part n) = ⊥

abbrev pub sample_message : SamplePayload → MessageType × Bytes
sample_message p = (Messages.sample, sample_to_bytes p)

-- 0 to n - 1.
abbrev pub counted_up : ℕ → List ℤ
counted_up zero = []
counted_up (suc n) = counted_up n ++ pos n ∷ []

stream-append : (xs ys : List (MessageType × Bytes)) → stream (xs ++ ys) ≡ stream xs ++ stream ys
stream-append [] ys = refl
stream-append ((type, payload) ∷ xs) ys =
    ap
      (λ (l : Bytes).
        transmitted type payload (replicate (max_encoded_frame_size (length payload)) 0)
          (max_encoded_frame_size (length payload))
        ++ l)
      (stream-append xs ys)
    ∙ sym (
        append_assoc
          (transmitted type payload (replicate (max_encoded_frame_size (length payload)) 0)
            (max_encoded_frame_size (length payload)))
          (stream xs) (stream ys))

-- An encoded frame, when the payload fits.
encoded-transmitted :
    (type : MessageType) (payload : Bytes)
    → length payload ≤ 255
    → ((encoded type payload).0.status ≡ Encoder.ok)
      × (take (encoded type payload).0.size (encoded type payload).1
          ≡ stream ((type, payload) ∷ []))
unfolding encoded
encoded-transmitted type payload h = (
  ap (λ (r : EncodeResult × Bytes). r.0.status)
      ((encode_frame_lem type payload (replicate n 0) n
          (omega (arith, length-replicate {A = ℕ} n 0))).1
        h (omega (arith, length-wire type payload))),
  sym (append-nil (transmitted type payload (replicate n 0) n)),
)
  where
    n : ℕ
    n = max_encoded_frame_size (length payload)

send_frame-whole :
    (type : MessageType) (payload : Bytes) (g : Generator)
    → length payload ≤ 255
    → send_frame (encoded type payload) whole g
      ≡ record g { out = g.out ++ stream ((type, payload) ∷ []) }
unfolding send_frame accept accept_ok
send_frame-whole type payload g h =
    ap₂ (λ (status : EncodeStatus) (frame : Bytes). accept_ok status whole frame g)
      (encoded-transmitted type payload h).0 (encoded-transmitted type payload h).1

take_nap-naps :
    (o : Option (ℕ × ℕ)) (g : Generator)
    → (naps : List (ℕ × ℕ)) × (take_nap o g ≡ record g { naps = naps })
unfolding take_nap
take_nap-naps none g = (g.naps, refl)
take_nap-naps (some nap) g = (g.naps ++ nap ∷ [], refl)

sample_size : (p : SamplePayload) → length (sample_to_bytes p) ≤ 255
unfolding sample_to_bytes
sample_size p = omega arith

value_of-small : (n : ℕ) → n < 2 ^ 31 → value_of n ≡ pos n
unfolding value_of
value_of-small n h = ground arith

next_value-small : (n : ℕ) → n < 2 ^ 31 → next_value n ≡ n + 1
unfolding next_value
next_value-small n h = omega arith

module _ (clock : ℕ → ℕ) (interval metric_id rate_hz : ℕ) where
  record Sent (hello : MessageType × Bytes) (g : Generator) : Type 0 where
    bytes : g.out ≡ stream (hello ∷ map sample_message g.tried)
    numbered : map (λ (p : SamplePayload). p.value_milli) g.tried ≡ counted_up (length g.tried)
    reached : g.value_milli ≡ length g.tried
    counted : g.sent ≡ length g.tried
    of_metric : All (λ (p : SamplePayload). p.metric_id ≡ metric_id) g.tried

  -- A generator with other readings, times and pauses.
  abbrev moved : ℕ → ℕ → List (ℕ × ℕ) → Generator → Generator
  moved reads next naps g = record g { clock_reads = reads; next_send = next; naps = naps }

  pace-moved :
      (g : Generator)
      → (reads : ℕ) × (next : ℕ) × (naps : List (ℕ × ℕ)) × (pace clock interval metric_id rate_hz g
          ≡ moved reads next naps g)
        × (g.clock_reads ≤ reads)
  unfolding pace sleep_until
  pace-moved g = elim (Bool-cases (ltb 0 rate_hz)) [
    | inl z ↦
        let (naps, e) =
          take_nap-naps (nap_until g.next_send (clock g.clock_reads))
            (record g { clock_reads = g.clock_reads + 1 }) in
        (
          g.clock_reads + 1,
          g.next_send + interval,
          naps,
          rw z (ap (λ (h : Generator). record h { next_send = g.next_send + interval }) e),
          omega arith,
        )
    | inr z ↦ (g.clock_reads, g.next_send, g.naps, rw z refl, omega arith)
  ]

  sample_of : Generator → SamplePayload
  sample_of g = record {
    session_id = 0;
    timestamp_ms = now_ms (clock g.clock_reads);
    value_milli = value_of g.value_milli;
    metric_id = metric_id;
  }

  send_sample-whole :
      (g : Generator)
      → send_sample clock interval metric_id rate_hz whole g ≡ record g {
        clock_reads = g.clock_reads + 1;
        sent = g.sent + 1;
        value_milli = next_value g.value_milli;
        tried = g.tried ++ sample_of g ∷ [];
        out = g.out ++ stream (sample_message (sample_of g) ∷ []);
      }
  unfolding send_sample count_sent sample_of
  send_sample-whole g =
      ap₂
        (λ (h : Generator) (c : ℕ). record h {
          clock_reads = g.clock_reads + 1;
          sent = c;
          value_milli = next_value g.value_milli;
          tried = g.tried ++ sample_of g ∷ [];
        })
        (send_frame-whole Messages.sample (sample_to_bytes (sample_of g)) g
          (sample_size (sample_of g)))
        (ap (λ (status : EncodeStatus). count_sent status whole g.sent)
          (encoded-transmitted Messages.sample (sample_to_bytes (sample_of g))
            (sample_size (sample_of g))).0)

  round-Sent :
      (hello : MessageType × Bytes) (answer : Accepted) (g : Generator)
      → IsWhole answer
      → g.value_milli < 2 ^ 31
      → Sent hello g
      → Sent hello (send_sample clock interval metric_id rate_hz answer g)
  unfolding sample_of next_value
  round-Sent hello refused g w k h = absurd w
  round-Sent hello (part n) g w k h = absurd w
  round-Sent hello whole g w k h = rw (send_sample-whole g) (record {
    bytes =
        ap (λ (l : Bytes). l ++ stream (sample_message (sample_of g) ∷ [])) h.bytes
        ∙ sym
            (stream-append (hello ∷ map sample_message g.tried) (sample_message (sample_of g) ∷ []))
        ∙ ap (λ (l : List (MessageType × Bytes)). stream (hello ∷ l))
            (sym (map-append sample_message g.tried (sample_of g ∷ [])));
    numbered =
        map-append (λ (p : SamplePayload). p.value_milli) g.tried (sample_of g ∷ [])
        ∙ ap₂ (λ (l : List ℤ) (z : ℤ). l ++ z ∷ []) h.numbered
            (value_of-small g.value_milli k ∙ ap pos h.reached)
        ∙ ap counted_up {x = suc (length g.tried)} {y = length (g.tried ++ sample_of g ∷ [])}
            (omega (arith, length-append g.tried (sample_of g ∷ [])));
    reached = omega (arith, k, h.reached, length-append g.tried (sample_of g ∷ []));
    counted = omega (arith, h.counted, length-append g.tried (sample_of g ∷ []));
    of_metric =
        All-append (λ (p : SamplePayload). p.metric_id ≡ metric_id) g.tried (sample_of g ∷ [])
          h.of_metric (refl, _);
  })

  moved-Sent :
      (hello : MessageType × Bytes) (g : Generator) (reads next : ℕ) (naps : List (ℕ × ℕ))
      → Sent hello g
      → Sent hello (moved reads next naps g)
  moved-Sent hello g reads next naps h = record {
    bytes = h.bytes;
    numbered = h.numbered;
    reached = h.reached;
    counted = h.counted;
    of_metric = h.of_metric;
  }

  looked-Sent :
      (hello : MessageType × Bytes) (g : Generator)
      → Sent hello g
      → Sent hello (looked clock interval metric_id rate_hz g)
  looked-Sent hello g h = record {
    bytes = h.bytes;
    numbered = h.numbered;
    reached = h.reached;
    counted = h.counted;
    of_metric = h.of_metric;
  }

  -- One round of the loop.
  abbrev next_round : Accepted → Generator → Generator
  next_round answer g =
      send_sample clock interval metric_id rate_hz answer
        (pace clock interval metric_id rate_hz (looked clock interval metric_id rate_hz g))

  next_round-Sent :
      (hello : MessageType × Bytes) (answer : Accepted) (g : Generator)
      → IsWhole answer
      → g.value_milli < 2 ^ 31
      → Sent hello g
      → Sent hello (next_round answer g)
  next_round-Sent hello answer g w small h =
      let l = looked clock interval metric_id rate_hz g in
      let (reads, next, naps, e, k) = pace-moved l in
      round-Sent hello answer (pace clock interval metric_id rate_hz l) w
        (subst (λ (q : Generator). q.value_milli < 2 ^ 31) (sym e) small)
        (subst (Sent hello) (sym e) (moved-Sent hello l reads next naps (looked-Sent hello g h)))

  next_round-reads :
      (answer : Accepted) (g : Generator)
      → IsWhole answer
      → g.clock_reads + 1 ≤ (next_round answer g).clock_reads
  next_round-reads refused g w = absurd w
  next_round-reads (part n) g w = absurd w
  next_round-reads whole g w =
      let l = looked clock interval metric_id rate_hz g in
      let (reads, next, naps, e, k) = pace-moved l in
      omega (
        arith,
        k,
        ap (λ (h : Generator). h.clock_reads) e,
        ap (λ (h : Generator). h.clock_reads)
            (send_sample-whole (pace clock interval metric_id rate_hz l)),
      )

  next_round-value :
      (answer : Accepted) (g : Generator)
      → IsWhole answer
      → (next_round answer g).value_milli ≡ next_value g.value_milli
  next_round-value refused g w = absurd w
  next_round-value (part n) g w = absurd w
  next_round-value whole g w =
      let l = looked clock interval metric_id rate_hz g in
      let (reads, next, naps, e, k) = pace-moved l in
      ap (λ (h : Generator). h.value_milli)
        (send_sample-whole (pace clock interval metric_id rate_hz l))
      ∙ ap (λ (h : Generator). next_value h.value_milli) e

  -- The loop returns, and what it leaves is `Sent`.
  load_loop-Sent :
      (hello : MessageType × Bytes) (deadline last : ℕ) (answers : List Accepted) (g : Generator)
      → ((n : ℕ) → last ≤ n → deadline ≤ clock n)
      → last ≤ g.clock_reads + length answers
      → g.value_milli + length answers ≤ 2 ^ 31
      → All IsWhole answers
      → Sent hello g
      → (h : Generator) × (load_loop clock interval metric_id rate_hz deadline answers g ≡ some h)
        × Sent hello h
  unfolding load_loop
  load_loop-Sent hello deadline last [] g ends enough few w s = (
    looked clock interval metric_id rate_hz g,
    rw (ltb-false (clock g.clock_reads) deadline (ends g.clock_reads (omega arith))) refl,
    looked-Sent hello g s,
  )
  load_loop-Sent hello deadline last (answer ∷ answers) g ends enough few w s =
      elim (Bool-cases (ltb (clock g.clock_reads) deadline)) [
        | inl z ↦
            let (h, e, k) =
              load_loop-Sent hello deadline last answers (next_round answer g) ends
                (omega (arith, next_round-reads answer g w.0))
                (omega (
                  arith,
                  next_round-value answer g w.0,
                  next_value-small g.value_milli (omega arith),
                ))
                w.1 (next_round-Sent hello answer g w.0 (omega arith) s) in
            (h, rw z e, k)
        | inr z ↦ (looked clock interval metric_id rate_hz g, rw z refl, looked-Sent hello g s)
      ]

-- The first message.
abbrev pub hello_of : ℕ → HelloPayload
hello_of device_id = record {
  device_id = device_id;
  fw_version = protocol_version;
  metric_count = 1;
  offered_rate_hz = 100;
}

abbrev pub sent_messages : ℕ → List SamplePayload → List (MessageType × Bytes)
sent_messages device_id samples =
    (Messages.hello, hello_to_bytes (hello_of device_id)) ∷ map sample_message samples

hello_size : (p : HelloPayload) → length (hello_to_bytes p) ≤ 255
unfolding hello_to_bytes
hello_size p = omega arith

IsSendable-hello :
    (device_id : ℕ) → IsSendable 255 Messages.hello (hello_to_bytes (hello_of device_id))
unfolding hello_to_bytes
IsSendable-hello device_id = record {
  type_byte = omega arith;
  payload_bytes = (
    omega arith,
    (
      omega arith,
      (omega arith, (omega arith, (omega arith, (omega arith, (omega arith, (omega arith, _)))))),
    ),
  );
  fits_format = omega arith;
  fits_parser = omega arith;
}

IsSendable-sample :
    (p : SamplePayload) → p.metric_id < 256 → IsSendable 255 Messages.sample (sample_to_bytes p)
unfolding sample_to_bytes
IsSendable-sample p m = record {
  type_byte = omega arith;
  payload_bytes = (
    omega arith,
    (
      omega arith,
      (
        omega arith,
        (
          omega arith,
          (
            omega arith,
            (omega arith, (omega arith, (omega arith, (omega arith, (omega arith, (m, _)))))),
          ),
        ),
      ),
    ),
  );
  fits_format = omega arith;
  fits_parser = omega arith;
}

AllSendable-samples :
    (metric_id : ℕ) (samples : List SamplePayload)
    → metric_id < 256
    → All (λ (p : SamplePayload). p.metric_id ≡ metric_id) samples
    → AllSendable 255 (map sample_message samples)
AllSendable-samples metric_id [] m h = _
AllSendable-samples metric_id (p ∷ samples) m h =
    (IsSendable-sample p (omega (arith, h.0)), AllSendable-samples metric_id samples m h.1)

-- What a run leaves: a parser that reads the bytes hands over the HELLO and then the samples, one for
-- each frame that is counted, and their values count up from 0.
pub record Generated {ℓ} (device_id : ℕ) {S : Type ℓ} (sink : ParsedFrame → S → S) (s : S)
    (g : Generator) : Type ℓ where
  pub delivered :
      (push_bytes 255 sink g.out s (fresh 255)).0
      ≡ feed sink (messages (sent_messages device_id g.tried)) s
  pub numbered : map (λ (p : SamplePayload). p.value_milli) g.tried ≡ counted_up (length g.tried)
  pub counted : g.sent ≡ length g.tried

-- When the clock reaches the deadline by a reading that the answers suffice for, and the kernel takes
-- every frame whole, and there are at most 2^31 answers, so that no value overflows, a run ends, and a parser that reads its bytes hands over its HELLO and then its
-- samples, as many as were counted, with the values 0, 1, 2 and so on.
pub run_load_lem {ℓ} :
    (clock : ℕ → ℕ) (interval metric_id rate_hz device_id duration last : ℕ)
    (answers : List Accepted) {S : Type ℓ} (sink : ParsedFrame → S → S) (s : S)
    → metric_id < 256
    → ((n : ℕ) → last ≤ n → clock 0 + duration * 10 ^ 9 ≤ clock n)
    → last ≤ 2 + length answers
    → length answers ≤ 2 ^ 31
    → All IsWhole answers
    → (g : Generator) × (run_load clock interval metric_id rate_hz device_id duration whole answers
        ≡ some g)
      × Generated device_id sink s g
unfolding run_load
run_load_lem clock interval metric_id rate_hz device_id duration last answers sink s m ends enough
      few w =
    let (g, e, k) =
      load_loop-Sent clock interval metric_id rate_hz hello (clock 0 + duration * 10 ^ 9) last
        answers greeted ends enough (omega arith) w
        (record { bytes = refl; numbered = refl; reached = refl; counted = refl; of_metric = _ }) in
    (
      g,
      ap
            (λ (h : Generator).
              load_loop clock interval metric_id rate_hz (clock 0 + duration * 10 ^ 9) answers h)
            (send_frame-whole Messages.hello (hello_to_bytes (hello_of device_id)) started
              (hello_size (hello_of device_id)))
          ∙ e,
      record {
        delivered =
            ap (λ (l : Bytes). (push_bytes 255 sink l s (fresh 255)).0) k.bytes
            ∙ stream_round_trip 255 sink s (fresh 255) (sent_messages device_id g.tried)
                (fresh-IsValid 255) refl
                (IsSendable-hello device_id, AllSendable-samples metric_id g.tried m k.of_metric);
        numbered = k.numbered;
        counted = k.counted;
      },
    )
  where
    hello : MessageType × Bytes
    hello = (Messages.hello, hello_to_bytes (hello_of device_id))

    started : Generator
    started = record {
      clock_reads = 2;
      next_send = clock 1;
      sent = 0;
      value_milli = 0;
      out = [];
      tried = [];
      naps = [];
    }

    greeted : Generator
    greeted = record started { out = stream (hello ∷ []) }
