-- ===== src/Server/Ingest/Stream.antt =====
-- server/ingest.cpp over whole streams: every frame that a device sends is handled, and every answer
-- is a frame.
use sensor_link.Prelude.{
  ℕ, ◌≤◌, ◌≡◌, ◌∙◌, refl, ap, ap₂, sym, arith, List, [], ◌∷◌, ◌++◌, length, length-append,
  length-replicate, take, take-append, append_assoc, replicate, some,
}
use sensor_link.Proto.Messages
use sensor_link.Proto.Messages.{
  Bytes, MessageType, hello_to_bytes, config_to_bytes, max_payload_size, hello_of_bytes,
  heartbeat_of_bytes, sample_of_bytes, HelloPayload, HeartbeatPayload, SamplePayload,
}
use sensor_link.Proto.Encoder.{EncodeResult, max_encoded_frame_size}
use sensor_link.Proto.Encoder.Frames.{wire, encode_frame_lem, length-wire}
use sensor_link.Proto.Parser.{Parser, ParsedFrame, push_bytes}
use sensor_link.Proto.Parser.Inv.{IsValid}
use sensor_link.Proto.Parser.Phases.{phase, between}
use sensor_link.Proto.Parser.Judge.{message}
use sensor_link.Proto.Parser.Stream.{feed}
use sensor_link.Proto.Parser.Deliver.{stream, messages, AllSendable, IsSendable, stream_round_trip}
use sensor_link.Server.Connection.{enqueue_write, consume}
use sensor_link.Server.Session.{answer_hello, open_session}
use sensor_link.Server.Store.{Store}
use sensor_link.Server.Ingest.{
  Ingest, Reach, enqueue_frame, send_frame, handle_hello, dispatch, handle_frame, on_bytes,
  on_readable,
}

-- Any payload of at most 255 bytes is sent: the frame and its delimiter are queued, whole.
pub send_frame_lem :
    (type : MessageType) (payload : Bytes) (i : Ingest)
    → length payload ≤ 255
    → send_frame type payload i
      ≡ record i { conn = enqueue_write (wire type payload ++ 0 ∷ []) i.conn }
unfolding send_frame enqueue_frame
send_frame_lem type payload i h =
    ap (λ (r : EncodeResult × Bytes). enqueue_frame r i)
      ((encode_frame_lem type payload (replicate n 0) n
          (omega (arith, length-replicate {A = ℕ} n 0))).1
        h (omega (arith, length-wire type payload)))
    ∙ ap (λ (l : Bytes). record i { conn = enqueue_write l i.conn })
        (ap₂ take (sym (length-append (wire type payload) (0 ∷ [])))
            (sym (append_assoc (wire type payload) (0 ∷ []) _))
          ∙ take-append (wire type payload ++ 0 ∷ []) _)
  where
    n : ℕ
    n = max_encoded_frame_size max_payload_size

abbrev begin : Ingest → Store → Reach
begin i store = record { device = i; store = store; handled = 0 }

-- What the callback leaves of a connection once it has handled `n` bytes.
abbrev pub consumed : ℕ → Reach → Reach
consumed n r = record r { device = record (r.device) { conn = consume n r.device.conn } }

on_bytes-push_bytes :
    (clock : ℕ → ℕ) (bytes : Bytes) (i : Ingest) (parser : Parser) (store : Store)
    → (on_bytes clock bytes i parser store).0
      ≡ consumed
          (length bytes)
          (push_bytes max_payload_size (handle_frame clock) bytes (begin i store) parser).0
unfolding on_bytes push_bytes
on_bytes-push_bytes clock [] i parser store = refl
on_bytes-push_bytes clock (b ∷ bs) i parser store = refl

-- A device's connection is readable, and the bytes are those of some messages that `encode_frame`
-- wrote: every one of them is handled, once and in order, and their bytes are consumed.
pub on_readable-stream :
    (clock : ℕ → ℕ) (i : Ingest) (parser : Parser) (store : Store) (ms : List (MessageType × Bytes))
    → IsValid max_payload_size parser
    → phase parser ≡ between
    → AllSendable max_payload_size ms
    → i.conn.read_buffer ≡ stream ms
    → (on_readable clock i parser store).0
      ≡ consumed (length (stream ms)) (
          feed
            (handle_frame clock)
            (messages ms)
            (record { device = i; store = store; handled = 0 }))
unfolding on_readable
on_readable-stream clock i parser store ms v e h b =
    ap (λ (l : Bytes). (on_bytes clock l i parser store).0) b
    ∙ on_bytes-push_bytes clock (stream ms) i parser store
    ∙ ap (λ (r : Reach). consumed (length (stream ms)) r)
        (stream_round_trip max_payload_size (handle_frame clock) (begin i store) parser ms v e h)

-- What HELLO is answered with: the CONFIG that the session decides on is queued whole.
pub handle_hello_lem :
    (now : ℕ) (p : HelloPayload) (i : Ingest)
    → handle_hello now p i ≡ record i {
      session = some (answer_hello p (open_session i.session_id now)).1;
      conn =
          enqueue_write
            (wire Messages.config
                (config_to_bytes (answer_hello p (open_session i.session_id now)).0)
              ++ 0 ∷ [])
            i.conn;
    }
unfolding handle_hello
handle_hello_lem now p i =
    send_frame_lem Messages.config _ _ (unfold config_to_bytes in omega arith)

pub dispatch-hello :
    (now : ℕ) (h : HelloPayload) (i : Ingest) (store : Store)
    → hello_of_bytes (hello_to_bytes h) ≡ some h
    → dispatch now (message Messages.hello (hello_to_bytes h)) i store
      ≡ (handle_hello now h i, store)
unfolding dispatch
dispatch-hello now h i store e = rw e refl

first_frame :
    (clock : ℕ → ℕ) (f : ParsedFrame) (i : Ingest) (store : Store) (q : Ingest × Store)
    → dispatch (clock 0) f i store ≡ q
    → handle_frame clock f (begin i store) ≡ record { device = q.0; store = q.1; handled = 1 }
unfolding handle_frame
first_frame clock f i store q e =
    ap (λ (q : Ingest × Store). record { device = q.0; store = q.1; handled = 1 }) e

-- The callback on the stream of one HELLO.
pub on_readable-hello :
    (clock : ℕ → ℕ) (i : Ingest) (parser : Parser) (store : Store) (h : HelloPayload)
    → IsValid max_payload_size parser
    → phase parser ≡ between
    → IsSendable max_payload_size Messages.hello (hello_to_bytes h)
    → hello_of_bytes (hello_to_bytes h) ≡ some h
    → i.conn.read_buffer ≡ stream ((Messages.hello, hello_to_bytes h) ∷ [])
    → (on_readable clock i parser store).0.device
      ≡ (consumed
          (length (stream ((Messages.hello, hello_to_bytes h) ∷ [])))
          (record { device = handle_hello (clock 0) h i; store = store; handled = 1 })).device
on_readable-hello clock i parser store h v e s r b =
    ap (λ (r : Reach). r.device)
      (on_readable-stream clock i parser store ((Messages.hello, hello_to_bytes h) ∷ []) v e (s, _)
          b
        ∙ ap (λ (r : Reach). consumed (length (stream ((Messages.hello, hello_to_bytes h) ∷ []))) r)
            (first_frame clock _ i store _ (dispatch-hello (clock 0) h i store r)))
