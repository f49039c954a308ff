-- ===== src/Node/Handshake.antt =====
-- The two ends together: node/session.cpp and node/tasks/command_task.cpp with server/ingest.cpp.
use sensor_link.Prelude.{
  ℕ, ◌^◌, ◌≤◌, ◌<◌, ◌≡◌, ◌∙◌, refl, ap, ap₂, sym, arith, min, List, [], ◌∷◌, ◌++◌, append-nil,
  length, length-append, length-replicate, take, take-append, append_assoc, replicate, some, true,
}
use sensor_link.Proto.Messages
use sensor_link.Proto.Messages.{
  Bytes, MessageType, AllBytes, max_payload_size, HelloPayload, ConfigPayload, hello_to_bytes,
  config_to_bytes, config_of_bytes, hello_of_bytes, protocol_version,
}
use sensor_link.Proto.Messages.RoundTrip.{hello_round_trip}
use sensor_link.Proto.Encoder.{EncodeResult, max_encoded_frame_size}
use sensor_link.Proto.Encoder.Frames.{wire, encode_frame_lem, length-wire}
use sensor_link.Proto.Parser.{Parser, push_bytes}
use sensor_link.Proto.Parser.Inv.{IsValid}
use sensor_link.Proto.Parser.Phases.{phase, between}
use sensor_link.Proto.Parser.Judge.{message}
use sensor_link.Proto.Parser.Stream.{feed}
use sensor_link.Proto.Parser.Deliver.{
  stream, messages, AllSendable, IsSendable, stream_round_trip, transmitted-wire,
}
use sensor_link.Server.Session.{Session, open_session}
use sensor_link.Server.Session.Policy.{answer_hello_lem}
use sensor_link.Server.Connection.{enqueue_write}
use sensor_link.Server.Connection.Flow.{write_buffer-enqueue_write}
use sensor_link.Server.Store.{Store}
use sensor_link.Server.Ingest.{Ingest, on_readable, handle_hello}
use sensor_link.Server.Ingest.Stream.{handle_hello_lem, on_readable-hello, consumed}
use sensor_link.Node.{
  Pipeline, write_frame, send_message, send_hello, obey, command_byte, command_bytes,
}

-- A message of at most 255 bytes goes out whole.
pub send_message_lem :
    (type : MessageType) (payload : Bytes) (p : Pipeline)
    → length payload ≤ 255
    → send_message type payload p ≡ record p { uart = p.uart ++ (wire type payload ++ 0 ∷ []) }
unfolding send_message write_frame
send_message_lem type payload p h =
    ap (λ (r : EncodeResult × Bytes). write_frame r p)
      ((encode_frame_lem type payload (replicate n 0) n
          (omega (arith, length-replicate {A = ℕ} n 0))).1
        h (length-wire type payload))
    ∙ ap (λ (l : Bytes). record p { uart = p.uart ++ l })
        (ap₂ take (sym (length-append (wire type payload) (0 ∷ [])))
            (sym (append_assoc (wire type payload) (0 ∷ []) _))
          ∙ take-append (wire type payload ++ 0 ∷ []) _)
  where
    n : ℕ
    n = max_encoded_frame_size (length payload)

-- One message's stream is its frame and the delimiter.
pub stream_one :
    (type : MessageType) (payload : Bytes)
    → length payload ≤ 255
    → stream ((type, payload) ∷ []) ≡ wire type payload ++ 0 ∷ []
stream_one type payload h =
    append-nil _
    ∙ transmitted-wire type payload (replicate n 0) n h (omega arith)
        (omega (arith, length-replicate {A = ℕ} n 0))
  where
    n : ℕ
    n = max_encoded_frame_size (length payload)

command_bytes-push_bytes :
    (bs : Bytes) (p : Pipeline) (parser : Parser)
    → command_bytes bs (p, parser) ≡ push_bytes max_payload_size obey bs p parser
unfolding command_bytes command_byte push_bytes
command_bytes-push_bytes [] p parser = refl
command_bytes-push_bytes (b ∷ bs) p parser = command_bytes-push_bytes bs _ _

-- The command task obeys every message of a stream, once and in order.
pub command_bytes-stream :
    (ms : List (MessageType × Bytes)) (p : Pipeline) (parser : Parser)
    → IsValid max_payload_size parser
    → phase parser ≡ between
    → AllSendable max_payload_size ms
    → (command_bytes (stream ms) (p, parser)).0 ≡ feed obey (messages ms) p
command_bytes-stream ms p parser v e h =
    ap (λ (r : Pipeline × Parser). r.0) (command_bytes-push_bytes (stream ms) p parser)
    ∙ stream_round_trip max_payload_size obey p parser ms v e h

abbrev pub hello_of : Pipeline → HelloPayload
hello_of p = record {
  device_id = 1;
  fw_version = protocol_version;
  metric_count = 1;
  offered_rate_hz = p.sample_rate_hz;
}

hello-IsSendable :
    (p : Pipeline)
    → p.sample_rate_hz < 256
    → IsSendable 255 Messages.hello (hello_to_bytes (hello_of p))
unfolding hello_to_bytes
hello-IsSendable p h = record {
  type_byte = omega arith;
  payload_bytes = (
    omega arith,
    (
      omega arith,
      (omega arith, (omega arith, (omega arith, (omega arith, (omega arith, (h, _)))))),
    ),
  );
  fits_format = omega arith;
  fits_parser = omega arith;
}

config-IsSendable :
    (c : ConfigPayload)
    → c.sample_rate_hz < 256
    → c.metric_mask < 256
    → IsSendable 255 Messages.config (config_to_bytes c)
unfolding config_to_bytes
config-IsSendable c r m = record {
  type_byte = omega arith;
  payload_bytes = (omega arith, (omega arith, (r, (m, _))));
  fits_format = omega arith;
  fits_parser = omega arith;
}

obey-config :
    (c : ConfigPayload) (p : Pipeline)
    → c.session_id < 2 ^ 16
    → c.sample_rate_hz < 256
    → c.metric_mask < 256
    → obey (message Messages.config (config_to_bytes c)) p
      ≡ record p { sample_rate_hz = c.sample_rate_hz; session_id = c.session_id; connected = true }
unfolding obey config_to_bytes config_of_bytes
obey-config c p i r m =
    ap (λ (n : ℕ). record p { sample_rate_hz = c.sample_rate_hz; session_id = n; connected = true })
      (omega arith)

send_hello_lem :
    (p : Pipeline)
    → p.sample_rate_hz < 256
    → send_hello p
      ≡ record p { uart = p.uart ++ (wire Messages.hello (hello_to_bytes (hello_of p)) ++ 0 ∷ []) }
unfolding send_hello
send_hello_lem p r =
    send_message_lem Messages.hello (hello_to_bytes (hello_of p)) p
      (hello-IsSendable p r).fits_format

-- The handshake, end to end. A device says HELLO to a server whose end of the connection is empty;
-- once the server's callback has run on those bytes, the device reads what is queued for it. Then
-- the device is connected under the session id that the server gave it, and both ends use the same
-- rate: the offered one, but at most 10 readings a second.
pub handshake :
    (clock : ℕ → ℕ) (i : Ingest) (at_server at_node : Parser) (store : Store) (p : Pipeline)
    → IsValid max_payload_size at_server
    → phase at_server ≡ between
    → IsValid max_payload_size at_node
    → phase at_node ≡ between
    → p.uart ≡ []
    → p.sample_rate_hz < 256
    → i.session_id < 2 ^ 16
    → i.conn.write_buffer ≡ []
    → i.conn.read_buffer ≡ (send_hello p).uart
    → let d = (on_readable clock i at_server store).0.device in
      (d.session
        ≡ some (record {
          session_id = i.session_id;
          connected = true;
          current_rate_hz = min p.sample_rate_hz 10;
          last_activity = clock 0;
          last_uptime_ms = 0;
        }))
      × ((command_bytes d.conn.write_buffer (p, at_node)).0 ≡ record p {
        sample_rate_hz = min p.sample_rate_hz 10;
        session_id = i.session_id;
        connected = true;
      })
handshake clock i at_server at_node store p vs es vn en u r id w b = (
  ap (λ (d : Ingest). d.session) heard ∙ ap (λ (d : Ingest). d.session) answered,
  ap (λ (d : Ingest). (command_bytes d.conn.write_buffer (p, at_node)).0) heard
      ∙ ap (λ (d : Ingest). (command_bytes d.conn.write_buffer (p, at_node)).0) answered
      ∙ ap (λ (l : Bytes). (command_bytes l (p, at_node)).0) queued
      ∙ command_bytes-stream ((Messages.config, config_to_bytes c) ∷ []) p at_node vn en
          (config-IsSendable c (omega arith) (omega arith), _)
      ∙ obey-config c p id (omega arith) (omega arith),
)
  where
    h : HelloPayload
    h = hello_of p

    said : i.conn.read_buffer ≡ stream ((Messages.hello, hello_to_bytes h) ∷ [])
    said =
        b
        ∙ ap (λ (q : Pipeline). q.uart) (send_hello_lem p r)
        ∙ ap (λ (l : Bytes). l ++ (wire Messages.hello (hello_to_bytes h) ++ 0 ∷ [])) u
        ∙ sym (stream_one Messages.hello (hello_to_bytes h) (hello-IsSendable p r).fits_format)

    heard :
        (on_readable clock i at_server store).0.device
        ≡ (consumed
            (length (stream ((Messages.hello, hello_to_bytes h) ∷ [])))
            (record { device = handle_hello (clock 0) h i; store = store; handled = 1 })).device
    heard =
        on_readable-hello clock i at_server store h vs es (hello-IsSendable p r)
          (hello_round_trip h
            (record { device = omega arith; version = omega arith; count = omega arith; rate = r }))
          said

    c : ConfigPayload
    c = record {
      session_id = i.session_id;
      sample_rate_hz = min p.sample_rate_hz 10;
      metric_mask = 1;
    }

    answered : handle_hello (clock 0) h i ≡ record i {
      session = some (record {
        session_id = i.session_id;
        connected = true;
        current_rate_hz = min p.sample_rate_hz 10;
        last_activity = clock 0;
        last_uptime_ms = 0;
      });
      conn = enqueue_write (wire Messages.config (config_to_bytes c) ++ 0 ∷ []) i.conn;
    }
    answered =
        handle_hello_lem (clock 0) h i
        ∙ ap
            (λ (q : ConfigPayload × Session). record i {
              session = some q.1;
              conn = enqueue_write (wire Messages.config (config_to_bytes q.0) ++ 0 ∷ []) i.conn;
            })
            (answer_hello_lem h (open_session i.session_id (clock 0)))

    queued :
        (enqueue_write (wire Messages.config (config_to_bytes c) ++ 0 ∷ []) i.conn).write_buffer
        ≡ stream ((Messages.config, config_to_bytes c) ∷ [])
    queued =
        write_buffer-enqueue_write (wire Messages.config (config_to_bytes c) ++ 0 ∷ []) i.conn
        ∙ ap (λ (l : Bytes). l ++ (wire Messages.config (config_to_bytes c) ++ 0 ∷ [])) w
        ∙ sym (
            stream_one Messages.config (config_to_bytes c)
              (config-IsSendable c (omega arith) (omega arith)).fits_format)
