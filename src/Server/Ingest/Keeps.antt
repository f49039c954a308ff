-- ===== src/Server/Ingest/Keeps.antt =====
-- server/ingest.cpp: what every call keeps of a device, whatever bytes arrive.
use sensor_link.Prelude.{
  ℕ, ◌≡◌, ◌∙◌, refl, subst, ◌==◌, if◌then◌else◌, Bool, true, false, [], ◌∷◌, take, Option, none,
  some,
}
use sensor_link.Proto.Messages
use sensor_link.Proto.Messages.{
  Bytes, MessageType, HelloPayload, HeartbeatPayload, SamplePayload, max_payload_size,
  config_to_bytes, slow_down_to_bytes, hello_of_bytes, heartbeat_of_bytes, sample_of_bytes,
}
use sensor_link.Proto.Encoder
use sensor_link.Proto.Encoder.{EncodeResult, encode_frame, max_encoded_frame_size}
use sensor_link.Proto.Parser.{Parser, ParsedFrame, push_byte, push_bytes}
use sensor_link.Proto.Parser.Inv.{IsValid, push_byte-IsValid}
use sensor_link.Server.Connection.Listens.{Listens, enqueue_write-Listens}
use sensor_link.Server.Session.{
  Session, open_session, note_activity, note_uptime, answer_hello, lower_rate,
}
use sensor_link.Server.Store.{Store, record_sample}
use sensor_link.Server.Store.Listeners.{AllListen, record_sample-AllListen}
use sensor_link.Server.Ingest.{
  Ingest, Reach, enqueue_frame, send_frame, handle_heartbeat, handle_sample, handle_hello, dispatch,
  handle_frame, on_bytes, on_readable, send_slow_down,
}

-- A session that has been opened has the id that the device was given.
abbrev pub OwnSession : ℕ → Option Session → Type 0
OwnSession n none = Unit
OwnSession n (some s) = s.session_id ≡ n

-- The device `j` is the device `i` later on.
pub record Keeps (i j : Ingest) : Type 0 where
  pub same_id : j.session_id ≡ i.session_id
  pub own : OwnSession i.session_id i.session → OwnSession j.session_id j.session
  pub listens : Listens i.conn → Listens j.conn

-- The same of a device beside the store: the connections in the store stay watched.
abbrev KeepsBoth : Ingest → Store → Ingest × Store → Type 0
KeepsBoth i store r = Keeps i r.0 × (AllListen store → AllListen r.1)

pub Keeps-refl : (i : Ingest) → Keeps i i
Keeps-refl i = record { same_id = refl; own = λ h. h; listens = λ h. h }

pub Keeps-trans : {i j k : Ingest} → Keeps i j → Keeps j k → Keeps i k
Keeps-trans p q = record {
  same_id = q.same_id ∙ p.same_id;
  own = λ h. q.own (p.own h);
  listens = λ h. q.listens (p.listens h);
}

enqueue_frame-Keeps : (r : EncodeResult × Bytes) (i : Ingest) → Keeps i (enqueue_frame r i)
unfolding enqueue_frame
enqueue_frame-Keeps (result, out) i = at_status result.status refl
  where
    at_status :
        (s : Encoder.EncodeStatus) → result.status ≡ s → Keeps i (enqueue_frame (result, out) i)
    at_status Encoder.ok e = rw e (record {
      same_id = refl;
      own = λ h. h;
      listens = λ h. enqueue_write-Listens (take result.size out) i.conn;
    })
    at_status Encoder.payload_too_large e = rw e (Keeps-refl i)
    at_status Encoder.output_overflow e = rw e (Keeps-refl i)

send_frame-Keeps :
    (type : MessageType) (payload : Bytes) (i : Ingest) → Keeps i (send_frame type payload i)
unfolding send_frame
send_frame-Keeps type payload i = enqueue_frame-Keeps _ i

-- The same device with another session of its own.
with_session :
    (i : Ingest) (s : Session)
    → s.session_id ≡ i.session_id
    → Keeps i (record i { session = some s })
with_session i s e = record { same_id = refl; own = λ h. e; listens = λ h. h }

-- The same device with a session that has the id of the one before.
same_session :
    (i : Ingest) (s t : Session)
    → i.session ≡ some s
    → t.session_id ≡ s.session_id
    → Keeps i (record i { session = some t })
same_session i s t e p = record {
  same_id = refl;
  own = λ h. p ∙ subst (OwnSession i.session_id) e h;
  listens = λ h. h;
}

handle_heartbeat-Keeps :
    (now : ℕ) (payload : HeartbeatPayload) (i : Ingest) → Keeps i (handle_heartbeat now payload i)
unfolding handle_heartbeat
handle_heartbeat-Keeps now payload i = at_session i.session refl
  where
    at_session :
        (o : Option Session)
        → i.session ≡ o
        → Keeps i (elim o [
          | none ↦ i
          | some s ↦ record i {
            session = some (note_uptime payload.uptime_ms (note_activity now s));
          }
        ])
    at_session none e = Keeps-refl i
    at_session (some s) e =
        same_session i s (note_uptime payload.uptime_ms (note_activity now s)) e refl

handle_sample-Keeps :
    (now : ℕ) (payload : SamplePayload) (i : Ingest) (store : Store)
    → KeepsBoth i store (handle_sample now payload i store)
unfolding handle_sample
handle_sample-Keeps now payload i store = at_session i.session refl
  where
    at_session :
        (o : Option Session)
        → i.session ≡ o
        → KeepsBoth i store (elim o [
          | none ↦ (i, store)
          | some s ↦ (
            record i { session = some (note_uptime payload.timestamp_ms (note_activity now s)) },
            record_sample s.session_id payload.metric_id payload.value_milli payload.timestamp_ms
                now store,
          )
        ])
    at_session none e = (Keeps-refl i, λ h. h)
    at_session (some s) e = (
      same_session i s (note_uptime payload.timestamp_ms (note_activity now s)) e refl,
      record_sample-AllListen s.session_id payload.metric_id payload.value_milli
          payload.timestamp_ms now store,
    )

handle_hello-Keeps :
    (now : ℕ) (payload : HelloPayload) (i : Ingest) → Keeps i (handle_hello now payload i)
unfolding handle_hello answer_hello
handle_hello-Keeps now payload i =
    Keeps-trans (with_session i (answer_hello payload (open_session i.session_id now)).1 refl)
      (send_frame-Keeps Messages.config _ _)

pub send_slow_down-Keeps : (rate : ℕ) (i : Ingest) → Keeps i (send_slow_down rate i)
unfolding send_slow_down
send_slow_down-Keeps rate i = at_session i.session refl
  where
    at_session :
        (o : Option Session)
        → i.session ≡ o
        → Keeps i (elim o [
          | none ↦ i
          | some s ↦
              send_frame Messages.slow_down
                (slow_down_to_bytes ((lower_rate rate s).0))
                (record i { session = some ((lower_rate rate s).1) })
        ])
    at_session none e = Keeps-refl i
    at_session (some s) e = Keeps-trans (same_session i s (lower_rate rate s).1 e refl) (
        send_frame-Keeps Messages.slow_down (slow_down_to_bytes ((lower_rate rate s).0))
          (record i { session = some ((lower_rate rate s).1) }))

-- A payload that is no struct is ignored.
parsed :
    {A : Type 0} (i : Ingest) (store : Store) (f : A → Ingest × Store)
    → ((a : A) → KeepsBoth i store (f a))
    → (o : Option A) → KeepsBoth i store (elim o [ none ↦ (i, store) | some a ↦ f a ])
parsed i store f h none = (Keeps-refl i, λ k. k)
parsed i store f h (some a) = h a

chosen :
    (i : Ingest) (store : Store) (b : Bool) (x y : Ingest × Store)
    → KeepsBoth i store x
    → KeepsBoth i store y
    → KeepsBoth i store (if b then x else y)
chosen i store true x y h k = h
chosen i store false x y h k = k

dispatch-Keeps :
    (now : ℕ) (frame : ParsedFrame) (i : Ingest) (store : Store)
    → KeepsBoth i store (dispatch now frame i store)
unfolding dispatch
dispatch-Keeps now frame i store =
    chosen i store (frame.type == Messages.hello) _ _
      (parsed i store (λ payload. (handle_hello now payload i, store))
        (λ payload. (handle_hello-Keeps now payload i, λ h. h)) (hello_of_bytes frame.payload))
      (chosen i store (frame.type == Messages.heartbeat) _ _
        (parsed i store (λ payload. (handle_heartbeat now payload i, store))
          (λ payload. (handle_heartbeat-Keeps now payload i, λ h. h))
          (heartbeat_of_bytes frame.payload))
        (chosen i store (frame.type == Messages.sample) _ _
          (parsed i store (λ payload. handle_sample now payload i store)
            (λ payload. handle_sample-Keeps now payload i store) (sample_of_bytes frame.payload))
          (Keeps-refl i, λ h. h)))

-- Whatever is fed to the parser, what every completed frame keeps is kept, and the parser is valid.
push_bytes-keeps {ℓ} :
    {S : Type ℓ} (P : S → Type 0) (sink : ParsedFrame → S → S)
    → ((f : ParsedFrame) (s : S) → P s → P (sink f s))
    → (m : ℕ) (bs : Bytes) (s : S) (p : Parser) → IsValid m p
    → P s
    → P (push_bytes m sink bs s p).0 × IsValid m (push_bytes m sink bs s p).1
unfolding push_bytes
push_bytes-keeps P sink k m [] s p v h = (h, v)
push_bytes-keeps P sink k m (b ∷ bs) s p v h =
    push_bytes-keeps P sink k m bs _ (push_byte m p b).1 (push_byte-IsValid m p b v)
      (one (push_byte m p b).0)
  where
    one : (o : Option ParsedFrame) → P (elim o [ none ↦ s | some frame ↦ sink frame s ])
    one none = h
    one (some frame) = k frame s h

-- What a callback for input leaves of a device and of the store.
pub record Read (i : Ingest) (store : Store) (r : Reach × Parser) : Type 0 where
  pub keeps : Keeps i r.0.device
  pub store_listens : AllListen store → AllListen r.0.store
  pub parser_valid : IsValid max_payload_size r.1

pub on_readable-Read :
    (clock : ℕ → ℕ) (i : Ingest) (parser : Parser) (store : Store)
    → IsValid max_payload_size parser
    → Read i store (on_readable clock i parser store)
unfolding on_readable on_bytes handle_frame
on_readable-Read clock i parser store v = at_bytes i.conn.read_buffer
  where
    at_bytes : (bytes : Bytes) → Read i store (on_bytes clock bytes i parser store)
    at_bytes [] = record { keeps = Keeps-refl i; store_listens = λ h. h; parser_valid = v }
    at_bytes (b ∷ bs) =
        let (k, w) =
          push_bytes-keeps (λ (r : Reach). Keeps i r.device × (AllListen store → AllListen r.store))
            (handle_frame clock)
            (λ f r h.
              let (d, e) = dispatch-Keeps (clock r.handled) f r.device r.store in
              (Keeps-trans h.0 d, λ l. e (h.1 l)))
            max_payload_size (b ∷ bs) (record { device = i; store = store; handled = 0 }) parser v
            (Keeps-refl i, λ h. h) in
        record {
          keeps = record { same_id = k.0.same_id; own = k.0.own; listens = k.0.listens };
          store_listens = k.1;
          parser_valid = w;
        }
