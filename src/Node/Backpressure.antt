-- ===== src/Node/Backpressure.antt =====
-- server/main.cpp's sweep, server/ingest.cpp and node/tasks/command_task.cpp: a device is slowed down.
use sensor_link.Prelude.{
  ℕ, ◌<◌, ◌≡◌, ◌∙◌, refl, ap, sym, arith, [], ◌∷◌, ◌++◌, false, true, Option, none, some,
}
use sensor_link.Proto.Messages
use sensor_link.Proto.Messages.{
  Bytes, max_payload_size, SlowDownPayload, slow_down_to_bytes, slow_down_of_bytes,
}
use sensor_link.Proto.Encoder.Frames.{wire}
use sensor_link.Proto.Parser.{Parser}
use sensor_link.Proto.Parser.Inv.{IsValid}
use sensor_link.Proto.Parser.Phases.{phase, between}
use sensor_link.Proto.Parser.Judge.{message}
use sensor_link.Proto.Parser.Deliver.{IsSendable, stream}
use sensor_link.Server.Connection.{enqueue_write}
use sensor_link.Server.Connection.Flow.{write_buffer-enqueue_write}
use sensor_link.Server.Session.{Session, lower_rate}
use sensor_link.Server.Store.{Store}
use sensor_link.Server.Ingest.{Ingest, send_frame, send_slow_down}
use sensor_link.Server.Ingest.Stream.{send_frame_lem}
use sensor_link.Server.Main.{Device, halved, sweep_device}
use sensor_link.Server.Main.Sweep.{gone, IsHalf, halved-IsHalf, sweep_device-slowed}
use sensor_link.Node.{Pipeline, obey, command_bytes}
use sensor_link.Node.Handshake.{command_bytes-stream, stream_one}

abbrev payload_of : ℕ → Session → SlowDownPayload
payload_of r s = record { session_id = s.session_id; new_rate_hz = r }

slow_down-IsSendable :
    (p : SlowDownPayload)
    → p.new_rate_hz < 256
    → IsSendable 255 Messages.slow_down (slow_down_to_bytes p)
unfolding slow_down_to_bytes
slow_down-IsSendable p r = record {
  type_byte = omega arith;
  payload_bytes = (omega arith, (omega arith, (r, _)));
  fits_format = omega arith;
  fits_parser = omega arith;
}

obey-slow_down :
    (q : SlowDownPayload) (p : Pipeline)
    → obey (message Messages.slow_down (slow_down_to_bytes q)) p
      ≡ record p { sample_rate_hz = q.new_rate_hz }
unfolding obey slow_down_to_bytes slow_down_of_bytes
obey-slow_down q p = refl

send_slow_down_lem :
    (r : ℕ) (i : Ingest) (s : Session)
    → i.session ≡ some s
    → send_slow_down r i ≡ record i {
      session = some (record s { current_rate_hz = r });
      conn =
          enqueue_write
            (wire Messages.slow_down (slow_down_to_bytes (payload_of r s)) ++ 0 ∷ [])
            i.conn;
    }
unfolding send_slow_down
send_slow_down_lem r i s e =
    ap
      (λ (o : Option Session). elim o [
        | none ↦ i
        | some t ↦
            send_frame Messages.slow_down (slow_down_to_bytes ((lower_rate r t).0))
              (record i { session = some ((lower_rate r t).1) })
      ])
      e
    ∙ send_frame_lem Messages.slow_down (slow_down_to_bytes (payload_of r s))
        (record i { session = some (record s { current_rate_hz = r }) })
        (unfold slow_down_to_bytes in omega arith)

-- Backpressure, end to end. When a subscriber is congested, a sweep keeps a device that is connected
-- and was heard from in the last six seconds. If its rate fits a byte, nothing waits to be sent to it,
-- and its parser is valid and between frames, then the session in the server takes half of its rate,
-- rounded down but at least 1, and the device, once it has read what is queued for it, samples at
-- that rate.
pub slow_down_lem :
    (now : ℕ) (d : Device) (s : Session) (store : Store) (p : Pipeline) (at_node : Parser)
    → d.ing.session ≡ some s
    → gone now d s ≡ false
    → s.current_rate_hz < 256
    → d.ing.conn.write_buffer ≡ []
    → IsValid max_payload_size at_node
    → phase at_node ≡ between
    → (r : ℕ) × (kept : Device) × IsHalf s.current_rate_hz r
      × (sweep_device now true d store ≡ (some kept, store))
      × (kept.ing.session ≡ some (record s { current_rate_hz = r }))
      × ((command_bytes kept.ing.conn.write_buffer (p, at_node)).0
          ≡ record p { sample_rate_hz = r })
slow_down_lem now d s store p at_node e z b w v n =
    let r = halved s.current_rate_hz in
    let half : IsHalf s.current_rate_hz r = halved-IsHalf s.current_rate_hz in
    let q = payload_of r s in
    let small : r < 256 = omega (arith, half.0, half.1, b) in
    let slowed = send_slow_down_lem r d.ing s e in
    let frame : Bytes = wire Messages.slow_down (slow_down_to_bytes q) ++ 0 ∷ [] in
    let queued : (enqueue_write frame d.ing.conn).write_buffer
        ≡ stream ((Messages.slow_down, slow_down_to_bytes q) ∷ []) =
      write_buffer-enqueue_write frame d.ing.conn
      ∙ ap (λ (l : Bytes). l ++ frame) w
      ∙ sym (
          stream_one Messages.slow_down (slow_down_to_bytes q)
            (slow_down-IsSendable q small).fits_format) in
    (
      r,
      record d { ing = send_slow_down r d.ing },
      half,
      sweep_device-slowed now d s store e z,
      ap (λ (g : Ingest). g.session) slowed,
      ap (λ (g : Ingest). (command_bytes g.conn.write_buffer (p, at_node)).0) slowed
          ∙ ap (λ (l : Bytes). (command_bytes l (p, at_node)).0) queued
          ∙ command_bytes-stream ((Messages.slow_down, slow_down_to_bytes q) ∷ []) p at_node v n
              (slow_down-IsSendable q small, _)
          ∙ obey-slow_down q p,
    )
