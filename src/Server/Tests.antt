-- ===== src/Server/Tests.antt =====
-- The server's theorems at concrete states.
use sensor_link.Prelude.{
  ◌++◌, ℕ, ◌+◌, ◌-◌, ◌^◌, ◌≡◌, refl, arith, min, if◌then◌else◌, [], ◌∷◌, length, some, Bool, true,
}
use sensor_link.Prelude.Int.{pos, negsuc, ◌≤ℤ◌, ◌<ℤ◌, ◌+ℤ◌, ◌-ℤ◌}
use sensor_link.Proto.Messages.{heartbeat, HelloPayload}
use sensor_link.Proto.Parser.{fresh}
use sensor_link.Proto.Parser.Inv.{fresh-IsValid}
use sensor_link.Proto.Parser.Stream.{feed}
use sensor_link.Proto.Parser.Deliver.{stream, messages}
use sensor_link.Server.Connection.{
  Connection, connected_socket, Received, chunk, try_read, Sent, taken, try_write,
}
use sensor_link.Server.Connection.Flow.{Wrote, Read, try_write-Wrote, try_read-Read}
use sensor_link.Server.Session.{open_session, answer_hello}
use sensor_link.Server.Session.Policy.{answer_hello_lem}
use sensor_link.Server.Store.{
  Store, empty_store, no_history, DeviceHistory, samples, record_sample, latch_offline, ack, smooth,
  alerts_of, offline_alert,
}
use sensor_link.Server.Store.Samples.{new, recent, record_all, samples-record_all}
use sensor_link.Server.Store.Average.{smooth-between, times}
use sensor_link.Proto.Messages.RoundTrip.{IsI32}
use sensor_link.Server.Store.Alerts.{
  opens, new_average, record_sample-alerts_of, latch_offline-alerts_of, other_alerts,
}
use sensor_link.Server.Store.Acknowledge.{above, Acknowledged, ack-record_sample}
use sensor_link.Server.Ingest.{Ingest, ingest_on, on_readable, handle_frame}
use sensor_link.Server.Ingest.Stream.{consumed, on_readable-stream}
use sensor_link.Scan.{split}
use sensor_link.Scan.Lines.{split_twice}
use sensor_link.Server.Main.{Device, sweep_device}
use sensor_link.Server.Main.Sweep.{Judged, sweep_device-Judged}

abbrev clock : ℕ → ℕ
clock n = 1000 + n

abbrev queued : Connection
queued = record connected_socket { write_buffer = 1 ∷ 2 ∷ 3 ∷ [] }

try_write_example :
    (r : Bool × Connection) × (try_write (taken 2 ∷ Sent.again ∷ []) queued ≡ some r)
    × Wrote (taken 2 ∷ Sent.again ∷ []) queued r
try_write_example = try_write-Wrote (taken 2 ∷ Sent.again ∷ []) queued refl

try_read_example :
    (r : Bool × Connection) × (try_read (chunk (4 ∷ 5 ∷ []) ∷ Received.again ∷ []) queued ≡ some r)
    × Read (chunk (4 ∷ 5 ∷ []) ∷ Received.again ∷ []) queued r
try_read_example = try_read-Read (chunk (4 ∷ 5 ∷ []) ∷ Received.again ∷ []) queued refl

abbrev eager : HelloPayload
eager = record { device_id = 3; fw_version = 1; metric_count = 2; offered_rate_hz = 50 }

answer_hello_example : answer_hello eager (open_session 7 1000) ≡ (
  record { session_id = 7; sample_rate_hz = min 50 10; metric_mask = 2 ^ min 2 8 - 1 },
  record (open_session 7 1000) { connected = true; current_rate_hz = min 50 10 },
)
answer_hello_example = answer_hello_lem eager (open_session 7 1000)

samples-record_all_example :
    samples (record_all (new 5 (pos 4000) ∷ new 6 (negsuc 9) ∷ []) no_history)
    ≡ recent 64 (new 5 (pos 4000) ∷ new 6 (negsuc 9) ∷ [])
samples-record_all_example = samples-record_all (new 5 (pos 4000) ∷ new 6 (negsuc 9) ∷ [])

abbrev averaged : DeviceHistory
averaged = record no_history { have_average = true; average_milli = pos 1000 }

distance-IsI32 : IsI32 (pos 2000 -ℤ pos 1000)
unfolding ◌-ℤ◌
distance-IsI32 = omega arith

smooth-between_example :
    ((pos 1000 ≤ℤ pos 2000
        → (pos 1000 ≤ℤ (smooth (pos 2000) averaged).average_milli)
          × ((smooth (pos 2000) averaged).average_milli ≤ℤ pos 2000))
      × (pos 2000 ≤ℤ pos 1000
          → (pos 2000 ≤ℤ (smooth (pos 2000) averaged).average_milli)
            × ((smooth (pos 2000) averaged).average_milli ≤ℤ pos 1000)))
    × ((times 4 (smooth (pos 2000) averaged).average_milli ≤ℤ pos 2000 +ℤ times 3 (pos 1000))
        × (pos 2000 +ℤ times 3 (pos 1000)
            <ℤ times 4 (smooth (pos 2000) averaged).average_milli +ℤ pos 4))
    × IsI32 (smooth (pos 2000) averaged).average_milli
smooth-between_example =
    smooth-between (pos 2000) averaged refl (omega arith) (omega arith) distance-IsI32

record_sample_example : alerts_of 7 (record_sample 7 0 (pos 6000) 5 1000 empty_store) ≡ (
    if opens 7 0 (pos 6000) 5 empty_store
    then record (alerts_of 7 empty_store) {
      excursion = record {
        active = true;
        value_milli = new_average 7 0 (pos 6000) 5 empty_store;
        timestamp_ms = 5;
        triggered_at = 1000;
      };
    }
    else alerts_of 7 empty_store)
record_sample_example = record_sample-alerts_of 7 0 (pos 6000) 5 1000 empty_store

latch_offline_test : alerts_of 7 (latch_offline 7 5 1000 empty_store) ≡ (
    if (offline_alert 7 empty_store).active
    then alerts_of 7 empty_store
    else record (alerts_of 7 empty_store) {
      offline = record {
        active = true;
        value_milli = pos 0;
        timestamp_ms = 5;
        triggered_at = 1000;
      };
    })
latch_offline_test = latch_offline-alerts_of 7 5 1000 empty_store

abbrev quiet : Store
quiet = latch_offline 7 5 1000 empty_store

ack_example :
    let r = ack 7 9000000 (record_sample 7 0 (pos 6000) 6 2000000 quiet) in
    Acknowledged
      (above 7 (pos 6000) 6 quiet)
      (alerts_of 7 quiet)
      2000000
      9000000
      r.0
      (alerts_of 7 r.1)
ack_example = ack-record_sample 7 (pos 6000) 6 2000000 9000000 quiet

other_alerts_example :
    (alerts_of 7 (record_sample 8 0 (pos 6000) 5 1000 quiet) ≡ alerts_of 7 quiet)
    × (alerts_of 7 (latch_offline 8 5 1000 quiet) ≡ alerts_of 7 quiet)
    × (alerts_of 7 (ack 8 1000 quiet).1 ≡ alerts_of 7 quiet)
other_alerts_example = other_alerts 7 8 0 (pos 6000) 5 1000 quiet (omega arith)

abbrev arrived_bytes : Ingest
arrived_bytes =
    ingest_on (record connected_socket { read_buffer = stream ((heartbeat, 1 ∷ []) ∷ []) }) 7

on_readable-stream_example :
    (on_readable clock arrived_bytes (fresh 255) empty_store).0
    ≡ consumed (length (stream ((heartbeat, 1 ∷ []) ∷ []))) (
        feed
          (handle_frame clock)
          (messages ((heartbeat, 1 ∷ []) ∷ []))
          (record { device = arrived_bytes; store = empty_store; handled = 0 }))
on_readable-stream_example =
    on_readable-stream clock arrived_bytes (fresh 255) empty_store ((heartbeat, 1 ∷ []) ∷ [])
      (fresh-IsValid 255) refl
      (
        record {
          type_byte = omega arith;
          payload_bytes = (omega arith, _);
          fits_format = omega arith;
          fits_parser = omega arith;
        },
        _,
      )
      refl

abbrev old_device : Device
old_device = record {
  ing = record (ingest_on connected_socket 7) { session = some (open_session 7 1000) };
  parser = fresh 255;
}

sweep_device_example :
    Judged 9000000000 old_device
      (open_session 7 1000)
      empty_store
      (sweep_device 9000000000 true old_device empty_store)
sweep_device_example =
    sweep_device-Judged 9000000000 true old_device (open_session 7 1000) empty_store refl

-- "ST", then "ATS" and the end of the line.
split_twice_test : split [] (83 ∷ 84 ∷ [] ++ 65 ∷ 84 ∷ 83 ∷ 10 ∷ []) ≡ (
  (split [] (83 ∷ 84 ∷ [])).0
      ++ (split [] ((split [] (83 ∷ 84 ∷ [])).1 ++ 65 ∷ 84 ∷ 83 ∷ 10 ∷ [])).0,
  (split [] ((split [] (83 ∷ 84 ∷ [])).1 ++ 65 ∷ 84 ∷ 83 ∷ 10 ∷ [])).1,
)
split_twice_test = split_twice (83 ∷ 84 ∷ []) (65 ∷ 84 ∷ 83 ∷ 10 ∷ [])
