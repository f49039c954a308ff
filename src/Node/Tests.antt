-- ===== src/Node/Tests.antt =====
-- The firmware's theorems at concrete states.
use sensor_link.Prelude.{ℕ, ◌+◌, ◌-◌, ◌^◌, ◌⊎◌, ◌≤◌, ◌≡◌, refl, arith, min, some, true}
use sensor_link.Proto.Parser.{fresh}
use sensor_link.Proto.Parser.Inv.{fresh-IsValid}
use sensor_link.Server.Connection.{connected_socket}
use sensor_link.Server.Store.{empty_store}
use sensor_link.Server.Ingest.{Ingest, ingest_on, on_readable}
use sensor_link.Node.{
  powered_up, send_hello, command_bytes, next_index, fake_reading_milli, sample_delay,
}
use sensor_link.Node.Reading.{later_index, fake_reading_milli_lem, sample_delay-bounds}
use sensor_link.Node.Handshake.{handshake}
use sensor_link.Server.Session.{Session, open_session}
use sensor_link.Server.Main.{Device, sweep_device}
use sensor_link.Server.Main.Sweep.{IsHalf}
use sensor_link.Node.Backpressure.{slow_down_lem}

abbrev clock : ℕ → ℕ
clock n = 1000 + n

-- A server's end at which the HELLO of a device has arrived.
abbrev greeted : Ingest
greeted = ingest_on (record connected_socket { read_buffer = (send_hello powered_up).uart }) 7

handshake_example :
    let d = (on_readable clock greeted (fresh 255) empty_store).0.device in
    (d.session
      ≡ some (record {
        session_id = 7;
        connected = true;
        current_rate_hz = min 2 10;
        last_activity = 1000;
        last_uptime_ms = 0;
      }))
    × ((command_bytes d.conn.write_buffer (powered_up, fresh 255)).0
        ≡ record powered_up { sample_rate_hz = min 2 10; session_id = 7; connected = true })
handshake_example =
    handshake clock greeted (fresh 255) (fresh 255) empty_store powered_up (fresh-IsValid 255) refl
      (fresh-IsValid 255) refl refl (omega arith) (omega arith) refl refl

fake_reading_milli_example :
    (1000 ≤ fake_reading_milli 10)
    × (fake_reading_milli 10 ≤ 7000)
    × (((fake_reading_milli (next_index 10) ≤ fake_reading_milli 10 + 600)
          × (fake_reading_milli 10 ≤ fake_reading_milli (next_index 10) + 600))
        ⊎ ((10 ≡ 2 ^ 32 - 1)
            × (fake_reading_milli 10 ≡ 4000)
            × (fake_reading_milli (next_index 10) ≡ 1000)))
    × ((fake_reading_milli (later_index 20 10) ≡ fake_reading_milli 10) ⊎ (2 ^ 32 ≤ 10 + 20))
fake_reading_milli_example = fake_reading_milli_lem 10 (omega arith)

-- A device at ten readings a second that has been heard from.
abbrev busy_session : Session
busy_session = record (open_session 7 1000) { current_rate_hz = 10 }

abbrev busy_device : Device
busy_device = record {
  ing = record (ingest_on connected_socket 7) { session = some busy_session };
  parser = fresh 255;
}

slow_down_example :
    (r : ℕ) × (kept : Device) × IsHalf 10 r
    × (sweep_device 2000 true busy_device empty_store ≡ (some kept, empty_store))
    × (kept.ing.session ≡ some (record busy_session { current_rate_hz = r }))
    × ((command_bytes kept.ing.conn.write_buffer (powered_up, fresh 255)).0
        ≡ record powered_up { sample_rate_hz = r })
slow_down_example =
    slow_down_lem 2000 busy_device busy_session empty_store powered_up (fresh 255) refl refl
      (omega arith) refl (fresh-IsValid 255) refl

sample_delay_test : (3 ≤ sample_delay 0) × (sample_delay 0 ≤ 1000)
sample_delay_test = sample_delay-bounds 0 (omega arith)
