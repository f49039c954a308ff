-- ===== src/Server/Events.antt =====
-- The server as a whole: server/main.cpp's accept loops and sweep, and the callback that the
-- constructor of server/connection.cpp registers, as the steps that the event loop takes. Every answer of
-- the kernel and every reading of the clock is part of the event.

mod Tests
pub mod Inv
use sensor_link.Prelude.{
  ℕ, suc, ◌+◌, ◌==◌, if◌then◌else◌, Bool, true, false, List, [], ◌∷◌, length, Option, none, some,
  ◌>>=◌, ◌≡◌,
}
use sensor_link.Prelude.Text.{find, put}
use sensor_link.Server.Connection.{Connection, Received, Sent, try_read, try_write}
use sensor_link.Server.Subscriber.{Subscriber}
use sensor_link.Server.Store.{Store, empty_store}
use sensor_link.Server.Commands.{read_lines}
use sensor_link.Server.Ingest.{on_readable}
use sensor_link.Server.Main.{Server, Device, accept_devices, accept_subscribers, housekeeping}

-- What epoll reports about a socket, what the kernel then answers to recv and to send, and the clock
-- while the bytes are handled.
pub record Report : Type 0 where
  pub epollin : Bool
  pub epollout : Bool
  pub recv : List Received
  pub send : List Sent
  pub clock : ℕ → ℕ

-- The two halves of the callback on a device's connection: `none` when the answers do not end a loop.
unfoldable pub device_in : Report → Device → Store → Option (Device × Store)
device_in report d store = do
  (alive, conn) ← try_read report.recv d.ing.conn
  let (r, parser) = on_readable report.clock (record (d.ing) { conn = conn }) d.parser store
  some (record { ing = r.device; parser = parser }, r.store)

unfoldable pub device_out : Report → Device → Option Device
device_out report d = do
  (alive, conn) ← try_write report.send d.ing.conn
  some (record d { ing = record (d.ing) { conn = conn } })

unfoldable pub device_ready : Report → Device → Store → Option (Device × Store)
device_ready report d store = do
  (d, store) ← if report.epollin then device_in report d store else some (d, store)
  d ← if report.epollout then device_out report d else some d
  some (d, store)

unfoldable pub subscriber_in : Report → Subscriber → Store → Option (Subscriber × Store)
subscriber_in report s store = do
  (alive, conn) ← try_read report.recv s.conn
  some (read_lines report.clock (record s { conn = conn }) store)

unfoldable pub subscriber_out : Report → Subscriber → Option Subscriber
subscriber_out report s = do
  (alive, conn) ← try_write report.send s.conn
  some (record s { conn = conn })

unfoldable pub subscriber_ready : Report → Subscriber → Store → Option (Subscriber × Store)
subscriber_ready report s store = do
  (s, store) ← if report.epollin then subscriber_in report s store else some (s, store)
  s ← if report.epollout then subscriber_out report s else some s
  some (s, store)

-- What the event loop calls back for.
pub data Event : Type 0 where
  devices_waiting subscribers_waiting : (fds : List ℕ) → Event
  device_event subscriber_event : (fd : ℕ) (report : Report) → Event
  timer : (now : ℕ) → Event

-- A device's callback, for the device that stands behind its descriptor.
unfoldable pub on_device : ℕ → Report → Option Device → Server → Option Server
on_device fd report none s = some s
on_device fd report (some d) s = do
  (d, store) ← device_ready report d s.store
  some (record s { store = store; devices = put fd d s.devices })

unfoldable pub on_subscriber : ℕ → Report → Option Subscriber → Server → Option Server
on_subscriber fd report none s = some s
on_subscriber fd report (some sub) s = do
  (sub, store) ← subscriber_ready report sub s.store
  some (record s { store = record store { subscribers = put fd sub store.subscribers } })

unfoldable pub handle : Event → Server → Option Server
handle (devices_waiting fds) s = some (accept_devices fds s)
handle (subscribers_waiting fds) s = some (accept_subscribers fds s)
handle (device_event fd report) s = on_device fd report (find fd s.devices) s
handle (subscriber_event fd report) s = on_subscriber fd report (find fd s.store.subscribers) s
handle (timer now) s = some (housekeeping now s)

-- As main builds it.
abbrev pub started : Server
started = record { store = empty_store; devices = []; subscribers = []; next_session_id = 1 }

-- The runs of the server; `n` counts the devices that were accepted.
abbrev pub accepted : Event → ℕ
accepted (devices_waiting fds) = length fds
accepted _ = 0

pub data Reach : ℕ → Server → Type 0 where
  start : Reach 0 started
  later :
      {n : ℕ} {s t : Server} (event : Event)
      → Reach n s
      → handle event s ≡ some t
      → Reach (n + accepted event) t
