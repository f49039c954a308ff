-- ===== src/Server/Main.antt =====
-- server/main.cpp: accepting connections, and the sweep once a second. The kernel's answers to accept4
-- are the list of descriptors that it hands out before it reports an error. A map from descriptors is
-- an association list; a subscriber's object stands in the store, behind the pointer that is
-- registered there, which is its descriptor here.
pub mod Sweep
pub mod Keeps
pub mod Startup
use sensor_link.Prelude.{
  ℕ, suc, ◌+◌, ◌/◌, ◌%◌, ◌^◌, max, ◌==◌, if◌then◌else◌, Bool, true, false, ◌||◌, ◌&&◌, List, [],
  ◌∷◌, ◌++◌, Option, none, some,
}
use sensor_link.Prelude.Text.{find}
use sensor_link.Proto.Messages.{max_payload_size}
use sensor_link.Proto.Parser.{Parser, fresh}
use sensor_link.Server.Connection.{Connection, connected_socket, write_congested}
use sensor_link.Server.Session.{Session, timed_out}
use sensor_link.Server.Subscriber.{Subscriber, subscriber_on}
use sensor_link.Server.Store.{Store, latch_offline, add_subscriber, remove_subscriber}
use sensor_link.Server.Ingest.{Ingest, ingest_on, send_slow_down}

-- kDeviceTimeout, in milliseconds.
abbrev pub device_timeout : ℕ
device_timeout = 6000

pub record Device : Type 0 where
  pub ing : Ingest
  pub parser : Parser

pub record Server : Type 0 where
  pub store : Store
  pub devices : List (ℕ × Device)
  pub subscribers : List ℕ
  pub next_session_id : ℕ

-- `emplace`: a key that is there keeps its entry.
module _ {ℓ} {A : Type ℓ} where
  abbrev pub emplace_found : Option A → ℕ → A → List (ℕ × A) → List (ℕ × A)
  emplace_found none k a m = m ++ (k, a) ∷ []
  emplace_found (some b) k a m = m

  pub emplace : ℕ → A → List (ℕ × A) → List (ℕ × A)
  emplace k a m = emplace_found (find k m) k a m

pub accept_device : ℕ → Server → Server
accept_device fd s = record s {
  devices =
      emplace fd
        (record {
          ing = ingest_on connected_socket s.next_session_id;
          parser = fresh max_payload_size;
        })
        s.devices;
  next_session_id = (s.next_session_id + 1) % 2 ^ 16;
}

pub accept_devices : List ℕ → Server → Server
accept_devices [] s = s
accept_devices (fd ∷ fds) s = accept_devices fds (accept_device fd s)

pub accept_subscribers : List ℕ → Server → Server
accept_subscribers [] s = s
accept_subscribers (fd ∷ fds) s = accept_subscribers fds (record s {
  store = add_subscriber fd (subscriber_on connected_socket) s.store;
  subscribers = s.subscribers ++ fd ∷ [];
})

-- The first loop of the sweep: the subscribers that are left, the store without the closed ones, and
-- whether one that is left is congested.
pub sweep_subscribers : List ℕ → Store → List ℕ × Store × Bool
sweep_subscribers [] store = ([], store, false)
sweep_subscribers (fd ∷ fds) store = elim (find fd store.subscribers) [
  | none ↦
      let (kept, store', congested) = sweep_subscribers fds store in (fd ∷ kept, store', congested)
  | some sub ↦
      let (kept, store', congested) = sweep_subscribers fds store in
      let gone = sweep_subscribers fds (remove_subscriber fd store) in
      if sub.conn.closed then gone else (fd ∷ kept, store', write_congested sub.conn || congested)
]

pub halved : ℕ → ℕ
halved rate = max 1 (rate / 2)

-- One round of the second loop, on the device's session: `none` is a device that is dropped.
pub sweep_session : ℕ → Bool → Option Session → Device → Store → Option Device × Store
sweep_session now congested none d store = (if d.ing.conn.closed then none else some d, store)
sweep_session now congested (some s) d store =
    if d.ing.conn.closed || timed_out s now device_timeout
    then (none, latch_offline s.session_id s.last_uptime_ms now store)
    else if congested
    then (some (record d { ing = send_slow_down (halved s.current_rate_hz) d.ing }), store)
    else (some d, store)

pub sweep_device : ℕ → Bool → Device → Store → Option Device × Store
sweep_device now congested d store = sweep_session now congested d.ing.session d store

pub sweep_devices : ℕ → Bool → List (ℕ × Device) → Store → List (ℕ × Device) × Store
sweep_devices now congested [] store = ([], store)
sweep_devices now congested ((fd, d) ∷ rest) store =
    let (kept, store') = sweep_device now congested d store in
    let (devices, store'') = sweep_devices now congested rest store' in
    ((elim kept [ none ↦ devices | some d' ↦ (fd, d') ∷ devices ]), store'')

pub housekeeping : ℕ → Server → Server
housekeeping now s =
    let (subscribers, store, congested) = sweep_subscribers s.subscribers s.store in
    let (devices, store') = sweep_devices now congested s.devices store in
    record s { store = store'; devices = devices; subscribers = subscribers }
