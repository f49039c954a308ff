-- ===== src/Server/Main/Keeps.antt =====
-- server/main.cpp: what accepting and the sweep keep of the devices and of the dashboards.
use sensor_link.Prelude.{
  ℕ, ◌+◌, ◌^◌, ◌<◌, ◌≡◌, refl, sym, subst, arith, if◌then◌else◌, Bool, true, false, ◌||◌, List, [],
  ◌∷◌, length, Option, none, some, All-append, Gives,
}
use sensor_link.Prelude.Text.{find}
use sensor_link.Prelude.Maps.{AllEntries}
use sensor_link.Proto.Messages.{max_payload_size}
use sensor_link.Proto.Parser.{fresh}
use sensor_link.Proto.Parser.Inv.{IsValid, fresh-IsValid}
use sensor_link.Server.Connection.{connected_socket, write_congested}
use sensor_link.Server.Connection.Listens.{Listens}
use sensor_link.Server.Session.{Session, timed_out}
use sensor_link.Server.Subscriber.{Subscriber, subscriber_on}
use sensor_link.Server.Store.{Store, latch_offline, remove_subscriber}
use sensor_link.Server.Store.Listeners.{
  AllListen, latch_offline-AllListen, add_subscriber-AllListen, remove_subscriber-AllListen,
}
use sensor_link.Server.Ingest.{ingest_on, send_slow_down}
use sensor_link.Server.Ingest.Keeps.{OwnSession, send_slow_down-Keeps}
use sensor_link.Server.Main.{
  Device, Server, device_timeout, halved, sweep_device, sweep_session, sweep_devices,
  sweep_subscribers, housekeeping, accept_device, accept_devices, accept_subscribers, emplace,
  emplace_found,
}
use sensor_link.Server.Main.Sweep.{ids, AllBelow, Absent, Distinct, accept_device-HasOwnIds}

-- A device's session is its own, its connection is watched, and its parser is valid.
pub record IsDevice (d : Device) : Type 0 where
  pub own : OwnSession d.ing.session_id d.ing.session
  pub listens : Listens d.ing.conn
  pub valid : IsValid max_payload_size d.parser

-- The ids `ys` are left of `xs`.
pub data Thinned : List ℕ → List ℕ → Type 0 where
  thin_nil : Thinned [] []
  thin_keep : {xs ys : List ℕ} (x : ℕ) → Thinned xs ys → Thinned (x ∷ xs) (x ∷ ys)
  thin_drop : {xs ys : List ℕ} (x : ℕ) → Thinned xs ys → Thinned (x ∷ xs) ys

Thinned-AllBelow : {xs ys : List ℕ} (n : ℕ) → Thinned xs ys → AllBelow n xs → AllBelow n ys
Thinned-AllBelow n thin_nil h = h
Thinned-AllBelow n (thin_keep x t) h = (h.0, Thinned-AllBelow n t h.1)
Thinned-AllBelow n (thin_drop x t) h = Thinned-AllBelow n t h.1

Thinned-Absent : {xs ys : List ℕ} (n : ℕ) → Thinned xs ys → Absent n xs → Absent n ys
Thinned-Absent n thin_nil h = h
Thinned-Absent n (thin_keep x t) h = (h.0, Thinned-Absent n t h.1)
Thinned-Absent n (thin_drop x t) h = Thinned-Absent n t h.1

Thinned-Distinct : {xs ys : List ℕ} → Thinned xs ys → Distinct xs → Distinct ys
Thinned-Distinct thin_nil h = h
Thinned-Distinct (thin_keep x t) h = (Thinned-Absent x t h.0, Thinned-Distinct t h.1)
Thinned-Distinct (thin_drop x t) h = Thinned-Distinct t h.1

-- What a round of the sweep leaves of a device and of the store.
pub record Round (d : Device) (store : Store) (r : Option Device × Store) : Type 0 where
  device : Gives (λ (d' : Device). IsDevice d' × (d'.ing.session_id ≡ d.ing.session_id)) r.0
  listeners : AllListen r.1

kept_as_it_is :
    (d : Device) (store : Store) → IsDevice d → AllListen store → Round d store (some d, store)
kept_as_it_is d store h k = record { device = (h, refl); listeners = k }

slowed :
    (rate : ℕ) (d : Device) (store : Store)
    → IsDevice d
    → AllListen store
    → Round d store (some (record d { ing = send_slow_down rate d.ing }), store)
slowed rate d store h k =
    let s = send_slow_down-Keeps rate d.ing in
    record {
      device =
          (record { own = s.own h.own; listens = s.listens h.listens; valid = h.valid }, s.same_id);
      listeners = k;
    }

sweep_session-Round :
    (now : ℕ) (congested : Bool) (o : Option Session) (d : Device) (store : Store)
    → IsDevice d
    → AllListen store
    → Round d store (sweep_session now congested o d store)
unfolding sweep_session
sweep_session-Round now congested none d store h k = at_closed d.ing.conn.closed
  where
    at_closed : (b : Bool) → Round d store ((if b then none else some d), store)
    at_closed true = record { device = _; listeners = k }
    at_closed false = kept_as_it_is d store h k
sweep_session-Round now congested (some s) d store h k =
    at_test (d.ing.conn.closed || timed_out s now device_timeout) congested
  where
    at_test :
        (b c : Bool)
        → Round d store (
            if b
            then (none, latch_offline s.session_id s.last_uptime_ms now store)
            else if c
            then (some (record d { ing = send_slow_down (halved s.current_rate_hz) d.ing }), store)
            else (some d, store))
    at_test true c = record {
      device = _;
      listeners = latch_offline-AllListen s.session_id s.last_uptime_ms now store k;
    }
    at_test false true = slowed (halved s.current_rate_hz) d store h k
    at_test false false = kept_as_it_is d store h k

-- What the whole sweep leaves.
pub record Rounds (devices : List (ℕ × Device)) (r : List (ℕ × Device) × Store) : Type 0 where
  all_devices : AllEntries IsDevice r.0
  thinned : Thinned (ids devices) (ids r.0)
  listeners : AllListen r.1

-- A device in front of the others, if it is kept.
abbrev in_front : ℕ → Option Device → List (ℕ × Device) → List (ℕ × Device)
in_front fd o rest = elim o [ none ↦ rest | some d ↦ (fd, d) ∷ rest ]

abbrev Left : ℕ → Device → Type 0
Left id d = IsDevice d × (d.ing.session_id ≡ id)

in_front-AllEntries :
    (fd id : ℕ) (o : Option Device) (rest : List (ℕ × Device))
    → Gives (Left id) o
    → AllEntries IsDevice rest
    → AllEntries IsDevice (in_front fd o rest)
in_front-AllEntries fd id none rest g h = h
in_front-AllEntries fd id (some d) rest g h = (g.0, h)

in_front-Thinned :
    (fd id : ℕ) (xs : List ℕ) (o : Option Device) (rest : List (ℕ × Device))
    → Gives (Left id) o
    → Thinned xs (ids rest)
    → Thinned (id ∷ xs) (ids (in_front fd o rest))
in_front-Thinned fd id xs none rest g t = thin_drop id t
in_front-Thinned fd id xs (some d) rest g t =
    subst (λ (n : ℕ). Thinned (id ∷ xs) (n ∷ ids rest)) (sym g.1) (thin_keep id t)

sweep_devices-Rounds :
    (now : ℕ) (congested : Bool) (devices : List (ℕ × Device)) (store : Store)
    → AllEntries IsDevice devices
    → AllListen store
    → Rounds devices (sweep_devices now congested devices store)
unfolding sweep_devices sweep_device
sweep_devices-Rounds now congested [] store h k = record {
  all_devices = _;
  thinned = thin_nil;
  listeners = k;
}
sweep_devices-Rounds now congested ((fd, d) ∷ devices) store h k =
    let first = sweep_session now congested d.ing.session d store in
    let round = sweep_session-Round now congested d.ing.session d store h.0 k in
    let rest = sweep_devices-Rounds now congested devices first.1 h.1 round.listeners in
    record {
      all_devices =
          in_front-AllEntries fd d.ing.session_id first.0
            (sweep_devices now congested devices first.1).0 round.device rest.all_devices;
      thinned =
          in_front-Thinned fd d.ing.session_id (ids devices) first.0
            (sweep_devices now congested devices first.1).0 round.device rest.thinned;
      listeners = rest.listeners;
    }

abbrev StoreListens : List ℕ × Store × Bool → Type 0
StoreListens r = AllListen r.1

sweep_subscribers-AllListen :
    (fds : List ℕ) (store : Store) → AllListen store → StoreListens (sweep_subscribers fds store)
unfolding sweep_subscribers
sweep_subscribers-AllListen [] store k = k
sweep_subscribers-AllListen (fd ∷ fds) store k =
    at_found (find fd store.subscribers) (sweep_subscribers-AllListen fds store k) (
      sweep_subscribers-AllListen fds (remove_subscriber fd store)
        (remove_subscriber-AllListen fd store k))
  where
    at_closed :
        (b : Bool) (x y : List ℕ × Store × Bool)
        → StoreListens x
        → StoreListens y
        → StoreListens (if b then x else y)
    at_closed true x y h i = h
    at_closed false x y h i = i

    at_found :
        (o : Option Subscriber)
        → StoreListens (sweep_subscribers fds store)
        → StoreListens (sweep_subscribers fds (remove_subscriber fd store))
        → StoreListens (elim o [
          | none ↦
              let (kept, store', congested) = sweep_subscribers fds store in
              (fd ∷ kept, store', congested)
          | some sub ↦
              let (kept, store', congested) = sweep_subscribers fds store in
              let gone = sweep_subscribers fds (remove_subscriber fd store) in
              if sub.conn.closed
              then gone
              else (fd ∷ kept, store', write_congested sub.conn || congested)
        ])
    at_found none h i = h
    at_found (some sub) h i = at_closed sub.conn.closed _ _ i h

-- The devices, the dashboards and the ids of the whole server.
pub record IsServer (s : Server) : Type 0 where
  pub all_devices : AllEntries IsDevice s.devices
  pub listeners : AllListen s.store
  pub ids_used : AllBelow s.next_session_id (ids s.devices)
  pub ids_distinct : Distinct (ids s.devices)

pub housekeeping-IsServer :
    (now : ℕ) (s : Server)
    → IsServer s
    → IsServer (housekeeping now s) × ((housekeeping now s).next_session_id ≡ s.next_session_id)
unfolding housekeeping
housekeeping-IsServer now s h = (
  let swept = sweep_subscribers s.subscribers s.store in
      let k = sweep_subscribers-AllListen s.subscribers s.store h.listeners in
      let r = sweep_devices-Rounds now swept.2 s.devices swept.1 h.all_devices k in
      record {
        all_devices = r.all_devices;
        listeners = r.listeners;
        ids_used = Thinned-AllBelow s.next_session_id r.thinned h.ids_used;
        ids_distinct = Thinned-Distinct r.thinned h.ids_distinct;
      },
  refl,
)

new_device : Server → Device
new_device s = record {
  ing = ingest_on connected_socket s.next_session_id;
  parser = fresh max_payload_size;
}

new-IsDevice : (s : Server) → IsDevice (new_device s)
unfolding new_device
new-IsDevice s = record { own = _; listens = λ h. refl; valid = fresh-IsValid max_payload_size }

accept_device-IsServer :
    (fd : ℕ) (s : Server)
    → s.next_session_id + 1 < 2 ^ 16
    → IsServer s
    → IsServer (accept_device fd s)
unfolding accept_device emplace new_device
accept_device-IsServer fd s lt h =
    let own =
      accept_device-HasOwnIds fd s lt (record { used = h.ids_used; distinct = h.ids_distinct }) in
    record {
      all_devices = emplaced (find fd s.devices);
      listeners = h.listeners;
      ids_used = own.used;
      ids_distinct = own.distinct;
    }
  where
    emplaced :
        (o : Option Device) → AllEntries IsDevice (emplace_found o fd (new_device s) s.devices)
    emplaced none =
        All-append (λ (e : ℕ × Device). IsDevice e.1) s.devices ((fd, new_device s) ∷ [])
          h.all_devices (new-IsDevice s, _)
    emplaced (some d) = h.all_devices

next_id :
    (fd : ℕ) (s : Server)
    → s.next_session_id + 1 < 2 ^ 16
    → (accept_device fd s).next_session_id ≡ s.next_session_id + 1
unfolding accept_device
next_id fd s lt = omega arith

pub accept_devices-IsServer :
    (fds : List ℕ) (s : Server)
    → s.next_session_id + length fds < 2 ^ 16
    → IsServer s
    → IsServer (accept_devices fds s)
      × ((accept_devices fds s).next_session_id ≡ s.next_session_id + length fds)
unfolding accept_devices
accept_devices-IsServer [] s lt h = (h, omega arith)
accept_devices-IsServer (fd ∷ fds) s lt h =
    let (k, e) =
      accept_devices-IsServer fds (accept_device fd s) (omega (arith, next))
        (accept_device-IsServer fd s (omega arith) h) in
    (k, omega (arith, e, next))
  where
    next : (accept_device fd s).next_session_id ≡ s.next_session_id + 1
    next = next_id fd s (omega arith)

pub accept_subscribers-IsServer :
    (fds : List ℕ) (s : Server)
    → IsServer s
    → IsServer (accept_subscribers fds s)
      × ((accept_subscribers fds s).next_session_id ≡ s.next_session_id)
unfolding accept_subscribers
accept_subscribers-IsServer [] s h = (h, refl)
accept_subscribers-IsServer (fd ∷ fds) s h = accept_subscribers-IsServer fds _ (record {
  all_devices = h.all_devices;
  listeners =
      add_subscriber-AllListen fd (subscriber_on connected_socket) s.store (λ e. refl) h.listeners;
  ids_used = h.ids_used;
  ids_distinct = h.ids_distinct;
})
