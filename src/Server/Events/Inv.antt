-- ===== src/Server/Events/Inv.antt =====
-- The whole server, through every run of its events.
use mathlib.Core.Option.{none-ne-some, some-injective}
use sensor_link.Prelude.{
  ℕ, ◌+◌, ◌-◌, ◌^◌, ◌<◌, ◌≡◌, ◌∙◌, refl, ap, sym, subst, arith, if◌then◌else◌, Bool, true, false,
  Bool-cases, inl, inr, List, [], ◌∷◌, Option, none, some, ◌==◌, Gives, Gives-bind, Gives-eq,
}
use sensor_link.Prelude.Text.{find, put}
use sensor_link.Prelude.Maps.{find-AllEntries, put-AllEntries}
use sensor_link.Server.Connection.{Connection, try_read, try_write}
use sensor_link.Server.Connection.Listens.{
  Listens, LeavesListening, try_read-Listens, try_write-Listens,
}
use sensor_link.Server.Subscriber.{Subscriber}
use sensor_link.Server.Subscriber.Keeps.{IsListening}
use sensor_link.Server.Store.{Store}
use sensor_link.Server.Store.Listeners.{AllListen}
use sensor_link.Server.Commands.Keeps.{BothListen, read_lines-BothListen}
use sensor_link.Server.Ingest.{Ingest, on_readable}
use sensor_link.Server.Ingest.Keeps.{on_readable-Read}
use sensor_link.Server.Main.{Server, Device, accept_subscribers, housekeeping}
use sensor_link.Server.Main.Sweep.{ids, AllBelow, Distinct}
use sensor_link.Server.Main.Keeps.{
  IsDevice, IsServer, housekeeping-IsServer, accept_devices-IsServer, accept_subscribers-IsServer,
}
use sensor_link.Server.Events.{
  Report, device_in, device_out, device_ready, subscriber_in, subscriber_out, subscriber_ready,
  Event, devices_waiting, subscribers_waiting, device_event, subscriber_event, timer, on_device,
  on_subscriber, handle, accepted, Reach, start, later,
}

-- What a device's callback leaves of the device `d` and the store.
abbrev Ready : Device → Device × Store → Type 0
Ready d r = IsDevice r.0 × (r.0.ing.session_id ≡ d.ing.session_id) × AllListen r.1

device_in-Ready :
    (report : Report) (d : Device) (store : Store)
    → IsDevice d
    → AllListen store
    → Gives (Ready d) (device_in report d store)
unfolding device_in
device_in-Ready report d store h k =
    Gives-bind LeavesListening (Ready d) (try_read report.recv d.ing.conn) _
      (try_read-Listens report.recv d.ing.conn h.listens)
      (λ (c : Bool × Connection) (l : Listens c.1). after c.1 l)
  where
    with_conn : Connection → Ingest
    with_conn c = record (d.ing) { conn = c }

    after :
        (c : Connection)
        → Listens c
        → Ready d (
          record {
            ing = (on_readable report.clock (with_conn c) d.parser store).0.device;
            parser = (on_readable report.clock (with_conn c) d.parser store).1;
          },
          (on_readable report.clock (with_conn c) d.parser store).0.store,
        )
    after c l =
        let r = on_readable-Read report.clock (with_conn c) d.parser store h.valid in
        (
          record { own = r.keeps.own h.own; listens = r.keeps.listens l; valid = r.parser_valid },
          r.keeps.same_id,
          r.store_listens k,
        )

device_out-Ready :
    (report : Report) (d e : Device) (store : Store)
    → Ready d (e, store)
    → Gives (λ (f : Device). Ready d (f, store)) (device_out report e)
unfolding device_out
device_out-Ready report d e store h =
    Gives-bind LeavesListening (λ (f : Device). Ready d (f, store))
      (try_write report.send e.ing.conn) _ (try_write-Listens report.send e.ing.conn)
      (λ (c : Bool × Connection) (l : Listens c.1).
        (record { own = h.0.own; listens = l; valid = h.0.valid }, h.1, h.2))

device_ready-Ready :
    (report : Report) (d : Device) (store : Store)
    → IsDevice d
    → AllListen store
    → Gives (Ready d) (device_ready report d store)
unfolding device_ready
device_ready-Ready report d store h k =
    Gives-bind (Ready d) (Ready d)
      (if report.epollin then device_in report d store else some (d, store)) _
      (input report.epollin)
      (λ (r : Device × Store) (i : Ready d r).
        Gives-bind (λ (f : Device). Ready d (f, r.1)) (Ready d)
          (if report.epollout then device_out report r.0 else some r.0) _
          (output report.epollout r i) (λ (f : Device) (j : Ready d (f, r.1)). j))
  where
    input : (b : Bool) → Gives (Ready d) (if b then device_in report d store else some (d, store))
    input true = device_in-Ready report d store h k
    input false = (h, refl, k)

    output :
        (b : Bool) (r : Device × Store)
        → Ready d r
        → Gives (λ (f : Device). Ready d (f, r.1)) (if b then device_out report r.0 else some r.0)
    output true r i = device_out-Ready report d r.0 r.1 i
    output false r i = i

subscriber_ready-BothListen :
    (report : Report) (s : Subscriber) (store : Store)
    → BothListen (s, store)
    → Gives BothListen (subscriber_ready report s store)
unfolding subscriber_ready subscriber_in subscriber_out
subscriber_ready-BothListen report s store h =
    Gives-bind BothListen BothListen
      (if report.epollin then subscriber_in report s store else some (s, store)) _
      (input report.epollin)
      (λ (r : Subscriber × Store) (i : BothListen r).
        Gives-bind IsListening BothListen
          (if report.epollout then subscriber_out report r.0 else some r.0) _
          (output report.epollout r.0 i.0) (λ (f : Subscriber) (j : IsListening f). (j, i.1)))
  where
    input :
        (b : Bool) → Gives BothListen (if b then subscriber_in report s store else some (s, store))
    input true =
        Gives-bind LeavesListening BothListen (try_read report.recv s.conn) _
          (try_read-Listens report.recv s.conn h.0)
          (λ (c : Bool × Connection) (l : Listens c.1).
            read_lines-BothListen report.clock (record s { conn = c.1 }) store (l, h.1))
    input false = h

    output :
        (b : Bool) (t : Subscriber)
        → IsListening t
        → Gives IsListening (if b then subscriber_out report t else some t)
    output true t i =
        Gives-bind LeavesListening IsListening (try_write report.send t.conn) _
          (try_write-Listens report.send t.conn) (λ (c : Bool × Connection) (l : Listens c.1). l)
    output false t i = i

-- A device that stays under its descriptor keeps its id's place.
ids-put :
    (fd : ℕ) (d e : Device) (m : List (ℕ × Device))
    → find fd m ≡ some d
    → e.ing.session_id ≡ d.ing.session_id
    → ids (put fd e m) ≡ ids m
unfolding find put
ids-put fd d e [] f h = absurd (none-ne-some d f)
ids-put fd d e ((j, c) ∷ m) f h = elim (Bool-cases (fd == j)) [
  | inl z ↦ rw z (
      ap (λ (n : ℕ). n ∷ ids m)
        (h ∙ ap (λ (x : Device). x.ing.session_id) (sym (some-injective c d (rw z at f)))))
  | inr z ↦ rw z (ap (λ (l : List ℕ). c.ing.session_id ∷ l) (ids-put fd d e m (rw z at f) h))
]

-- The server behind a device's callback.
put_back :
    (fd : ℕ) (d : Device) (s : Server) (r : Device × Store)
    → IsServer s
    → find fd s.devices ≡ some d
    → Ready d r
    → IsServer (record s { store = r.1; devices = put fd r.0 s.devices })
put_back fd d s (e, store) h f (i, same, k) = record {
  all_devices = put-AllEntries IsDevice fd e s.devices i h.all_devices;
  listeners = k;
  ids_used = subst (AllBelow s.next_session_id) (sym (ids-put fd d e s.devices f same)) h.ids_used;
  ids_distinct = subst Distinct (sym (ids-put fd d e s.devices f same)) h.ids_distinct;
}

-- The server `t` after an event, when `n` ids have been given by then.
abbrev Runs : ℕ → Server → Type 0
Runs n t = IsServer t × (t.next_session_id ≡ n + 1)

on_device-Runs :
    (n fd : ℕ) (report : Report) (o : Option Device) (s : Server)
    → find fd s.devices ≡ o
    → Runs n s
    → Gives (Runs n) (on_device fd report o s)
unfolding on_device
on_device-Runs n fd report none s f h = h
on_device-Runs n fd report (some d) s f h =
    Gives-bind (Ready d) (Runs n) (device_ready report d s.store) _
      (device_ready-Ready report d s.store
        (Gives-eq IsDevice (find fd s.devices) d
          (find-AllEntries IsDevice fd s.devices h.0.all_devices) f)
        h.0.listeners)
      (λ (r : Device × Store) (i : Ready d r). (put_back fd d s r h.0 f i, h.1))

on_subscriber-Runs :
    (n fd : ℕ) (report : Report) (o : Option Subscriber) (s : Server)
    → find fd s.store.subscribers ≡ o
    → Runs n s
    → Gives (Runs n) (on_subscriber fd report o s)
unfolding on_subscriber
on_subscriber-Runs n fd report none s f h = h
on_subscriber-Runs n fd report (some sub) s f h =
    Gives-bind BothListen (Runs n) (subscriber_ready report sub s.store) _
      (subscriber_ready-BothListen report sub s.store (
        Gives-eq IsListening (find fd s.store.subscribers) sub
            (find-AllEntries IsListening fd s.store.subscribers h.0.listeners) f,
        h.0.listeners,
      ))
      (λ (r : Subscriber × Store) (i : BothListen r). (
        record {
          all_devices = h.0.all_devices;
          listeners = put-AllEntries IsListening fd r.0 r.1.subscribers i.0 i.1;
          ids_used = h.0.ids_used;
          ids_distinct = h.0.ids_distinct;
        },
        h.1,
      ))

none_accepted : (n : ℕ) (o : Option Server) → Gives (Runs n) o → Gives (Runs (n + 0)) o
none_accepted n o h = subst (λ (m : ℕ). Gives (Runs m) o) {y = n + 0} (omega arith) h

handle-Runs :
    (n : ℕ) (event : Event) (s : Server)
    → n + accepted event < 2 ^ 16 - 1
    → Runs n s
    → Gives (Runs (n + accepted event)) (handle event s)
unfolding handle
handle-Runs n (devices_waiting fds) s lt h =
    let (k, e) = accept_devices-IsServer fds s (omega (arith, h.1)) h.0 in
    (k, omega (arith, e, h.1))
handle-Runs n (subscribers_waiting fds) s lt h =
    let (k, e) = accept_subscribers-IsServer fds s h.0 in
    none_accepted n (some (accept_subscribers fds s)) (k, e ∙ h.1)
handle-Runs n (device_event fd report) s lt h =
    none_accepted n (on_device fd report (find fd s.devices) s)
      (on_device-Runs n fd report (find fd s.devices) s refl h)
handle-Runs n (subscriber_event fd report) s lt h =
    none_accepted n (on_subscriber fd report (find fd s.store.subscribers) s)
      (on_subscriber-Runs n fd report (find fd s.store.subscribers) s refl h)
handle-Runs n (timer now) s lt h =
    let (k, e) = housekeeping-IsServer now s h.0 in
    none_accepted n (some (housekeeping now s)) (k, e ∙ h.1)

Reach-Runs : {n : ℕ} {s : Server} → Reach n s → n < 2 ^ 16 - 1 → Runs n s
Reach-Runs start lt =
    (record { all_devices = _; listeners = _; ids_used = _; ids_distinct = _ }, refl)
Reach-Runs (later {n} {s} {t} event r e) lt =
    Gives-eq (Runs (n + accepted event)) (handle event s) t
      (handle-Runs n event s lt (Reach-Runs r (omega arith))) e

-- In every state that the server reaches by any events, with any bytes from its sockets, while it has
-- accepted fewer than 65535 devices: each device has a session id that no other has, a session under
-- that id or none, and a valid parser; and every socket that is not closed is watched for input exactly
-- when less than the high water mark waits to be written to it, the dashboards' too.
pub Reach-IsServer : {n : ℕ} {s : Server} → Reach n s → n < 2 ^ 16 - 1 → IsServer s
Reach-IsServer r lt = (Reach-Runs r lt).0
