-- ===== src/Server/Store.antt =====
-- server/store.cpp and .hpp: the hub. The two unordered maps are association lists with one entry for
-- each key; `subscribers` is the vector of registered pointers, each with the object behind it. A
-- point in time is its count of nanoseconds. The arithmetic on readings is exact.
use sensor_link.Prelude.{
  ℕ, suc, ◌+◌, ◌-◌, ◌*◌, ◌/◌, ◌%◌, ◌^◌, zero, ltb, ◌==◌, if◌then◌else◌, not, Bool, true, false,
  ◌||◌, ◌&&◌,
}
pub mod Maps
pub mod Samples
pub mod Average
pub mod Alerts
pub mod Acknowledge
pub mod Listeners
use sensor_link.Prelude.{
  bit_or, List, [], ◌∷◌, ◌++◌, map, set, get_or, replicate, Option, none, some,
}
use sensor_link.Prelude.Int.{ℤ, pos, ◌+ℤ◌, ◌-ℤ◌, leb_ℤ, shift_right2}
use sensor_link.Prelude.Text.{Text, codes, to_string, find, put}
use sensor_link.Server.Subscriber.{
  Subscriber, publish, publish_excursion_alert, publish_offline_alert,
}

abbrev pub history_per_device : ℕ
history_per_device = 64

abbrev pub high_threshold_milli : ℤ
high_threshold_milli = pos 5500

abbrev pub temp_metric_id : ℕ
temp_metric_id = 0

pub record Sample : Type 0 where
  pub timestamp_ms : ℕ
  pub value_milli : ℤ

pub record AlertState : Type 0 where
  pub active : Bool
  pub value_milli : ℤ
  pub timestamp_ms : ℕ
  pub triggered_at : ℕ

pub record AckResult : Type 0 where
  pub had_excursion : Bool
  pub excursion_duration : ℕ
  pub excursion_still_active : Bool
  pub had_offline : Bool
  pub offline_duration : ℕ

pub record DeviceHistory : Type 0 where
  pub entries : List Sample
  pub count : ℕ
  pub next : ℕ
  pub have_average : Bool
  pub average_milli : ℤ

pub record DeviceAlerts : Type 0 where
  pub excursion : AlertState
  pub offline : AlertState

pub record Store : Type 0 where
  pub histories : List (ℕ × DeviceHistory)
  pub alerts : List (ℕ × DeviceAlerts)
  pub subscribers : List (ℕ × Subscriber)

abbrev pub empty_store : Store
empty_store = record { histories = []; alerts = []; subscribers = [] }

-- What a struct holds when it is value-initialized.
abbrev pub no_sample : Sample
no_sample = record { timestamp_ms = 0; value_milli = pos 0 }

abbrev pub no_alert : AlertState
no_alert = record { active = false; value_milli = pos 0; timestamp_ms = 0; triggered_at = 0 }

abbrev pub no_alerts : DeviceAlerts
no_alerts = record { excursion = no_alert; offline = no_alert }

abbrev pub no_history : DeviceHistory
no_history = record {
  entries = replicate history_per_device no_sample;
  count = 0;
  next = 0;
  have_average = false;
  average_milli = pos 0;
}

unfoldable pub make_key : ℕ → ℕ → ℕ
make_key session_id metric_id = bit_or (session_id * 2 ^ 8 % 2 ^ 32) metric_id

unfoldable pub metric_name : ℕ → Text
metric_name metric_id =
    if metric_id == 0
    then codes "temp"
    else if metric_id == 1
    then codes "pressure"
    else codes "metric" ++ to_string metric_id

-- The entry of a key of a map, as `operator[]` finds or makes it.
abbrev pub history_of : ℕ → Store → DeviceHistory
history_of key s = elim (find key s.histories) [ none ↦ no_history | some h ↦ h ]

abbrev pub alerts_of : ℕ → Store → DeviceAlerts
alerts_of session_id s = elim (find session_id s.alerts) [ none ↦ no_alerts | some a ↦ a ]

abbrev pub for_all_subscribers : (Subscriber → Subscriber) → Store → Store
for_all_subscribers f s = record s {
  subscribers = map (λ (e : ℕ × Subscriber). (e.0, f e.1)) s.subscribers;
}

unfoldable pub append_sample : ℕ → ℤ → DeviceHistory → DeviceHistory
append_sample timestamp_ms value_milli h = record h {
  entries =
      set h.entries h.next (record { timestamp_ms = timestamp_ms; value_milli = value_milli });
  next = (h.next + 1) % history_per_device;
  count = if ltb h.count history_per_device then h.count + 1 else h.count;
}

unfoldable pub smooth : ℤ → DeviceHistory → DeviceHistory
smooth value_milli h =
    if not h.have_average
    then record h { average_milli = value_milli; have_average = true }
    else record h {
      average_milli = h.average_milli +ℤ shift_right2 (value_milli -ℤ h.average_milli);
    }

abbrev pub notify_excursion : ℕ → AlertState → Store → Store
notify_excursion session_id a s =
    for_all_subscribers (publish_excursion_alert session_id a.value_milli a.timestamp_ms) s

abbrev pub notify_offline : ℕ → AlertState → Store → Store
notify_offline session_id a s =
    for_all_subscribers (publish_offline_alert session_id a.timestamp_ms) s

-- The part of `record` behind the guard on metric and average.
unfoldable pub latch_excursion : ℕ → ℤ → ℕ → ℕ → Store → Store
latch_excursion session_id average_milli timestamp_ms now s =
    let alerts : DeviceAlerts = alerts_of session_id s in
    let alert : AlertState = record {
      active = true;
      value_milli = average_milli;
      timestamp_ms = timestamp_ms;
      triggered_at = now;
    } in
    if alerts.excursion.active
    then record s { alerts = put session_id alerts s.alerts }
    else notify_excursion session_id alert
        (record s { alerts = put session_id (record alerts { excursion = alert }) s.alerts })

unfoldable pub record_sample : ℕ → ℕ → ℤ → ℕ → ℕ → Store → Store
record_sample session_id metric_id value_milli timestamp_ms now s =
    let key = make_key session_id metric_id in
    let h : DeviceHistory =
      smooth value_milli (append_sample timestamp_ms value_milli (history_of key s)) in
    let s' : Store =
      for_all_subscribers (publish (metric_name metric_id) session_id value_milli timestamp_ms)
        (record s { histories = put key h s.histories }) in
    if not (metric_id == temp_metric_id) || leb_ℤ h.average_milli high_threshold_milli
    then s'
    else latch_excursion session_id h.average_milli timestamp_ms now s'

pub latch_offline : ℕ → ℕ → ℕ → Store → Store
latch_offline session_id timestamp_ms now s =
    let alerts : DeviceAlerts = alerts_of session_id s in
    let alert : AlertState = record {
      active = true;
      value_milli = pos 0;
      timestamp_ms = timestamp_ms;
      triggered_at = now;
    } in
    if alerts.offline.active
    then record s { alerts = put session_id alerts s.alerts }
    else notify_offline session_id alert
        (record s { alerts = put session_id (record alerts { offline = alert }) s.alerts })

abbrev pub excursion_alert : ℕ → Store → AlertState
excursion_alert session_id s = (alerts_of session_id s).excursion

abbrev pub offline_alert : ℕ → Store → AlertState
offline_alert session_id s = (alerts_of session_id s).offline

-- Milliseconds between two points in time, the later one first.
abbrev pub milliseconds_since : ℕ → ℕ → ℕ
milliseconds_since now since = (now - since) / 1000000

unfoldable pub recovered : ℕ → Store → Bool
recovered session_id s = elim (find (make_key session_id temp_metric_id) s.histories) [
  | none ↦ false
  | some h ↦ leb_ℤ h.average_milli high_threshold_milli
]

-- `ack` on the alerts that it found, with whether the device has recovered.
pub acknowledge : Bool → ℕ → DeviceAlerts → AckResult × DeviceAlerts
acknowledge has_recovered now a = (
  record {
    had_excursion = a.excursion.active;
    excursion_duration =
        if a.excursion.active then milliseconds_since now a.excursion.triggered_at else 0;
    excursion_still_active = a.excursion.active && not has_recovered;
    had_offline = a.offline.active;
    offline_duration =
        if a.offline.active then milliseconds_since now a.offline.triggered_at else 0;
  },
  record {
    excursion = record (a.excursion) { active = a.excursion.active && not has_recovered };
    offline = record (a.offline) { active = false };
  },
)

abbrev pub nothing_open : AckResult
nothing_open = record {
  had_excursion = false;
  excursion_duration = 0;
  excursion_still_active = false;
  had_offline = false;
  offline_duration = 0;
}

-- `ack` on what `find` found.
pub ack_found : ℕ → ℕ → Option DeviceAlerts → Store → AckResult × Store
ack_found session_id now none s = (nothing_open, s)
ack_found session_id now (some a) s =
    let (result, a') = acknowledge (recovered session_id s) now a in
    (result, record s { alerts = put session_id a' s.alerts })

pub ack : ℕ → ℕ → Store → AckResult × Store
ack session_id now s = ack_found session_id now (find session_id s.alerts) s

pub history_from : ℕ → ℕ → List Sample → List Sample
history_from i zero entries = []
history_from i (suc n) entries =
    get_or entries (i % history_per_device) no_sample ∷ history_from (i + 1) n entries

-- The samples of a history, oldest first.
unfoldable pub samples : DeviceHistory → List Sample
samples h = history_from (if ltb h.count history_per_device then 0 else h.next) h.count h.entries

pub history : ℕ → ℕ → Store → List Sample
history session_id metric_id s = elim (find (make_key session_id metric_id) s.histories) [
  | none ↦ []
  | some h ↦ samples h
]

-- The alerts that are active, replayed to one subscriber.
pub replay : List (ℕ × DeviceAlerts) → Subscriber → Subscriber
replay [] sub = sub
replay ((session_id, a) ∷ rest) sub =
    let e = a.excursion in
    let o = a.offline in
    let sub1 =
      if e.active
      then publish_excursion_alert session_id e.value_milli e.timestamp_ms sub
      else sub in
    let sub2 = if o.active then publish_offline_alert session_id o.timestamp_ms sub1 else sub1 in
    replay rest sub2

pub add_subscriber : ℕ → Subscriber → Store → Store
add_subscriber pointer sub s = record s {
  subscribers = s.subscribers ++ (pointer, replay s.alerts sub) ∷ [];
}

pub without : ℕ → List (ℕ × Subscriber) → List (ℕ × Subscriber)
without pointer [] = []
without pointer (e ∷ rest) =
    let kept = without pointer rest in if e.0 == pointer then kept else e ∷ kept

pub remove_subscriber : ℕ → Store → Store
remove_subscriber pointer s = record s { subscribers = without pointer s.subscribers }
