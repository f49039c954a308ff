-- ===== src/Server/Store/Listeners.antt =====
-- server/store.cpp: every operation keeps the subscribers' connections watched.
use sensor_link.Prelude.{
  ℕ, ◌==◌, if◌then◌else◌, Bool, true, false, Bool-cases, inl, inr, List, [], ◌∷◌, map, Option, none,
  some, All-append,
}
use sensor_link.Prelude.Int.{ℤ}
use sensor_link.Prelude.Text.{find}
use sensor_link.Prelude.Maps.{AllEntries}
use sensor_link.Server.Subscriber.{
  Subscriber, publish, publish_excursion_alert, publish_offline_alert,
}
use sensor_link.Server.Subscriber.Keeps.{
  IsListening, publish-IsListening, excursion-IsListening, offline-IsListening,
}
use sensor_link.Server.Store.{
  Store, DeviceAlerts, alerts_of, latch_excursion, record_sample, latch_offline, replay,
  add_subscriber, without, remove_subscriber, metric_name, ack, ack_found,
}

-- All subscribers' connections are watched.
abbrev pub AllListen : Store → Type 0
AllListen s = AllEntries IsListening s.subscribers

All-mapped :
    (f : Subscriber → Subscriber)
    → ((s : Subscriber) → IsListening s → IsListening (f s))
    → (m : List (ℕ × Subscriber)) → AllEntries IsListening m
    → AllEntries IsListening (map (λ (e : ℕ × Subscriber). (e.0, f e.1)) m)
All-mapped f k [] h = h
All-mapped f k (e ∷ m) h = (k e.1 h.0, All-mapped f k m h.1)

latch_excursion-AllListen :
    (id : ℕ) (v : ℤ) (t now : ℕ) (s : Store)
    → AllListen s
    → AllListen (latch_excursion id v t now s)
unfolding latch_excursion
latch_excursion-AllListen id v t now s h = elim (Bool-cases (alerts_of id s).excursion.active) [
  | inl z ↦ rw z h
  | inr z ↦ rw z (
      All-mapped (publish_excursion_alert id v t) (λ sub k. excursion-IsListening id v t sub)
        s.subscribers h)
]

pub latch_offline-AllListen :
    (id t now : ℕ) (s : Store) → AllListen s → AllListen (latch_offline id t now s)
unfolding latch_offline
latch_offline-AllListen id t now s h = elim (Bool-cases (alerts_of id s).offline.active) [
  | inl z ↦ rw z h
  | inr z ↦ rw z (
      All-mapped (publish_offline_alert id t) (λ sub k. offline-IsListening id t sub) s.subscribers
        h)
]

either : (b : Bool) (x y : Store) → AllListen x → AllListen y → AllListen (if b then x else y)
either true x y h k = h
either false x y h k = k

pub record_sample-AllListen :
    (id metric : ℕ) (v : ℤ) (t now : ℕ) (s : Store)
    → AllListen s
    → AllListen (record_sample id metric v t now s)
unfolding record_sample
record_sample-AllListen id metric v t now s h =
    either _ _ _ published (latch_excursion-AllListen id _ t now _ published)
  where
    published :
        AllEntries IsListening (
          map
            (λ (e : ℕ × Subscriber). (e.0, publish (metric_name metric) id v t e.1))
            s.subscribers)
    published =
        All-mapped (publish (metric_name metric) id v t)
          (publish-IsListening (metric_name metric) id v t) s.subscribers h

pub ack-AllListen : (id now : ℕ) (s : Store) → AllListen s → AllListen (ack id now s).1
unfolding ack ack_found
ack-AllListen id now s h = found (find id s.alerts)
  where
    found : (o : Option DeviceAlerts) → AllListen (ack_found id now o s).1
    found none = h
    found (some a) = h

replay-IsListening :
    (alerts : List (ℕ × DeviceAlerts)) (sub : Subscriber)
    → IsListening sub
    → IsListening (replay alerts sub)
unfolding replay
replay-IsListening [] sub h = h
replay-IsListening ((id, a) ∷ rest) sub h =
    replay-IsListening rest _
      (maybe_offline a.offline.active _ (maybe_excursion a.excursion.active))
  where
    maybe_excursion :
        (b : Bool)
        → IsListening (
            if b
            then publish_excursion_alert id a.excursion.value_milli a.excursion.timestamp_ms sub
            else sub)
    maybe_excursion true =
        excursion-IsListening id a.excursion.value_milli a.excursion.timestamp_ms sub
    maybe_excursion false = h

    maybe_offline :
        (b : Bool) (s : Subscriber)
        → IsListening s
        → IsListening (if b then publish_offline_alert id a.offline.timestamp_ms s else s)
    maybe_offline true s k = offline-IsListening id a.offline.timestamp_ms s
    maybe_offline false s k = k

pub add_subscriber-AllListen :
    (pointer : ℕ) (sub : Subscriber) (s : Store)
    → IsListening sub
    → AllListen s
    → AllListen (add_subscriber pointer sub s)
unfolding add_subscriber
add_subscriber-AllListen pointer sub s h k =
    All-append (λ (e : ℕ × Subscriber). IsListening e.1) s.subscribers
      ((pointer, replay s.alerts sub) ∷ []) k (replay-IsListening s.alerts sub h, _)

without-All :
    (pointer : ℕ) (m : List (ℕ × Subscriber))
    → AllEntries IsListening m
    → AllEntries IsListening (without pointer m)
unfolding without
without-All pointer [] h = h
without-All pointer (e ∷ m) h = elim (Bool-cases (e.0 == pointer)) [
  | inl z ↦ rw z (without-All pointer m h.1)
  | inr z ↦ rw z (h.0, without-All pointer m h.1)
]

pub remove_subscriber-AllListen :
    (pointer : ℕ) (s : Store) → AllListen s → AllListen (remove_subscriber pointer s)
unfolding remove_subscriber
remove_subscriber-AllListen pointer s h = without-All pointer s.subscribers h
