-- ===== src/Server/Store/Alerts.antt =====
-- server/store.cpp: when alerts open, how long they stay and when they close.
use sensor_link.Prelude.{
  ℕ, ◌≡◌, ◌≢◌, ◌∙◌, refl, ap, ◌==◌, if◌then◌else◌, not, Bool, true, false, ◌||◌, ◌&&◌, Bool-cases,
  List, Option, none, some, inl, inr,
}
use sensor_link.Prelude.Int.{ℤ, pos, leb_ℤ}
use sensor_link.Prelude.Text.{find, put}
use sensor_link.Server.Store.{
  Store, DeviceAlerts, AckResult, record_sample, latch_excursion, latch_offline, acknowledge, ack,
  ack_found, recovered, alerts_of, history_of, make_key, excursion_alert, offline_alert,
  high_threshold_milli, smooth, append_sample, milliseconds_since, no_alerts,
}
use sensor_link.Server.Store.Maps.{find-put_self, find-put_ne}

-- The smoothed reading of the temperature once a sample is in.
abbrev pub new_average : ℕ → ℕ → ℤ → ℕ → Store → ℤ
new_average session_id metric_id value timestamp s =
    (smooth value
      (append_sample timestamp value (history_of (make_key session_id metric_id) s))).average_milli

-- Whether a sample opens an alert: it is a temperature, the average with it is above the threshold,
-- and no excursion is open.
abbrev pub opens : ℕ → ℕ → ℤ → ℕ → Store → Bool
opens session_id metric_id value timestamp s =
    (metric_id == 0)
    && not (leb_ℤ (new_average session_id metric_id value timestamp s) high_threshold_milli)
    && not (excursion_alert session_id s).active

abbrev or_none : Option DeviceAlerts → DeviceAlerts
or_none o = elim o [ none ↦ no_alerts | some a ↦ a ]

alerts_of-put :
    (k : ℕ) (a : DeviceAlerts) (m : List (ℕ × DeviceAlerts)) → or_none (find k (put k a m)) ≡ a
alerts_of-put k a m = ap or_none (find-put_self k a m)

pub flip {ℓ} : {A : Type ℓ} (b : Bool) (x y : A) → (if b then x else y) ≡ (if not b then y else x)
flip true x y = refl
flip false x y = refl

alerts_of-put_ne :
    (k j : ℕ) (a : DeviceAlerts) (m : List (ℕ × DeviceAlerts))
    → k ≢ j
    → or_none (find k (put j a m)) ≡ or_none (find k m)
alerts_of-put_ne k j a m h = ap or_none (find-put_ne k j a m h)

latch_excursion_self :
    (k : ℕ) (avg : ℤ) (t now : ℕ) (s : Store)
    → alerts_of k (latch_excursion k avg t now s) ≡ (
        if (excursion_alert k s).active then alerts_of k s else record (alerts_of k s) {
          excursion = record {
            active = true;
            value_milli = avg;
            timestamp_ms = t;
            triggered_at = now;
          };
        })
unfolding latch_excursion
latch_excursion_self k avg t now s = elim (Bool-cases (excursion_alert k s).active) [
  | inl z ↦ rw z (alerts_of-put k _ s.alerts)
  | inr z ↦ rw z (alerts_of-put k _ s.alerts)
]

-- What a sample does to the alerts of its own session: where it opens one, the excursion alert
-- carries the average and both clocks; otherwise both alerts are as they were, an open one with its
-- first time stamp.
pub record_sample-alerts_of :
    (k m : ℕ) (v : ℤ) (t now : ℕ) (s : Store)
    → alerts_of k (record_sample k m v t now s) ≡ (
        if opens k m v t s
        then record (alerts_of k s) {
          excursion = record {
            active = true;
            value_milli = new_average k m v t s;
            timestamp_ms = t;
            triggered_at = now;
          };
        }
        else alerts_of k s)
unfolding record_sample
record_sample-alerts_of k m v t now s = elim (Bool-cases (m == 0)) [
  | inr z ↦ rw z refl
  | inl z ↦ elim (Bool-cases (leb_ℤ (new_average k m v t s) high_threshold_milli)) [
    | inl y ↦ rw z (rw y refl)
    | inr y ↦ rw z (rw y (latch_excursion_self k _ t now _ ∙ flip (excursion_alert k s).active _ _))
  ]
]

-- A device that goes quiet opens its offline alert, unless it is open.
pub latch_offline-alerts_of :
    (k t now : ℕ) (s : Store)
    → alerts_of k (latch_offline k t now s) ≡ (
        if (offline_alert k s).active then alerts_of k s else record (alerts_of k s) {
          offline = record {
            active = true;
            value_milli = pos 0;
            timestamp_ms = t;
            triggered_at = now;
          };
        })
unfolding latch_offline
latch_offline-alerts_of k t now s = elim (Bool-cases (offline_alert k s).active) [
  | inl z ↦ rw z (alerts_of-put k _ s.alerts)
  | inr z ↦ rw z (alerts_of-put k _ s.alerts)
]

-- The report of an acknowledgement on some alerts, and what is left of them.
abbrev pub report : Bool → ℕ → DeviceAlerts → AckResult
report has_recovered now a = record {
  had_excursion = a.excursion.active;
  excursion_duration =
      if a.excursion.active then milliseconds_since now a.excursion.triggered_at else 0;
  excursion_still_active = a.excursion.active && not has_recovered;
  had_offline = a.offline.active;
  offline_duration = if a.offline.active then milliseconds_since now a.offline.triggered_at else 0;
}

abbrev pub closed_off : Bool → DeviceAlerts → DeviceAlerts
closed_off has_recovered a = record {
  excursion = record (a.excursion) { active = a.excursion.active && not has_recovered };
  offline = record (a.offline) { active = false };
}

ack_found_lem :
    (k now : ℕ) (o : Option DeviceAlerts) (s : Store)
    → find k s.alerts ≡ o
    → ((ack_found k now o s).0 ≡ report (recovered k s) now (or_none o))
      × (alerts_of k (ack_found k now o s).1 ≡ closed_off (recovered k s) (or_none o))
unfolding ack_found acknowledge
ack_found_lem k now none s e = (refl, ap or_none e)
ack_found_lem k now (some a) s e = (refl, alerts_of-put k _ s.alerts)

-- What an acknowledgement reports and leaves: the offline alert closes; the excursion closes exactly
-- when the device has recovered, and is otherwise reported as still active and keeps its time stamp;
-- an alert that was open is reported with the milliseconds since it opened.
pub ack_lem :
    (k now : ℕ) (s : Store)
    → ((ack k now s).0 ≡ report (recovered k s) now (alerts_of k s))
      × (alerts_of k (ack k now s).1 ≡ closed_off (recovered k s) (alerts_of k s))
unfolding ack
ack_lem k now s = ack_found_lem k now (find k s.alerts) s refl

record_sample-other :
    (k j m : ℕ) (v : ℤ) (t now : ℕ) (s : Store)
    → k ≢ j
    → alerts_of k (record_sample j m v t now s) ≡ alerts_of k s
unfolding record_sample latch_excursion
record_sample-other k j m v t now s h =
    elim (Bool-cases (not (m == 0) || leb_ℤ (new_average j m v t s) high_threshold_milli)) [
      | inl z ↦ rw z refl
      | inr z ↦ rw z (elim (Bool-cases (excursion_alert j s).active) [
        | inl y ↦ rw y (alerts_of-put_ne k j _ s.alerts h)
        | inr y ↦ rw y (alerts_of-put_ne k j _ s.alerts h)
      ])
    ]

latch_offline-other :
    (k j t now : ℕ) (s : Store) → k ≢ j → alerts_of k (latch_offline j t now s) ≡ alerts_of k s
unfolding latch_offline
latch_offline-other k j t now s h = elim (Bool-cases (offline_alert j s).active) [
  | inl y ↦ rw y (alerts_of-put_ne k j _ s.alerts h)
  | inr y ↦ rw y (alerts_of-put_ne k j _ s.alerts h)
]

ack_found-other :
    (k j now : ℕ) (o : Option DeviceAlerts) (s : Store)
    → k ≢ j
    → alerts_of k (ack_found j now o s).1 ≡ alerts_of k s
unfolding ack_found
ack_found-other k j now none s h = refl
ack_found-other k j now (some a) s h = alerts_of-put_ne k j _ s.alerts h

-- The other sessions' alerts are untouched by a sample, by a device's end and by an acknowledgement.
pub other_alerts :
    (k j m : ℕ) (v : ℤ) (t now : ℕ) (s : Store)
    → k ≢ j
    → (alerts_of k (record_sample j m v t now s) ≡ alerts_of k s)
      × (alerts_of k (latch_offline j t now s) ≡ alerts_of k s)
      × (alerts_of k (ack j now s).1 ≡ alerts_of k s)
unfolding ack
other_alerts k j m v t now s h = (
  record_sample-other k j m v t now s h,
  latch_offline-other k j t now s h,
  ack_found-other k j now (find j s.alerts) s h,
)
