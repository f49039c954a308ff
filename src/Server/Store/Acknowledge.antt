-- ===== src/Server/Store/Acknowledge.antt =====
-- server/store.cpp: an acknowledgement after a reading of the temperature.
use sensor_link.Prelude.{
  ℕ, ◌+◌, ◌-◌, ◌*◌, ◌/◌, ◌^◌, ◌≤◌, ◌<◌, ◌≡◌, ◌∙◌, refl, ap, ap₂, sym, subst, arith, if◌then◌else◌,
  not, Bool, true, false, ◌||◌, ◌&&◌, Bool-cases, inl, inr, Option, none, some,
}
use sensor_link.Prelude.Int.{ℤ, pos, leb_ℤ}
use sensor_link.Prelude.Text.{find, put}
use sensor_link.Server.Store.{
  Store, AckResult, DeviceHistory, DeviceAlerts, record_sample, latch_excursion, ack, recovered,
  alerts_of, make_key, high_threshold_milli, smooth, append_sample, history_of,
}
use sensor_link.Server.Store.Maps.{find-put_self}
use sensor_link.Server.Store.Alerts.{
  new_average, report, closed_off, record_sample-alerts_of, ack_lem,
}

-- Whether the average stands above 5.5 degrees once the reading is in.
abbrev pub above : ℕ → ℤ → ℕ → Store → Bool
above k v t s = not (leb_ℤ (new_average k 0 v t s) (pos 5500))

abbrev low : Option DeviceHistory → Bool
low o = elim o [ none ↦ false | some h ↦ leb_ℤ h.average_milli high_threshold_milli ]

-- The recovery is judged by the average that the last reading has left.
recovered-record_sample :
    (k : ℕ) (v : ℤ) (t now : ℕ) (s : Store)
    → recovered k (record_sample k 0 v t now s) ≡ leb_ℤ (new_average k 0 v t s) (pos 5500)
unfolding recovered record_sample latch_excursion
recovered-record_sample k v t now s =
    elim (Bool-cases (leb_ℤ (new_average k 0 v t s) high_threshold_milli)) [
      | inl z ↦ rw z (ap low kept ∙ z)
      | inr z ↦ elim (Bool-cases (alerts_of k s).excursion.active) [
        | inl y ↦ rw z (rw y (ap low kept ∙ z))
        | inr y ↦ rw z (rw y (ap low kept ∙ z))
      ]
    ]
  where
    kept :
        find (make_key k 0) (
          put
            (make_key k 0)
            (smooth v (append_sample t v (history_of (make_key k 0) s)))
            s.histories)
        ≡ some (smooth v (append_sample t v (history_of (make_key k 0) s)))
    kept = find-put_self (make_key k 0) _ s.histories

-- `d` whole milliseconds fit in `e` nanoseconds; nothing is measured for an alert that is not open.
abbrev pub Elapsed : Bool → ℕ → ℕ → Type 0
Elapsed true d e = (d * 10 ^ 6 ≤ e) × (e < (d + 1) * 10 ^ 6)
Elapsed false d e = d ≡ 0

-- What an acknowledgement at `now` reports, and leaves of the alerts, after a reading at `seen` before
-- which they were `a`; `hot` is whether the average stands above the threshold.
pub record Acknowledged (hot : Bool) (a : DeviceAlerts) (seen now : ℕ) (res : AckResult)
    (left : DeviceAlerts) : Type 0 where
  pub had_excursion : res.had_excursion ≡ hot || a.excursion.active
  pub still_active : res.excursion_still_active ≡ hot
  pub excursion_left : left.excursion.active ≡ hot
  pub excursion_time :
      Elapsed
        (hot || a.excursion.active)
        res.excursion_duration
        (now - (if a.excursion.active then a.excursion.triggered_at else seen))
  pub had_offline : res.had_offline ≡ a.offline.active
  pub offline_left : left.offline.active ≡ false
  pub offline_time : Elapsed a.offline.active res.offline_duration (now - a.offline.triggered_at)

elapsed : (b : Bool) (e : ℕ) → Elapsed b (if b then e / 1000000 else 0) e
elapsed true e = (omega arith, omega arith)
elapsed false e = refl

not-not : (b : Bool) → not (not b) ≡ b
not-not true = refl
not-not false = refl

-- The alerts once the reading is in.
abbrev latched : Bool → ℤ → ℕ → ℕ → DeviceAlerts → DeviceAlerts
latched hot avg t seen a =
    if hot && not a.excursion.active
    then record a {
      excursion = record {
        active = true;
        value_milli = avg;
        timestamp_ms = t;
        triggered_at = seen;
      };
    }
    else a

report-Acknowledged :
    (hot : Bool) (avg : ℤ) (t seen now : ℕ) (a : DeviceAlerts)
    → Acknowledged hot a seen now
        (report (not hot) now (latched hot avg t seen a))
        (closed_off (not hot) (latched hot avg t seen a))
report-Acknowledged true avg t seen now a = elim (Bool-cases a.excursion.active) [
  | inl z ↦ rw z (record {
    had_excursion = refl;
    still_active = refl;
    excursion_left = refl;
    excursion_time = elapsed true (now - a.excursion.triggered_at);
    had_offline = refl;
    offline_left = refl;
    offline_time = elapsed a.offline.active (now - a.offline.triggered_at);
  })
  | inr z ↦ rw z (record {
    had_excursion = refl;
    still_active = refl;
    excursion_left = refl;
    excursion_time = elapsed true (now - seen);
    had_offline = refl;
    offline_left = refl;
    offline_time = elapsed a.offline.active (now - a.offline.triggered_at);
  })
]
report-Acknowledged false avg t seen now a = elim (Bool-cases a.excursion.active) [
  | inl z ↦ rw z (record {
    had_excursion = refl;
    still_active = refl;
    excursion_left = refl;
    excursion_time = elapsed true (now - a.excursion.triggered_at);
    had_offline = refl;
    offline_left = refl;
    offline_time = elapsed a.offline.active (now - a.offline.triggered_at);
  })
  | inr z ↦ rw z (record {
    had_excursion = refl;
    still_active = refl;
    excursion_left = refl;
    excursion_time = refl;
    had_offline = refl;
    offline_left = refl;
    offline_time = elapsed a.offline.active (now - a.offline.triggered_at);
  })
]

-- An acknowledgement after a reading of the temperature. It reports an excursion when the average
-- with the reading is above 5.5 degrees or an excursion was open before; the excursion stays open
-- exactly when that average is above, and closes otherwise; the offline alert closes. Every open alert
-- is reported with the whole milliseconds since it was opened, which for an excursion that the reading
-- itself opens is the time of the reading.
pub ack-record_sample :
    (k : ℕ) (v : ℤ) (t seen now : ℕ) (s : Store)
    → let r = ack k now (record_sample k 0 v t seen s) in
      Acknowledged (above k v t s) (alerts_of k s) seen now r.0 (alerts_of k r.1)
ack-record_sample k v t seen now s =
    let s' = record_sample k 0 v t seen s in
    let hot = above k v t s in
    let a = latched hot (new_average k 0 v t s) t seen (alerts_of k s) in
    let judged : recovered k s' ≡ not hot =
      recovered-record_sample k v t seen s
      ∙ sym (not-not (leb_ℤ (new_average k 0 v t s) (pos 5500))) in
    let opened : alerts_of k s' ≡ a = record_sample-alerts_of k 0 v t seen s in
    subst
      (λ (res : AckResult).
        Acknowledged hot (alerts_of k s) seen now res (alerts_of k (ack k now s').1))
      (sym (
        (ack_lem k now s').0 ∙ ap₂ (λ (b : Bool) (x : DeviceAlerts). report b now x) judged opened))
      (subst
        (λ (left : DeviceAlerts).
          Acknowledged hot (alerts_of k s) seen now (report (not hot) now a) left)
        (sym ((ack_lem k now s').1 ∙ ap₂ closed_off judged opened))
        (report-Acknowledged hot (new_average k 0 v t s) t seen now (alerts_of k s)))
