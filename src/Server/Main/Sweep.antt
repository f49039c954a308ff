-- ===== src/Server/Main/Sweep.antt =====
-- server/main.cpp: what the sweep does to a device, and the ids of sessions.
use sensor_link.Prelude.{
  ℕ, max, ◌*◌, ltb, not, ◌&&◌, ◌+◌, ◌%◌, ◌^◌, ◌≤◌, ◌<◌, ◌≡◌, ◌≢◌, ◌∙◌, refl, ap, sym, subst, arith,
  if◌then◌else◌, Bool, true, false, ◌||◌, Bool-cases, inl, inr, List, [], ◌∷◌, ◌++◌, Option, none,
  some,
}
use sensor_link.Prelude.Int.{pos}
use sensor_link.Prelude.Text.{find}
use sensor_link.Server.Session.{Session, timed_out}
use sensor_link.Server.Store.{Store, offline_alert, alerts_of}
use sensor_link.Server.Store.Alerts.{latch_offline-alerts_of, flip}
use sensor_link.Server.Ingest.{send_slow_down}
use sensor_link.Server.Main.{
  Device, Server, device_timeout, halved, sweep_device, sweep_session, accept_device, emplace,
  emplace_found,
}

-- Half of a rate, rounded down, and 1 for the rates 0 and 1.
abbrev pub IsHalf : ℕ → ℕ → Type 0
IsHalf rate r = (1 ≤ r) × (2 * r ≤ max rate 2) × (rate < 2 * r + 2)

pub halved-IsHalf : (rate : ℕ) → IsHalf rate (halved rate)
unfolding halved
halved-IsHalf rate = (omega arith, omega arith, omega arith)

-- Whether a device is gone: its connection is closed, or it has said nothing for more than six seconds.
abbrev pub gone : ℕ → Device → Session → Bool
gone now d s = d.ing.conn.closed || ltb (s.last_activity + 6 * 10 ^ 9) now

timed_out-ltb :
    (now : ℕ) (s : Session)
    → timed_out s now device_timeout ≡ ltb (s.last_activity + 6 * 10 ^ 9) now
timed_out-ltb now s = ground arith

abbrev pub is_none : Option Device → Bool
is_none none = true
is_none (some d) = false

-- The result of a round: whether the device is dropped, and the alerts of its session.
abbrev pub Judged : ℕ → Device → Session → Store → Option Device × Store → Type 0
Judged now d s store r =
    (is_none r.0 ≡ gone now d s)
    × (alerts_of s.session_id r.1 ≡ (
        if gone now d s && not (offline_alert s.session_id store).active
        then record (alerts_of s.session_id store) {
          offline = record {
            active = true;
            value_milli = pos 0;
            timestamp_ms = s.last_uptime_ms;
            triggered_at = now;
          };
        }
        else alerts_of s.session_id store))

sweep_session-Judged :
    (now : ℕ) (congested : Bool) (d : Device) (s : Session) (store : Store)
    → Judged now d s store (sweep_session now congested (some s) d store)
unfolding sweep_session
sweep_session-Judged now congested d s store = elim (Bool-cases (gone now d s)) [
  | inl z ↦ rw (timed_out-ltb now s) (
      rw z (
        refl,
        latch_offline-alerts_of s.session_id s.last_uptime_ms now store
            ∙ flip (offline_alert s.session_id store).active _ _,
      ))
  | inr z ↦
      rw (timed_out-ltb now s) (
        rw z
          (elim (Bool-cases congested) [ inl c ↦ rw c (refl, refl) | inr c ↦ rw c (refl, refl) ]))
]

sweep_device-session :
    (now : ℕ) (congested : Bool) (d : Device) (s : Session) (store : Store)
    → d.ing.session ≡ some s
    → sweep_device now congested d store ≡ sweep_session now congested (some s) d store
unfolding sweep_device
sweep_device-session now congested d s store e =
    ap (λ (o : Option Session). sweep_session now congested o d store) e

-- A sweep drops a device with a session exactly when its connection is closed or it has been quiet for
-- more than six seconds. Then the session's offline alert opens, unless it is open, with the last
-- uptime that the device has told and the time of the sweep; otherwise the session's alerts are as
-- they were.
pub sweep_device-Judged :
    (now : ℕ) (congested : Bool) (d : Device) (s : Session) (store : Store)
    → d.ing.session ≡ some s
    → Judged now d s store (sweep_device now congested d store)
sweep_device-Judged now congested d s store e =
    subst (Judged now d s store) (sym (sweep_device-session now congested d s store e))
      (sweep_session-Judged now congested d s store)

-- A device that stays while a subscriber is congested.
pub sweep_device-slowed :
    (now : ℕ) (d : Device) (s : Session) (store : Store)
    → d.ing.session ≡ some s
    → gone now d s ≡ false
    → sweep_device now true d store
      ≡ (some (record d { ing = send_slow_down (halved s.current_rate_hz) d.ing }), store)
unfolding sweep_session
sweep_device-slowed now d s store e z =
    sweep_device-session now true d s store e ∙ rw (timed_out-ltb now s) (rw z refl)

-- The sessions' ids, while none of the 65535 is used again: those of the devices are below the next
-- one, and no two devices have the same.
abbrev pub ids : List (ℕ × Device) → List ℕ
ids [] = []
ids ((fd, d) ∷ ds) = d.ing.session_id ∷ ids ds

abbrev pub AllBelow : ℕ → List ℕ → Type 0
AllBelow n [] = Unit
AllBelow n (x ∷ xs) = (x < n) × AllBelow n xs

abbrev pub Absent : ℕ → List ℕ → Type 0
Absent x [] = Unit
Absent x (y ∷ ys) = (x ≢ y) × Absent x ys

abbrev pub Distinct : List ℕ → Type 0
Distinct [] = Unit
Distinct (x ∷ xs) = Absent x xs × Distinct xs

pub record HasOwnIds (s : Server) : Type 0 where
  pub used : AllBelow s.next_session_id (ids s.devices)
  pub distinct : Distinct (ids s.devices)

below_more : (n : ℕ) (xs : List ℕ) → AllBelow n xs → AllBelow (n + 1) xs
below_more n [] h = _
below_more n (x ∷ xs) h = (omega (arith, h.0), below_more n xs h.1)

below_last :
    (n : ℕ) (ds : List (ℕ × Device)) (fd : ℕ) (d : Device)
    → AllBelow n (ids ds)
    → d.ing.session_id ≡ n
    → AllBelow (n + 1) (ids (ds ++ (fd, d) ∷ []))
below_last n [] fd d h e = (omega arith, _)
below_last n ((j, c) ∷ ds) fd d h e = (omega (arith, h.0), below_last n ds fd d h.1 e)

Absent-append :
    (x n : ℕ) (ds : List (ℕ × Device)) (fd : ℕ) (d : Device)
    → Absent x (ids ds)
    → x < n
    → d.ing.session_id ≡ n
    → Absent x (ids (ds ++ (fd, d) ∷ []))
Absent-append x n [] fd d h lt e = ((λ p. omega arith), _)
Absent-append x n ((j, c) ∷ ds) fd d h lt e = (h.0, Absent-append x n ds fd d h.1 lt e)

Distinct-append :
    (n : ℕ) (ds : List (ℕ × Device)) (fd : ℕ) (d : Device)
    → AllBelow n (ids ds)
    → Distinct (ids ds)
    → d.ing.session_id ≡ n
    → Distinct (ids (ds ++ (fd, d) ∷ []))
Distinct-append n [] fd d b h e = (_, _)
Distinct-append n ((j, c) ∷ ds) fd d b h e =
    (Absent-append c.ing.session_id n ds fd d h.0 b.0 e, Distinct-append n ds fd d b.1 h.1 e)

emplace-HasOwnIds :
    (o : Option Device) (fd : ℕ) (d : Device) (s : Server)
    → d.ing.session_id ≡ s.next_session_id
    → HasOwnIds s
    → HasOwnIds (record s {
      devices = emplace_found o fd d s.devices;
      next_session_id = s.next_session_id + 1;
    })
emplace-HasOwnIds none fd d s i h = record {
  used = below_last s.next_session_id s.devices fd d h.used i;
  distinct = Distinct-append s.next_session_id s.devices fd d h.used h.distinct i;
}
emplace-HasOwnIds (some c) fd d s i h = record {
  used = below_more s.next_session_id (ids s.devices) h.used;
  distinct = h.distinct;
}

below_mod : (n : ℕ) → n < 2 ^ 16 → n % 2 ^ 16 ≡ n
below_mod n h = omega arith

-- Accepting a device gives it an id that no device has, as long as the ids have not run out.
pub accept_device-HasOwnIds :
    (fd : ℕ) (s : Server)
    → s.next_session_id + 1 < 2 ^ 16
    → HasOwnIds s
    → HasOwnIds (accept_device fd s)
unfolding accept_device emplace
accept_device-HasOwnIds fd s lt h =
    rw (below_mod (s.next_session_id + 1) lt) (emplace-HasOwnIds (find fd s.devices) fd _ s refl h)
