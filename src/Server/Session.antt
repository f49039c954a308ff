-- ===== src/Server/Session.antt =====
-- server/device_session.cpp and .hpp: the policy for one connected device. A point in time is its
-- count of nanoseconds, a timeout its count of milliseconds.
pub mod Policy
use sensor_link.Prelude.{ℕ, zero, suc, ◌+◌, ◌-◌, ◌*◌, ◌%◌, ◌^◌, min, bit_or, ltb, Bool, true, false}
use sensor_link.Proto.Messages.{HelloPayload, ConfigPayload, SlowDownPayload}

pub record Session : Type 0 where
  pub session_id : ℕ
  pub connected : Bool
  pub current_rate_hz : ℕ
  pub last_activity : ℕ
  pub last_uptime_ms : ℕ

-- The constructor.
abbrev pub open_session : ℕ → ℕ → Session
open_session session_id now = record {
  session_id = session_id;
  connected = false;
  current_rate_hz = 0;
  last_activity = now;
  last_uptime_ms = 0;
}

abbrev pub note_activity : ℕ → Session → Session
note_activity now s = record s { last_activity = now }

abbrev pub note_uptime : ℕ → Session → Session
note_uptime uptime_ms s = record s { last_uptime_ms = uptime_ms }

-- The difference of two points in time is signed: where `now` is the earlier one, it is below every
-- timeout, as is the 0 that it is here.
abbrev pub timed_out : Session → ℕ → ℕ → Bool
timed_out s now timeout_ms = ltb (timeout_ms * 1000000) (now - s.last_activity)

abbrev pub lower_rate : ℕ → Session → SlowDownPayload × Session
lower_rate new_rate_hz s = (
  record { session_id = s.session_id; new_rate_hz = new_rate_hz },
  record s { current_rate_hz = new_rate_hz },
)

abbrev pub max_sample_rate_hz : ℕ
max_sample_rate_hz = 10

-- The loop over the usable metrics: `n` rounds are left, the first of them for metric `i`.
pub mask_loop : ℕ → ℕ → ℕ → ℕ
mask_loop zero i mask = mask
mask_loop (suc n) i mask = mask_loop n (i + 1) (bit_or mask (2 ^ i) % 256)

unfoldable pub answer_hello : HelloPayload → Session → ConfigPayload × Session
answer_hello hello s =
    let rate = min hello.offered_rate_hz max_sample_rate_hz in
    let s' : Session = record s { connected = true; current_rate_hz = rate } in
    (
      record {
        session_id = s.session_id;
        sample_rate_hz = rate;
        metric_mask = mask_loop (min hello.metric_count 8) 0 0;
      },
      s',
    )
