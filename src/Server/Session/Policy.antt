-- ===== src/Server/Session/Policy.antt =====
-- server/device_session.cpp: the answer to HELLO.
use sensor_link.Prelude.{ℕ, ◌-◌, ◌^◌, ◌<◌, ◌≡◌, refl, arith, min, ap, true}
use sensor_link.Prelude.Masks.{eq_of_table, all_below}
use sensor_link.Proto.Messages.{HelloPayload}
use sensor_link.Server.Session.{Session, mask_loop, answer_hello}

mask_table : (n : ℕ) → n < 9 → mask_loop n 0 0 ≡ 2 ^ n - 1
unfolding mask_loop
mask_table n h =
    eq_of_table 9 (λ n. mask_loop n 0 0) (λ n. 2 ^ n - 1) n (unfold all_below in refl) h

-- What a device that says HELLO is told: its session's id, the rate that it offered but at most 10
-- readings a second, and a mask whose set bits are the metrics that it has, the first eight at most.
-- The session is connected at that rate.
pub answer_hello_lem :
    (h : HelloPayload) (s : Session)
    → answer_hello h s ≡ (
      record {
        session_id = s.session_id;
        sample_rate_hz = min h.offered_rate_hz 10;
        metric_mask = 2 ^ min h.metric_count 8 - 1;
      },
      record s { connected = true; current_rate_hz = min h.offered_rate_hz 10 },
    )
unfolding answer_hello
answer_hello_lem h s =
    ap
      (λ (m : ℕ). (
        record {
          session_id = s.session_id;
          sample_rate_hz = min h.offered_rate_hz 10;
          metric_mask = m;
        },
        record s { connected = true; current_rate_hz = min h.offered_rate_hz 10 },
      ))
      (mask_table (min h.metric_count 8) (omega arith))
