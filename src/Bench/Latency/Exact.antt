-- ===== src/Bench/Latency/Exact.antt =====
-- bench/latency_subscriber.cpp against bench/load_generator.cpp: what is measured.
use sensor_link.Prelude.{
  ℕ, ◌+◌, ◌-◌, ◌*◌, ◌/◌, ◌%◌, ◌^◌, ◌≤◌, ◌<◌, ◌≡◌, ◌∙◌, refl, ap, arith, ◌==◌, ◌&&◌, false, true, [],
  ◌∷◌, ◌++◌, Option, some, All,
}
use sensor_link.Prelude.Int.{ℤ, pos, ◌-ℤ◌}
use sensor_link.Prelude.Text.{Text, text_eq, to_string, int_to_string}
use sensor_link.Scan.Numbers.{to_string-All}
use sensor_link.Scan.Converted.{cut_at-append, stoll-to_string}
use sensor_link.Scan.Words.{IsWord, IsLetter}
use sensor_link.Server.Subscriber.{update_line}
use sensor_link.Bench.Load
use sensor_link.Bench.Latency.{now_ms, field, timestamp_of, Measured, measure, measure_line}

NoSpace : ℕ → Type 0
NoSpace c = (c == 32) ≡ false

letters : (m : Text) → All IsLetter m → All NoSpace m
unfolding NoSpace
letters [] h = h
letters (c ∷ m) h = (no_space c h.0, letters m h.1)
  where
    no_space : (c : ℕ) → IsLetter c → (c == 32) ≡ false
    no_space c h = ground arith

number : (n : ℕ) → All NoSpace (to_string n)
unfolding NoSpace
number n = to_string-All n no_space
  where
    no_space : (c : ℕ) → (48 ≤ c) × (c ≤ 57) → (c == 32) ≡ false
    no_space c h = ground arith

text_eq_self : (m : Text) → text_eq m m ≡ true
unfolding text_eq
text_eq_self [] = refl
text_eq_self (c ∷ m) = rw (text_eq_self m) (same c)
  where
    same : (c : ℕ) → (c == c) && true ≡ true
    same c = ground arith

field-append : (m s : Text) → All NoSpace m → field (m ++ 32 ∷ s) ≡ m
unfolding field NoSpace
field-append m s h = rw (field, cut_at-append 32 m s h) refl

-- The timestamp of a line that the server sends is the one that it was given.
timestamp_of-update_line :
    (m : Text) (id t : ℕ) (v : ℤ)
    → IsWord m
    → t < 2 ^ 32
    → timestamp_of m (update_line m id v t) ≡ some (pos t)
unfolding timestamp_of update_line NoSpace
timestamp_of-update_line m id t v w h =
    rw
      (
        cut_at-append 32 m (to_string id ++ (32 ∷ (to_string t ++ 32 ∷ int_to_string v)))
            (letters m w.0),
        text_eq_self m,
        cut_at-append 32 (to_string id) (to_string t ++ 32 ∷ int_to_string v) (number id),
        field-append (to_string t) (int_to_string v) (number t),
        stoll-to_string t (omega arith),
      )
      refl

stamp-lt : (n : ℕ) → Load.now_ms n < 2 ^ 32
unfolding Load.now_ms
stamp-lt n = omega arith

later_minus : (a b : ℕ) → b ≤ a → pos a -ℤ pos b ≡ pos (a - b)
unfolding ◌-ℤ◌
later_minus a b h = ground arith

difference :
    (now sent : ℕ)
    → sent ≤ now
    → now_ms now -ℤ pos (Load.now_ms sent)
      ≡ pos (now / 10 ^ 6 - sent / 10 ^ 6 + 2 ^ 32 * (sent / 10 ^ 6 / 2 ^ 32))
unfolding now_ms Load.now_ms
difference now sent h =
    later_minus (now / 10 ^ 6) (sent / 10 ^ 6 % 2 ^ 32) (omega arith) ∙ ap pos (omega arith)

-- A reading that is stamped at `sent_ns` and arrives at `now_ns` is measured as the milliseconds in
-- between, and 2^32 more for each time that the clock of the host had passed 2^32 milliseconds when it
-- was sent: the stamp is cut to 32 bits and the clock that it is compared with is not.
pub measure_line_lem :
    (clock : ℕ → ℕ) (m : Text) (id sent_ns : ℕ) (v : ℤ) (before : Measured)
    → IsWord m
    → sent_ns ≤ clock before.clock_reads
    → (measure_line clock m (update_line m id v (Load.now_ms sent_ns)) before).latencies_ms
      ≡ before.latencies_ms
        ++ pos (
            clock before.clock_reads / 10 ^ 6
            - sent_ns / 10 ^ 6
            + 2 ^ 32 * (sent_ns / 10 ^ 6 / 2 ^ 32))
          ∷ []
unfolding measure
measure_line_lem clock m id sent_ns v before w h =
    ap (λ (o : Option ℤ). (measure clock m o before).latencies_ms)
      (timestamp_of-update_line m id (Load.now_ms sent_ns) v w (stamp-lt sent_ns))
    ∙ ap (λ (z : ℤ). before.latencies_ms ++ z ∷ [])
        (difference (clock before.clock_reads) sent_ns h)
