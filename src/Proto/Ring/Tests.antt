-- ===== src/Proto/Ring/Tests.antt =====
-- The ring's theorems at a push and a pop that are under way together.
use sensor_link.Prelude.{ℕ, refl, arith, List}
use sensor_link.Proto.Ring.Threads.{
  Shared, at_rest, produce, produce_at, consume, consume_at, by_producer, by_consumer, Reach, start,
  later,
}
use sensor_link.Proto.Ring.Threads.Inv.{Inv, Reach-Inv, Writes, Reads, Reach-apart}

-- A push that has written its slot, and a pop that has found nothing.
abbrev midway : Shared ℕ
midway = consume 3 0 (produce 3 0 9 (produce 3 0 9 (produce 3 0 9 (at_rest 3 0))))

midway-Reach : Reach 3 0 midway
midway-Reach =
    later (later (later (later start (by_producer 9)) (by_producer 9)) (by_producer 9)) by_consumer

Reach-Inv_example : (xs : List ℕ) × Inv 3 0 midway xs
Reach-Inv_example = Reach-Inv 3 0 (omega arith) midway-Reach

-- One value is in the ring; the producer stands before the slot 1 and the consumer before the slot 0.
abbrev two_producing : Shared ℕ
two_producing =
    produce 3 0 8
      (produce 3 0 8 (produce 3 0 9 (produce 3 0 9 (produce 3 0 9 (produce 3 0 9 (at_rest 3 0))))))

both_inside : Reach 3 0 (consume 3 0 (consume 3 0 two_producing))
both_inside =
    later
      (later
        (later
          (later
            (later (later (later (later start (by_producer 9)) (by_producer 9)) (by_producer 9))
              (by_producer 9))
            (by_producer 8))
          (by_producer 8))
        by_consumer)
      by_consumer

Writes-one : Writes 3 0 (consume 3 0 (consume 3 0 two_producing)).producer 1
unfolding produce produce_at consume consume_at
Writes-one = refl

Reach-apart_example : ¬ Reads 3 0 (consume 3 0 (consume 3 0 two_producing)).consumer 1
Reach-apart_example = Reach-apart 3 0 (omega arith) both_inside 1 Writes-one
