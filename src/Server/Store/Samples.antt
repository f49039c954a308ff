-- ===== src/Server/Store/Samples.antt =====
-- server/store.cpp: the ring of recent samples, as a list of the last 64.
use sensor_link.Prelude.{
  ℕ, zero, suc, ◌+◌, ◌-◌, ◌%◌, ◌≤◌, ◌<◌, ◌≡◌, ◌∙◌, refl, ap, ap₂, sym, arith, ltb, if◌then◌else◌,
  inl, inr, Bool-cases,
}
use sensor_link.Prelude.{
  List, [], ◌∷◌, ◌++◌, append_assoc, append-nil, length, length-append, length-drop, length-set,
  length-replicate, set, drop, get_or, get_or-set_self, get_or-set_ne,
}
use sensor_link.Prelude.Int.{ℤ}
use sensor_link.Server.Store.{
  Sample, DeviceHistory, no_sample, no_history, history_per_device, history_from, samples,
  append_sample,
}

-- The invariant of the ring: it has 64 slots, and until it is full it is filled from the first.
pub record IsRing (h : DeviceHistory) : Type 0 where
  pub slots : length h.entries ≡ 64
  pub few : h.count ≤ 64
  pub inside : h.next < 64
  pub filling : h.count < 64 → h.next ≡ h.count

pub no_history-IsRing : IsRing no_history
no_history-IsRing = record {
  slots = length-replicate history_per_device no_sample;
  few = omega arith;
  inside = omega arith;
  filling = λ _. refl;
}

pub append_sample-IsRing :
    (t : ℕ) (v : ℤ) (h : DeviceHistory) → IsRing h → IsRing (append_sample t v h)
unfolding append_sample
append_sample-IsRing t v h r =
    ground (arith, length-set h.entries h.next (record { timestamp_ms = t; value_milli = v }))

-- Writing a slot that the range does not reach changes nothing, and the slot behind the range becomes
-- its last sample.
history_from-set_outside :
    (i n k : ℕ) (x : Sample) (es : List Sample)
    → k < 64
    → (j : ℕ) → k ≡ j % 64
    → i + n ≤ j
    → j < i + 64
    → history_from i n (set es k x) ≡ history_from i n es
unfolding history_from
history_from-set_outside i zero k x es h j e below above = refl
history_from-set_outside i (suc n) k x es h j e below above =
    ap₂ (λ (a : Sample) (l : List Sample). a ∷ l)
      (get_or-set_ne es k (i % 64) x no_sample (omega arith))
      (history_from-set_outside (i + 1) n k x es h j e (omega arith) (omega arith))

history_from-snoc :
    (i n : ℕ) (es : List Sample)
    → history_from i (suc n) es ≡ history_from i n es ++ get_or es ((i + n) % 64) no_sample ∷ []
unfolding history_from
history_from-snoc i zero es = ap (λ (j : ℕ). get_or es (j % 64) no_sample ∷ []) (omega arith)
history_from-snoc i (suc n) es =
    ap (λ (l : List Sample). get_or es (i % 64) no_sample ∷ l)
      (history_from-snoc (i + 1) n es
        ∙ ap (λ (j : ℕ). history_from (i + 1) n es ++ get_or es (j % 64) no_sample ∷ [])
            (omega arith))

history_from-mod : (i n : ℕ) (es : List Sample) → history_from (i % 64) n es ≡ history_from i n es
unfolding history_from
history_from-mod i zero es = refl
history_from-mod i (suc n) es =
    ap₂ (λ (j : ℕ) (l : List Sample). get_or es j no_sample ∷ l) (omega arith)
      (sym (history_from-mod (i % 64 + 1) n es)
        ∙ ap (λ (j : ℕ). history_from j n es) (omega arith)
        ∙ history_from-mod (i + 1) n es)

length-history_from : (i n : ℕ) (es : List Sample) → length (history_from i n es) ≡ n
unfolding history_from
length-history_from i zero es = refl
length-history_from i (suc n) es = ap suc (length-history_from (i + 1) n es)

-- Behind the range of `n < 64` samples from slot `i` on.
history_from-write :
    (i n k : ℕ) (x : Sample) (es : List Sample)
    → length es ≡ 64
    → n < 64
    → k ≡ (i + n) % 64
    → history_from i (suc n) (set es k x) ≡ history_from i n es ++ x ∷ []
history_from-write i n k x es e h at =
    history_from-snoc i n (set es k x)
    ∙ ap₂ (λ (l : List Sample) (y : Sample). l ++ y ∷ [])
        (history_from-set_outside i n k x es (omega arith) (i + n) at (omega arith) (omega arith))
        (ap (λ (j : ℕ). get_or (set es k x) j no_sample) (sym at)
          ∙ get_or-set_self es k x no_sample (omega arith))

-- The last `n` of a list.
abbrev pub recent : ℕ → List Sample → List Sample
recent n xs = drop (length xs - n) xs

recent_all : (xs : List Sample) → length xs ≤ 64 → recent 64 xs ≡ xs
recent_all xs h = ap (λ (n : ℕ). drop n xs) {y = 0} (omega arith)

recent_full :
    (a : Sample) (l : List Sample) (x : Sample)
    → length l ≡ 63
    → recent 64 (a ∷ l ++ x ∷ []) ≡ l ++ x ∷ []
recent_full a l x h =
    ap (λ (n : ℕ). drop n (a ∷ l ++ x ∷ [])) {y = 1} (omega (arith, length-append l (x ∷ [])))

abbrev pub new : ℕ → ℤ → Sample
new t v = record { timestamp_ms = t; value_milli = v }

filling_samples :
    (es : List Sample) (n k : ℕ) (x : Sample)
    → length es ≡ 64
    → n < 64
    → k ≡ n
    → history_from (if ltb (n + 1) 64 then 0 else (k + 1) % 64) (n + 1) (set es k x)
      ≡ recent 64 (history_from 0 n es ++ x ∷ [])
filling_samples es n k x e lt at =
    ap (λ (i : ℕ). history_from i (n + 1) (set es k x)) {y = 0} (ground arith)
    ∙ ap (λ (m : ℕ). history_from 0 m (set es k x)) {y = suc n} (omega arith)
    ∙ history_from-write 0 n k x es e lt (omega arith)
    ∙ sym (
        recent_all (history_from 0 n es ++ x ∷ [])
          (omega (arith, length-history_from 0 n es, length-append (history_from 0 n es) (x ∷ []))))

full_samples :
    (es : List Sample) (k : ℕ) (x : Sample)
    → length es ≡ 64
    → k < 64
    → history_from ((k + 1) % 64) 64 (set es k x) ≡ recent 64 (history_from k 64 es ++ x ∷ [])
unfolding history_from
full_samples es k x e lt =
    history_from-mod (k + 1) 64 (set es k x)
    ∙ history_from-write (k + 1) 63 k x es e (omega arith) (omega arith)
    ∙ sym (
        recent_full (get_or es (k % 64) no_sample) (history_from (k + 1) 63 es) x
          (length-history_from (k + 1) 63 es))

full_samples_at :
    (es : List Sample) (k c : ℕ) (x : Sample)
    → length es ≡ 64
    → k < 64
    → c ≡ 64
    → history_from (if ltb c 64 then 0 else (k + 1) % 64) c (set es k x)
      ≡ recent 64 (history_from k c es ++ x ∷ [])
full_samples_at es k c x e lt at = rw at (full_samples es k x e lt)

-- Recording a sample: the last 64 of those before and the new one.
pub samples-append_sample :
    (t : ℕ) (v : ℤ) (h : DeviceHistory)
    → IsRing h
    → samples (append_sample t v h)
      ≡ recent 64 (samples h ++ record { timestamp_ms = t; value_milli = v } ∷ [])
unfolding samples append_sample
samples-append_sample t v h r = elim (Bool-cases (ltb h.count 64)) [
  | inl z ↦ rw z (
      filling_samples h.entries h.count h.next (new t v) r.slots (ground arith)
        (r.filling (ground arith)))
  | inr z ↦
      rw z (full_samples_at h.entries h.next h.count (new t v) r.slots r.inside (ground arith))
]

-- The history of some samples, recorded one after the other from nothing.
abbrev pub record_all : List Sample → DeviceHistory → DeviceHistory
record_all [] h = h
record_all (x ∷ xs) h = record_all xs (append_sample x.timestamp_ms x.value_milli h)

drop_behind :
    (n m : ℕ) (xs ys : List Sample)
    → n ≤ length xs
    → drop m (drop n xs ++ ys) ≡ drop (n + m) (xs ++ ys)
drop_behind zero m xs ys h = ap (λ (k : ℕ). drop k (xs ++ ys)) (omega arith)
drop_behind (suc n) m [] ys h = absurd (omega arith)
drop_behind (suc n) m (x ∷ xs) ys h =
    drop_behind n m xs ys (omega arith)
    ∙ ap (λ (k : ℕ). drop k (x ∷ xs ++ ys)) {x = suc (n + m)} (omega arith)

recent-recent : (xs ys : List Sample) → recent 64 (recent 64 xs ++ ys) ≡ recent 64 (xs ++ ys)
recent-recent xs ys =
    drop_behind (length xs - 64) (length (recent 64 xs ++ ys) - 64) xs ys (omega arith)
    ∙ ap (λ (k : ℕ). drop k (xs ++ ys))
        (omega (
          arith,
          length-append xs ys,
          length-append (recent 64 xs) ys,
          length-drop (length xs - 64) xs,
        ))

samples-record_all_from :
    (xs : List Sample) (h : DeviceHistory) (before : List Sample)
    → IsRing h
    → samples h ≡ recent 64 before
    → samples (record_all xs h) ≡ recent 64 (before ++ xs)
samples-record_all_from [] h before r e =
    e ∙ ap (λ (l : List Sample). recent 64 l) (sym (append-nil before))
samples-record_all_from (x ∷ xs) h before r e =
    samples-record_all_from xs (append_sample x.timestamp_ms x.value_milli h) (before ++ x ∷ [])
      (append_sample-IsRing x.timestamp_ms x.value_milli h r)
      (samples-append_sample x.timestamp_ms x.value_milli h r
        ∙ ap (λ (l : List Sample). recent 64 (l ++ x ∷ [])) e
        ∙ recent-recent before (x ∷ []))
    ∙ ap (λ (l : List Sample). recent 64 l) (append_assoc before (x ∷ []) xs)

-- Whatever samples are recorded, a history holds the last 64 of them, oldest first.
pub samples-record_all : (xs : List Sample) → samples (record_all xs no_history) ≡ recent 64 xs
unfolding samples history_from
samples-record_all xs = samples-record_all_from xs no_history [] no_history-IsRing refl
