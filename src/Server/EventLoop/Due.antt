-- ===== src/Server/EventLoop/Due.antt =====
-- server/event_loop.cpp: which timers fire, and when.
use sensor_link.Prelude.{
  ℕ, zero, suc, ◌+◌, ◌*◌, ◌^◌, ◌≤◌, ◌<◌, ◌≡◌, ◌∙◌, refl, sym, ap, subst, arith, leb, ltb,
  Bool-cases, leb_gt, leb-false, ltb_lt, ltb_ge, Bool, true, false, List, [], ◌∷◌, length, inl, inr,
  if◌then◌else◌, All,
}
use sensor_link.Server.EventLoop.{
  Timer, Loop, Call, add_timer, add, modify, remove, stop, Thrown, Outcome, done, thrown,
  epoll_ctl_add, epoll_ctl_mod, epoll_ctl_del, unfinished, ◌>>=◌, push_timer, perform, perform_all,
  fire_due, fire_due_timers,
}

-- The timers whose deadline has passed.
unfoldable pub due {ℓ} : {A : Type ℓ} → ℕ → List (Timer A) → List (Timer A)
due now [] = []
due now (t ∷ timers) = if leb t.deadline now then t ∷ due now timers else due now timers

-- No deadline is before `d`, and the deadlines do not decrease.
abbrev pub From {ℓ} : {A : Type ℓ} → ℕ → List (Timer A) → Type 0
From d [] = Unit
From d (t ∷ timers) = (d ≤ t.deadline) × From t.deadline timers

-- A call adds no timer that is due at once.
abbrev pub IsLater {ℓ} : {A : Type ℓ} → Call A → Type 0
IsLater (add_timer delay_ms a) = 1 ≤ delay_ms
IsLater (add fd events a) = Unit
IsLater (modify fd events) = Unit
IsLater (remove fd) = Unit
IsLater stop = Unit

module _ {A : Type 0} where
  due-later : (now d : ℕ) (timers : List (Timer A)) → now < d → From d timers → due now timers ≡ []
  unfolding due
  due-later now d [] h k = refl
  due-later now d (t ∷ timers) h k =
      rw (leb-false t.deadline now (omega arith))
        (due-later now t.deadline timers (omega arith) k.1)

  From-push_timer :
      (d : ℕ) (t : Timer A) (timers : List (Timer A))
      → d ≤ t.deadline
      → From d timers
      → From d (push_timer t timers)
  unfolding push_timer
  From-push_timer d t [] h k = (h, _)
  From-push_timer d t (u ∷ timers) h k = elim (Bool-cases (ltb t.deadline u.deadline)) [
    | inl z ↦ rw z (h, (omega (arith, ltb_lt t.deadline u.deadline z), k.1))
    | inr z ↦ rw z (k.0, From-push_timer u.deadline t timers (ltb_ge t.deadline u.deadline z) k.1)
  ]

  due-push_timer :
      (now : ℕ) (t : Timer A) (timers : List (Timer A))
      → now < t.deadline
      → due now (push_timer t timers) ≡ due now timers
  unfolding due push_timer
  due-push_timer now t [] h = ground arith
  due-push_timer now t (u ∷ timers) h = elim (Bool-cases (ltb t.deadline u.deadline)) [
    | inl z ↦ rw (z, leb-false t.deadline now h) refl
    | inr z ↦ rw (z, due-push_timer now t timers h) refl
  ]

  -- What holds of a loop that callbacks have changed, at a time `now`: the queue is in order, its due
  -- timers are those of before, and the clock was not read fewer times.
  record Kept (now : ℕ) (l m : Loop A) : Type 0 where
    in_order : From 0 m.timers
    same_due : due now m.timers ≡ due now l.timers
    later : l.clock_reads ≤ m.clock_reads

  Kept-refl : (now : ℕ) (l : Loop A) → From 0 l.timers → Kept now l l
  Kept-refl now l h = record { in_order = h; same_due = refl; later = omega arith }

  Kept-trans : {now : ℕ} {k l m : Loop A} → Kept now k l → Kept now l m → Kept now k m
  Kept-trans h i = record {
    in_order = i.in_order;
    same_due = i.same_due ∙ h.same_due;
    later = omega (arith, h.later, i.later);
  }

-- The code returns or throws, and what it returns satisfies `P`.
abbrev pub Completes {ℓ} : {A : Type ℓ} → (A → Type 0) → Outcome A → Type 0
Completes P (done a) = P a
Completes P (thrown e) = Unit
Completes P unfinished = ⊥

Completes-bind {ℓ κ} :
    {A : Type ℓ} {B : Type κ} {P : A → Type 0} (Q : B → Type 0) (m : Outcome A) (f : A → Outcome B)
    → Completes P m
    → ((a : A) → P a → Completes Q (f a))
    → Completes Q (m >>= f)
Completes-bind Q (done a) f h k = k a h
Completes-bind Q (thrown e) f h k = _
Completes-bind Q unfinished f h k = absurd h

-- A system call is answered.
Completes-if {ℓ} :
    {A : Type ℓ} (P : A → Type 0) (b : Bool) (a : A) (e : Thrown)
    → P a
    → Completes P (if b then done a else thrown e)
Completes-if P true a e h = h
Completes-if P false a e h = _

Completes-map {ℓ} :
    {A : Type ℓ} (P Q : A → Type 0)
    → ((a : A) → P a → Q a)
    → (m : Outcome A) → Completes P m
    → Completes Q m
Completes-map P Q f (done a) h = f a h
Completes-map P Q f (thrown e) h = _
Completes-map P Q f unfinished h = h

module _ {A W : Type 0} (clock : ℕ → ℕ) (epoll_ctl : ℕ → Bool)
    (on_ready : A → ℕ → W → W × List (Call A)) (on_timer : A → W → W × List (Call A)) where
  -- From the next reading on, the clock shows `now` or a later time.
  abbrev pub Passed : ℕ → Loop A → Type 0
  Passed now l = (n : ℕ) → l.clock_reads ≤ n → now ≤ clock n

  perform-Kept :
      (now : ℕ) (call : Call A) (l : Loop A)
      → IsLater call
      → From 0 l.timers
      → Passed now l
      → Completes (λ (m : Loop A). Kept now l m) (perform clock epoll_ctl on_ready on_timer call l)
  unfolding perform
  perform-Kept now (add_timer delay_ms a) l h k p = record {
    in_order = From-push_timer 0 (later_timer delay_ms a) l.timers (omega arith) k;
    same_due =
        due-push_timer now (later_timer delay_ms a) l.timers (omega (arith, p l.clock_reads));
    later = omega arith;
  }
    where
      later_timer : ℕ → A → Timer A
      later_timer delay_ms a = record {
        deadline = clock l.clock_reads + delay_ms * 10 ^ 6;
        callback = a;
      }
  perform-Kept now (add fd events a) l h k p =
      Completes-if (λ (m : Loop A). Kept now l m) (epoll_ctl l.ctl_calls) _ epoll_ctl_add
        (record { in_order = k; same_due = refl; later = omega arith })
  perform-Kept now (modify fd events) l h k p =
      Completes-if (λ (m : Loop A). Kept now l m) (epoll_ctl l.ctl_calls) _ epoll_ctl_mod
        (record { in_order = k; same_due = refl; later = omega arith })
  perform-Kept now (remove fd) l h k p =
      Completes-if (λ (m : Loop A). Kept now l m) (epoll_ctl l.ctl_calls) _ epoll_ctl_del
        (record { in_order = k; same_due = refl; later = omega arith })
  perform-Kept now stop l h k p = record { in_order = k; same_due = refl; later = omega arith }

  perform_all-Kept :
      (now : ℕ) (calls : List (Call A)) (l : Loop A)
      → All IsLater calls
      → From 0 l.timers
      → Passed now l
      → Completes
          (λ (m : Loop A). Kept now l m)
          (perform_all clock epoll_ctl on_ready on_timer calls l)
  unfolding perform_all
  perform_all-Kept now [] l h k p = Kept-refl now l k
  perform_all-Kept now (call ∷ calls) l h k p =
      Completes-bind (λ (m : Loop A). Kept now l m)
        (perform clock epoll_ctl on_ready on_timer call l)
        (λ (m : Loop A). perform_all clock epoll_ctl on_ready on_timer calls m)
        (perform-Kept now call l h.0 k p)
        (λ (m : Loop A) (i : Kept now l m).
          Completes-map (λ (o : Loop A). Kept now m o) (λ (o : Loop A). Kept now l o)
            (λ (o : Loop A) (j : Kept now m o). Kept-trans i j)
            (perform_all clock epoll_ctl on_ready on_timer calls m)
            (perform_all-Kept now calls m h.1 i.in_order (λ n q. p n (omega (arith, i.later, q)))))

  -- What is left of the loop over the due timers: all of them have fired, in the order of their
  -- deadlines, and no timer that is left is due.
  abbrev pub AllFired : ℕ → List (Timer A) → List (Timer A) × Loop A × W → Type 0
  AllFired now timers (fired, l, w) =
      (fired ≡ due now timers) × (due now l.timers ≡ []) × From 0 l.timers

  -- The loop on `fuel` does so, when it starts at a time `now`.
  FiresAt : ℕ → ℕ → Type 0
  FiresAt fuel now =
      (l : Loop A) (w : W)
      → From 0 l.timers
      → Passed now l
      → length (due now l.timers) < fuel
      → Completes (AllFired now l.timers) (fire_due clock epoll_ctl on_ready on_timer fuel now l w)

  nothing_due :
      (now : ℕ) (t : Timer A) (timers : List (Timer A))
      → leb t.deadline now ≡ false
      → From 0 (t ∷ timers)
      → due now timers ≡ []
  nothing_due now t timers z h = due-later now t.deadline timers (leb_gt t.deadline now z) h.1

  From-0 : (d : ℕ) (timers : List (Timer A)) → From d timers → From 0 timers
  From-0 d [] h = _
  From-0 d (t ∷ timers) h = (omega arith, h.1)

  due-first :
      (now : ℕ) (t : Timer A) (timers : List (Timer A))
      → leb t.deadline now ≡ true
      → due now (t ∷ timers) ≡ t ∷ due now timers
  unfolding due
  due-first now t timers z = rw z refl

  due-none :
      (now : ℕ) (t : Timer A) (timers : List (Timer A))
      → leb t.deadline now ≡ false
      → From 0 (t ∷ timers)
      → due now (t ∷ timers) ≡ []
  unfolding due
  due-none now t timers z h = rw z (nothing_due now t timers z h)

  stops_first :
      (fuel now : ℕ) (t : Timer A) (timers : List (Timer A)) (l : Loop A) (w : W)
      → From 0 (t ∷ timers)
      → leb t.deadline now ≡ false
      → l.timers ≡ t ∷ timers
      → Completes
          (AllFired now (t ∷ timers))
          (fire_due clock epoll_ctl on_ready on_timer (suc fuel) now l w)
  unfolding fire_due
  stops_first fuel now t timers l w h z e =
      rw (e, z) (sym (due-none now t timers z h), due-none now t timers z h, h)

  fire_first :
      (fuel now : ℕ) (t : Timer A) (timers : List (Timer A)) (l : Loop A) (w : W)
      → FiresAt fuel now
      → All IsLater (on_timer t.callback w).1
      → From 0 (t ∷ timers)
      → Passed now l
      → leb t.deadline now ≡ true
      → length (due now timers) < fuel
      → l.timers ≡ t ∷ timers
      → Completes
          (AllFired now (t ∷ timers))
          (fire_due clock epoll_ctl on_ready on_timer (suc fuel) now l w)
  unfolding fire_due FiresAt
  fire_first fuel now t timers l w again later h p z n e =
      rw (e, z)
        (Completes-bind (AllFired now (t ∷ timers))
          (perform_all clock epoll_ctl on_ready on_timer (on_timer t.callback w).1
            (record l { timers = timers }))
          (λ (m : Loop A).
            fire_due clock epoll_ctl on_ready on_timer fuel now m (on_timer t.callback w).0 >>= λ r.
            done (t ∷ r.0, r.1, r.2))
          (perform_all-Kept now (on_timer t.callback w).1 (record l { timers = timers }) later
            (From-0 t.deadline timers h.1) p)
          (λ (m : Loop A) (i : Kept now (record l { timers = timers }) m).
            Completes-bind (AllFired now (t ∷ timers))
              (fire_due clock epoll_ctl on_ready on_timer fuel now m (on_timer t.callback w).0)
              (λ (r : List (Timer A) × Loop A × W). done (t ∷ r.0, r.1, r.2))
              (again m (on_timer t.callback w).0 i.in_order (λ k q. p k (omega (arith, i.later, q)))
                (omega (arith, n, ap length i.same_due)))
              (λ (r : List (Timer A) × Loop A × W) (q : AllFired now m.timers r).
                (fired r.0 (q.0 ∙ i.same_due), q.1, q.2))))
    where
      fired : (f : List (Timer A)) → f ≡ due now timers → t ∷ f ≡ due now (t ∷ timers)
      fired f q = ap (λ (m : List (Timer A)). t ∷ m) q ∙ sym (due-first now t timers z)

  fire_due-AllFired :
      (fuel now : ℕ) → ((a : A) (v : W) → All IsLater (on_timer a v).1) → FiresAt fuel now
  unfolding fire_due due FiresAt
  fire_due-AllFired zero now later l w h p n = absurd (omega arith)
  fire_due-AllFired (suc fuel) now later l w h p n =
      from l.timers refl (fire_due-AllFired fuel now later)
    where
      from :
          (timers : List (Timer A))
          → l.timers ≡ timers
          → FiresAt fuel now
          → Completes
              (AllFired now l.timers)
              (fire_due clock epoll_ctl on_ready on_timer (suc fuel) now l w)
      from [] e again = rw e (refl, refl, _)
      from (t ∷ timers) e again = elim (Bool-cases (leb t.deadline now)) [
        | inl z ↦
            subst
              (λ (ts : List (Timer A)).
                Completes (AllFired now ts)
                  (fire_due clock epoll_ctl on_ready on_timer (suc fuel) now l w))
              (sym e)
              (fire_first fuel now t timers l w again (later t.callback w) (subst (From 0) e h) p z
                (omega (
                  arith,
                  n,
                  ap (λ (ts : List (Timer A)). length (due now ts)) e,
                  ap length (due-first now t timers z),
                ))
                e)
        | inr z ↦
            subst
              (λ (ts : List (Timer A)).
                Completes (AllFired now ts)
                  (fire_due clock epoll_ctl on_ready on_timer (suc fuel) now l w))
              (sym e) (stops_first fuel now t timers l w (subst (From 0) e h) z e)
      ]

  -- When the queue is in order, the clock does not run backwards, and no callback adds a timer without
  -- a delay, then with more fuel than there are due timers `fire_due_timers` returns, unless a system
  -- call throws: exactly the timers that were due have fired, in the order of their deadlines, and no
  -- timer that is left is due.
  pub fire_due_timers_lem :
      (fuel : ℕ) (l : Loop A) (w : W)
      → ((a : A) (v : W) → All IsLater (on_timer a v).1)
      → From 0 l.timers
      → ((m n : ℕ) → m ≤ n → clock m ≤ clock n)
      → length (due (clock l.clock_reads) l.timers) < fuel
      → Completes
          (AllFired (clock l.clock_reads) l.timers)
          (fire_due_timers clock epoll_ctl on_ready on_timer fuel l w)
  unfolding fire_due_timers FiresAt
  fire_due_timers_lem fuel l w later h mono n =
      fire_due-AllFired fuel (clock l.clock_reads) later
        (record l { clock_reads = l.clock_reads + 1 }) w h
        (λ k q. mono l.clock_reads k (omega arith)) n
