-- ===== src/Client/Feed.antt =====
-- server/store.cpp's fan-out, server/subscriber.cpp and client/line_protocol.cpp together: what a sample
-- makes the server queue for each dashboard, and what the client at the other end prints for it.
use sensor_link.Prelude.{
  ℕ, ◌^◌, ◌≤◌, ◌<◌, ◌≡◌, ◌∙◌, refl, sym, ap, ap₂, arith, ◌==◌, if◌then◌else◌, Bool-cases, inl, inr,
  map, List, [], ◌∷◌, ◌++◌, append_assoc, append-nil, All, All-append,
}
use sensor_link.Prelude.Int.{ℤ, leb_ℤ}
use sensor_link.Prelude.Text.{Text, codes, text_eq, to_string}
use sensor_link.Proto.Messages.RoundTrip.{IsI32}
use sensor_link.Scan.Numbers.{to_string-All}
use sensor_link.Scan.Words.{IsWord, IsLetter}
use sensor_link.Server.Connection.Flow.{write_buffer-enqueue_write}
use sensor_link.Server.Subscriber.{Subscriber, publish, publish_excursion_alert}
use sensor_link.Server.Store.{
  Store, record_sample, latch_excursion, metric_name, high_threshold_milli, excursion_alert,
}
use sensor_link.Server.Store.Alerts.{new_average, opens}
use sensor_link.Client.{Incoming, sample, excursion, Counts, handle_incoming}
use sensor_link.Client.RoundTrip.{IsSent, wire, counted, handle_incoming_lem}

abbrev Subscribers : Type 0
Subscribers = List (ℕ × Subscriber)

abbrev each : (Subscriber → Subscriber) → Subscribers → Subscribers
each f m = map (λ (e : ℕ × Subscriber). (e.0, f e.1)) m

-- What a sample is to a dashboard: the reading, when that is its metric, and the alert, when the
-- sample opens one.
abbrev pub reading_for : ℕ → ℕ → ℤ → ℕ → Subscriber → List Incoming
reading_for session_id metric_id value timestamp sub =
    if text_eq (metric_name metric_id) sub.subscribed_metric
    then sample (metric_name metric_id) session_id timestamp value ∷ []
    else []

abbrev pub alert_for : ℕ → ℕ → ℤ → ℕ → Store → List Incoming
alert_for session_id metric_id value timestamp s =
    if opens session_id metric_id value timestamp s
    then excursion session_id timestamp (new_average session_id metric_id value timestamp s) ∷ []
    else []

abbrev pub news : ℕ → ℕ → ℤ → ℕ → Store → Subscriber → List Incoming
news session_id metric_id value timestamp s sub =
    reading_for session_id metric_id value timestamp sub
    ++ alert_for session_id metric_id value timestamp s

record_sample-subscribers :
    (id m : ℕ) (v : ℤ) (t now : ℕ) (s : Store)
    → (record_sample id m v t now s).subscribers ≡ (
        if opens id m v t s
        then each
            (publish_excursion_alert id (new_average id m v t s) t)
            (each (publish (metric_name m) id v t) s.subscribers)
        else each (publish (metric_name m) id v t) s.subscribers)
unfolding record_sample latch_excursion
record_sample-subscribers id m v t now s = elim (Bool-cases (m == 0)) [
  | inr z ↦ rw z refl
  | inl z ↦ elim (Bool-cases (leb_ℤ (new_average id m v t s) high_threshold_milli)) [
    | inl y ↦ rw z (rw y refl)
    | inr y ↦ elim (Bool-cases (excursion_alert id s).active) [
      | inl x ↦ rw z (rw y (rw x refl))
      | inr x ↦ rw z (rw y (rw x refl))
    ]
  ]
]

wire-append : (xs ys : List Incoming) → wire (xs ++ ys) ≡ wire xs ++ wire ys
wire-append [] ys = refl
wire-append (i ∷ xs) ys = rw (wire-append xs ys) (sym (append_assoc _ (10 ∷ wire xs) (wire ys)))

publish-queues :
    (id m : ℕ) (v : ℤ) (t : ℕ) (sub : Subscriber)
    → (publish (metric_name m) id v t sub).conn.write_buffer
      ≡ sub.conn.write_buffer ++ wire (reading_for id m v t sub)
unfolding publish
publish-queues id m v t sub = elim (Bool-cases (text_eq (metric_name m) sub.subscribed_metric)) [
  | inl z ↦ rw z (write_buffer-enqueue_write _ sub.conn)
  | inr z ↦ rw z (sym (append-nil sub.conn.write_buffer))
]

alert-queues :
    (id : ℕ) (a : ℤ) (t : ℕ) (sub : Subscriber)
    → (publish_excursion_alert id a t sub).conn.write_buffer
      ≡ sub.conn.write_buffer ++ wire (excursion id t a ∷ [])
unfolding publish_excursion_alert
alert-queues id a t sub = write_buffer-enqueue_write _ sub.conn

-- What waits to be sent to each of the dashboards.
abbrev pub queued : Subscribers → List Text
queued m = map (λ (e : ℕ × Subscriber). (e.1).conn.write_buffer) m

queued-each :
    (f : Subscriber → Subscriber) (g : Subscriber → Text)
    → ((sub : Subscriber) → (f sub).conn.write_buffer ≡ g sub)
    → (m : Subscribers) → queued (each f m) ≡ map (λ (e : ℕ × Subscriber). g e.1) m
queued-each f g h [] = refl
queued-each f g h (e ∷ m) =
    ap₂ (λ (x : Text) (xs : List Text). x ∷ xs) (h e.1) (queued-each f g h m)

each-each :
    (f g : Subscriber → Subscriber) (m : Subscribers)
    → each f (each g m) ≡ each (λ (sub : Subscriber). f (g sub)) m
each-each f g [] = refl
each-each f g (e ∷ m) = ap (λ (xs : Subscribers). (e.0, f (g e.1)) ∷ xs) (each-each f g m)

both-queue :
    (id m : ℕ) (v a : ℤ) (t : ℕ) (sub : Subscriber)
    → (publish_excursion_alert id a t (publish (metric_name m) id v t sub)).conn.write_buffer
      ≡ sub.conn.write_buffer ++ wire (reading_for id m v t sub ++ excursion id t a ∷ [])
both-queue id m v a t sub =
    alert-queues id a t (publish (metric_name m) id v t sub)
    ∙ ap (λ (b : Text). b ++ wire (excursion id t a ∷ [])) (publish-queues id m v t sub)
    ∙ append_assoc sub.conn.write_buffer (wire (reading_for id m v t sub)) _
    ∙ ap (λ (b : Text). sub.conn.write_buffer ++ b)
        (sym (wire-append (reading_for id m v t sub) (excursion id t a ∷ [])))

record_sample-queues :
    (id m : ℕ) (v : ℤ) (t now : ℕ) (s : Store)
    → queued (record_sample id m v t now s).subscribers
      ≡ map
          (λ (e : ℕ × Subscriber). (e.1).conn.write_buffer ++ wire (news id m v t s e.1))
          s.subscribers
record_sample-queues id m v t now s =
    ap queued (record_sample-subscribers id m v t now s) ∙ (elim (Bool-cases (opens id m v t s)) [
      | inl z ↦ rw z (
          ap queued (each-each _ _ s.subscribers)
          ∙ queued-each _ _ (both-queue id m v (new_average id m v t s) t) s.subscribers)
      | inr z ↦ rw z (
          queued-each _ _
            (λ sub.
              publish-queues id m v t sub
              ∙ ap (λ (b : List Incoming). sub.conn.write_buffer ++ wire b)
                  (sym (append-nil (reading_for id m v t sub))))
            s.subscribers)
    ])

digit-IsLetter : (c : ℕ) → (48 ≤ c) × (c ≤ 57) → IsLetter c
digit-IsLetter c h = ground arith

metric_name-IsWord : (m : ℕ) → IsWord (metric_name m)
unfolding metric_name
metric_name-IsWord m = elim (Bool-cases (m == 0)) [
  | inl z ↦ rw z ((refl, (refl, (refl, (refl, _)))), omega arith)
  | inr z ↦ elim (Bool-cases (m == 1)) [
    | inl y ↦
        rw z (rw y ((refl, (refl, (refl, (refl, (refl, (refl, (refl, (refl, _)))))))), omega arith))
    | inr y ↦ rw z (
        rw y (
          All-append IsLetter (codes "metric") (to_string m)
              (refl, (refl, (refl, (refl, (refl, (refl, _)))))) (to_string-All m digit-IsLetter),
          omega arith,
        ))
  ]
]

news-IsSent :
    (id m : ℕ) (v : ℤ) (t : ℕ) (s : Store) (sub : Subscriber)
    → id < 2 ^ 16
    → t < 2 ^ 32
    → IsI32 v
    → IsI32 (new_average id m v t s)
    → All IsSent (news id m v t s sub)
news-IsSent id m v t s sub h k a b =
    All-append IsSent (reading_for id m v t sub) (alert_for id m v t s)
      (elim (Bool-cases (text_eq (metric_name m) sub.subscribed_metric)) [
        | inl z ↦ rw z ((metric_name-IsWord m, h, k, a), _)
        | inr z ↦ rw z _
      ])
      (elim (Bool-cases (opens id m v t s)) [ inl z ↦ rw z ((h, k, b), _) | inr z ↦ rw z _ ])

-- A sample adds to what waits for each dashboard, at the end, exactly the lines of its news: the
-- reading, when the dashboard has subscribed to its metric, and then the alert, when the sample opens
-- one. When the numbers fit their fields, a client that receives the news of a dashboard prints exactly
-- them, in order, and counts no malformed line.
pub news_arrive :
    (id m : ℕ) (v : ℤ) (t now : ℕ) (s : Store) (sub : Subscriber) (c : Counts)
    → id < 2 ^ 16
    → t < 2 ^ 32
    → IsI32 v
    → IsI32 (new_average id m v t s)
    → (queued (record_sample id m v t now s).subscribers
        ≡ map
            (λ (e : ℕ × Subscriber). (e.1).conn.write_buffer ++ wire (news id m v t s e.1))
            s.subscribers)
      × (handle_incoming (wire (news id m v t s sub)) c
          ≡ (news id m v t s sub, [], counted (news id m v t s sub) c))
news_arrive id m v t now s sub c h k a b = (
  record_sample-queues id m v t now s,
  ap (λ (b : Text). handle_incoming b c) (sym (append-nil (wire (news id m v t s sub))))
      ∙ handle_incoming_lem (news id m v t s sub) [] c (news-IsSent id m v t s sub h k a b) _,
)
