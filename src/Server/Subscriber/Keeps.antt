-- ===== src/Server/Subscriber/Keeps.antt =====
-- server/subscriber.cpp: sending a line keeps the connection watched.
use sensor_link.Prelude.{ℕ, Bool-cases, inl, inr, ◌++◌, [], ◌∷◌}
use sensor_link.Prelude.Int.{ℤ}
use sensor_link.Prelude.Text.{Text, text_eq}
use sensor_link.Server.Connection.Listens.{Listens, enqueue_write-Listens}
use sensor_link.Server.Subscriber.{
  Subscriber, send_line, update_line, publish, publish_excursion_alert, publish_offline_alert,
}

abbrev pub IsListening : Subscriber → Type 0
IsListening s = Listens s.conn

pub send_line-IsListening : (line : Text) (s : Subscriber) → IsListening (send_line line s)
send_line-IsListening line s = enqueue_write-Listens (line ++ 10 ∷ []) s.conn

pub publish-IsListening :
    (metric : Text) (id : ℕ) (v : ℤ) (t : ℕ) (s : Subscriber)
    → IsListening s
    → IsListening (publish metric id v t s)
unfolding publish
publish-IsListening metric id v t s h = elim (Bool-cases (text_eq metric s.subscribed_metric)) [
  | inl z ↦ rw z (send_line-IsListening (update_line metric id v t) s)
  | inr z ↦ rw z h
]

pub excursion-IsListening :
    (id : ℕ) (v : ℤ) (t : ℕ) (s : Subscriber) → IsListening (publish_excursion_alert id v t s)
unfolding publish_excursion_alert
excursion-IsListening id v t s = send_line-IsListening _ s

pub offline-IsListening : (id t : ℕ) (s : Subscriber) → IsListening (publish_offline_alert id t s)
unfolding publish_offline_alert
offline-IsListening id t s = send_line-IsListening _ s
