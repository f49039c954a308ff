-- ===== src/Server/Subscriber.antt =====
-- server/subscriber.cpp and .hpp: one dashboard, and the lines that are sent to it. The commands that
-- it sends are in Server/Commands, since ACK needs the store.
pub mod Keeps
use sensor_link.Prelude.{ℕ, ◌+◌, if◌then◌else◌, not, [], ◌∷◌, ◌++◌}
use sensor_link.Prelude.Int.{ℤ}
use sensor_link.Prelude.Text.{Text, codes, text_eq, to_string, int_to_string}
use sensor_link.Server.Connection.{Connection, enqueue_write}

pub record Subscriber : Type 0 where
  pub conn : Connection
  pub subscribed_metric : Text
  pub updates_sent : ℕ

-- The constructor.
abbrev pub subscriber_on : Connection → Subscriber
subscriber_on conn = record { conn = conn; subscribed_metric = []; updates_sent = 0 }

abbrev pub send_line : Text → Subscriber → Subscriber
send_line line s = record s { conn = enqueue_write (line ++ 10 ∷ []) s.conn }

-- The lines of the live feed and of the two alerts.
unfoldable pub update_line : Text → ℕ → ℤ → ℕ → Text
update_line metric session_id value_milli timestamp_ms =
    metric
    ++ (codes " "
        ++ (to_string session_id
            ++ (codes " " ++ (to_string timestamp_ms ++ (codes " " ++ int_to_string value_milli)))))

unfoldable pub excursion_line : ℕ → ℤ → ℕ → Text
excursion_line session_id value_milli timestamp_ms =
    codes "ALERT EXCURSION "
    ++ (to_string session_id
        ++ (codes " " ++ (to_string timestamp_ms ++ (codes " " ++ int_to_string value_milli))))

unfoldable pub offline_line : ℕ → ℕ → Text
offline_line session_id timestamp_ms =
    codes "ALERT OFFLINE " ++ (to_string session_id ++ (codes " " ++ to_string timestamp_ms))

unfoldable pub publish : Text → ℕ → ℤ → ℕ → Subscriber → Subscriber
publish metric session_id value_milli timestamp_ms s =
    if not (text_eq metric s.subscribed_metric)
    then s
    else record (send_line (update_line metric session_id value_milli timestamp_ms) s) {
      updates_sent = s.updates_sent + 1;
    }

unfoldable pub publish_excursion_alert : ℕ → ℤ → ℕ → Subscriber → Subscriber
publish_excursion_alert session_id value_milli timestamp_ms s =
    send_line (excursion_line session_id value_milli timestamp_ms) s

pub publish_offline_alert : ℕ → ℕ → Subscriber → Subscriber
publish_offline_alert session_id timestamp_ms s = send_line (offline_line session_id timestamp_ms) s
