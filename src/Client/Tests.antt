-- ===== src/Client/Tests.antt =====
-- The client's theorems at concrete lines.
use sensor_link.Prelude.{
  ◌≡◌, refl, arith, inr, List, [], ◌∷◌, ◌++◌, Option, none, some, true, false, length, ◌≤◌, All,
}
use sensor_link.Prelude.Int.{pos, negsuc}
use sensor_link.Prelude.Text.{Text, codes, text_eq, find}
use sensor_link.Scan.{skip_spaces, read_digits}
use sensor_link.Scan.Convert.{cut_at, atoi_unsigned, strtol, cast_unsigned, cut_sign}
use sensor_link.Server.Subscriber.{offline_line}
use sensor_link.Scan.Words.{IsWord}
use sensor_link.Sockets.{Connecting, connect_to_server, Listening, make_listener}
use sensor_link.Sockets.Kept.{
  connects, listens, returned, connect_to_server-returned, make_listener-returned,
}
use sensor_link.Prelude.{ℕ, map}
use sensor_link.Proto.Messages.RoundTrip.{IsI32}
use sensor_link.Server.Connection.{connected_socket}
use sensor_link.Server.Subscriber.{Subscriber, subscriber_on}
use sensor_link.Server.Store.{Store, empty_store, record_sample, smooth, append_sample, metric_name}
use sensor_link.Server.Store.Alerts.{new_average}
use sensor_link.Client.Feed.{queued, news, news_arrive}
use sensor_link.Client.{Incoming, sample, excursion, offline, handle_incoming}
use sensor_link.Client.RoundTrip.{IsSent, wire, counted, handle_incoming_lem}
use sensor_link.Client.Main.{
  set_endpoint, parse_options, defaults, Kernel, zeros, failure, client_main,
}
use sensor_link.Client.Main.Whole.{success, client_main_lem, client_main-failure}

abbrev sent_lines : List Incoming
sent_lines =
    sample (codes "temp") 7 1000 (negsuc 3) ∷ excursion 7 2000 (pos 9000) ∷ offline 8 3000 ∷ []

temp-IsWord : IsWord (codes "temp")
temp-IsWord = ((refl, (refl, (refl, (refl, _)))), omega arith)

sent_lines-IsSent : All IsSent sent_lines
sent_lines-IsSent = (
  (temp-IsWord, omega arith, omega arith, omega arith),
  ((omega arith, omega arith, omega arith), ((omega arith, omega arith), _)),
)

handle_incoming_example :
    handle_incoming (wire sent_lines ++ codes "te") zeros
    ≡ (sent_lines, codes "te", counted sent_lines zeros)
handle_incoming_example =
    handle_incoming_lem sent_lines (codes "te") zeros sent_lines-IsSent (refl, (refl, _))

abbrev answers : Connecting
answers = record { socket = some 3; inet_pton = λ host. true; connect = λ host port. true }

connect_to_server_example : connect_to_server (codes "10.0.0.1") 80 answers (0 ∷ []) ≡ (
  connects (codes "10.0.0.1") 80 answers,
  returned (connects (codes "10.0.0.1") 80 answers) ++ 0 ∷ [],
)
connect_to_server_example = connect_to_server-returned (codes "10.0.0.1") 80 answers (0 ∷ [])

abbrev no_backlog : Listening
no_backlog = record { socket = some 3; setsockopt = true; bind = λ port. true; listen = false }

make_listener_test :
    make_listener 6000 no_backlog (0 ∷ [])
    ≡ (listens 6000 no_backlog, returned (listens 6000 no_backlog) ++ 0 ∷ [])
make_listener_test = make_listener-returned 6000 no_backlog (0 ∷ [])

options_test :
    parse_options
      (codes "--connect"
        ∷ codes "h:70000"
        ∷ codes "-v"
        ∷ codes "--subscribe"
        ∷ codes "p"
        ∷ codes "--connect"
        ∷ [])
      defaults
    ≡ record { host = codes "h"; port = 4464; metric = codes "p" }
unfolding parse_options set_endpoint text_eq cut_at atoi_unsigned strtol cast_unsigned cut_sign
    skip_spaces read_digits
options_test = refl

abbrev kernel : List (Option Text) → Kernel
kernel recv = record { connecting = answers; send = some 15; recv = recv }

abbrev piece : Text
piece = wire (offline 8 3000 ∷ [])

piece-IsPiece : 1 ≤ length piece
unfolding offline_line
piece-IsPiece = omega arith

client_main_example :
    client_main [] (kernel (some piece ∷ some [] ∷ [])) (0 ∷ [])
    ≡ some (success (offline 8 3000 ∷ []) (counted (offline 8 3000 ∷ []) zeros) (0 ∷ []))
client_main_example =
    client_main_lem [] (kernel (some piece ∷ some [] ∷ [])) (0 ∷ []) 3 15 (piece ∷ []) (some []) []
      (offline 8 3000 ∷ []) [] refl refl refl (piece-IsPiece, _) _ refl
      ((omega arith, omega arith), _) _

client_main-failure_example :
    client_main [] (record (kernel []) { send = none }) (0 ∷ []) ≡ some (failure (0 ∷ []))
client_main-failure_example =
    client_main-failure [] (record (kernel []) { send = none }) (0 ∷ []) (inr refl)

-- A dashboard that has subscribed to the temperature, and one that has not subscribed.
abbrev dashboard : Subscriber
dashboard = record (subscriber_on connected_socket) { subscribed_metric = codes "temp" }

abbrev two_dashboards : Store
two_dashboards = record empty_store {
  subscribers = (5, dashboard) ∷ (6, subscriber_on connected_socket) ∷ [];
}

first_average : new_average 7 0 (pos 9000) 1000 two_dashboards ≡ pos 9000
unfolding smooth append_sample find
first_average = refl

average-IsI32 : IsI32 (new_average 7 0 (pos 9000) 1000 two_dashboards)
average-IsI32 = rw first_average (omega arith)

news_arrive_example :
    (queued (record_sample 7 0 (pos 9000) 1000 1 two_dashboards).subscribers
      ≡ map
          (λ (e : ℕ × Subscriber).
            (e.1).conn.write_buffer ++ wire (news 7 0 (pos 9000) 1000 two_dashboards e.1))
          two_dashboards.subscribers)
    × (handle_incoming (wire (news 7 0 (pos 9000) 1000 two_dashboards dashboard)) zeros ≡ (
      news 7 0 (pos 9000) 1000 two_dashboards dashboard,
      [],
      counted (news 7 0 (pos 9000) 1000 two_dashboards dashboard) zeros,
    ))
news_arrive_example =
    news_arrive 7 0 (pos 9000) 1000 1 two_dashboards dashboard zeros (omega arith) (omega arith)
      (omega arith) average-IsI32

news_test :
    news 7 0 (pos 9000) 1000 two_dashboards dashboard
    ≡ sample (codes "temp") 7 1000 (pos 9000) ∷ excursion 7 1000 (pos 9000) ∷ []
unfolding smooth append_sample text_eq metric_name find
news_test = refl
