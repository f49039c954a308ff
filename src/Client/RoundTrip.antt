-- ===== src/Client/RoundTrip.antt =====
-- client/line_protocol.cpp against server/subscriber.cpp: what the server sends, the client reads.
use sensor_link.Prelude.{
  ℕ, suc, ap₂, ◌⊎◌, inl, inr, ◌+◌, ◌^◌, ◌≤◌, ◌<◌, ◌≡◌, ◌∙◌, refl, ap, arith, map, List, [], ◌∷◌,
  ◌++◌, append_assoc, none, some, All, All-append,
}
use sensor_link.Prelude.Int.{ℤ}
use sensor_link.Prelude.Text.{Text, codes, text_eq, to_string, int_to_string}
use sensor_link.Proto.Messages.RoundTrip.{IsI32}
use sensor_link.Scan.{split}
use sensor_link.Scan.Lines.{IsInLine}
use sensor_link.Scan.Numbers.{to_string-All, int_to_string-All}
use sensor_link.Scan.Words.{
  IsWord, read_word-append, next_word, next_unsigned, last_unsigned, last_signed, unsigned-letter,
  at_end-nil, IsPlain, IsLetter-IsPlain, split-line, split-rest,
}
use sensor_link.Server.Subscriber.{update_line, excursion_line, offline_line}
use sensor_link.Client.{
  Incoming, sample, excursion, offline, unrecognized, Counts, try_parse_sample, try_parse_alert,
  alert_of_kind, recognize, tally, handle_lines, handle_incoming,
}

-- The line that the server sends for what the client prints.
abbrev pub line_of : Incoming → Text
line_of (sample metric session_id timestamp_ms value_milli) =
    update_line metric session_id value_milli timestamp_ms
line_of (excursion session_id timestamp_ms value_milli) =
    excursion_line session_id value_milli timestamp_ms
line_of (offline session_id timestamp_ms) = offline_line session_id timestamp_ms
line_of (unrecognized line) = line

-- What the server can send: the metric is a word and the numbers fit their types.
abbrev pub IsSent : Incoming → Type 0
IsSent (sample metric session_id timestamp_ms value_milli) =
    IsWord metric × (session_id < 2 ^ 16) × (timestamp_ms < 2 ^ 32) × IsI32 value_milli
IsSent (excursion session_id timestamp_ms value_milli) =
    (session_id < 2 ^ 16) × (timestamp_ms < 2 ^ 32) × IsI32 value_milli
IsSent (offline session_id timestamp_ms) = (session_id < 2 ^ 16) × (timestamp_ms < 2 ^ 32)
IsSent (unrecognized line) = ⊥

abbrev pub wire : List Incoming → Text
wire [] = []
wire (i ∷ sent) = line_of i ++ 10 ∷ wire sent

-- How many of the lines are readings, and how many are alerts.
abbrev pub readings : List Incoming → ℕ
readings [] = 0
readings (sample metric session_id timestamp_ms value_milli ∷ sent) = suc (readings sent)
readings (_ ∷ sent) = readings sent

abbrev pub alarms : List Incoming → ℕ
alarms [] = 0
alarms (excursion session_id timestamp_ms value_milli ∷ sent) = suc (alarms sent)
alarms (offline session_id timestamp_ms ∷ sent) = suc (alarms sent)
alarms (_ ∷ sent) = alarms sent

-- The counters when they have counted the lines.
abbrev pub counted : List Incoming → Counts → Counts
counted sent c = record {
  valid = c.valid + readings sent;
  alerts = c.alerts + alarms sent;
  malformed = c.malformed;
}

parse-update :
    (m : Text) (id t : ℕ) (v : ℤ)
    → IsSent (sample m id t v)
    → try_parse_sample (update_line m id v t) ≡ some (sample m id t v)
unfolding try_parse_sample update_line
parse-update m id t v (w, hi, ht, hv) =
    rw
      (
        read_word-append m _ w,
        next_unsigned 16 id (32 ∷ to_string t ++ 32 ∷ int_to_string v) hi refl,
        next_unsigned 32 t (32 ∷ int_to_string v) ht refl,
        last_signed v hv,
        at_end-nil,
      )
      refl

IsWord-alert : IsWord (codes "ALERT")
IsWord-alert = ((refl, (refl, (refl, (refl, (refl, _))))), omega arith)

IsWord-excursion : IsWord (codes "EXCURSION")
IsWord-excursion =
    ((refl, (refl, (refl, (refl, (refl, (refl, (refl, (refl, (refl, _))))))))), omega arith)

IsWord-offline : IsWord (codes "OFFLINE")
IsWord-offline = ((refl, (refl, (refl, (refl, (refl, (refl, (refl, _))))))), omega arith)

-- An alert is no sample: its kind stands where a sample has a number.
alert_not_sample :
    (kind s : Text)
    → kind ≡ codes "EXCURSION" ⊎ kind ≡ codes "OFFLINE"
    → try_parse_sample (codes "ALERT " ++ kind ++ 32 ∷ s) ≡ none
unfolding try_parse_sample
alert_not_sample kind s (inl e) =
    rw
      (
        e,
        read_word-append (codes "ALERT") (codes "EXCURSION" ++ 32 ∷ s) IsWord-alert,
        unsigned-letter 16 69 (codes "XCURSION" ++ 32 ∷ s) (omega arith),
      )
      refl
alert_not_sample kind s (inr e) =
    rw
      (
        e,
        read_word-append (codes "ALERT") (codes "OFFLINE" ++ 32 ∷ s) IsWord-alert,
        unsigned-letter 16 79 (codes "FFLINE" ++ 32 ∷ s) (omega arith),
      )
      refl

parse-excursion :
    (id t : ℕ) (v : ℤ)
    → IsSent (excursion id t v)
    → try_parse_alert (excursion_line id v t) ≡ some (excursion id t v)
unfolding try_parse_alert excursion_line alert_of_kind text_eq
parse-excursion id t v (hi, ht, hv) =
    rw
      (
        read_word-append (codes "ALERT")
            (codes "EXCURSION" ++ 32 ∷ (to_string id ++ 32 ∷ (to_string t ++ 32 ∷ int_to_string v)))
            IsWord-alert,
        next_word (codes "EXCURSION") ((to_string id ++ 32 ∷ (to_string t ++ 32 ∷ int_to_string v)))
            IsWord-excursion,
        next_unsigned 16 id (32 ∷ to_string t ++ 32 ∷ int_to_string v) hi refl,
        next_unsigned 32 t (32 ∷ int_to_string v) ht refl,
        last_signed v hv,
        at_end-nil,
      )
      refl

parse-offline :
    (id t : ℕ) → IsSent (offline id t) → try_parse_alert (offline_line id t) ≡ some (offline id t)
unfolding try_parse_alert offline_line alert_of_kind text_eq
parse-offline id t (hi, ht) =
    rw
      (
        read_word-append (codes "ALERT") (codes "OFFLINE" ++ 32 ∷ to_string id ++ 32 ∷ to_string t)
            IsWord-alert,
        next_word (codes "OFFLINE") (to_string id ++ 32 ∷ to_string t) IsWord-offline,
        next_unsigned 16 id (32 ∷ to_string t) hi refl,
        last_unsigned 32 t ht,
        at_end-nil,
      )
      refl

excursion_not_sample : (id t : ℕ) (v : ℤ) → try_parse_sample (excursion_line id v t) ≡ none
unfolding excursion_line
excursion_not_sample id t v =
    alert_not_sample (codes "EXCURSION")
      (to_string id ++ (32 ∷ (to_string t ++ 32 ∷ int_to_string v))) (inl refl)

offline_not_sample : (id t : ℕ) → try_parse_sample (offline_line id t) ≡ none
unfolding offline_line
offline_not_sample id t =
    alert_not_sample (codes "OFFLINE") (to_string id ++ (32 ∷ to_string t)) (inr refl)

recognize_sent : (i : Incoming) → IsSent i → recognize (line_of i) ≡ i
unfolding recognize
recognize_sent (sample m id t v) h = rw (parse-update m id t v h) refl
recognize_sent (excursion id t v) h =
    rw (excursion_not_sample id t v, parse-excursion id t v h) refl
recognize_sent (offline id t) h = rw (offline_not_sample id t, parse-offline id t h) refl
recognize_sent (unrecognized line) h = absurd h

-- No line that is sent has a newline or a carriage return in it.
IsPlain-word : (m s : Text) → IsWord m → All IsPlain s → All IsPlain (m ++ 32 ∷ s)
IsPlain-word m s h k = All-append IsPlain m (32 ∷ s) (IsLetter-IsPlain m h.0) ((refl, refl), k)

IsPlain-digit : (c : ℕ) → (48 ≤ c) × (c ≤ 57) → IsPlain c
IsPlain-digit c h = ground arith

IsPlain-number : (n : ℕ) (s : Text) → All IsPlain s → All IsPlain (to_string n ++ 32 ∷ s)
IsPlain-number n s h =
    All-append IsPlain (to_string n) (32 ∷ s) (to_string-All n IsPlain-digit) ((refl, refl), h)

IsPlain-values :
    (id t : ℕ) (v : ℤ) → All IsPlain (to_string id ++ (32 ∷ (to_string t ++ 32 ∷ int_to_string v)))
IsPlain-values id t v =
    IsPlain-number id (to_string t ++ 32 ∷ int_to_string v)
      (IsPlain-number t (int_to_string v) (int_to_string-All v (refl, refl) IsPlain-digit))

line_of-IsPlain : (i : Incoming) → IsSent i → All IsPlain (line_of i)
unfolding update_line excursion_line offline_line
line_of-IsPlain (sample m id t v) h = IsPlain-word m _ h.0 (IsPlain-values id t v)
line_of-IsPlain (excursion id t v) h =
    IsPlain-word (codes "ALERT")
      (codes "EXCURSION" ++ 32 ∷ (to_string id ++ (32 ∷ (to_string t ++ 32 ∷ int_to_string v))))
      IsWord-alert (IsPlain-word (codes "EXCURSION") _ IsWord-excursion (IsPlain-values id t v))
line_of-IsPlain (offline id t) h =
    IsPlain-word (codes "ALERT") (codes "OFFLINE" ++ 32 ∷ (to_string id ++ 32 ∷ to_string t))
      IsWord-alert
      (IsPlain-word (codes "OFFLINE") _ IsWord-offline
        (IsPlain-number id (to_string t) (to_string-All t IsPlain-digit)))
line_of-IsPlain (unrecognized line) h = absurd h

split-wire :
    (sent : List Incoming) (rest : Text)
    → All IsSent sent
    → All IsInLine rest
    → split [] (wire sent ++ rest) ≡ (map line_of sent, rest)
split-wire [] rest h k = split-rest rest k
split-wire (i ∷ sent) rest h k =
    ap (λ (s : Text). split [] s) (append_assoc (line_of i) (10 ∷ wire sent) rest)
    ∙ split-line (line_of i) (wire sent ++ rest) (line_of-IsPlain i h.0)
    ∙ ap (λ (r : List Text × Text). (line_of i ∷ r.0, r.1)) (split-wire sent rest h.1 k)

abbrev the_counts : ℕ → ℕ → ℕ → Counts
the_counts valid alerts malformed = record { valid = valid; alerts = alerts; malformed = malformed }

same_counts : {a b c d : ℕ} (m : ℕ) → a ≡ b → c ≡ d → (the_counts a c m) ≡ the_counts b d m
same_counts m p q = ap₂ (λ (x y : ℕ). the_counts x y m) p q

counted-tally :
    (i : Incoming) (sent : List Incoming) (c : Counts)
    → IsSent i
    → counted sent (tally i c) ≡ counted (i ∷ sent) c
unfolding tally
counted-tally (sample m id t v) sent c h = same_counts c.malformed (omega arith) refl
counted-tally (excursion id t v) sent c h = same_counts c.malformed refl (omega arith)
counted-tally (offline id t) sent c h = same_counts c.malformed refl (omega arith)
counted-tally (unrecognized line) sent c h = absurd h

nothing_counted : (c : Counts) → c ≡ counted [] c
nothing_counted c = same_counts c.malformed (omega arith) (omega arith)

handle_lines_sent :
    (sent : List Incoming) (c : Counts)
    → All IsSent sent
    → handle_lines (map line_of sent) c ≡ (sent, counted sent c)
unfolding handle_lines
handle_lines_sent [] c h = ap (λ (d : Counts). ([], d)) (nothing_counted c)
handle_lines_sent (i ∷ sent) c h = rw (recognize_sent i h.0) (
    ap (λ (r : List Incoming × Counts). (i ∷ r.0, r.1)) (handle_lines_sent sent (tally i c) h.1)
    ∙ ap (λ (d : Counts). (i ∷ sent, d)) (counted-tally i sent c h.0))

-- When the buffer holds lines as the server sends them, and then the beginning of another, the client
-- prints exactly what was sent, in order, counts the readings and the alerts and no malformed line,
-- and keeps that beginning.
pub handle_incoming_lem :
    (sent : List Incoming) (rest : Text) (c : Counts)
    → All IsSent sent
    → All IsInLine rest
    → handle_incoming (wire sent ++ rest) c ≡ (sent, rest, counted sent c)
unfolding handle_incoming
handle_incoming_lem sent rest c h k = rw (split-wire sent rest h k, handle_lines_sent sent c h) refl
