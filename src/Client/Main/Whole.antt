-- ===== src/Client/Main/Whole.antt =====
-- A whole run of the client, from the options to the exit.
use sensor_link.Prelude.{
  ℕ, ◌⊎◌, inl, inr, Option-cases, ◌≡◌, ◌≤◌, ◌∙◌, refl, sym, ap, arith, List, [], ◌∷◌, ◌++◌,
  append_assoc, append-nil, map, length, Option, none, some, All,
}
use sensor_link.Prelude.Text.{Text}
use sensor_link.Scan.{split}
use sensor_link.Scan.Lines.{split_twice, IsInLine, rest-IsInLine}
use sensor_link.Scan.Words.{split-rest}
use sensor_link.Sockets.{Descriptors}
use sensor_link.Sockets.Kept.{connects, returned, connect_to_server-returned, close-opened}
use sensor_link.Client.{Incoming, Counts, recognize, tally, handle_lines, handle_incoming}
use sensor_link.Client.RoundTrip.{IsSent, wire, counted, handle_incoming_lem}
use sensor_link.Client.Main.{
  Options, defaults, parse_options, Kernel, prepend, receive, Outcome, zeros, failure, converse,
  converse_on, finish, client_main,
}

handle_lines-append :
    (xs ys : List Text) (c : Counts)
    → handle_lines (xs ++ ys) c ≡ (
      (handle_lines xs c).0 ++ (handle_lines ys (handle_lines xs c).1).0,
      (handle_lines ys (handle_lines xs c).1).1,
    )
unfolding handle_lines
handle_lines-append [] ys c = refl
handle_lines-append (x ∷ xs) ys c =
    ap (λ (r : List Incoming × Counts). (recognize x ∷ r.0, r.1))
      (handle_lines-append xs ys (tally (recognize x) c))

-- Bytes that arrive in two parts are read as if they arrived at once.
handle_twice :
    (xs ys : Text) (c : Counts)
    → handle_incoming (xs ++ ys) c ≡ (
      (handle_incoming xs c).0
          ++ (handle_incoming ((handle_incoming xs c).1 ++ ys) (handle_incoming xs c).2).0,
      (handle_incoming ((handle_incoming xs c).1 ++ ys) (handle_incoming xs c).2).1,
      (handle_incoming ((handle_incoming xs c).1 ++ ys) (handle_incoming xs c).2).2,
    )
unfolding handle_incoming
handle_twice xs ys c =
    ap (λ (r : List Text × Text). ((handle_lines r.0 c).0, r.1, (handle_lines r.0 c).1))
      (split_twice xs ys)
    ∙ ap (λ (r : List Incoming × Counts). (r.0, (split [] ((split [] xs).1 ++ ys)).1, r.1))
        (handle_lines-append (split [] xs).0 (split [] ((split [] xs).1 ++ ys)).0 c)

-- What the kernel delivers before the connection ends: no piece is empty.
abbrev pub IsPiece : Text → Type 0
IsPiece t = 1 ≤ length t

-- The connection is closed, or broken.
abbrev pub IsEnd : Option Text → Type 0
IsEnd none = Unit
IsEnd (some []) = Unit
IsEnd (some (b ∷ bs)) = ⊥

abbrev pub joined : List Text → Text
joined [] = []
joined (t ∷ pieces) = t ++ joined pieces

IsInLine-kept : (s : Text) (c : Counts) → All IsInLine (handle_incoming s c).1
unfolding handle_incoming
IsInLine-kept s c = rest-IsInLine [] s _

incoming-partial : (s : Text) (c : Counts) → All IsInLine s → handle_incoming s c ≡ ([], s, c)
unfolding handle_incoming handle_lines
incoming-partial s c h = rw (split-rest s h) refl

receive-end :
    (end : Option Text) (more : List (Option Text)) (buffer : Text) (c : Counts)
    → IsEnd end
    → receive (end ∷ more) buffer c ≡ some ([], c)
unfolding receive
receive-end none more buffer c h = refl
receive-end (some []) more buffer c h = refl
receive-end (some (b ∷ bs)) more buffer c h = absurd h

receive-piece :
    (t : Text) (more : List (Option Text)) (buffer : Text) (c : Counts)
    → IsPiece t
    → receive (some t ∷ more) buffer c
      ≡ prepend
          (handle_incoming (buffer ++ t) c).0
          (receive more (handle_incoming (buffer ++ t) c).1 (handle_incoming (buffer ++ t) c).2)
unfolding receive
receive-piece [] more buffer c h = absurd (omega arith)
receive-piece (b ∷ bs) more buffer c h = refl

abbrev shown_of : List Incoming × Text × Counts → Option (List Incoming × Counts)
shown_of r = some (r.0, r.2)

-- The loop reads the pieces as if they arrived at once.
receive-joined :
    (pieces : List Text) (end : Option Text) (more : List (Option Text)) (buffer : Text)
    (c : Counts)
    → All IsPiece pieces
    → IsEnd end
    → All IsInLine buffer
    → receive (map some pieces ++ end ∷ more) buffer c
      ≡ some (
        (handle_incoming (buffer ++ joined pieces) c).0,
        (handle_incoming (buffer ++ joined pieces) c).2,
      )
receive-joined [] end more buffer c h e k =
    receive-end end more buffer c e
    ∙ ap shown_of (
        sym (
          ap (λ (s : Text). handle_incoming s c) (append-nil buffer) ∙ incoming-partial buffer c k))
receive-joined (t ∷ pieces) end more buffer c h e k =
    receive-piece t (map some pieces ++ end ∷ more) buffer c h.0
    ∙ ap (λ (r : Option (List Incoming × Counts)). prepend (handle_incoming (buffer ++ t) c).0 r)
        (receive-joined pieces end more (handle_incoming (buffer ++ t) c).1
          (handle_incoming (buffer ++ t) c).2 h.1 e (IsInLine-kept (buffer ++ t) c))
    ∙ ap shown_of (
        sym (
          ap (λ (s : Text). handle_incoming s c) (sym (append_assoc buffer t (joined pieces)))
          ∙ handle_twice (buffer ++ t) (joined pieces) c))

-- The outcome of a run that ends because the connection does.
abbrev pub success : List Incoming → Counts → Descriptors → Outcome
success shown counts open_fds = record {
  exit_code = 0;
  shown = shown;
  counts = counts;
  open_fds = open_fds;
}

-- What the options say, with the defaults for the rest.
abbrev pub options_of : List Text → Options
options_of args = parse_options args defaults

-- The connection that the answers of the kernel give.
abbrev pub connection_of : List Text → Kernel → Option ℕ
connection_of args kernel = connects (options_of args).host (options_of args).port kernel.connecting

connected :
    (args : List Text) (kernel : Kernel) (open_fds : Descriptors)
    → client_main args kernel open_fds
      ≡ converse_on
          (connection_of args kernel)
          kernel
          (returned (connection_of args kernel) ++ open_fds)
unfolding client_main
connected args kernel open_fds =
    ap (λ (r : Option ℕ × Descriptors). converse_on r.0 kernel r.1)
      (connect_to_server-returned (options_of args).host (options_of args).port kernel.connecting
        open_fds)

-- When the connection is made, the subscription is sent, and what arrives in pieces, however they are
-- cut, until the connection ends is what the server sends and then the beginning of another line, the
-- client prints exactly what was sent, in order, counts it, closes its descriptor and exits with 0.
pub client_main_lem :
    (args : List Text) (kernel : Kernel) (open_fds : Descriptors) (fd n : ℕ) (pieces : List Text)
    (end : Option Text) (more : List (Option Text)) (sent : List Incoming) (rest : Text)
    → connection_of args kernel ≡ some fd
    → kernel.send ≡ some n
    → kernel.recv ≡ map some pieces ++ end ∷ more
    → All IsPiece pieces
    → IsEnd end
    → joined pieces ≡ wire sent ++ rest
    → All IsSent sent
    → All IsInLine rest
    → client_main args kernel open_fds ≡ some (success sent (counted sent zeros) open_fds)
unfolding client_main converse_on converse finish
client_main_lem args kernel open_fds fd n pieces end more sent rest e f g h k j p q =
    connected args kernel open_fds
    ∙ rw (e, f, g)
        (ap (λ (r : Option (List Incoming × Counts)). finish fd r (fd ∷ open_fds))
            (receive-joined pieces end more [] zeros h k _
              ∙ ap (λ (s : Text). shown_of (handle_incoming s zeros)) j
              ∙ ap shown_of (handle_incoming_lem sent rest zeros p q))
          ∙ rw (close-opened fd open_fds) refl)

-- When the connection cannot be made or the subscription cannot be sent, the client exits with 1, has
-- printed nothing, and leaves no descriptor open.
pub client_main-failure :
    (args : List Text) (kernel : Kernel) (open_fds : Descriptors)
    → connection_of args kernel ≡ none ⊎ kernel.send ≡ none
    → client_main args kernel open_fds ≡ some (failure open_fds)
unfolding client_main converse_on converse finish
client_main-failure args kernel open_fds h =
    connected args kernel open_fds ∙ (elim (Option-cases (connection_of args kernel)) [
      | inl z ↦ rw z refl
      | inr (fd, z) ↦ (elim h [
        | inl w ↦ rw w refl
        | inr w ↦ rw (z, w, close-opened fd open_fds) refl
      ])
    ])
