-- ===== src/Sockets/Kept.antt =====
-- No function that opens a descriptor leaves one open that it does not return.
use sensor_link.Prelude.{ℕ, ◌≡◌, arith, true, false, ◌&&◌, [], ◌∷◌, ◌++◌, Option, none, some}
use sensor_link.Prelude.Text.{Text}
use sensor_link.Sockets.{
  Descriptors, close, Connecting, connect_socket, connect_to_server, Listening, listen_on,
  make_listener,
}

-- The descriptors of a result.
abbrev pub returned : Option ℕ → Descriptors
returned none = []
returned (some fd) = fd ∷ []

-- The answers with which all steps succeed.
abbrev pub connects : Text → ℕ → Connecting → Option ℕ
connects host port answers = elim answers.socket [
  | none ↦ none
  | some fd ↦ elim (answers.inet_pton host && answers.connect host port) [
    | true ↦ some fd
    | false ↦ none
  ]
]

pub close-opened : (fd : ℕ) (open_fds : Descriptors) → close fd (fd ∷ open_fds) ≡ open_fds
unfolding close
close-opened fd open_fds = ground arith

-- `connect_to_server` returns the new descriptor when the socket is created, the address is read and
-- the connection is made, and else -1; what was open stays open, and besides it exactly the
-- descriptor that is returned.
pub connect_to_server-returned :
    (host : Text) (port : ℕ) (answers : Connecting) (open_fds : Descriptors)
    → connect_to_server host port answers open_fds
      ≡ (connects host port answers, returned (connects host port answers) ++ open_fds)
unfolding connect_to_server connect_socket close
connect_to_server-returned host port answers open_fds = ground arith

abbrev pub listens : ℕ → Listening → Option ℕ
listens port answers = elim answers.socket [
  | none ↦ none
  | some fd ↦ elim (answers.setsockopt && answers.bind port && answers.listen) [
    | true ↦ some fd
    | false ↦ none
  ]
]

-- The same for `make_listener`, whose steps are the option, the address and the backlog.
pub make_listener-returned :
    (port : ℕ) (answers : Listening) (open_fds : Descriptors)
    → make_listener port answers open_fds
      ≡ (listens port answers, returned (listens port answers) ++ open_fds)
unfolding make_listener listen_on close
make_listener-returned port answers open_fds = ground arith
