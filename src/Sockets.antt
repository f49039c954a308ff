-- ===== src/Sockets.antt =====
-- The descriptors that a process has open, and the functions that open one: connect_to_server of the
-- client and of the benchmark's programs, make_listener of the server. What the kernel answers is an
-- argument.

pub mod Kept
use sensor_link.Prelude.{
  ℕ, ◌==◌, if◌then◌else◌, Bool, true, false, List, [], ◌∷◌, Option, none, some,
}
use sensor_link.Prelude.Text.{Text}

abbrev pub Descriptors : Type 0
Descriptors = List ℕ

-- ::close
unfoldable pub close : ℕ → Descriptors → Descriptors
close fd [] = []
close fd (other ∷ open_fds) = if fd == other then open_fds else other ∷ close fd open_fds

-- The answers to the calls that open a connection.
pub record Connecting : Type 0 where
  pub socket : Option ℕ
  pub inet_pton : Text → Bool
  pub connect : Text → ℕ → Bool

-- The part behind ::socket, with its descriptor.
unfoldable pub connect_socket : Text → ℕ → Connecting → ℕ → Descriptors → Option ℕ × Descriptors
connect_socket host port answers fd open_fds =
    if answers.inet_pton host
    then (if answers.connect host port then (some fd, open_fds) else (none, close fd open_fds))
    else (none, close fd open_fds)

-- The descriptor, or -1, and the descriptors that are open afterwards.
unfoldable pub connect_to_server : Text → ℕ → Connecting → Descriptors → Option ℕ × Descriptors
connect_to_server host port answers open_fds = elim answers.socket [
  | none ↦ (none, open_fds)
  | some fd ↦ connect_socket host port answers fd (fd ∷ open_fds)
]

-- The answers to the calls that open a listener.
pub record Listening : Type 0 where
  pub socket : Option ℕ
  pub setsockopt : Bool
  pub bind : ℕ → Bool
  pub listen : Bool

unfoldable pub listen_on : ℕ → Listening → ℕ → Descriptors → Option ℕ × Descriptors
listen_on port answers fd open_fds =
    if answers.setsockopt
    then (if answers.bind port
        then (if answers.listen then (some fd, open_fds) else (none, close fd open_fds))
        else (none, close fd open_fds))
    else (none, close fd open_fds)

unfoldable pub make_listener : ℕ → Listening → Descriptors → Option ℕ × Descriptors
make_listener port answers open_fds = elim answers.socket [
  | none ↦ (none, open_fds)
  | some fd ↦ listen_on port answers fd (fd ∷ open_fds)
]
