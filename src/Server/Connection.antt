-- ===== src/Server/Connection.antt =====
-- server/connection.cpp and .hpp: one non-blocking socket and its two buffers. What the kernel
-- answers to recv and send is a list, one answer for each call; `events` is what the event loop was
-- last told to watch.
pub mod Flow
pub mod Listens
use sensor_link.Prelude.{
  ℕ, ◌+◌, ◌*◌, leb, ◌==◌, Bool, true, false, if◌then◌else◌, not, List, [], ◌∷◌, ◌++◌, length, drop,
  Option, none, some,
}
use sensor_link.Proto.Messages.{Bytes}

pub record Connection : Type 0 where
  pub read_buffer : Bytes
  pub write_buffer : Bytes
  pub write_interest : Bool
  pub closed : Bool
  pub watches_in : Bool
  pub watches_out : Bool

abbrev pub connected_socket : Connection
connected_socket = record {
  read_buffer = [];
  write_buffer = [];
  write_interest = false;
  closed = false;
  watches_in = true;
  watches_out = false;
}

abbrev pub write_high_water_mark : ℕ
write_high_water_mark = 64 * 1024

abbrev pub write_congested : Connection → Bool
write_congested c = leb write_high_water_mark (length c.write_buffer)

-- epoll_ctl is taken to succeed: the exception of event_loop::modify is left out.
pub update_epoll_interest : Connection → Connection
update_epoll_interest c = record c {
  watches_in = not (write_congested c);
  watches_out = c.write_interest;
}

abbrev pub consume : ℕ → Connection → Connection
consume n c = record c { read_buffer = drop n c.read_buffer }

unfoldable pub enqueue_write : Bytes → Connection → Connection
enqueue_write bytes c =
    update_epoll_interest
      (record c { write_buffer = c.write_buffer ++ bytes; write_interest = true })

-- The answers to recv: some bytes, the end of the stream, EAGAIN or EWOULDBLOCK, EINTR, and any
-- other error.
pub data Received : Type 0 where
  chunk : Bytes → Received
  ended again interrupted broken : Received

-- `none`: the loop has not ended by the last of the answers.
pub try_read : List Received → Connection → Option (Bool × Connection)
try_read [] c = none
try_read (chunk bs ∷ more) c = try_read more (record c { read_buffer = c.read_buffer ++ bs })
try_read (ended ∷ more) c = some (false, record c { closed = true })
try_read (again ∷ more) c = some (true, c)
try_read (interrupted ∷ more) c = try_read more c
try_read (broken ∷ more) c = some (false, record c { closed = true })

-- The answers to send: the first `n` bytes are taken, at least one, since send does not answer 0 to
-- bytes on a stream; or an error.
pub data Sent : Type 0 where
  taken : ℕ → Sent
  again interrupted broken : Sent

pub settle : Connection → Connection
settle c = update_epoll_interest (record c { write_interest = leb 1 (length c.write_buffer) })

pub try_write : List Sent → Connection → Option (Bool × Connection)
try_write [] c = if length c.write_buffer == 0 then some (true, settle c) else none
try_write (taken n ∷ more) c =
    let rest = try_write more (record c { write_buffer = drop n c.write_buffer }) in
    if length c.write_buffer == 0 then some (true, settle c) else rest
try_write (Sent.again ∷ more) c = some (true, settle c)
try_write (Sent.interrupted ∷ more) c =
    let rest = try_write more c in
    if length c.write_buffer == 0 then some (true, settle c) else rest
try_write (Sent.broken ∷ more) c =
    if length c.write_buffer == 0
    then some (true, settle c)
    else some (false, record c { closed = true })
