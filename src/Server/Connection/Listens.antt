-- ===== src/Server/Connection/Listens.antt =====
-- server/connection.cpp: which sockets are watched for input.
use sensor_link.Prelude.{
  ◌≡◌, refl, ◌==◌, not, Bool, true, false, Bool-cases, both_absurd, inl, inr, List, [], ◌∷◌, ◌++◌,
  length, drop, Gives,
}
use sensor_link.Proto.Messages.{Bytes}
use sensor_link.Server.Connection.{
  Connection, write_congested, update_epoll_interest, enqueue_write, Received, chunk, ended, again,
  interrupted, broken, try_read, Sent, taken, settle, try_write,
}

-- While a connection is not closed, its socket is watched for input exactly when not too much is
-- waiting to be written.
abbrev pub Listens : Connection → Type 0
Listens c = c.closed ≡ false → c.watches_in ≡ not (write_congested c)

pub enqueue_write-Listens : (bytes : Bytes) (c : Connection) → Listens (enqueue_write bytes c)
unfolding enqueue_write update_epoll_interest
enqueue_write-Listens bytes c h = refl

settle-Listens : (c : Connection) → Listens (settle c)
unfolding settle update_epoll_interest
settle-Listens c h = refl

closed-Listens : (c : Connection) → Listens (record c { closed = true })
closed-Listens c h = absurd (both_absurd refl h)

abbrev pub LeavesListening : Bool × Connection → Type 0
LeavesListening r = Listens r.1

pub try_read-Listens :
    (answers : List Received) (c : Connection)
    → Listens c
    → Gives LeavesListening (try_read answers c)
unfolding try_read
try_read-Listens [] c h = _
try_read-Listens (chunk bs ∷ more) c h =
    try_read-Listens more (record c { read_buffer = c.read_buffer ++ bs }) h
try_read-Listens (ended ∷ more) c h = closed-Listens c
try_read-Listens (again ∷ more) c h = h
try_read-Listens (interrupted ∷ more) c h = try_read-Listens more c h
try_read-Listens (broken ∷ more) c h = closed-Listens c

pub try_write-Listens :
    (answers : List Sent) (c : Connection) → Gives LeavesListening (try_write answers c)
unfolding try_write
try_write-Listens [] c = elim (Bool-cases (length c.write_buffer == 0)) [
  | inl z ↦ rw z (settle-Listens c)
  | inr z ↦ rw z _
]
try_write-Listens (taken n ∷ more) c = elim (Bool-cases (length c.write_buffer == 0)) [
  | inl z ↦ rw z (settle-Listens c)
  | inr z ↦ rw z (try_write-Listens more (record c { write_buffer = drop n c.write_buffer }))
]
try_write-Listens (Sent.again ∷ more) c = settle-Listens c
try_write-Listens (Sent.interrupted ∷ more) c = elim (Bool-cases (length c.write_buffer == 0)) [
  | inl z ↦ rw z (settle-Listens c)
  | inr z ↦ rw z (try_write-Listens more c)
]
try_write-Listens (Sent.broken ∷ more) c = elim (Bool-cases (length c.write_buffer == 0)) [
  | inl z ↦ rw z (settle-Listens c)
  | inr z ↦ rw z (closed-Listens c)
]
