-- ===== src/Server/Connection/Flow.antt =====
-- server/connection.cpp: what reading and writing keep.
use sensor_link.Prelude.{
  ℕ, ◌≡◌, ◌∙◌, refl, ap, sym, arith, leb, ◌==◌, Bool, true, false, Bool-cases, inl, inr,
  if◌then◌else◌, not, List, [], ◌∷◌, ◌++◌, append_assoc, append-nil, length, take, drop,
  take-append-drop, some,
}
use sensor_link.Proto.Messages.{Bytes}
use sensor_link.Server.Connection.{
  Connection, write_congested, update_epoll_interest, enqueue_write, Received, chunk, ended, again,
  interrupted, broken, try_read, Sent, taken, settle, try_write,
}

-- The bytes that the kernel hands over before the loop of `try_read` ends.
unfoldable pub arrived : List Received → Bytes
arrived [] = []
arrived (chunk bs ∷ more) = bs ++ arrived more
arrived (interrupted ∷ more) = arrived more
arrived (ended ∷ more) = []
arrived (again ∷ more) = []
arrived (broken ∷ more) = []

-- The bytes of `pending` that the kernel takes before the loop of `try_write` ends.
unfoldable pub flushed : List Sent → Bytes → Bytes
flushed [] pending = []
flushed (taken n ∷ more) pending =
    let rest = flushed more (drop n pending) in
    if length pending == 0 then [] else take n pending ++ rest
flushed (Sent.interrupted ∷ more) pending =
    let rest = flushed more pending in if length pending == 0 then [] else rest
flushed (Sent.again ∷ more) pending = []
flushed (Sent.broken ∷ more) pending = []

-- What is watched is what the buffers ask for.
pub record Watched (c : Connection) : Type 0 where
  pub asks : c.write_interest ≡ leb 1 (length c.write_buffer)
  pub outgoing : c.watches_out ≡ leb 1 (length c.write_buffer)
  pub incoming : c.watches_in ≡ not (write_congested c)

pub settle-Watched : (c : Connection) → Watched (settle c)
unfolding settle update_epoll_interest
settle-Watched c = record { asks = refl; outgoing = refl; incoming = refl }

-- What a run of `try_write` that returned leaves of a connection.
pub record Wrote (answers : List Sent) (c : Connection) (r : Bool × Connection) : Type 0 where
  pub conserved : flushed answers c.write_buffer ++ (r.1).write_buffer ≡ c.write_buffer
  pub kept_input : (r.1).read_buffer ≡ c.read_buffer
  pub alive : r.0 ≡ true → Watched (r.1) × ((r.1).closed ≡ c.closed)
  pub dead : r.0 ≡ false → (r.1).closed ≡ true

-- An answer that ends the loop, whatever is still to be sent.
abbrev pub answered : List Sent → Bool
answered [] = false
answered (taken n ∷ more) = answered more
answered (Sent.interrupted ∷ more) = answered more
answered (Sent.again ∷ more) = true
answered (Sent.broken ∷ more) = true

Wrote-settle :
    (answers : List Sent) (c : Connection)
    → flushed answers c.write_buffer ≡ []
    → Wrote answers c (true, settle c)
unfolding settle update_epoll_interest
Wrote-settle answers c h = record {
  conserved = ap (λ (l : Bytes). l ++ c.write_buffer) h;
  kept_input = refl;
  alive = λ _. (settle-Watched c, refl);
  dead = λ e. ground arith;
}

flushed-taken :
    (n : ℕ) (more : List Sent) (pending : Bytes)
    → (length pending == 0) ≡ false
    → flushed (taken n ∷ more) pending ≡ take n pending ++ flushed more (drop n pending)
unfolding flushed
flushed-taken n more pending z = rw z refl

flushed-interrupted :
    (more : List Sent) (pending : Bytes)
    → (length pending == 0) ≡ false
    → flushed (Sent.interrupted ∷ more) pending ≡ flushed more pending
unfolding flushed
flushed-interrupted more pending z = rw z refl

Wrote-taken :
    (n : ℕ) (more : List Sent) (c : Connection) (r : Bool × Connection)
    → (length c.write_buffer == 0) ≡ false
    → Wrote more (record c { write_buffer = drop n c.write_buffer }) r
    → Wrote (taken n ∷ more) c r
Wrote-taken n more c r z w = record {
  conserved =
      ap (λ (l : Bytes). l ++ (r.1).write_buffer) (flushed-taken n more c.write_buffer z)
      ∙ append_assoc (take n c.write_buffer) _ _
      ∙ ap (λ (l : Bytes). take n c.write_buffer ++ l) w.conserved
      ∙ take-append-drop n c.write_buffer;
  kept_input = w.kept_input;
  alive = w.alive;
  dead = w.dead;
}

Wrote-interrupted :
    (more : List Sent) (c : Connection) (r : Bool × Connection)
    → (length c.write_buffer == 0) ≡ false
    → Wrote more c r
    → Wrote (Sent.interrupted ∷ more) c r
Wrote-interrupted more c r z w = record {
  conserved =
      ap (λ (l : Bytes). l ++ (r.1).write_buffer) (flushed-interrupted more c.write_buffer z)
      ∙ w.conserved;
  kept_input = w.kept_input;
  alive = w.alive;
  dead = w.dead;
}

Wrote-broken :
    (more : List Sent) (c : Connection)
    → Wrote (Sent.broken ∷ more) c (false, record c { closed = true })
unfolding flushed
Wrote-broken more c = record {
  conserved = refl;
  kept_input = refl;
  alive = λ e. ground arith;
  dead = λ _. refl;
}

-- Among the answers is one that ends the loop: `try_write` returns, and it leaves what `Wrote` says.
pub try_write-Wrote :
    (answers : List Sent) (c : Connection)
    → answered answers ≡ true
    → (r : Bool × Connection) × (try_write answers c ≡ some r) × Wrote answers c r
unfolding try_write
try_write-Wrote [] c h = ground arith
try_write-Wrote (taken n ∷ more) c h = elim (Bool-cases (length c.write_buffer == 0)) [
  | inl z ↦
      ((true, settle c), rw z refl, Wrote-settle (taken n ∷ more) c (unfold flushed in rw z refl))
  | inr z ↦
      let ih = try_write-Wrote more (record c { write_buffer = drop n c.write_buffer }) h in
      (ih.0, rw z ih.1, Wrote-taken n more c ih.0 z ih.2)
]
try_write-Wrote (Sent.interrupted ∷ more) c h = elim (Bool-cases (length c.write_buffer == 0)) [
  | inl z ↦ (
    (true, settle c),
    rw z refl,
    Wrote-settle (Sent.interrupted ∷ more) c (unfold flushed in rw z refl),
  )
  | inr z ↦
      let ih = try_write-Wrote more c h in (ih.0, rw z ih.1, Wrote-interrupted more c ih.0 z ih.2)
]
try_write-Wrote (Sent.again ∷ more) c h =
    ((true, settle c), refl, Wrote-settle (Sent.again ∷ more) c (unfold flushed in refl))
try_write-Wrote (Sent.broken ∷ more) c h = elim (Bool-cases (length c.write_buffer == 0)) [
  | inl z ↦
      ((true, settle c), rw z refl, Wrote-settle (Sent.broken ∷ more) c (unfold flushed in refl))
  | inr z ↦ ((false, record c { closed = true }), rw z refl, Wrote-broken more c)
]

-- The answers of recv that end the loop.
abbrev pub finished : List Received → Bool
finished [] = false
finished (chunk bs ∷ more) = finished more
finished (interrupted ∷ more) = finished more
finished (ended ∷ more) = true
finished (again ∷ more) = true
finished (broken ∷ more) = true

-- What `try_read` leaves of a connection.
pub record Read (answers : List Received) (c : Connection) (r : Bool × Connection) : Type 0 where
  pub appended : (r.1).read_buffer ≡ c.read_buffer ++ arrived answers
  pub kept_output : (r.1).write_buffer ≡ c.write_buffer
  pub still_open : r.0 ≡ true → (r.1).closed ≡ c.closed
  pub shut : r.0 ≡ false → (r.1).closed ≡ true

-- Among the answers is one that ends the loop: `try_read` returns. It has appended what arrived
-- before that answer to the read buffer, and it returns false only with the connection marked closed.
pub try_read-Read :
    (answers : List Received) (c : Connection)
    → finished answers ≡ true
    → (r : Bool × Connection) × (try_read answers c ≡ some r) × Read answers c r
unfolding try_read arrived
try_read-Read [] c h = ground arith
try_read-Read (chunk bs ∷ more) c h =
    let ih = try_read-Read more (record c { read_buffer = c.read_buffer ++ bs }) h in
    (
      ih.0,
      ih.1,
      record {
        appended = ih.2.appended ∙ append_assoc c.read_buffer bs (arrived more);
        kept_output = ih.2.kept_output;
        still_open = ih.2.still_open;
        shut = ih.2.shut;
      },
    )
try_read-Read (interrupted ∷ more) c h =
    let ih = try_read-Read more c h in
    (
      ih.0,
      ih.1,
      record {
        appended = ih.2.appended;
        kept_output = ih.2.kept_output;
        still_open = ih.2.still_open;
        shut = ih.2.shut;
      },
    )
try_read-Read (ended ∷ more) c h = (
  (false, record c { closed = true }),
  refl,
  record {
    appended = sym (append-nil c.read_buffer);
    kept_output = refl;
    still_open = λ e. ground arith;
    shut = λ _. refl;
  },
)
try_read-Read (broken ∷ more) c h = (
  (false, record c { closed = true }),
  refl,
  record {
    appended = sym (append-nil c.read_buffer);
    kept_output = refl;
    still_open = λ e. ground arith;
    shut = λ _. refl;
  },
)
try_read-Read (again ∷ more) c h = (
  (true, c),
  refl,
  record {
    appended = sym (append-nil c.read_buffer);
    kept_output = refl;
    still_open = λ _. refl;
    shut = λ e. ground arith;
  },
)

pub write_buffer-enqueue_write :
    (bytes : Bytes) (c : Connection)
    → (enqueue_write bytes c).write_buffer ≡ c.write_buffer ++ bytes
unfolding enqueue_write update_epoll_interest
write_buffer-enqueue_write bytes c = refl
