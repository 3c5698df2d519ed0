-- ===== src/Link.antt =====
-- The IR link of src/ir_link.cpp: a TCP connection with a byte queue in each direction. The calls of
-- the operating system are no part of the program: what they return is an argument of each
-- operation. A descriptor of -1 is `none`.
pub mod Poll
pub mod Lists
pub mod Held
pub mod Bounds
pub mod Stream
pub mod Ending
use pokestroller.Base.{
  ℕ, zero, suc, ◌+◌, ◌-◌, ◌%◌, ◌^◌, Bool, true, false, not, ◌||◌, Option, none, some, length, List,
  [], ◌∷◌, ◌++◌, ◌==◌, ltb, if◌then◌else◌,
}

-- `state`: -1, 0, 1 and 2.
pub data State : Type 0 where
  failed off waiting connected : State

-- The messages: strerror of a number, and the program's own.
pub data Failure : Type 0 where
  os : ℕ → Failure
  invalid_address closed_by_peer too_much_received too_much_to_send : Failure

-- struct PWLink, the descriptors that the process has open for it, and the bytes that the connection
-- has taken.
pub record Link : Type 0 where
  pub server : Option ℕ
  pub peer : Option ℕ
  pub state : State
  pub port : ℕ
  pub tx : List ℕ
  pub rx : List ℕ
  pub error : Option Failure
  pub open_fds : List ℕ
  pub wire : List ℕ

-- `close(fd)`
unfoldable pub close_fd : ℕ → List ℕ → List ℕ
close_fd fd [] = []
close_fd fd (x ∷ xs) = let rest = close_fd fd xs in if fd == x then xs else x ∷ rest

-- `if (fd >= 0) close(fd)`
abbrev pub close_if : Option ℕ → List ℕ → List ℕ
close_if none fds = fds
close_if (some fd) fds = close_fd fd fds

abbrev pub pw_link_create : Link
pw_link_create = record {
  server = none;
  peer = none;
  state = off;
  port = 0;
  tx = [];
  rx = [];
  error = none;
  open_fds = [];
  wire = [];
}

unfoldable pub pw_link_close : Link → Link
unfolding close_fd
pw_link_close p = record {
  server = none;
  peer = none;
  state = off;
  port = 0;
  tx = [];
  rx = [];
  error = none;
  open_fds = close_if p.peer (close_if p.server p.open_fds);
  wire = [];
}

unfoldable pub fail : Failure → Link → Link
unfolding pw_link_close
fail e p = record (pw_link_close p) { state = failed; error = some e }

-- What socket and the two calls of fcntl return: a descriptor and success, or errno.
pub record SocketAnswers : Type 0 where
  pub fd : Option ℕ
  pub flags_ok : Bool
  pub errno : ℕ

-- The socket, and the descriptors that are open then.
unfoldable pub make_socket : SocketAnswers → List ℕ → Option ℕ × List ℕ
unfolding close_fd
make_socket a fds = elim a.fd [
  | none ↦ (none, fds)
  | some fd ↦
      if a.flags_ok then (some fd, fds ++ (fd ∷ [])) else (none, close_fd fd (fds ++ (fd ∷ [])))
]

-- What bind and listen, and getsockname, return.
pub record ListenAnswers : Type 0 where
  pub bound : Bool
  pub named : Bool
  pub name_port : ℕ
  pub errno : ℕ

unfoldable pub listen_at : Option ℕ → ListenAnswers → ℕ → Link → Bool × Link
listen_at none a errno p = (false, fail (os errno) p)
listen_at (some fd) a errno p =
    let p1 = record p { server = some fd } in
    if not a.bound || not a.named
    then (false, fail (os a.errno) p1)
    else (true, record p1 { port = a.name_port; state = waiting })

unfoldable pub pw_link_listen : SocketAnswers → ListenAnswers → Link → Bool × Link
pw_link_listen s a p =
    let p1 = pw_link_close p in
    let (fd, fds) = make_socket s p1.open_fds in
    listen_at fd a s.errno (record p1 { open_fds = fds })

-- What connect returns.
pub data Connected : Type 0 where
  at_once in_progress : Connected
  refused : ℕ → Connected

unfoldable pub connect_at : Option ℕ → Connected → ℕ → ℕ → Link → Bool × Link
connect_at none c errno port p = (false, fail (os errno) p)
connect_at (some fd) (refused e) errno port p = (false, fail (os e) (record p { peer = some fd }))
connect_at (some fd) at_once errno port p =
    (true, record p { peer = some fd; port = port; state = connected })
connect_at (some fd) in_progress errno port p =
    (true, record p { peer = some fd; port = port; state = waiting })

-- `address_ok`: inet_pton takes the host, which is "127.0.0.1" in place of "localhost".
unfoldable pub pw_link_connect : Bool → ℕ → SocketAnswers → Connected → Link → Bool × Link
pw_link_connect address_ok port s c p =
    let p1 = pw_link_close p in
    let (fd, fds) = make_socket s p1.open_fds in
    if (port == 0) || not address_ok
    then (false, fail invalid_address p1)
    else connect_at fd c s.errno port (record p1 { open_fds = fds })

unfoldable pub send_to : State → List ℕ → Link → Bool × Link
send_to connected bytes p =
    if ltb ((65536 + 2 ^ 64 - length p.tx) % 2 ^ 64) (length bytes)
    then (false, fail too_much_to_send p)
    else (true, record p { tx = p.tx ++ bytes })
send_to failed bytes p = (false, p)
send_to off bytes p = (false, p)
send_to waiting bytes p = (false, p)

-- `65536-p->tx.size()` is a `size_t`.
unfoldable pub pw_link_send : List ℕ → Link → Bool × Link
pw_link_send bytes p = send_to p.state bytes p

-- The loop of pw_link_read, with the rounds left: the bytes read, and the queue.
unfoldable pub pop_bytes : ℕ → List ℕ → List ℕ × List ℕ
pop_bytes zero q = ([], q)
pop_bytes (suc n) [] = ([], [])
pop_bytes (suc n) (x ∷ q) = let (bytes, rest) = pop_bytes n q in (x ∷ bytes, rest)

unfoldable pub pw_link_read : ℕ → Link → List ℕ × Link
unfolding pop_bytes
pw_link_read capacity p =
    let count = if ltb (length p.rx) capacity then length p.rx else capacity in
    let (bytes, rest) = pop_bytes count p.rx in (bytes, record p { rx = rest })
