-- ===== src/Link/Held.antt =====
-- About the descriptors and the bounds of the IR link of src/ir_link.cpp.
use pokestroller.Base.{
  ℕ, zero, suc, ◌+◌, ◌-◌, ◌%◌, ◌^◌, ◌≤◌, ◌≡◌, refl, ap, arith, Bool, Bool-cases, inl, inr, ◌⊎◌,
  Option, none, some, length, List, [], ◌∷◌, ◌++◌, ◌==◌, ltb, not, ◌||◌, if◌then◌else◌,
}
use pokestroller.Link.{
  State, failed, off, waiting, connected, Failure, Link, close_fd, close_if, pw_link_create,
  pw_link_close, listen_at, connect_at, send_to, fail, SocketAnswers, make_socket, ListenAnswers,
  pw_link_listen, Connected, at_once, in_progress, refused, pw_link_connect, pop_bytes,
  pw_link_read,
}
use pokestroller.Link.Lists.{take, drop, length-++, length-drop}

-- The descriptors of each state: none where the link is off or has failed; where it waits, the
-- server's or that of the connection to come; where it is connected, the peer's.
pub data Places : State → Option ℕ → Option ℕ → Type 0 where
  is_failed : Places failed none none
  is_off : Places off none none
  listening : (s : ℕ) → Places waiting (some s) none
  connecting : (d : ℕ) → Places waiting none (some d)
  accepted : (s d : ℕ) → Places connected (some s) (some d)
  joined : (d : ℕ) → Places connected none (some d)

abbrev pub listed : Option ℕ → List ℕ
listed none = []
listed (some fd) = fd ∷ []

-- The open descriptors are those that the link names, so none is lost, and the queues are bounded.
pub record IsLink (p : Link) : Type 0 where
  pub places : Places p.state p.server p.peer
  pub held : p.open_fds ≡ listed p.server ++ listed p.peer
  pub tx_room : length p.tx ≤ 65536
  pub rx_room : length p.rx ≤ 65536

close_all :
    (server peer : Option ℕ) → close_if peer (close_if server (listed server ++ listed peer)) ≡ []
unfolding close_fd
close_all none none = refl
close_all none (some d) = ground arith
close_all (some s) none = ground arith
close_all (some s) (some d) = ground arith

-- Closing leaves the link as it was created.
pub close-create : (p : Link) → IsLink p → pw_link_close p ≡ pw_link_create
unfolding pw_link_close
close-create p i = rw (i.held, close_all p.server p.peer) refl

pub create-IsLink : IsLink pw_link_create
create-IsLink = record {
  places = is_off;
  held = refl;
  tx_room = omega arith;
  rx_room = omega arith;
}

pub fail-IsLink :
    (e : Failure) (p : Link) → p.open_fds ≡ listed p.server ++ listed p.peer → IsLink (fail e p)
unfolding fail pw_link_close
fail-IsLink e p h = record {
  places = is_failed;
  held = rw h (close_all p.server p.peer);
  tx_room = omega arith;
  rx_room = omega arith;
}

option-cases : (o : Option ℕ) → (o ≡ none) ⊎ ((x : ℕ) × (o ≡ some x))
option-cases none = inl refl
option-cases (some x) = inr (x, refl)

-- A new socket is the link's, or none is open.
socket-cases :
    (a : SocketAnswers)
    → ((fd : ℕ) × (make_socket a [] ≡ (some fd, fd ∷ []))) ⊎ (make_socket a [] ≡ (none, []))
unfolding make_socket
socket-cases a = elim (option-cases a.fd) [
  | inl e ↦ rw e (inr refl)
  | inr (fd, e) ↦ elim (Bool-cases a.flags_ok) [
    | inl f ↦ rw (e, f) (inl (fd, refl))
    | inr f ↦ rw (e, f) (inr (ground arith))
  ]
]

-- The link behind make_socket and a success.
abbrev opened : Option ℕ → Option ℕ → State → ℕ → List ℕ → Link
opened server peer state port fds = record pw_link_create {
  server = server;
  peer = peer;
  state = state;
  port = port;
  open_fds = fds;
}

pub listen-IsLink :
    (s : SocketAnswers) (a : ListenAnswers) (p : Link) → IsLink p → IsLink (pw_link_listen s a p).1
unfolding pw_link_listen listen_at
listen-IsLink s a p i = elim (socket-cases s) [
  | inl (fd, e) ↦ elim (Bool-cases (not a.bound || not a.named)) [
    | inl f ↦
        rw (close-create p i, e, f) (fail-IsLink _ (opened (some fd) none off 0 (fd ∷ [])) refl)
    | inr f ↦
        rw (close-create p i, e, f)
          (record {
            places = listening fd;
            held = refl;
            tx_room = omega arith;
            rx_room = omega arith;
          })
  ]
  | inr e ↦ rw (close-create p i, e) (fail-IsLink _ pw_link_create refl)
]

connect_at-IsLink :
    (c : Connected) (fd errno port : ℕ)
    → IsLink (connect_at (some fd) c errno port (opened none none off 0 (fd ∷ []))).1
unfolding connect_at
connect_at-IsLink at_once fd errno port = record {
  places = joined fd;
  held = refl;
  tx_room = omega arith;
  rx_room = omega arith;
}
connect_at-IsLink in_progress fd errno port = record {
  places = connecting fd;
  held = refl;
  tx_room = omega arith;
  rx_room = omega arith;
}
connect_at-IsLink (refused e) fd errno port =
    fail-IsLink _ (opened none (some fd) off 0 (fd ∷ [])) refl

pub connect-IsLink :
    (ok : Bool) (port : ℕ) (s : SocketAnswers) (c : Connected) (p : Link)
    → IsLink p
    → IsLink (pw_link_connect ok port s c p).1
unfolding pw_link_connect connect_at
connect-IsLink ok port s c p i = elim (Bool-cases ((port == 0) || not ok)) [
  | inl f ↦ rw (close-create p i, f) (fail-IsLink _ pw_link_create refl)
  | inr f ↦ elim (socket-cases s) [
    | inl (fd, e) ↦ rw (close-create p i, f, e) (connect_at-IsLink c fd s.errno port)
    | inr e ↦ rw (close-create p i, f, e) (fail-IsLink _ pw_link_create refl)
  ]
]

-- New queues within the bounds.
pub with_queues :
    (p : Link) (tx rx wire : List ℕ)
    → IsLink p
    → length tx ≤ 65536
    → length rx ≤ 65536
    → IsLink (record p { tx = tx; rx = rx; wire = wire })
with_queues p tx rx wire i h k = record {
  places = i.places;
  held = i.held;
  tx_room = h;
  rx_room = k;
}

pub send_to-IsLink :
    (s : State) (bytes : List ℕ) (p : Link) → IsLink p → IsLink (send_to s bytes p).1
unfolding send_to
send_to-IsLink failed bytes p i = i
send_to-IsLink off bytes p i = i
send_to-IsLink waiting bytes p i = i
send_to-IsLink connected bytes p i =
    elim (Bool-cases (ltb ((65536 + 2 ^ 64 - length p.tx) % 2 ^ 64) (length bytes))) [
      | inl f ↦ rw f (fail-IsLink _ p i.held)
      | inr f ↦
          let room : length p.tx + length bytes ≤ 65536 = ground (arith, f, i.tx_room) in
          rw f (
            with_queues p (p.tx ++ bytes) p.rx p.wire i (omega (arith, length-++ p.tx bytes, room))
              i.rx_room)
    ]

pub pop_bytes-lem :
    (n : ℕ) (q : List ℕ) → ((pop_bytes n q).0 ≡ take n q) × ((pop_bytes n q).1 ≡ drop n q)
unfolding pop_bytes
pop_bytes-lem zero q = (refl, refl)
pop_bytes-lem (suc n) [] = (refl, refl)
pop_bytes-lem (suc n) (x ∷ q) = let h = pop_bytes-lem n q in (ap (λ r. x ∷ r) h.0, h.1)

pub read-IsLink : (capacity : ℕ) (p : Link) → IsLink p → IsLink (pw_link_read capacity p).1
unfolding pw_link_read
read-IsLink capacity p i =
    let n = if ltb (length p.rx) capacity then length p.rx else capacity in
    let rest = (pop_bytes n p.rx).1 in
    let shorter : length rest ≤ 65536 =
      omega (arith, ap (λ q. length q) (pop_bytes-lem n p.rx).1, length-drop n p.rx, i.rx_room) in
    with_queues p p.tx rest p.wire i i.tx_room shorter
