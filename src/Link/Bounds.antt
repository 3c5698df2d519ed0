-- ===== src/Link/Bounds.antt =====
-- About pw_link_poll of src/ir_link.cpp, and sequences of calls of the link.
use pokestroller.Base.{
  ℕ, zero, suc, ◌+◌, ◌≤◌, ◌≡◌, refl, sym, subst, arith, Bool, Bool-cases, inl, inr, Option, none,
  some, length, List, [], ◌∷◌, ◌++◌, ◌==◌, ltb,
}
use pokestroller.Link.{
  State, failed, off, waiting, connected, os, closed_by_peer, too_much_received, Link,
  pw_link_create, pw_link_close, SocketAnswers, ListenAnswers, Connected, pw_link_listen,
  pw_link_connect, pw_link_send, pw_link_read,
}
use pokestroller.Link.Lists.{take, drop, length-++, length-drop}
use pokestroller.Link.Poll.{
  Accepted, again, new_fd, Progress, not_yet, call_failed, socket_error, Sent, taken, Received,
  bytes, PollAnswers, send_step, send_loop, receive_step, receive_loop, receive_in, transfer,
  finish_connect, accept_peer, poll_in, pw_link_poll,
}
use pokestroller.Link.Held.{
  is_failed, is_off, accepted, joined, IsLink, Places, listed, listening, connecting, fail-IsLink,
  with_queues, create-IsLink, close-create, listen-IsLink, connect-IsLink, send_to-IsLink,
  read-IsLink,
}

-- A property of the link if the rounds are enough.
abbrev pub Ends : (Link → Type 0) → Option Link → Type 0
Ends P none = Unit
Ends P (some p) = P p

send_step-IsLink :
    (tx : List ℕ) (a : Sent) (later : Link → Option Link) (p : Link)
    → IsLink p
    → ((p' : Link) → IsLink p' → Ends IsLink (later p'))
    → Ends IsLink (send_step tx a later p)
unfolding send_step
send_step-IsLink [] a later p i h = i
send_step-IsLink (x ∷ xs) Sent.interrupted later p i h = h p i
send_step-IsLink (x ∷ xs) Sent.would_block later p i h = i
send_step-IsLink (x ∷ xs) (Sent.error e) later p i h = fail-IsLink (os e) p i.held
send_step-IsLink (x ∷ xs) (taken n) later p i h = elim (Bool-cases (n == 0)) [
  | inl e ↦ rw e i
  | inr e ↦ rw e (
      h _ (
        with_queues p (drop n p.tx) p.rx (p.wire ++ take n p.tx) i
          (omega (arith, length-drop n p.tx, i.tx_room)) i.rx_room))
]

send_loop-IsLink :
    (sends : ℕ → Sent) (fuel k : ℕ) (p : Link) → IsLink p → Ends IsLink (send_loop sends fuel k p)
unfolding send_loop
send_loop-IsLink sends zero k p i = tt
send_loop-IsLink sends (suc fuel) k p i =
    send_step-IsLink p.tx (sends k) (send_loop sends fuel (k + 1)) p i
      (send_loop-IsLink sends fuel (k + 1))

receive_step-IsLink :
    (a : Received) (later : Link → Link) (p : Link)
    → IsLink p
    → ((p' : Link) → IsLink p' → IsLink (later p'))
    → IsLink (receive_step a later p)
unfolding receive_step
receive_step-IsLink Received.interrupted later p i h = h p i
receive_step-IsLink Received.would_block later p i h = i
receive_step-IsLink (Received.error e) later p i h = fail-IsLink (os e) p i.held
receive_step-IsLink (bytes []) later p i h = fail-IsLink closed_by_peer p i.held
receive_step-IsLink (bytes (x ∷ xs)) later p i h =
    elim (Bool-cases (ltb 65536 (length p.rx + length (x ∷ xs)))) [
      | inl e ↦ rw e (fail-IsLink too_much_received p i.held)
      | inr e ↦
          let room : length p.rx + length (x ∷ xs) ≤ 65536 = ground (arith, e) in
          rw e (
            h _ (
              with_queues p p.tx (p.rx ++ (x ∷ xs)) p.wire i i.tx_room
                (omega (arith, length-++ p.rx (x ∷ xs), room))))
    ]

receive_loop-IsLink :
    (receives : ℕ → Received) (left k : ℕ) (p : Link)
    → IsLink p
    → IsLink (receive_loop receives left k p)
unfolding receive_loop
receive_loop-IsLink receives zero k p i = i
receive_loop-IsLink receives (suc left) k p i =
    receive_step-IsLink (receives k) (receive_loop receives left (k + 1)) p i
      (receive_loop-IsLink receives left (k + 1))

receive_in-IsLink :
    (s : State) (receives : ℕ → Received) (p : Link) → IsLink p → IsLink (receive_in s receives p)
unfolding receive_in
receive_in-IsLink failed receives p i = i
receive_in-IsLink off receives p i = i
receive_in-IsLink waiting receives p i = i
receive_in-IsLink connected receives p i = receive_loop-IsLink receives 16 0 p i

pub Ends-bind :
    (P Q : Link → Type 0) (o : Option Link) (f : Link → Link)
    → Ends P o
    → ((p : Link) → P p → Q (f p))
    → Ends Q (elim o [ none ↦ none | some p1 ↦ some (f p1) ])
Ends-bind P Q none f h k = tt
Ends-bind P Q (some p) f h k = k p h

transfer-IsLink :
    (fuel : ℕ) (a : PollAnswers) (p : Link) → IsLink p → Ends IsLink (transfer fuel a p)
unfolding transfer
transfer-IsLink fuel a p i =
    Ends-bind IsLink IsLink (send_loop a.sends fuel 0 p) (λ p1. receive_in p1.state a.receives p1)
      (send_loop-IsLink a.sends fuel 0 p i) (λ p1 j. receive_in-IsLink p1.state a.receives p1 j)

-- The link with a connection.
connected-IsLink :
    (p : Link) (d : ℕ) (fds : List ℕ)
    → IsLink p
    → Places connected p.server (some d)
    → fds ≡ listed p.server ++ (d ∷ [])
    → IsLink (record p { peer = some d; state = connected; open_fds = fds })
connected-IsLink p d fds i h k = record {
  places = h;
  held = k;
  tx_room = i.tx_room;
  rx_room = i.rx_room;
}

accept_peer-IsLink :
    (r : Accepted) (fuel : ℕ) (a : PollAnswers) (p : Link) (s : ℕ)
    → IsLink p
    → p.server ≡ some s
    → p.peer ≡ none
    → Ends IsLink (accept_peer r fuel a p)
unfolding accept_peer
accept_peer-IsLink again fuel a p s i e e' = i
accept_peer-IsLink (Accepted.error n) fuel a p s i e e' = fail-IsLink (os n) p i.held
accept_peer-IsLink (new_fd fd) fuel a p s i e e' = transfer-IsLink fuel a _ (
    connected-IsLink p fd (p.open_fds ++ (fd ∷ [])) i (rw e (accepted s fd))
      (rw (i.held, e, e') refl))

finish_connect-IsLink :
    (r : Progress) (fuel : ℕ) (a : PollAnswers) (p : Link) (d : ℕ)
    → IsLink p
    → p.server ≡ none
    → p.peer ≡ some d
    → Ends IsLink (finish_connect r fuel a p)
unfolding finish_connect
finish_connect-IsLink not_yet fuel a p d i e e' = i
finish_connect-IsLink (call_failed n) fuel a p d i e e' = fail-IsLink (os n) p i.held
finish_connect-IsLink (socket_error n) fuel a p d i e e' = elim (Bool-cases (n == 0)) [
  | inl q ↦ rw q (
      transfer-IsLink fuel a _ (record {
        places = rw (e, e') (joined d);
        held = i.held;
        tx_room = i.tx_room;
        rx_room = i.rx_room;
      }))
  | inr q ↦ rw q (fail-IsLink (os n) p i.held)
]

poll_in-IsLink :
    (s : State) (server peer : Option ℕ)
    → Places s server peer
    → (fuel : ℕ) (a : PollAnswers) (p : Link) → IsLink p
    → p.server ≡ server
    → p.peer ≡ peer
    → Ends IsLink (poll_in s server peer fuel a p)
unfolding poll_in
poll_in-IsLink _ _ _ is_failed fuel a p i e e' = i
poll_in-IsLink _ _ _ is_off fuel a p i e e' = i
poll_in-IsLink _ _ _ (listening s) fuel a p i e e' = accept_peer-IsLink a.accepted fuel a p s i e e'
poll_in-IsLink _ _ _ (connecting d) fuel a p i e e' =
    finish_connect-IsLink a.progress fuel a p d i e e'
poll_in-IsLink _ _ _ (accepted s d) fuel a p i e e' = transfer-IsLink fuel a p i
poll_in-IsLink _ _ _ (joined d) fuel a p i e e' = transfer-IsLink fuel a p i

poll-IsLink :
    (fuel : ℕ) (a : PollAnswers) (p : Link) → IsLink p → Ends IsLink (pw_link_poll fuel a p)
unfolding pw_link_poll
poll-IsLink fuel a p i = poll_in-IsLink p.state p.server p.peer i.places fuel a p i refl refl

-- What the front end does with the link; `fuel` is the rounds of a poll's transmission.
pub data Call : Type 0 where
  listen : SocketAnswers → ListenAnswers → Call
  connect : Bool → ℕ → SocketAnswers → Connected → Call
  poll : ℕ → PollAnswers → Call
  send : List ℕ → Call
  read : ℕ → Call
  close : Call

abbrev pub call : Call → Link → Option Link
call (listen s a) p = some (pw_link_listen s a p).1
call (connect ok port s c) p = some (pw_link_connect ok port s c p).1
call (poll fuel a) p = pw_link_poll fuel a p
call (send sent) p = some (pw_link_send sent p).1
call (read capacity) p = some (pw_link_read capacity p).1
call close p = some (pw_link_close p)

-- The link behind a sequence of calls, as long as the rounds are enough.
pub data Reached : Link → Type 0 where
  created : Reached pw_link_create
  called : (c : Call) (p p' : Link) → Reached p → call c p ≡ some p' → Reached p'

call-IsLink : (c : Call) (p : Link) → IsLink p → Ends IsLink (call c p)
unfolding pw_link_send
call-IsLink (listen s a) p i = listen-IsLink s a p i
call-IsLink (connect ok port s c) p i = connect-IsLink ok port s c p i
call-IsLink (poll fuel a) p i = poll-IsLink fuel a p i
call-IsLink (send sent) p i = send_to-IsLink p.state sent p i
call-IsLink (read capacity) p i = read-IsLink capacity p i
call-IsLink close p i = subst IsLink (sym (close-create p i)) create-IsLink

-- However the calls of the link follow one another, and whatever the operating system answers: the
-- descriptors that are open are exactly those that the link names, none when it is off or has
-- failed, so that no call loses one; and both queues hold at most 65536 bytes.
pub Reached-IsLink : (p : Link) → Reached p → IsLink p
Reached-IsLink _ created = create-IsLink
Reached-IsLink _ (called c p0 p r e) =
    subst (Ends IsLink) e (call-IsLink c p0 (Reached-IsLink p0 r))
