-- ===== src/Link/Poll.antt =====
-- pw_link_poll of src/ir_link.cpp.
use pokestroller.Base.{
  ℕ, zero, suc, ◌+◌, Option, none, some, length, List, [], ◌∷◌, ◌++◌, ◌==◌, ltb, if◌then◌else◌,
}
use pokestroller.Link.{
  State, failed, off, waiting, connected, os, closed_by_peer, too_much_received, Link, fail,
}
use pokestroller.Link.Lists.{take, drop}

-- What accept returns; `again` is EAGAIN, EWOULDBLOCK or EINTR.
pub data Accepted : Type 0 where
  again : Accepted
  error : ℕ → Accepted
  new_fd : ℕ → Accepted

-- What poll and getsockopt return: not writable yet, a failed call, or the socket's error.
pub data Progress : Type 0 where
  not_yet : Progress
  call_failed : ℕ → Progress
  socket_error : ℕ → Progress

-- What a call of send returns; `would_block` is EAGAIN or EWOULDBLOCK.
pub data Sent : Type 0 where
  interrupted would_block : Sent
  error : ℕ → Sent
  taken : ℕ → Sent

-- What a call of recv returns; `bytes []` is the end of the connection.
pub data Received : Type 0 where
  interrupted would_block : Received
  error : ℕ → Received
  bytes : List ℕ → Received

-- The answers of one poll: those of the n-th calls of send and recv are `sends n` and `receives n`.
pub record PollAnswers : Type 0 where
  pub accepted : Accepted
  pub progress : Progress
  pub sends : ℕ → Sent
  pub receives : ℕ → Received

-- One round of `while (!p->tx.empty())`: the queue, and the answer of send if it is called.
unfoldable pub send_step : List ℕ → Sent → (Link → Option Link) → Link → Option Link
send_step [] a later p = some p
send_step (x ∷ xs) interrupted later p = later p
send_step (x ∷ xs) would_block later p = some p
send_step (x ∷ xs) (error e) later p = some (fail (os e) p)
send_step (x ∷ xs) (taken n) later p =
    let rest = later (record p { tx = drop n p.tx; wire = p.wire ++ take n p.tx }) in
    if n == 0 then some p else rest

-- The loop, from the i-th call of send on; `none` where the rounds given are not enough.
unfoldable pub send_loop : (ℕ → Sent) → ℕ → ℕ → Link → Option Link
send_loop sends zero i p = none
send_loop sends (suc fuel) i p = send_step p.tx (sends i) (send_loop sends fuel (i + 1)) p

-- One round of `for (int i=0;i<16;i++)`, and the later ones.
unfoldable pub receive_step : Received → (Link → Link) → Link → Link
receive_step interrupted later p = later p
receive_step would_block later p = p
receive_step (error e) later p = fail (os e) p
receive_step (bytes []) later p = fail closed_by_peer p
receive_step (bytes (x ∷ xs)) later p =
    let rest = later (record p { rx = p.rx ++ (x ∷ xs) }) in
    if ltb 65536 (length p.rx + length (x ∷ xs)) then fail too_much_received p else rest

-- The loop, with the rounds left.
unfoldable pub receive_loop : (ℕ → Received) → ℕ → ℕ → Link → Link
receive_loop receives zero i p = p
receive_loop receives (suc left) i p =
    receive_step (receives i) (receive_loop receives left (i + 1)) p

-- Behind the transmission: `if (p->state != 2) return`, and the reception.
unfoldable pub receive_in : State → (ℕ → Received) → Link → Link
receive_in connected receives p = receive_loop receives 16 0 p
receive_in failed receives p = p
receive_in off receives p = p
receive_in waiting receives p = p

-- The two queues of a connection.
unfoldable pub transfer : ℕ → PollAnswers → Link → Option Link
transfer fuel a p = elim (send_loop a.sends fuel 0 p) [
  | none ↦ none
  | some p1 ↦ some (receive_in p1.state a.receives p1)
]

-- `if (p->state == 1)` with a peer.
unfoldable pub finish_connect : Progress → ℕ → PollAnswers → Link → Option Link
finish_connect not_yet fuel a p = some p
finish_connect (call_failed e) fuel a p = some (fail (os e) p)
finish_connect (socket_error e) fuel a p =
    if e == 0 then transfer fuel a (record p { state = connected }) else some (fail (os e) p)

-- `if (p->server >= 0 && p->peer < 0)`
unfoldable pub accept_peer : Accepted → ℕ → PollAnswers → Link → Option Link
accept_peer again fuel a p = some p
accept_peer (error e) fuel a p = some (fail (os e) p)
accept_peer (new_fd fd) fuel a p =
    transfer fuel a
      (record p { peer = some fd; state = connected; open_fds = p.open_fds ++ (fd ∷ []) })

unfoldable pub poll_in : State → Option ℕ → Option ℕ → ℕ → PollAnswers → Link → Option Link
poll_in failed server peer fuel a p = some p
poll_in off server peer fuel a p = some p
poll_in waiting (some s) none fuel a p = accept_peer a.accepted fuel a p
poll_in connected (some s) none fuel a p = accept_peer a.accepted fuel a p
poll_in waiting none peer fuel a p = finish_connect a.progress fuel a p
poll_in waiting (some s) (some d) fuel a p = finish_connect a.progress fuel a p
poll_in connected none peer fuel a p = transfer fuel a p
poll_in connected (some s) (some d) fuel a p = transfer fuel a p

unfoldable pub pw_link_poll : ℕ → PollAnswers → Link → Option Link
pw_link_poll fuel a p = poll_in p.state p.server p.peer fuel a p
