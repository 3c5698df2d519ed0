-- ===== src/Link/Ending.antt =====
-- The loop of pw_link_poll of src/ir_link.cpp ends.
use pokestroller.Base.{
  ℕ, zero, suc, ◌+◌, ◌-◌, ◌≤◌, ◌<◌, ◌≡◌, ◌≢◌, refl, ap, arith, Bool-cases, inl, inr, Option, none,
  some, length, List, [], ◌∷◌, ◌++◌, ◌==◌, ltb,
}
use mathlib.Core.Option.{none-ne-some}
use pokestroller.Link.{State, failed, off, waiting, connected, os, Link, fail}
use pokestroller.Link.Lists.{take, drop, length-drop}
use pokestroller.Link.Poll.{
  Accepted, again, new_fd, Progress, not_yet, call_failed, socket_error, Sent, taken, PollAnswers,
  send_step, send_loop, receive_in, transfer, finish_connect, accept_peer, poll_in, pw_link_poll,
}

-- The loop has ended with a link.
abbrev pub IsEnded : Option Link → Type 0
IsEnded o = (p : Link) × (o ≡ some p)

send_step-IsEnded :
    (tx : List ℕ) (a : Sent) (later : Link → Option Link) (p : Link)
    → p.tx ≡ tx
    → (a ≡ Sent.interrupted → IsEnded (later p))
    → ((p' : Link) → length p'.tx < length tx → IsEnded (later p'))
    → IsEnded (send_step tx a later p)
unfolding send_step
send_step-IsEnded [] a later p e h k = (p, refl)
send_step-IsEnded (x ∷ xs) Sent.interrupted later p e h k = h refl
send_step-IsEnded (x ∷ xs) Sent.would_block later p e h k = (p, refl)
send_step-IsEnded (x ∷ xs) (Sent.error n) later p e h k = (fail (os n) p, refl)
send_step-IsEnded (x ∷ xs) (taken n) later p e h k = elim (Bool-cases (n == 0)) [
  | inl q ↦ rw q (p, refl)
  | inr q ↦
      let p1 = record p { tx = drop n p.tx; wire = p.wire ++ take n p.tx } in
      let positive : 0 < n = ground (arith, q) in
      rw q (k p1 (omega (arith, length-drop n p.tx, ap (λ t. length t) e, positive)))
]

module _ (sends : ℕ → Sent) (m : ℕ) (h : (i : ℕ) → m ≤ i → sends i ≢ Sent.interrupted) where
  send_loop-IsEnded :
      (fuel i : ℕ) (p : Link) → (m - i) + length p.tx < fuel → IsEnded (send_loop sends fuel i p)
  unfolding send_loop
  send_loop-IsEnded zero i p k = absurd (omega (arith, k))
  send_loop-IsEnded (suc fuel) i p k =
      send_step-IsEnded p.tx (sends i) (send_loop sends fuel (i + 1)) p refl
        (λ e.
          let early : i < m = elim (Bool-cases (ltb i m)) [
            | inl q ↦ ground (arith, q)
            | inr q ↦ absurd (h i (ground (arith, q)) e)
          ] in
          send_loop-IsEnded fuel (i + 1) p (omega (arith, k, early)))
        (λ p' l. send_loop-IsEnded fuel (i + 1) p' (omega (arith, k, l)))

IsEnded-bind :
    (o : Option Link) (f : Link → Link)
    → IsEnded o
    → IsEnded (elim o [ none ↦ none | some p1 ↦ some (f p1) ])
IsEnded-bind none f h = absurd (none-ne-some h.0 h.1)
IsEnded-bind (some p) f h = (f p, refl)

transfer-IsEnded :
    (fuel m : ℕ) (a : PollAnswers) (p : Link)
    → ((i : ℕ) → m ≤ i → a.sends i ≢ Sent.interrupted)
    → m + length p.tx < fuel
    → IsEnded (transfer fuel a p)
unfolding transfer
transfer-IsEnded fuel m a p h k =
    IsEnded-bind (send_loop a.sends fuel 0 p) (λ p1. receive_in p1.state a.receives p1)
      (send_loop-IsEnded a.sends m h fuel 0 p (omega (arith, k)))

module _ (fuel : ℕ) (a : PollAnswers) (p : Link)
    (h : (p1 : Link) → p1.tx ≡ p.tx → IsEnded (transfer fuel a p1)) where
  finish_connect-IsEnded : (r : Progress) → IsEnded (finish_connect r fuel a p)
  unfolding finish_connect
  finish_connect-IsEnded not_yet = (p, refl)
  finish_connect-IsEnded (call_failed n) = (fail (os n) p, refl)
  finish_connect-IsEnded (socket_error n) = elim (Bool-cases (n == 0)) [
    | inl q ↦ rw q (h _ refl)
    | inr q ↦ rw q (fail (os n) p, refl)
  ]

  accept_peer-IsEnded : (r : Accepted) → IsEnded (accept_peer r fuel a p)
  unfolding accept_peer
  accept_peer-IsEnded again = (p, refl)
  accept_peer-IsEnded (Accepted.error n) = (fail (os n) p, refl)
  accept_peer-IsEnded (new_fd fd) = h _ refl

  poll_in-IsEnded : (s : State) (server peer : Option ℕ) → IsEnded (poll_in s server peer fuel a p)
  unfolding poll_in
  poll_in-IsEnded failed server peer = (p, refl)
  poll_in-IsEnded off server peer = (p, refl)
  poll_in-IsEnded waiting (some s) none = accept_peer-IsEnded a.accepted
  poll_in-IsEnded connected (some s) none = accept_peer-IsEnded a.accepted
  poll_in-IsEnded waiting none peer = finish_connect-IsEnded a.progress
  poll_in-IsEnded waiting (some s) (some d) = finish_connect-IsEnded a.progress
  poll_in-IsEnded connected none peer = h p refl
  poll_in-IsEnded connected (some s) (some d) = h p refl

-- The send loop of a poll ends: if the operating system interrupts no call of send from the m-th on,
-- then `m` rounds, one for each byte that waits and one more are enough, in every state of the link.
pub poll_ends :
    (m : ℕ) (a : PollAnswers) (p : Link)
    → ((i : ℕ) → m ≤ i → a.sends i ≢ Sent.interrupted)
    → IsEnded (pw_link_poll (m + length p.tx + 1) a p)
unfolding pw_link_poll
poll_ends m a p h =
    poll_in-IsEnded (m + length p.tx + 1) a p
      (λ p1 e.
        transfer-IsEnded (m + length p.tx + 1) m a p1 h (omega (arith, ap (λ t. length t) e)))
      p.state p.server p.peer
