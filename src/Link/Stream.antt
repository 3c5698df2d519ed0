-- ===== src/Link/Stream.antt =====
-- About the bytes that pw_link_poll of src/ir_link.cpp moves.
use pokestroller.Base.{
  ℕ, zero, suc, ◌+◌, ◌≡◌, refl, sym, ap, ap₂, subst, ◌∙◌, Bool-cases, inl, inr, ◌⊎◌, Option, none,
  some, length, List, [], ◌∷◌, ◌++◌, ◌==◌, ltb,
}
use mathlib.Core.List.{append_assoc, append-nil}
use pokestroller.Link.{
  failed, connected, Failure, os, closed_by_peer, too_much_received, Link, fail,
}
use pokestroller.Link.Lists.{take, drop, take-drop}
use pokestroller.Link.Poll.{
  Sent, taken, Received, bytes, PollAnswers, send_step, send_loop, receive_step, receive_loop,
  receive_in, transfer, poll_in, pw_link_poll,
}
use pokestroller.Link.Bounds.{Ends, Ends-bind}

-- What the calls of recv bring, from the i-th on, with the rounds left: the bytes up to the first
-- call that would block.
abbrev pub arrived_in : Received → List ℕ → List ℕ
arrived_in Received.interrupted later = later
arrived_in Received.would_block later = []
arrived_in (Received.error e) later = []
arrived_in (bytes b) later = b ++ later

abbrev pub arrived : (ℕ → Received) → ℕ → ℕ → List ℕ
arrived receives zero i = []
arrived receives (suc left) i = arrived_in (receives i) (arrived receives left (i + 1))

-- The connection has failed, or it has taken the first of the bytes to transmit, in their order.
abbrev IsSent : Link → Link → Type 0
IsSent p p' =
    (p'.state ≡ failed)
    ⊎ ((p'.wire ++ p'.tx ≡ p.wire ++ p.tx) × (p'.rx ≡ p.rx) × (p'.state ≡ p.state))

-- It has failed, or the bytes `b` were received behind the others.
abbrev IsReceived : List ℕ → Link → Link → Type 0
IsReceived b p p' =
    (p'.state ≡ failed) ⊎ ((p'.rx ≡ p.rx ++ b) × (p'.wire ≡ p.wire) × (p'.tx ≡ p.tx))

fail-failed : (e : Failure) (p : Link) → (fail e p).state ≡ failed
unfolding fail
fail-failed e p = refl

Ends-mono : (P Q : Link → Type 0) (o : Option Link) → Ends P o → ((p : Link) → P p → Q p) → Ends Q o
Ends-mono P Q none h k = tt
Ends-mono P Q (some p) h k = k p h

send_step-IsSent :
    (tx : List ℕ) (a : Sent) (later : Link → Option Link) (p : Link)
    → ((p1 : Link) → Ends (IsSent p1) (later p1))
    → Ends (IsSent p) (send_step tx a later p)
unfolding send_step
send_step-IsSent [] a later p h = inr (refl, refl, refl)
send_step-IsSent (x ∷ xs) Sent.interrupted later p h = h p
send_step-IsSent (x ∷ xs) Sent.would_block later p h = inr (refl, refl, refl)
send_step-IsSent (x ∷ xs) (Sent.error n) later p h = inl (fail-failed (os n) p)
send_step-IsSent (x ∷ xs) (taken n) later p h = elim (Bool-cases (n == 0)) [
  | inl q ↦ rw q (inr (refl, refl, refl))
  | inr q ↦ rw q (
      let p1 : Link = record p { tx = drop n p.tx; wire = p.wire ++ take n p.tx } in
      let whole : p1.wire ++ p1.tx ≡ p.wire ++ p.tx =
        append_assoc p.wire (take n p.tx) (drop n p.tx)
        ∙ ap (λ t. p.wire ++ t) (take-drop n p.tx) in
      Ends-mono (IsSent p1) (IsSent p) (later p1) (h p1)
        λ p2 s. elim s [ inl f ↦ inl f | inr (a1, a2, a3) ↦ inr (a1 ∙ whole, a2, a3) ])
]

send_loop-IsSent :
    (sends : ℕ → Sent) (fuel i : ℕ) (p : Link) → Ends (IsSent p) (send_loop sends fuel i p)
unfolding send_loop
send_loop-IsSent sends zero i p = tt
send_loop-IsSent sends (suc fuel) i p =
    send_step-IsSent p.tx (sends i) (send_loop sends fuel (i + 1)) p
      (send_loop-IsSent sends fuel (i + 1))

receive_step-IsReceived :
    (a : Received) (b : List ℕ) (later : Link → Link) (p : Link)
    → ((p1 : Link) → IsReceived b p1 (later p1))
    → IsReceived (arrived_in a b) p (receive_step a later p)
unfolding receive_step
receive_step-IsReceived Received.interrupted b later p h = h p
receive_step-IsReceived Received.would_block b later p h = inr (sym (append-nil p.rx), refl, refl)
receive_step-IsReceived (Received.error n) b later p h = inl (fail-failed (os n) p)
receive_step-IsReceived (bytes []) b later p h = inl (fail-failed closed_by_peer p)
receive_step-IsReceived (bytes (x ∷ xs)) b later p h =
    elim (Bool-cases (ltb 65536 (length p.rx + length (x ∷ xs)))) [
      | inl q ↦ rw q (inl (fail-failed too_much_received p))
      | inr q ↦ rw q (elim (h (record p { rx = p.rx ++ (x ∷ xs) })) [
        | inl f ↦ inl f
        | inr (a1, a2, a3) ↦ inr (a1 ∙ append_assoc p.rx (x ∷ xs) b, a2, a3)
      ])
    ]

receive_loop-IsReceived :
    (receives : ℕ → Received) (left i : ℕ) (p : Link)
    → IsReceived (arrived receives left i) p (receive_loop receives left i p)
unfolding receive_loop
receive_loop-IsReceived receives zero i p = inr (sym (append-nil p.rx), refl, refl)
receive_loop-IsReceived receives (suc left) i p =
    receive_step-IsReceived (receives i) (arrived receives left (i + 1))
      (receive_loop receives left (i + 1)) p (receive_loop-IsReceived receives left (i + 1))

poll_in_connected :
    (server : Option ℕ) (d fuel : ℕ) (a : PollAnswers) (p : Link)
    → poll_in connected server (some d) fuel a p ≡ transfer fuel a p
unfolding poll_in
poll_in_connected none d fuel a p = refl
poll_in_connected (some s) d fuel a p = refl

-- What a poll does to the two streams.
abbrev pub IsMoved : (ℕ → Received) → Link → Link → Type 0
IsMoved receives p p' =
    (p'.state ≡ failed)
    ⊎ ((p'.wire ++ p'.tx ≡ p.wire ++ p.tx) × (p'.rx ≡ p.rx ++ arrived receives 16 0))

receive_in-IsMoved :
    (receives : ℕ → Received) (p p1 : Link)
    → p.state ≡ connected
    → IsSent p p1
    → IsMoved receives p (receive_in p1.state receives p1)
unfolding receive_in
receive_in-IsMoved receives p p1 c (inl f) =
    inl (subst (λ s. (receive_in s receives p1).state ≡ failed) (sym f) f)
receive_in-IsMoved receives p p1 c (inr (sent, same, still)) =
    subst (λ s. IsMoved receives p (receive_in s receives p1)) (sym (still ∙ c))
      (elim (receive_loop-IsReceived receives 16 0 p1) [
        | inl f ↦ inl f
        | inr (r, w, t) ↦
            inr (ap₂ (λ x y. x ++ y) w t ∙ sent, r ∙ ap (λ x. x ++ arrived receives 16 0) same)
      ])

transfer-IsMoved :
    (fuel : ℕ) (a : PollAnswers) (p : Link)
    → p.state ≡ connected
    → Ends (IsMoved a.receives p) (transfer fuel a p)
unfolding transfer
transfer-IsMoved fuel a p c =
    Ends-bind (IsSent p) (IsMoved a.receives p) (send_loop a.sends fuel 0 p)
      (λ p1. receive_in p1.state a.receives p1) (send_loop-IsSent a.sends fuel 0 p)
      (λ p1 s. receive_in-IsMoved a.receives p p1 c s)

-- After a poll of a link that is connected: the link has failed, or the bytes that the connection
-- took, followed by those that still wait, are those of before, so that the transmission keeps their
-- order and loses none; and what the first 16 calls of recv brought stands behind the bytes received
-- before.
pub poll_stream :
    (fuel : ℕ) (a : PollAnswers) (p : Link) (d : ℕ)
    → p.state ≡ connected
    → p.peer ≡ some d
    → Ends (IsMoved a.receives p) (pw_link_poll fuel a p)
unfolding pw_link_poll
poll_stream fuel a p d e e' =
    let here =
      ap₂ (λ s t. poll_in s p.server t fuel a p) e e' ∙ poll_in_connected p.server d fuel a p in
    subst (Ends (IsMoved a.receives p)) (sym here) (transfer-IsMoved fuel a p e)
