-- ===== src/Interrupts/Keys.antt =====
-- About setKeys and the interrupt IRQ0 of the ENTER key.
use mathlib.Core.List.{append_assoc}
use pokestroller.Base.{
  ℕ, ◌%◌, ◌≡◌, refl, arith, true, false, not, ◌&&◌, ◌++◌, ◌∷◌, [], has_bit, set_bit,
  has_bit-set_bit,
}
use pokestroller.Machine.{Walker, peek}
use pokestroller.Interrupts.{irr1, ienr1, set_keys, interrupts}

set_enter : (x : ℕ) → has_bit (set_bit x 0 % 256) 0 ≡ true
set_enter x =
    let low : has_bit (set_bit x 0 % 256) 0 ≡ has_bit (set_bit x 0) 0 = ground arith in
    rw (low, has_bit-set_bit x 0 0) (ground arith)

-- An input without the ENTER bit, or that comes while interrupts are masked, is put into the queue
-- with a release at once, and wakes the processor. An input with the ENTER bit that comes while they
-- are not masked leaves the queue as it was; where IRQ0 is enabled and interrupts are handled next,
-- that handling queues ENTER alone with a release, wakes the processor and goes to the vector of IRQ0.
pub set_keys_lem :
    (input : ℕ) (w : Walker)
    → ((not w.flags.i && has_bit input 0) ≡ false
        → let w' = set_keys input w in
          (w'.input_queue ≡ w.input_queue ++ (input ∷ 0 ∷ [])) × (w'.sleep ≡ false))
      × ((not w.flags.i && has_bit input 0) ≡ true
          → ((set_keys input w).input_queue ≡ w.input_queue)
            × (has_bit (peek w ienr1) 0 ≡ true
                → let w' = interrupts (set_keys input w) in
                  (w'.input_queue ≡ w.input_queue ++ (1 ∷ 0 ∷ []))
                  × (w'.sleep ≡ false)
                  × (w'.pc ≡ 0xa300)))
unfolding set_keys interrupts
set_keys_lem input w = (
  (λ h. rw h (append_assoc w.input_queue (input ∷ []) (0 ∷ []), refl)),
  (λ h. (
    rw h refl,
    λ k.
        let unmasked : w.flags.i ≡ false = ground (arith, h) in
        rw (h, unmasked, set_enter (peek w irr1), k)
          (append_assoc w.input_queue (1 ∷ []) (0 ∷ []), refl, refl),
  )),
)
