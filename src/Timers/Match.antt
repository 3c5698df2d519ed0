-- ===== src/Timers/Match.antt =====
-- About the timer W part of runSubClock.
use pokestroller.Base.{
  ℕ, zero, suc, ◌+◌, ◌%◌, ◌<◌, ◌≡◌, refl, sym, subst, ◌∙◌, true, false, arith, ◌==◌, has_bit,
  has_bit-bit_or, set_bit, ◌&&◌, not, Bool-cases, inl, inr, if◌then◌else◌,
}
use pokestroller.Machine.{Walker, peek}
use pokestroller.Machine.Memory.{set_memory16, get_memory16}
use pokestroller.Machine.Memory.Laws.{get_memory16-set_memory16}
use pokestroller.Timers.{tcnt, gra, tmrw, tsrw, enter_interrupt, timer_w_tick}

-- `n` calls of the timer W part of runSubClock.
abbrev pub timer_w_ticks : ℕ → Walker → Walker
timer_w_ticks zero w = w
timer_w_ticks (suc n) w = timer_w_ticks n (timer_w_tick w)

-- The timer is on and counts, and a compare match clears the count.
pub record IsMatching (w : Walker) : Type 0 where
  pub on : w.timer_w_on ≡ true
  pub counting : has_bit (peek w tmrw) 7 ≡ true
  pub clearing : has_bit (peek w 0xf0f1) 7 ≡ true

get_memory16-lt : (a : ℕ) (w : Walker) → get_memory16 a w < 65536
unfolding get_memory16
get_memory16-lt a w = omega arith

-- The state with the count `v`.
abbrev counted : ℕ → Walker → Walker
counted v w = set_memory16 tcnt v w

-- What a new count leaves alone.
counted-IsMatching : (v : ℕ) (w : Walker) → IsMatching w → IsMatching (counted v w)
unfolding set_memory16
counted-IsMatching v w c = record { on = c.on; counting = c.counting; clearing = c.clearing }

gra-counted : (v : ℕ) (w : Walker) → get_memory16 gra (counted v w) ≡ get_memory16 gra w
unfolding set_memory16 get_memory16
gra-counted v w = refl

-- One tick below the match.
below :
    (w : Walker)
    → IsMatching w
    → get_memory16 tcnt w + 1 < get_memory16 gra w
    → timer_w_tick w ≡ counted (get_memory16 tcnt w + 1) w
unfolding timer_w_tick get_memory16 set_memory16
below w c h =
    let t = get_memory16 tcnt w in
    let small : t + 1 < 65536 = omega (arith, get_memory16-lt gra w) in
    let now = get_memory16-set_memory16 tcnt (t + 1) w small in
    let apart : (t + 1 == get_memory16 gra w) ≡ false = ground arith in
    rw (c.on, c.counting, now, gra-counted (t + 1) w, apart)

-- What a match leaves behind.
abbrev pub Matched : Walker → Walker → Type 0
Matched w w' =
    (get_memory16 tcnt w' ≡ 0)
    × (has_bit (peek w' tsrw) 0 ≡ true)
    × (w'.pc ≡ (if has_bit (peek w 0xf0f2) 0 && not w.flags.i then 0x3a4a else w.pc))

bit0_set : (x : ℕ) → has_bit (set_bit x 0 % 256) 0 ≡ true
unfolding set_bit
bit0_set x = ground (arith, has_bit-bit_or x 1 0)

-- The tick that matches.
match-Matched :
    (w : Walker)
    → IsMatching w
    → get_memory16 tcnt w + 1 ≡ get_memory16 gra w
    → Matched w (timer_w_tick w)
unfolding timer_w_tick get_memory16 set_memory16 enter_interrupt
match-Matched w c h =
    let t = get_memory16 tcnt w in
    let small : t + 1 < 65536 = omega (arith, h, get_memory16-lt gra w) in
    let now = get_memory16-set_memory16 tcnt (t + 1) w small in
    let meets : (t + 1 == get_memory16 gra w) ≡ true = ground (arith, h) in
    let k = (counted-IsMatching (t + 1) w c).clearing in
    elim (Bool-cases (has_bit (w.memory 0xf0f2) 0 && not w.flags.i)) [
      | inl e ↦
          rw (c.on, c.counting, now, gra-counted (t + 1) w, meets, k, e)
            (refl, bit0_set (w.memory tsrw), refl)
      | inr e ↦
          rw (c.on, c.counting, now, gra-counted (t + 1) w, meets, k, e)
            (refl, bit0_set (w.memory tsrw), refl)
    ]

-- The count reads `v`; flag, pc and the interrupt's enabling are as they were.
abbrev pub Counted : ℕ → Walker → Walker → Type 0
Counted v w w' = (get_memory16 tcnt w' ≡ v) × (peek w' tsrw ≡ peek w tsrw) × (w'.pc ≡ w.pc)

counted-Counted : (v : ℕ) (w : Walker) → v < 65536 → Counted v w (counted v w)
counted-Counted v w h =
    (get_memory16-set_memory16 tcnt v w h, unfold set_memory16 in refl, unfold set_memory16 in refl)

Matched-counted : (v : ℕ) (w w' : Walker) → Matched (counted v w) w' → Matched w w'
unfolding set_memory16
Matched-counted v w w' m = m

-- A timer W that counts, and is cleared by a match, counts n ticks while it stays below GRA and
-- leaves its flag and pc alone. At the tick that reaches GRA it starts again at 0 and raises its
-- flag, and the program goes to its interrupt if that is enabled and not masked.
pub timer_w_period :
    (n : ℕ) (w : Walker)
    → IsMatching w
    → (get_memory16 tcnt w + n < get_memory16 gra w
        → Counted (get_memory16 tcnt w + n) w (timer_w_ticks n w))
      × (get_memory16 tcnt w + suc n ≡ get_memory16 gra w → Matched w (timer_w_ticks (suc n) w))
timer_w_period zero w c =
    ((λ h. (omega arith, refl, refl)), (λ h. match-Matched w c (omega (arith, h))))
timer_w_period (suc n) w c =
    let t = get_memory16 tcnt w in
    let w1 = counted (t + 1) w in
    let ih = timer_w_period n w1 (counted-IsMatching (t + 1) w c) in
    let same = gra-counted (t + 1) w in
    (
      (λ h.
          let first = counted-Counted (t + 1) w (omega (arith, h, get_memory16-lt gra w)) in
          let rest = ih.0 (omega (arith, h, first.0, same)) in
          subst (λ x. Counted (t + suc n) w (timer_w_ticks n x))
            (sym (below w c (omega (arith, h))))
            (omega (arith, rest.0, first.0), rest.1 ∙ first.1, rest.2 ∙ first.2)),
      (λ h.
          let first = counted-Counted (t + 1) w (omega (arith, h, get_memory16-lt gra w)) in
          subst (λ x. Matched w (timer_w_ticks (suc n) x)) (sym (below w c (omega (arith, h))))
            (Matched-counted (t + 1) w (timer_w_ticks (suc n) w1)
              (ih.1 (omega (arith, h, first.0, same))))),
    )
