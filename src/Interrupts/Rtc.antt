-- ===== src/Interrupts/Rtc.antt =====
-- About quarterRTCInterrupt, halfRTCInterrupt and secondRTCInterrupt.
use pokestroller.Base.{
  ℕ, zero, suc, ◌+◌, ◌/◌, ◌%◌, ◌<◌, ◌≡◌, ◌∙◌, refl, ap, ◌&&◌, arith, Bool, true, false, ◌||◌, ltb,
  ◌==◌, Bool-cases, inl, inr, has_bit, set_bit, has_bit-set_bit,
}
use pokestroller.Machine.{Walker, peek}
use pokestroller.Interrupts.{
  rtcflg, irr1, ienr1, interrupts, half_rtc_interrupt, second_rtc_interrupt, quarter_rtc_interrupt,
}

-- `n` calls of quarterRTCInterrupt.
abbrev pub quarters : ℕ → Walker → Walker
quarters zero w = w
quarters (suc n) w = quarters n (quarter_rtc_interrupt w)

low_bit : (x j : ℕ) → j < 3 → has_bit (x % 256) j ≡ has_bit x j
low_bit x zero h = ground arith
low_bit x (suc zero) h = ground arith
low_bit x (suc (suc zero)) h = ground arith
low_bit x (suc (suc (suc j))) h = absurd (omega arith)

-- The flag of a byte that another one was set in.
raised : (x i j : ℕ) → i < 3 → j < 3 → has_bit (set_bit x i % 256) j ≡ (has_bit x j || (i == j))
raised x i j h k = rw (low_bit (set_bit x i) j k, has_bit-set_bit x i j)

-- What one call does to the flags.
abbrev pub Counts : ℕ → Walker → Walker → Type 0
Counts n w w' =
    (w'.quarters_ellapsed ≡ (w.quarters_ellapsed + n) % 256)
    × (has_bit (peek w' rtcflg) 0 ≡ (has_bit (peek w rtcflg) 0 || ltb 0 n))
    × (has_bit (peek w' rtcflg) 1 ≡ (
        has_bit (peek w rtcflg) 1 || ltb (w.quarters_ellapsed / 2) ((w.quarters_ellapsed + n) / 2)))
    × (has_bit (peek w' rtcflg) 2 ≡ (
        has_bit (peek w rtcflg) 2 || ltb (w.quarters_ellapsed / 4) ((w.quarters_ellapsed + n) / 4)))

quarter-Counts : (w : Walker) → w.quarters_ellapsed < 256 → Counts 1 w (quarter_rtc_interrupt w)
unfolding quarter_rtc_interrupt half_rtc_interrupt second_rtc_interrupt
quarter-Counts w h =
    let f = peek w rtcflg in
    let f1 = set_bit f 0 % 256 in
    let f2 = set_bit f1 1 % 256 in
    elim (Bool-cases ((w.quarters_ellapsed + 1) % 256 % 2 == 0)) [
      | inl e ↦ elim (Bool-cases ((w.quarters_ellapsed + 1) % 256 % 4 == 0)) [
        | inl e' ↦
            rw (e, e')
              (
                ground arith,
                ground (
                  arith,
                  e,
                  e',
                  raised f 0 0 (omega arith) (omega arith),
                  raised f1 1 0 (omega arith) (omega arith),
                  raised f2 2 0 (omega arith) (omega arith),
                ),
                ground (
                  arith,
                  e,
                  e',
                  raised f 0 1 (omega arith) (omega arith),
                  raised f1 1 1 (omega arith) (omega arith),
                  raised f2 2 1 (omega arith) (omega arith),
                ),
                ground (
                  arith,
                  e,
                  e',
                  raised f 0 2 (omega arith) (omega arith),
                  raised f1 1 2 (omega arith) (omega arith),
                  raised f2 2 2 (omega arith) (omega arith),
                ),
              )
        | inr e' ↦
            rw (e, e')
              (
                ground arith,
                ground (
                  arith,
                  e,
                  e',
                  raised f 0 0 (omega arith) (omega arith),
                  raised f1 1 0 (omega arith) (omega arith),
                ),
                ground (
                  arith,
                  e,
                  e',
                  raised f 0 1 (omega arith) (omega arith),
                  raised f1 1 1 (omega arith) (omega arith),
                ),
                ground (
                  arith,
                  e,
                  e',
                  raised f 0 2 (omega arith) (omega arith),
                  raised f1 1 2 (omega arith) (omega arith),
                ),
              )
      ]
      | inr e ↦ elim (Bool-cases ((w.quarters_ellapsed + 1) % 256 % 4 == 0)) [
        | inl e' ↦ absurd (ground arith)
        | inr e' ↦
            rw (e, e')
              (
                ground arith,
                ground (arith, e, e', raised f 0 0 (omega arith) (omega arith)),
                ground (arith, e, e', raised f 0 1 (omega arith) (omega arith)),
                ground (arith, e, e', raised f 0 2 (omega arith) (omega arith)),
              )
      ]
    ]

-- A multiple of 2 or 4 is passed in one step, or in the others, also where the count wraps.
halves_passed :
    (q n : ℕ)
    → q < 256
    → (ltb (q / 2) ((q + 1) / 2) || ltb ((q + 1) % 256 / 2) (((q + 1) % 256 + n) / 2))
      ≡ ltb (q / 2) ((q + suc n) / 2)
halves_passed q n h = ground arith

seconds_passed :
    (q n : ℕ)
    → q < 256
    → (ltb (q / 4) ((q + 1) / 4) || ltb ((q + 1) % 256 / 4) (((q + 1) % 256 + n) / 4))
      ≡ ltb (q / 4) ((q + suc n) / 4)
seconds_passed q n h = ground arith

or_assoc : (a b c d : Bool) → (b || c) ≡ d → ((a || b) || c) ≡ (a || d)
or_assoc true b c d h = refl
or_assoc false b c d h = h

-- After n quarter seconds from a count q, the count is q + n modulo 256, the flag of the quarter
-- second is raised if n is not 0, that of the half second if a multiple of 2 was passed, and that
-- of the second if a multiple of 4 was passed; a flag that was raised stays so.
pub quarters-Counts : (n : ℕ) (w : Walker) → w.quarters_ellapsed < 256 → Counts n w (quarters n w)
quarters-Counts zero w h = (omega arith, ground arith, ground arith, ground arith)
quarters-Counts (suc n) w h =
    let one = quarter-Counts w h in
    let rest = quarters-Counts n (quarter_rtc_interrupt w) (omega (arith, one.0)) in
    (
      omega (arith, one.0, rest.0),
      rest.1 ∙ ground (arith, one.1),
      rest.2 ∙ rw (one.0, one.2) (or_assoc _ _ _ _ (halves_passed w.quarters_ellapsed n h)),
      rest.3 ∙ rw (one.0, one.3) (or_assoc _ _ _ _ (seconds_passed w.quarters_ellapsed n h)),
    )

quarter_keeps :
    (w : Walker)
    → ((quarter_rtc_interrupt w).flags.i ≡ w.flags.i)
      × (peek (quarter_rtc_interrupt w) ienr1 ≡ peek w ienr1)
unfolding quarter_rtc_interrupt half_rtc_interrupt second_rtc_interrupt
quarter_keeps w = (ground arith, ground arith)

flag_wakes :
    (w : Walker)
    → w.flags.i ≡ false
    → has_bit (peek w ienr1) 7 ≡ true
    → has_bit (peek w rtcflg) 0 ≡ true
    → (interrupts w).sleep ≡ false
unfolding interrupts
flag_wakes w i e f = elim (Bool-cases (has_bit (peek w irr1) 0 && has_bit (peek w ienr1) 0)) [
  | inl q ↦ rw (i, q) refl
  | inr q ↦ rw (i, q, e, f) refl
]

-- A processor that sleeps with interrupts unmasked and the RTC enabled is woken by the first handling
-- of interrupts behind a quarter of a second.
pub quarter_wakes :
    (w : Walker)
    → w.quarters_ellapsed < 256
    → w.flags.i ≡ false
    → has_bit (peek w ienr1) 7 ≡ true
    → (interrupts (quarter_rtc_interrupt w)).sleep ≡ false
quarter_wakes w h i e =
    let q = quarter_rtc_interrupt w in
    let k = quarter_keeps w in
    let raised_now : has_bit (peek q rtcflg) 0 ≡ true = ground (arith, (quarter-Counts w h).1) in
    flag_wakes q (k.0 ∙ i) (ap (λ b. has_bit b 7) k.1 ∙ e) raised_now
