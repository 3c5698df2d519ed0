-- ===== src/Emulator/Queues.antt =====
-- About the queues of src/emulator.cpp.
use pokestroller.Base.{
  ℕ, zero, suc, ◌+◌, ◌-◌, ◌%◌, ◌^◌, ◌≤◌, ◌<◌, ◌≡◌, refl, ap, ◌∙◌, arith, true, false, Bool-cases,
  inl, inr, ◌⊎◌, none, some, length, List, [], ◌∷◌, ◌++◌, ◌==◌, ltb, if◌then◌else◌,
}
use pokestroller.Emulator.{
  Emulator, Round, elapsed, thrown, push_sample, push_samples, drain_loop, drain, on_transmit,
  transmit_all, run_round, pw_ir_transmit,
}
use pokestroller.Link.Lists.{length-++}

-- Both queues have at most the elements that the source allows.
pub record IsBounded {S : Type 0} (pw : Emulator S) : Type 0 where
  pub audio_room : length pw.audio ≤ 16000
  pub ir_room : length pw.ir ≤ 65536

push_sample-bound : (q : List ℕ) (x : ℕ) → length q ≤ 16000 → length (push_sample q x) ≤ 16000
unfolding push_sample
push_sample-bound [] x h = omega arith
push_sample-bound (y ∷ q) x h = elim (Bool-cases (length (y ∷ q) == 16000)) [
  | inl e ↦ rw e (omega (arith, length-++ q (x ∷ []), h))
  | inr e ↦
      let less : length (y ∷ q) < 16000 = ground (arith, e, h) in
      rw e (omega (arith, length-++ q (x ∷ []), less))
]

push_samples-bound : (q xs : List ℕ) → length q ≤ 16000 → length (push_samples q xs) ≤ 16000
unfolding push_samples
push_samples-bound q [] h = h
push_samples-bound q (x ∷ xs) h = push_samples-bound (push_sample q x) xs (push_sample-bound q x h)

-- What drain leaves and takes.
drain_loop-append : (n : ℕ) (q : List ℕ) → (drain_loop n q).0 ++ (drain_loop n q).1 ≡ q
unfolding drain_loop
drain_loop-append zero q = refl
drain_loop-append (suc n) [] = refl
drain_loop-append (suc n) (x ∷ q) = ap (λ r. x ∷ r) (drain_loop-append n q)

length-drain_loop : (n : ℕ) (q : List ℕ) → n ≤ length q → length (drain_loop n q).0 ≡ n
unfolding drain_loop
length-drain_loop zero q h = refl
length-drain_loop (suc n) [] h = absurd (omega (arith, h))
length-drain_loop (suc n) (x ∷ q) h = omega (arith, length-drain_loop n q (omega (arith, h)))

module _ {S : Type 0} where
  on_transmit-cases :
      (b : ℕ) (pw : Emulator S)
      → IsBounded pw
      → (on_transmit b pw ≡ none)
        ⊎ ((pw1 : Emulator S) × (on_transmit b pw ≡ some pw1)
            × IsBounded pw1
            × (pw1.cycles ≡ pw.cycles)
            × (pw1.target ≡ pw.target))
  unfolding on_transmit
  on_transmit-cases b pw i = elim (Bool-cases (length pw.ir == 65536)) [
    | inl e ↦ rw e (inl refl)
    | inr e ↦
        let less : length pw.ir < 65536 = ground (arith, e, i.ir_room) in
        rw e (
          inr (
            record pw { ir = pw.ir ++ (b ∷ []); last_ir_cycle = pw.cycles },
            refl,
            record {
              audio_room = i.audio_room;
              ir_room = omega (arith, less, length-++ pw.ir (b ∷ []));
            },
            refl,
            refl,
          ))
  ]

  -- The bytes of a round leave the queues bounded, and the clock and its target alone.
  pub transmit_all-IsBounded :
      (xs : List (S × ℕ)) (pw : Emulator S)
      → IsBounded pw
      → IsBounded (transmit_all xs pw).0
        × ((transmit_all xs pw).0.cycles ≡ pw.cycles)
        × ((transmit_all xs pw).0.target ≡ pw.target)
  unfolding transmit_all
  transmit_all-IsBounded [] pw i = (i, refl, refl)
  transmit_all-IsBounded ((s, x) ∷ xs) pw i = elim (on_transmit-cases x pw i) [
    | inl e ↦
        rw (e, transmit_all) (record { audio_room = i.audio_room; ir_room = i.ir_room }, refl, refl)
    | inr (pw1, e, j, c, t) ↦
        let rest = transmit_all-IsBounded xs pw1 j in
        rw (e, transmit_all) (rest.0, rest.1 ∙ c, rest.2 ∙ t)
  ]

  -- A round of the core keeps the queues bounded and the target.
  pub run_round-IsBounded :
      (r : Round S) (pw : Emulator S)
      → IsBounded pw
      → IsBounded (run_round r pw).0 × ((run_round r pw).0.target ≡ pw.target)
  unfolding run_round
  run_round-IsBounded (thrown soc e sent) pw i =
      let t = transmit_all-IsBounded sent pw i in
      elim (Bool-cases (transmit_all sent pw).1) [
        | inl e ↦ rw e (record { audio_room = t.0.audio_room; ir_room = t.0.ir_room }, t.2)
        | inr e ↦ rw e (record { audio_room = t.0.audio_room; ir_room = t.0.ir_room }, t.2)
      ]
  run_round-IsBounded (elapsed soc n sent samples) pw i =
      let t = transmit_all-IsBounded sent pw i in
      elim (Bool-cases (transmit_all sent pw).1) [
        | inl e ↦ rw e (
          record {
            audio_room = push_samples-bound (transmit_all sent pw).0.audio samples t.0.audio_room;
            ir_room = t.0.ir_room;
          },
          t.2,
        )
        | inr e ↦ rw e (record { audio_room = t.0.audio_room; ir_room = t.0.ir_room }, t.2)
      ]

  -- The transmission of IR bytes takes nothing in the first 921 cycles behind the last byte of the
  -- core. From then on it takes the oldest bytes, as many as there are and fit, and leaves the others
  -- in their order.
  pub pw_ir_transmit_lem :
      (n : ℕ) (pw : Emulator S)
      → pw.last_ir_cycle ≤ pw.cycles
      → pw.cycles < 2 ^ 64
      → let (out, pw1) = pw_ir_transmit n pw in
        (pw.cycles < pw.last_ir_cycle + 921 → (out ≡ []) × (pw1 ≡ pw))
        × (pw.last_ir_cycle + 921 ≤ pw.cycles
            → (out ++ pw1.ir ≡ pw.ir)
              × (length out ≡ (if ltb (length pw.ir) n then length pw.ir else n)))
  unfolding pw_ir_transmit drain
  pw_ir_transmit_lem n pw h k =
      let count = if ltb (length pw.ir) n then length pw.ir else n in
      let le : count ≤ length pw.ir = ground arith in
      let gap : (pw.cycles + 2 ^ 64 - pw.last_ir_cycle) % 2 ^ 64 ≡ pw.cycles - pw.last_ir_cycle =
        omega (arith, h, k) in
      (
        λ soon.
            let waits : ltb (pw.cycles - pw.last_ir_cycle) 921 ≡ true = ground (arith, soon, h) in
            rw (gap, waits) (refl, refl),
        λ late.
            let goes : ltb (pw.cycles - pw.last_ir_cycle) 921 ≡ false = ground (arith, late) in
            rw (gap, goes) (drain_loop-append count pw.ir, length-drain_loop count pw.ir le),
      )
