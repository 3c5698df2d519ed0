-- ===== src/Emulator/Run.antt =====
-- About the loop of pw_run of src/emulator.cpp.
use pokestroller.Base.{
  ℕ, zero, suc, ◌+◌, ◌%◌, ◌^◌, ◌≤◌, ◌<◌, ◌≡◌, ◌≢◌, refl, ap, sym, ◌∙◌, arith, Bool, true, false,
  Bool-cases, inl, inr, ◌⊎◌, Option, none, some, ltb,
}
use mathlib.Core.Bool.{false≢true}
use mathlib.Core.Option.{some-ne-none}
use pokestroller.Emulator.{
  Failure, core, queue_overflow, Emulator, Round, elapsed, thrown, transmit_all, run_round,
  run_loop, pw_run,
}
use pokestroller.Emulator.Queues.{IsBounded, transmit_all-IsBounded, run_round-IsBounded}

-- A round of the core that throws nothing takes from 1 to 255 cycles.
abbrev pub IsProgress : {S : Type 0} → Round S → Type 0
IsProgress (elapsed soc n sent samples) = (1 ≤ n) × (n < 256)
IsProgress (thrown soc e sent) = Unit

module _ {S : Type 0} where
  round-cycles :
      (r : Round S) (pw : Emulator S)
      → IsBounded pw
      → IsProgress r
      → pw.cycles + 256 < 2 ^ 64
      → ((run_round r pw).1 ≡ true
          → (pw.cycles < (run_round r pw).0.cycles) × ((run_round r pw).0.cycles < pw.cycles + 256))
        × ((run_round r pw).1 ≡ false → (run_round r pw).0.error ≢ none)
  unfolding run_round
  round-cycles (thrown soc e sent) pw i p h = elim (Bool-cases (transmit_all sent pw).1) [
    | inl e' ↦ rw e' ((λ t. absurd (false≢true t)), (λ t. some-ne-none (core e)))
    | inr e' ↦ rw e' ((λ t. absurd (false≢true t)), (λ t. some-ne-none queue_overflow))
  ]
  round-cycles (elapsed soc n sent samples) pw i p h =
      let t = transmit_all-IsBounded sent pw i in
      elim (Bool-cases (transmit_all sent pw).1) [
        | inl e ↦ rw e (
          (λ u. (omega (arith, p, h, t.1), omega (arith, p, h, t.1))),
          λ u. absurd (false≢true (sym u)),
        )
        | inr e ↦ rw e ((λ u. absurd (false≢true u)), (λ u. some-ne-none queue_overflow))
      ]

-- How a run to the cycle `t` ends.
pub record IsRun {S : Type 0} (t : ℕ) (r : Emulator S × Bool) : Type 0 where
  pub bounded : IsBounded r.0
  pub reached : r.1 ≡ true → (t ≤ r.0.cycles) × (r.0.cycles < t + 256)
  pub failed : r.1 ≡ false → r.0.error ≢ none

error-cases : (o : Option Failure) → (o ≡ none) ⊎ ((e : Failure) × (o ≡ some e))
error-cases none = inl refl
error-cases (some e) = inr (e, refl)

module _ {S : Type 0} (cycle : S → Round S) (h : (s : S) → IsProgress (cycle s)) where
  run_loop-IsRun :
      (fuel t : ℕ) (pw : Emulator S)
      → IsBounded pw
      → pw.target ≡ t
      → t + 512 < 2 ^ 64
      → t ≤ pw.cycles + fuel
      → pw.cycles < t + 256
      → (r : Emulator S × Bool) × (run_loop cycle fuel pw ≡ some r) × IsRun t r
  unfolding run_loop
  run_loop-IsRun zero t pw i e k l m =
      let there : ltb pw.cycles pw.target ≡ false = ground (arith, e, l) in
      (
        (pw, true),
        rw there refl,
        record {
          bounded = i;
          reached = λ u. (omega (arith, l), m);
          failed = λ u. absurd (false≢true (sym u));
        },
      )
  run_loop-IsRun (suc fuel) t pw i e k l m = elim (Bool-cases (ltb pw.cycles pw.target)) [
    | inr q ↦ (
      (pw, true),
      rw q refl,
      record {
        bounded = i;
        reached = λ u. (ground (arith, q, e), m);
        failed = λ u. absurd (false≢true (sym u));
      },
    )
    | inl q ↦
        let step = run_round (cycle pw.soc) pw in
        let below : pw.cycles < t = ground (arith, q, e) in
        let j = run_round-IsBounded (cycle pw.soc) pw i in
        let c = round-cycles (cycle pw.soc) pw i (h pw.soc) (omega (arith, below, k)) in
        elim (Bool-cases step.1) [
          | inr f ↦ (
            step,
            rw (q, f) refl,
            record {
              bounded = j.0;
              reached = λ u. absurd (false≢true (sym f ∙ u));
              failed = λ u. c.1 f;
            },
          )
          | inl f ↦
              let d = c.0 f in
              let rest =
                run_loop-IsRun fuel t step.0 j.0 (j.1 ∙ e) k (omega (arith, l, d.0))
                  (omega (arith, d.1, below)) in
              (rest.0, rw (q, f) rest.1, rest.2)
        ]
  ]

  -- If every round of the core takes from 1 to 255 cycles or throws, then pw_run ends, with one round
  -- for each cycle to run being enough. It returns true with the clock at the target or less than 256
  -- cycles behind it, or false with an error recorded; and both queues stay bounded.
  pub pw_run-IsRun :
      (n : ℕ) (pw : Emulator S)
      → IsBounded pw
      → pw.target ≤ pw.cycles
      → pw.cycles < pw.target + 256
      → pw.target + n + 512 < 2 ^ 64
      → (r : Emulator S × Bool) × (pw_run cycle n n pw ≡ some r) × IsRun (pw.target + n) r
  unfolding pw_run
  pw_run-IsRun n pw i k l m = elim (error-cases pw.error) [
    | inl e ↦
        let t = (pw.target + n) % 2 ^ 64 in
        let whole : t ≡ pw.target + n = omega (arith, m) in
        let started : IsBounded (record pw { target = t }) = record {
          audio_room = i.audio_room;
          ir_room = i.ir_room;
        } in
        let pw1 = record pw { target = t } in
        let r =
          run_loop-IsRun n (pw.target + n) pw1 started whole m (omega (arith, k))
            (omega (arith, l)) in
        (
          r.0,
          ap (λ o. elim o [ some f ↦ some (pw, false) | none ↦ run_loop cycle n pw1 ]) e ∙ r.1,
          r.2,
        )
    | inr (f, e) ↦ (
      (pw, false),
      ap
          (λ o. elim o [
            | some g ↦ some (pw, false)
            | none ↦ run_loop cycle n (record pw { target = (pw.target + n) % 2 ^ 64 })
          ])
          e,
      record {
        bounded = i;
        reached = λ u. absurd (false≢true u);
        failed = λ u v. some-ne-none f (sym e ∙ v);
      },
    )
  ]
