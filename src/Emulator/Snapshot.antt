-- ===== src/Emulator/Snapshot.antt =====
-- About the snapshot of the EEPROM that src/emulator.cpp exports.
use pokestroller.Base.{
  ℕ, zero, suc, ◌+◌, ◌%◌, ◌≤◌, ◌<◌, ◌≡◌, refl, ◌∙◌, sym, ap, ap₂, arith, true, false, Bool-cases,
  inl, inr, ◌⊎◌, ◌&&◌, ◌==◌, leb, update,
}
use pokestroller.Emulator.{Emulator, pw_clock, magic, equal_from, flush_loop, flush, pw_eeprom}

-- f 0 + … + f (n - 1)
abbrev pub sum : (ℕ → ℕ) → ℕ → ℕ
sum f zero = 0
sum f (suc n) = sum f n + f n

sum-ext : (f g : ℕ → ℕ) (n : ℕ) → ((k : ℕ) → k < n → f k ≡ g k) → sum f n ≡ sum g n
sum-ext f g zero h = refl
sum-ext f g (suc n) h =
    ap₂ (λ x y. x + y) (sum-ext f g n λ k l. h k (omega (arith, l))) (h n (omega arith))

sum_next : (f : ℕ → ℕ) (n : ℕ) → sum f (n + 1) ≡ sum f n + f n
sum_next f n = let e : n + 1 ≡ suc n = omega arith in ap (sum f) e

module _ (read8 : ℕ → ℕ) (base : ℕ) where
  -- The bytes of the cache.
  abbrev cached : ℕ → ℕ
  cached k = read8 (0xf780 + k)

  flush_loop-checksum :
      (n i m c : ℕ) (bytes : ℕ → ℕ)
      → i + n ≡ m
      → c ≡ (1 + sum cached i) % 256
      → (flush_loop read8 base n i c bytes).1 ≡ (1 + sum cached m) % 256
  unfolding flush_loop
  flush_loop-checksum zero i m c bytes e h =
      let same : i ≡ m = omega (arith, e) in h ∙ ap (λ x. (1 + sum cached x) % 256) same
  flush_loop-checksum (suc n) i m c bytes e h =
      let v = read8 (0xf780 + i) in
      flush_loop-checksum n (i + 1) m ((c + v) % 256) (update bytes (base + i) v) (omega (arith, e))
        (omega (arith, h, sum_next cached i))

  flush_loop-outside :
      (n i c : ℕ) (bytes : ℕ → ℕ) (j : ℕ)
      → (j < base + i) ⊎ (base + i + n ≤ j)
      → (flush_loop read8 base n i c bytes).0 j ≡ bytes j
  unfolding flush_loop
  flush_loop-outside zero i c bytes j h = refl
  flush_loop-outside (suc n) i c bytes j h =
      let v = read8 (0xf780 + i) in
      let other : (base + i == j) ≡ false = ground (arith, h) in
      let still : (j < base + (i + 1)) ⊎ (base + (i + 1) + n ≤ j) = ground (arith, h) in
      flush_loop-outside n (i + 1) ((c + v) % 256) (update bytes (base + i) v) j still
      ∙ rw other refl

  flush_loop-inside :
      (n i c : ℕ) (bytes : ℕ → ℕ) (k : ℕ)
      → k < i + n
      → i ≤ k
      → (flush_loop read8 base n i c bytes).0 (base + k) ≡ cached k
  unfolding flush_loop
  flush_loop-inside zero i c bytes k h l = absurd (omega (arith, h, l))
  flush_loop-inside (suc n) i c bytes k h l =
      let v = read8 (0xf780 + i) in
      let c1 = (c + v) % 256 in
      let b1 = update bytes (base + i) v in
      elim (Bool-cases (i == k)) [
        | inl e ↦
            let same : i ≡ k = ground (arith, e) in
            let here : (base + i == base + k) ≡ true = ground (arith, same) in
            flush_loop-outside n (i + 1) c1 b1 (base + k) (inl (omega (arith, same)))
            ∙ rw here (ap cached same)
        | inr e ↦ flush_loop-inside n (i + 1) c1 b1 k (omega (arith, h)) (ground (arith, e, l))
      ]

-- A record of 24 bytes with its checksum behind them.
abbrev pub IsRecord : (ℕ → ℕ) → ℕ → (ℕ → ℕ) → Type 0
IsRecord read8 base b =
    ((k : ℕ) → k < 24 → b (base + k) ≡ read8 (0xf780 + k))
    × (b (base + 24) ≡ (1 + sum (λ k. b (base + k)) 24) % 256)

flush-inside :
    (read8 : ℕ → ℕ) (base : ℕ) (bytes : ℕ → ℕ) (k : ℕ)
    → k < 24
    → flush read8 base bytes (base + k) ≡ read8 (0xf780 + k)
unfolding flush
flush-inside read8 base bytes k h =
    let other : (base + 24 == base + k) ≡ false = ground (arith, h) in
    rw other (flush_loop-inside read8 base 24 0 1 bytes k (omega (arith, h)) (omega arith))

flush-checksum :
    (read8 : ℕ → ℕ) (base : ℕ) (bytes : ℕ → ℕ)
    → flush read8 base bytes (base + 24) ≡ (1 + sum (λ k. read8 (0xf780 + k)) 24) % 256
unfolding flush
flush-checksum read8 base bytes =
    let here : (base + 24 == base + 24) ≡ true = ground arith in
    rw here (flush_loop-checksum read8 base 24 0 24 1 bytes (omega arith) refl)

flush-IsRecord :
    (read8 : ℕ → ℕ) (base : ℕ) (bytes : ℕ → ℕ) → IsRecord read8 base (flush read8 base bytes)
flush-IsRecord read8 base bytes =
    let inside = flush-inside read8 base bytes in
    let total =
      sum-ext (λ k. flush read8 base bytes (base + k)) (λ k. read8 (0xf780 + k)) 24 inside in
    (inside, flush-checksum read8 base bytes ∙ ap (λ x. (1 + x) % 256) (sym total))

flush-outside :
    (read8 : ℕ → ℕ) (base : ℕ) (bytes : ℕ → ℕ) (j : ℕ)
    → (j < base) ⊎ (base + 25 ≤ j)
    → flush read8 base bytes j ≡ bytes j
unfolding flush
flush-outside read8 base bytes j h =
    let other : (base + 24 == j) ≡ false = ground (arith, h) in
    let far : (j < base + 0) ⊎ (base + 0 + 24 ≤ j) = ground (arith, h) in
    rw other (flush_loop-outside read8 base 24 0 1 bytes j far)

IsRecord-ext :
    (read8 : ℕ → ℕ) (base : ℕ) (b b' : ℕ → ℕ)
    → ((k : ℕ) → k < 25 → b' (base + k) ≡ b (base + k))
    → IsRecord read8 base b
    → IsRecord read8 base b'
IsRecord-ext read8 base b b' h r = (
  (λ k l. h k (omega (arith, l)) ∙ r.0 k l),
  h 24 (omega arith)
      ∙ r.1
      ∙ ap (λ x. (1 + x) % 256)
          (sym (sum-ext (λ k. b' (base + k)) (λ k. b (base + k)) 24 λ k l. h k (omega (arith, l)))),
)

-- The snapshot of a recognised firmware that has run for a second and holds the mark "nintendo" has
-- the 24 cached bytes of HealthData at 0x156 and at 0x256, each with a checksum behind them that is
-- 1 more than their sum, modulo 256, and the EEPROM's bytes elsewhere. Any other snapshot is the
-- EEPROM.
pub pw_eeprom_lem :
    {S : Type 0} (read8 : S → ℕ → ℕ) (eeprom : ℕ → ℕ) (pw : Emulator S)
    → let ready = pw.known_firmware && leb pw_clock pw.cycles && equal_from 0 eeprom magic in
      let b = pw_eeprom read8 eeprom pw in
      (ready ≡ true
        → IsRecord (read8 pw.soc) 0x156 b
          × IsRecord (read8 pw.soc) 0x256 b
          × ((j : ℕ) → (j < 0x156) ⊎ ((0x16f ≤ j) × (j < 0x256)) ⊎ (0x26f ≤ j) → b j ≡ eeprom j))
      × (ready ≡ false → b ≡ eeprom)
unfolding pw_eeprom
pw_eeprom_lem read8 eeprom pw =
    let r = read8 pw.soc in
    let b1 = flush r 0x156 eeprom in
    (
      (λ e. rw e (
        IsRecord-ext r 0x156 b1 (flush r 0x256 b1)
            (λ k l. flush-outside r 0x256 b1 (0x156 + k) (inl (omega (arith, l))))
            (flush-IsRecord r 0x156 eeprom),
        flush-IsRecord r 0x256 b1,
        λ j h.
            flush-outside r 0x256 b1 j (ground (arith, h))
            ∙ flush-outside r 0x156 eeprom j (ground (arith, h)),
      )),
      (λ e. rw e refl),
    )
