-- ===== src/Devices/Protocol/Writing.antt =====
-- About the EEPROM's command 2, WRITE, in transmission.
use pokestroller.Base.{
  ℕ, zero, suc, ◌+◌, ◌-◌, ◌*◌, ◌%◌, ◌<◌, ◌≤◌, ◌≡◌, ◌&&◌, refl, ap, ap₂, arith, true, List, [], ◌∷◌,
  length, All, ltb, leb, update, if◌then◌else◌,
}
use pokestroller.Machine.{EepromState, Walker}
use pokestroller.Devices.Eeprom.{eeprom_transmit_in}
use pokestroller.Devices.Protocol.{
  Holds, Holds-bind, Holds-mono, Between, transmit_byte, each, transmit_whole,
}

abbrev pub get_or : List ℕ → ℕ → ℕ → ℕ
get_or [] i d = d
get_or (x ∷ xs) zero d = x
get_or (x ∷ xs) (suc i) d = get_or xs i d

-- The memory `m` with `vs` from the address `a` on.
abbrev pub stored : (ℕ → ℕ) → ℕ → List ℕ → ℕ → ℕ
stored m a vs j = if leb a j && ltb j (a + length vs) then get_or vs (j - a) 0 else m j

-- The writes one by one, at offsets that wrap at the page size.
written : (ℕ → ℕ) → ℕ → ℕ → List ℕ → ℕ → ℕ
written m a k [] = m
written m a k (v ∷ vs) = written (update m (a + k) v) a ((k + 1) % 128) vs

get_or-pred : (v : ℕ) (vs : List ℕ) (i : ℕ) → 0 < i → get_or (v ∷ vs) i 0 ≡ get_or vs (i - 1) 0
get_or-pred v vs zero h = absurd (omega arith)
get_or-pred v vs (suc i) h = let e : suc i - 1 ≡ i = omega arith in rw e

written-stored :
    (vs : List ℕ) (m : ℕ → ℕ) (a k j : ℕ)
    → k + length vs ≤ 128
    → written m a k vs j ≡ stored m (a + k) vs j
unfolding written
written-stored [] m a k j h = ground arith
written-stored (v ∷ []) m a k j h = ground (arith, get_or-pred v [] (j - (a + k)))
written-stored (v ∷ u ∷ vs) m a k j h =
    let small : (k + 1) % 128 ≡ k + 1 = omega arith in
    rw small (
      ground (
        arith,
        written-stored (u ∷ vs) (update m (a + k) v) a (k + 1) j (omega arith),
        get_or-pred v (u ∷ vs) (j - (a + k)),
      ))

module _ (m : ℕ → ℕ) where
  write_command :
      (w : Walker)
      → Between EepromState.empty m 0 w
      → Holds (Between EepromState.getting_address_hi m 0) (transmit_byte 2 w)
  unfolding eeprom_transmit_in
  write_command w b =
      rw (transmit_whole 2 w b.whole, b.now)
        (record { whole = refl; now = refl; holds = b.holds; done = b.done })

  record HasHi (hi : ℕ) (w : Walker) : Type 0 where
    between : Between EepromState.getting_address_lo m 0 w
    upper : w.eeprom.hi_address ≡ hi

  write_hi :
      (hi : ℕ) (w : Walker)
      → Between EepromState.getting_address_hi m 0 w
      → hi < 256
      → Holds (HasHi hi) (transmit_byte hi w)
  unfolding eeprom_transmit_in
  write_hi hi w b h =
      rw (transmit_whole hi w b.whole, b.now)
        (record {
          between = record { whole = refl; now = refl; holds = b.holds; done = b.done };
          upper = omega arith;
        })

-- The device takes bytes from `a` on, at the offset `k`, and holds `m`.
record Taking (m : ℕ → ℕ) (a k : ℕ) (w : Walker) : Type 0 where
  between : Between EepromState.getting_bytes m k w
  address : w.eeprom.hi_address * 256 + w.eeprom.lo_address ≡ a

write_lo :
    (m : ℕ → ℕ) (hi lo : ℕ) (w : Walker)
    → HasHi m hi w
    → lo < 256
    → Holds (Taking m (hi * 256 + lo) 0) (transmit_byte lo w)
unfolding eeprom_transmit_in
write_lo m hi lo w b h =
    rw (transmit_whole lo w b.between.whole, b.between.now)
      (record {
        between = record {
          whole = refl;
          now = refl;
          holds = b.between.holds;
          done = b.between.done;
        };
        address = ground arith;
      })

write_data :
    (m : ℕ → ℕ) (v a k : ℕ) (w : Walker)
    → Taking m a k w
    → v < 256
    → a + k < 65536
    → Holds (Taking (update m (a + k) v) a ((k + 1) % 128)) (transmit_byte v w)
unfolding eeprom_transmit_in
write_data m v a k w b hv h =
    let index : w.eeprom.hi_address * 256 + w.eeprom.lo_address + w.eeprom.offset ≡ a + k =
      omega arith in
    let inside : ltb (a + k) 65536 ≡ true = ground arith in
    let small : v % 256 ≡ v = omega arith in
    rw (transmit_whole v w b.between.whole, b.between.now, index, inside)
      (record {
        between = record {
          whole = refl;
          now = refl;
          holds = ap₂ (λ f x. update f (a + k) x) b.between.holds small;
          done = ap (λ t. (t + 1) % 128) b.between.done;
        };
        address = b.address;
      })

write_rest :
    (vs : List ℕ) (m : ℕ → ℕ) (a k : ℕ) (w : Walker)
    → Taking m a k w
    → All (λ v. v < 256) vs
    → a + 128 ≤ 65536
    → k < 128
    → Holds (λ w'. w'.eeprom.memory ≡ written m a k vs) (each transmit_byte vs w)
unfolding each written
write_rest [] m a k w b hs t q = b.between.holds
write_rest (v ∷ vs) m a k w b hs t q =
    Holds-bind _ _ (transmit_byte v w) (each transmit_byte vs)
      (write_data m v a k w b hs.0 (omega arith))
      λ w' b'. write_rest vs (update m (a + k) v) a ((k + 1) % 128) w' b' hs.1 t (omega arith)

-- WRITE, an address whose page of 128 bytes is inside the memory, and at most 128 bytes: the EEPROM
-- then holds these bytes from the address on, and everything else as before.
pub eeprom_write :
    (m : ℕ → ℕ) (hi lo : ℕ) (vs : List ℕ) (w : Walker)
    → Between EepromState.empty m 0 w
    → hi < 256
    → lo < 256
    → All (λ v. v < 256) vs
    → length vs ≤ 128
    → hi * 256 + lo + 128 ≤ 65536
    → Holds
        (λ w'. (j : ℕ) → w'.eeprom.memory j ≡ stored m (hi * 256 + lo) vs j)
        (each transmit_byte (2 ∷ hi ∷ lo ∷ vs) w)
unfolding each
eeprom_write m hi lo vs w b h l bytes short fits =
    Holds-bind (Between EepromState.getting_address_hi m 0) _ (transmit_byte 2 w)
      (each transmit_byte (hi ∷ lo ∷ vs)) (write_command m w b)
      λ w1 b1.
        Holds-bind (HasHi m hi) _ (transmit_byte hi w1) (each transmit_byte (lo ∷ vs))
          (write_hi m hi w1 b1 h)
          λ w2 b2.
            Holds-bind (Taking m (hi * 256 + lo) 0) _ (transmit_byte lo w2) (each transmit_byte vs)
              (write_lo m hi lo w2 b2 l)
              λ w3 b3.
                Holds-mono (λ w'. w'.eeprom.memory ≡ written m (hi * 256 + lo) 0 vs) _
                  (each transmit_byte vs w3)
                  (write_rest vs m (hi * 256 + lo) 0 w3 b3 bytes fits (omega arith))
                  λ w4 e. λ j.
                    let origin : hi * 256 + lo + 0 ≡ hi * 256 + lo = omega arith in
                    rw e (rw origin at (written-stored vs m (hi * 256 + lo) 0 j (omega arith)))
