-- ===== src/Devices/Protocol/Reading.antt =====
-- About the EEPROM's command 3, READ, in reception.
use pokestroller.Base.{
  ℕ, suc, ◌+◌, ◌-◌, ◌*◌, ◌%◌, ◌<◌, ◌≤◌, ◌≡◌, refl, arith, List, [], ◌∷◌, length, u8,
}
use pokestroller.Machine.{EepromState, Walker, undefined, peek}
use native.Mathlib.Decide.{dec_lt}
use pokestroller.Devices.Status.{ssrdr}
use pokestroller.Devices.Eeprom.{eeprom_receive_in}
use pokestroller.Devices.Protocol.{
  Holds, Holds-bind, Holds-mono, Holds-undefined, >>=-ok, Between, receive_byte, each,
  receive_whole,
}

module _ (m : ℕ → ℕ) where
  read_command :
      (w : Walker)
      → Between EepromState.empty m 0 w
      → Holds (Between EepromState.getting_address_hi m 0) (receive_byte 3 w)
  unfolding eeprom_receive_in
  read_command w b =
      rw (receive_whole 3 w b.whole, b.now)
        (record { whole = refl; now = refl; holds = b.holds; done = b.done })

  -- The upper byte of the address is in.
  record HasHi (hi : ℕ) (w : Walker) : Type 0 where
    between : Between EepromState.getting_address_lo m 0 w
    upper : w.eeprom.hi_address ≡ hi

  read_hi :
      (hi : ℕ) (w : Walker)
      → Between EepromState.getting_address_hi m 0 w
      → hi < 256
      → Holds (HasHi hi) (receive_byte hi w)
  unfolding eeprom_receive_in
  read_hi hi w b h =
      rw (receive_whole hi w b.whole, b.now)
        (record {
          between = record { whole = refl; now = refl; holds = b.holds; done = b.done };
          upper = omega arith;
        })

  -- The device delivers bytes from `a`, and `k` are done.
  record Delivering (a k : ℕ) (w : Walker) : Type 0 where
    between : Between EepromState.getting_bytes m k w
    address : w.eeprom.hi_address * 256 + w.eeprom.lo_address ≡ a

  read_lo :
      (hi lo : ℕ) (w : Walker)
      → HasHi hi w
      → lo < 256
      → Holds (Delivering (hi * 256 + lo) 0) (receive_byte lo w)
  unfolding eeprom_receive_in
  read_lo hi lo w b h =
      rw (receive_whole lo w b.between.whole, b.between.now)
        (record {
          between = record {
            whole = refl;
            now = refl;
            holds = b.between.holds;
            done = b.between.done;
          };
          address = ground arith;
        })

  -- One byte, inside the memory.
  read_data :
      (v a k : ℕ) (w : Walker)
      → Delivering a k w
      → a + k < 65536
      → Holds
          (λ w'. Delivering a ((k + 1) % 65536) w' × (peek w' ssrdr ≡ u8 (m (a + k))))
          (receive_byte v w)
  unfolding eeprom_receive_in
  read_data v a k w b h = rw (receive_whole v w b.between.whole, b.between.now) (ground arith)

  -- The byte past the end of the memory.
  read_past :
      (v a k : ℕ) (w : Walker) → Delivering a k w → 65536 ≤ a + k → receive_byte v w ≡ undefined
  unfolding eeprom_receive_in
  read_past v a k w b h = rw (receive_whole v w b.between.whole, b.between.now) (ground arith)

  -- What is left after `k` bytes: the last byte delivered is that at `a + k + length vs`.
  abbrev Delivered : ℕ → ℕ → Walker → Type 0
  Delivered a k w = Delivering a (k % 65536) w × (peek w ssrdr ≡ u8 (m (a + k - 1)))

  read_rest :
      (vs : List ℕ) (v a k : ℕ) (w : Walker)
      → Delivering a k w
      → a + k + length vs < 65536
      → Holds (Delivered a (k + length vs + 1)) (each receive_byte (v ∷ vs) w)
  unfolding each
  read_rest [] v a k w b h = rw (>>=-ok (receive_byte v w)) (
      Holds-mono _ _ (receive_byte v w) (read_data v a k w b (omega arith)) λ w' d.
        let e : k + 0 + 1 ≡ k + 1 = omega arith in
        let e' : a + (k + 1) - 1 ≡ a + k = omega arith in rw (e, e') d)
  read_rest (u ∷ vs) v a k w b h =
      Holds-bind _ _ (receive_byte v w) (each receive_byte (u ∷ vs))
        (read_data v a k w b (omega arith))
        (λ w' d.
          let e : k + suc (length vs) + 1 ≡ k + 1 + length vs + 1 = omega arith in
          let small : (k + 1) % 65536 ≡ k + 1 = omega arith in
          rw e (read_rest vs u a (k + 1) w' (rw small at d.0) (omega arith)))

  read_rest_past :
      (vs : List ℕ) (v a k : ℕ) (w : Walker)
      → Delivering a k w
      → 65536 ≤ a + k + length vs
      → 0 < a
      → a + k ≤ 65536
      → each receive_byte (v ∷ vs) w ≡ undefined
  unfolding each
  read_rest_past [] v a k w b h s t = rw (read_past v a k w b (omega arith))
  read_rest_past (u ∷ vs) v a k w b h s t = elim (dec_lt (a + k) 65536) [
    | yes p ↦
        Holds-undefined _ (receive_byte v w) (each receive_byte (u ∷ vs)) (read_data v a k w b p)
          (λ w' d.
            let small : (k + 1) % 65536 ≡ k + 1 = omega arith in
            read_rest_past vs u a (k + 1) w' (rw small at d.0) (omega arith) s (omega arith))
    | no p ↦ rw (read_past v a k w b (omega arith))
  ]

-- After READ and an address (hi, lo), the last of the bytes exchanged next is the byte of the
-- EEPROM that stands that many places after the address, if that is inside the memory.
pub eeprom_read :
    (m : ℕ → ℕ) (hi lo v : ℕ) (vs : List ℕ) (w : Walker)
    → Between EepromState.empty m 0 w
    → ((i : ℕ) → m i < 256)
    → hi < 256
    → lo < 256
    → hi * 256 + lo + length vs < 65536
    → Holds
        (λ w'. (peek w' ssrdr ≡ m (hi * 256 + lo + length vs)) × (w'.eeprom.memory ≡ m))
        (each receive_byte (3 ∷ hi ∷ lo ∷ v ∷ vs) w)
unfolding each
eeprom_read m hi lo v vs w b bytes h l fits =
    Holds-bind (Between EepromState.getting_address_hi m 0) _ (receive_byte 3 w)
      (each receive_byte (hi ∷ lo ∷ v ∷ vs)) (read_command m w b)
      λ w1 b1.
        Holds-bind (HasHi m hi) _ (receive_byte hi w1) (each receive_byte (lo ∷ v ∷ vs))
          (read_hi m hi w1 b1 h)
          λ w2 b2.
            Holds-bind (Delivering m (hi * 256 + lo) 0) _ (receive_byte lo w2)
              (each receive_byte (v ∷ vs)) (read_lo m hi lo w2 b2 l)
              λ w3 b3.
                Holds-mono (Delivered m (hi * 256 + lo) (0 + length vs + 1)) _
                  (each receive_byte (v ∷ vs) w3)
                  (read_rest m vs v (hi * 256 + lo) 0 w3 b3 (omega arith))
                  λ w4 d.
                    let e : hi * 256 + lo + (0 + length vs + 1) - 1 ≡ hi * 256 + lo + length vs =
                      omega arith in
                    let q : peek w4 ssrdr ≡ u8 (m (hi * 256 + lo + length vs)) = rw e at (d.1) in
                    (omega (arith, q, bytes (hi * 256 + lo + length vs)), d.0.between.holds)

-- If the last byte asked for lies past the end of the memory, and the address is not 0, then the
-- dialogue reads out of the bounds of `eepromStorage`.
pub eeprom_read_past :
    (m : ℕ → ℕ) (hi lo v : ℕ) (vs : List ℕ) (w : Walker)
    → Between EepromState.empty m 0 w
    → hi < 256
    → lo < 256
    → 0 < hi * 256 + lo
    → 65536 ≤ hi * 256 + lo + length vs
    → each receive_byte (3 ∷ hi ∷ lo ∷ v ∷ vs) w ≡ undefined
unfolding each
eeprom_read_past m hi lo v vs w b h l pos past =
    Holds-undefined (Between EepromState.getting_address_hi m 0) (receive_byte 3 w)
      (each receive_byte (hi ∷ lo ∷ v ∷ vs)) (read_command m w b)
      λ w1 b1.
        Holds-undefined (HasHi m hi) (receive_byte hi w1) (each receive_byte (lo ∷ v ∷ vs))
          (read_hi m hi w1 b1 h)
          λ w2 b2.
            Holds-undefined (Delivering m (hi * 256 + lo) 0) (receive_byte lo w2)
              (each receive_byte (v ∷ vs)) (read_lo m hi lo w2 b2 l)
              λ w3 b3. read_rest_past m vs v (hi * 256 + lo) 0 w3 b3 (omega arith) pos (omega arith)
