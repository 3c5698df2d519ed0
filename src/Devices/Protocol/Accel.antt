-- ===== src/Devices/Protocol/Accel.antt =====
-- About the accelerometer's dialogue in reception: an address byte, then data.
use native.Mathlib.Decide.{dec_lt}
use pokestroller.Base.{
  ℕ, suc, ◌+◌, ◌-◌, ◌%◌, ◌<◌, ◌≤◌, ◌≡◌, refl, ap, arith, List, [], ◌∷◌, length, ltb, u8, true,
  false,
}
use pokestroller.Machine.{AccelState, Walker, Outcome, undefined, peek, poke}
use pokestroller.Devices.Status.{sstdr, ssrdr}
use pokestroller.Devices.Accel.{accel_receive, accel_receive_in}
use pokestroller.Devices.Protocol.{Holds, Holds-bind, Holds-mono, Holds-undefined, >>=-ok, each}

-- A byte in SSTDR, and the call: the accelerometer takes the whole byte at once.
unfoldable pub accel_byte : ℕ → Walker → Outcome
accel_byte v w = accel_receive (poke w sstdr v)

-- The device holds `m` and waits for an address.
pub record IsWaiting (m : ℕ → ℕ) (w : Walker) : Type 0 where
  pub now : w.accel.state ≡ AccelState.getting_address
  pub holds : w.accel.memory ≡ m

-- The device delivers bytes from `a`, and `k` are done.
record Delivering (m : ℕ → ℕ) (a k : ℕ) (w : Walker) : Type 0 where
  now : w.accel.state ≡ AccelState.getting_bytes
  holds : w.accel.memory ≡ m
  address : w.accel.address ≡ a
  done : w.accel.offset ≡ k

read_address :
    (m : ℕ → ℕ) (v : ℕ) (w : Walker)
    → IsWaiting m w
    → v < 256
    → Holds (Delivering m (v % 16) 0) (accel_byte v w)
unfolding accel_byte accel_receive accel_receive_in
read_address m v w b h =
    rw b.now (record { now = refl; holds = b.holds; address = omega arith; done = refl })

read_data :
    (m : ℕ → ℕ) (v a k : ℕ) (w : Walker)
    → Delivering m a k w
    → a + k < 29
    → Holds (λ w'. Delivering m a (k + 1) w' × (peek w' ssrdr ≡ u8 (m (a + k)))) (accel_byte v w)
unfolding accel_byte accel_receive accel_receive_in
read_data m v a k w b h =
    let inside : ltb (a + k) 29 ≡ true = ground arith in
    let small : (k + 1) % 256 ≡ k + 1 = omega arith in
    rw (b.now, b.address, b.done, inside)
      (
        record { now = refl; holds = b.holds; address = refl; done = small },
        ap (λ f. u8 (f (a + k))) b.holds,
      )

read_past :
    (m : ℕ → ℕ) (v a k : ℕ) (w : Walker)
    → Delivering m a k w
    → 29 ≤ a + k
    → accel_byte v w ≡ undefined
unfolding accel_byte accel_receive accel_receive_in
read_past m v a k w b h =
    let outside : ltb (a + k) 29 ≡ false = ground arith in rw (b.now, b.address, b.done, outside)

-- The last byte delivered is that at `a + k - 1`.
abbrev Delivered : (ℕ → ℕ) → ℕ → ℕ → Walker → Type 0
Delivered m a k w = peek w ssrdr ≡ u8 (m (a + k - 1))

read_rest :
    (m : ℕ → ℕ) (vs : List ℕ) (v a k : ℕ) (w : Walker)
    → Delivering m a k w
    → a + k + length vs < 29
    → Holds (Delivered m a (k + length vs + 1)) (each accel_byte (v ∷ vs) w)
unfolding each
read_rest m [] v a k w b h = rw (>>=-ok (accel_byte v w)) (
    Holds-mono _ _ (accel_byte v w) (read_data m v a k w b (omega arith))
      λ w' d. let e : a + (k + 0 + 1) - 1 ≡ a + k = omega arith in rw e (d.1))
read_rest m (u ∷ vs) v a k w b h =
    Holds-bind _ _ (accel_byte v w) (each accel_byte (u ∷ vs)) (read_data m v a k w b (omega arith))
      λ w' d.
        let e : k + suc (length vs) + 1 ≡ k + 1 + length vs + 1 = omega arith in
        rw e (read_rest m vs u a (k + 1) w' d.0 (omega arith))

read_rest_past :
    (m : ℕ → ℕ) (vs : List ℕ) (v a k : ℕ) (w : Walker)
    → Delivering m a k w
    → 29 ≤ a + k + length vs
    → each accel_byte (v ∷ vs) w ≡ undefined
unfolding each
read_rest_past m [] v a k w b h = rw (read_past m v a k w b (omega arith))
read_rest_past m (u ∷ vs) v a k w b h = elim (dec_lt (a + k) 29) [
  | yes p ↦
      Holds-undefined _ (accel_byte v w) (each accel_byte (u ∷ vs)) (read_data m v a k w b p)
        λ w' d. read_rest_past m vs u a (k + 1) w' d.0 (omega arith)
  | no p ↦ rw (read_past m v a k w b (omega arith))
]

-- After an address byte v, whose lower nibble is the address, the last of n + 1 bytes exchanged
-- next is the byte of the accelerometer that stands n places after the address, if that is one of
-- its 29 bytes; if it is not, the dialogue reads out of the bounds of `accelStorage`.
pub accel_read :
    (m : ℕ → ℕ) (v u : ℕ) (vs : List ℕ) (w : Walker)
    → IsWaiting m w
    → ((i : ℕ) → m i < 256)
    → v < 256
    → (v % 16 + length vs < 29
        → Holds (λ w'. peek w' ssrdr ≡ m (v % 16 + length vs)) (each accel_byte (v ∷ u ∷ vs) w))
      × (29 ≤ v % 16 + length vs → each accel_byte (v ∷ u ∷ vs) w ≡ undefined)
unfolding each
accel_read m v u vs w b bytes h = (
  (λ fits.
      Holds-bind (Delivering m (v % 16) 0) _ (accel_byte v w) (each accel_byte (u ∷ vs))
        (read_address m v w b h)
        λ w1 d.
          Holds-mono (Delivered m (v % 16) (0 + length vs + 1)) _ (each accel_byte (u ∷ vs) w1)
            (read_rest m vs u (v % 16) 0 w1 d (omega arith))
            λ w2 e.
              let same : v % 16 + (0 + length vs + 1) - 1 ≡ v % 16 + length vs = omega arith in
              let q : peek w2 ssrdr ≡ u8 (m (v % 16 + length vs)) = rw same at e in
              omega (arith, q, bytes (v % 16 + length vs))),
  (λ past.
      Holds-undefined (Delivering m (v % 16) 0) (accel_byte v w) (each accel_byte (u ∷ vs))
        (read_address m v w b h) λ w1 d. read_rest_past m vs u (v % 16) 0 w1 d (omega arith)),
)
