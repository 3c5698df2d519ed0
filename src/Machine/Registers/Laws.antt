-- ===== src/Machine/Registers/Laws.antt =====
-- About the aliasing of the register names that getRegRef8, 16 and 32 of src/walker.c resolve.
use pokestroller.Base.{ℕ, ◌+◌, ◌*◌, ◌<◌, ◌≡◌, Bool, true, false, arith, if◌then◌else◌}
use pokestroller.Machine.{Walker}
use pokestroller.Machine.Registers.{RegRef8, RegRef16, load8, load16, load32, store8, store16}

pub load8-store8 : (r : RegRef8) (v : ℕ) (w : Walker) → v < 256 → load8 r (store8 r v w) ≡ v
unfolding load8 store8
load8-store8 r v w h = ground arith

pub load16-store16 : (r : RegRef16) (v : ℕ) (w : Walker) → v < 65536 → load16 r (store16 r v w) ≡ v
unfolding load16 store16
load16-store16 r v w h = ground arith

-- A write to a byte register leaves every other byte register as it was, the other half of the same
-- word too.
pub load8-store8_ne :
    (r s : RegRef8) (v : ℕ) (w : Walker)
    → ((r.idx ≡ s.idx) × (r.lo ≡ s.lo) → ⊥)
    → load8 s (store8 r v w) ≡ load8 s w
unfolding load8 store8
load8-store8_ne r s v w h = ground arith

-- After a write of a byte to the upper or lower half of R, the 16-bit register R is its two halves
-- together, the other one as it was, and E is as it was.
pub load16-store8 :
    (i : ℕ) (lo : Bool) (v : ℕ) (w : Walker)
    → v < 256
    → let w' = store8 (record { idx = i; lo = lo }) v w in
      (load16 (record { idx = i; ext = false }) w' ≡ (
        if lo
        then load8 (record { idx = i; lo = false }) w * 256 + v
        else v * 256 + load8 (record { idx = i; lo = true }) w))
      × (load16 (record { idx = i; ext = true }) w' ≡ load16 (record { idx = i; ext = true }) w)
unfolding load8 load16 store8
load16-store8 i lo v w h = (ground arith, ground arith)

-- After a write of a word to E or R, the 32-bit register ER is the two together, the other one as it
-- was, if ER held a 32-bit value.
pub load32-store16 :
    (i : ℕ) (ext : Bool) (v : ℕ) (w : Walker)
    → w.er i < 4294967296
    → v < 65536
    → load32 (record { idx = i }) (store16 (record { idx = i; ext = ext }) v w) ≡ (
        if ext
        then v * 65536 + load16 (record { idx = i; ext = false }) w
        else load16 (record { idx = i; ext = true }) w * 65536 + v)
unfolding load16 load32 store16
load32-store16 i ext v w h hv = ground arith
