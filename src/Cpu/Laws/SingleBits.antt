-- ===== src/Cpu/Laws/SingleBits.antt =====
-- About BSET, BCLR and BTST on a register.
use pokestroller.Base.{
  ℕ, zero, suc, ◌%◌, ◌<◌, ◌≡◌, not, ◌||◌, ◌&&◌, arith, ◌==◌, has_bit, set_bit, clear_bit,
  has_bit-set_bit, has_bit-clear_bit,
}
use pokestroller.Machine.{Walker, ok}
use pokestroller.Alu.{byte}
use pokestroller.Cpu.Op.{load_reg, store_reg}
use pokestroller.Cpu.BitOps.{bset_reg, bclr_reg, btst_reg}
use pokestroller.Cpu.Laws.{load_reg-store_reg}

byte_bit : (x j : ℕ) → j < 8 → has_bit (x % 256) j ≡ has_bit x j
byte_bit x zero h = ground arith
byte_bit x (suc zero) h = ground arith
byte_bit x (suc (suc zero)) h = ground arith
byte_bit x (suc (suc (suc zero))) h = ground arith
byte_bit x (suc (suc (suc (suc zero)))) h = ground arith
byte_bit x (suc (suc (suc (suc (suc zero))))) h = ground arith
byte_bit x (suc (suc (suc (suc (suc (suc zero)))))) h = ground arith
byte_bit x (suc (suc (suc (suc (suc (suc (suc zero))))))) h = ground arith
byte_bit x (suc (suc (suc (suc (suc (suc (suc (suc j)))))))) h = absurd (omega arith)

-- BSET and BCLR of one of the eight bits of a register are defined, and BTST of any bit afterwards
-- finds that bit set or cleared, and every other bit as it was.
pub btst_after_bset_bclr :
    (bit j rd : ℕ) (w : Walker)
    → bit < 8
    → j < 8
    → ((w1 : Walker) × (bset_reg bit rd w ≡ ok w1)
        × ((btst_reg j rd w1).flags.z ≡ not (has_bit (load_reg byte rd w) j || (bit == j))))
      × ((w2 : Walker) × (bclr_reg bit rd w ≡ ok w2)
          × ((btst_reg j rd w2).flags.z ≡ not (has_bit (load_reg byte rd w) j && not (bit == j))))
unfolding bset_reg bclr_reg btst_reg
btst_after_bset_bclr bit j rd w p q =
    let x = load_reg byte rd w in
    (
      (
        store_reg byte rd (set_bit x bit) w,
        ground arith,
        rw (
          load_reg-store_reg byte rd (set_bit x bit) w,
          byte_bit (set_bit x bit) j q,
          has_bit-set_bit x bit j,
        ),
      ),
      (
        store_reg byte rd (clear_bit x bit) w,
        ground arith,
        rw (
          load_reg-store_reg byte rd (clear_bit x bit) w,
          byte_bit (clear_bit x bit) j q,
          has_bit-clear_bit x bit j (omega arith) (omega arith),
        ),
      ),
    )
