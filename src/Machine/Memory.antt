-- ===== src/Machine/Memory.antt =====
-- The memory bus of src/walker.c: setMemory8/16/32 and getMemory8/16/32. The upper 16 bits of an
-- address are dropped, words are big-endian, and an access wraps at 0xffff.
pub mod Laws
use pokestroller.Base.{ℕ, ◌+◌, ◌*◌, ◌/◌, ◌%◌, update, u8, u16, u32}
use pokestroller.Machine.{Walker, low16}

unfoldable pub set_memory8 : ℕ → ℕ → Walker → Walker
set_memory8 address value w = record w { memory = update w.memory (low16 address) (u8 value) }

unfoldable pub set_memory16 : ℕ → ℕ → Walker → Walker
set_memory16 address value w =
    let a = low16 address in
    let v = u16 value in
    record w { memory = update (update w.memory a (v / 256)) (low16 (a + 1)) (v % 256) }

unfoldable pub set_memory32 : ℕ → ℕ → Walker → Walker
set_memory32 address value w =
    let a = low16 address in
    let v = u32 value in
    let m1 = update w.memory a (v / 16777216) in
    let m2 = update m1 (low16 (a + 1)) (v / 65536 % 256) in
    let m3 = update m2 (low16 (a + 2)) (v / 256 % 256) in
    record w { memory = update m3 (low16 (a + 3)) (v % 256) }

unfoldable pub get_memory8 : ℕ → Walker → ℕ
get_memory8 address w = u8 (w.memory (low16 address))

unfoldable pub get_memory16 : ℕ → Walker → ℕ
get_memory16 address w = let a = low16 address in u16 (w.memory a * 256 + w.memory (low16 (a + 1)))

unfoldable pub get_memory32 : ℕ → Walker → ℕ
get_memory32 address w =
    let a = low16 address in
    w.memory a * 16777216
    + w.memory (low16 (a + 1)) * 65536
    + w.memory (low16 (a + 2)) * 256
    + w.memory (low16 (a + 3))
