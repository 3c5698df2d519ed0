-- ===== src/Machine/Memory/Laws.antt =====
-- About setMemory8, 16 and 32 and getMemory8, 16 and 32 of src/walker.c.
use pokestroller.Base.{ℕ, ◌<◌, ◌≡◌, arith}
use pokestroller.Machine.{Walker}
use pokestroller.Machine.Memory.{
  set_memory8, set_memory16, set_memory32, get_memory8, get_memory16, get_memory32,
}

-- A byte that is stored is read back, at every address.
pub get_memory8-set_memory8 :
    (a v : ℕ) (w : Walker) → v < 256 → get_memory8 a (set_memory8 a v w) ≡ v
unfolding set_memory8 get_memory8
get_memory8-set_memory8 a v w h = ground arith

-- A 16-bit word that is stored is read back, at every address, the last one of memory too.
pub get_memory16-set_memory16 :
    (a v : ℕ) (w : Walker) → v < 65536 → get_memory16 a (set_memory16 a v w) ≡ v
unfolding set_memory16 get_memory16
get_memory16-set_memory16 a v w h = ground arith

-- A 32-bit word that is stored is read back, at every address, the last ones of memory too.
pub get_memory32-set_memory32 :
    (a v : ℕ) (w : Walker) → v < 4294967296 → get_memory32 a (set_memory32 a v w) ≡ v
unfolding set_memory32 get_memory32
get_memory32-set_memory32 a v w h = ground arith
