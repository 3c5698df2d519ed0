-- ===== src/Valid.antt =====
-- The states in which every number of src/walker.c is in the range of its C type and every device
-- is where its registers can address, and the rules for the writes that the instructions are made of.
pub mod Arith
pub mod Shifts
pub mod Moves
pub mod BitOps
pub mod Branches
pub mod Tables
pub mod Devices
pub mod LcdBytes
pub mod Steps
pub mod Start
use pokestroller.Base.{
  ℕ, ◌+◌, ◌*◌, ◌/◌, ◌%◌, ◌^◌, ◌<◌, ◌≡◌, refl, ◌∙◌, arith, Bool, true, false, u8, u16, u32, update,
  ◌==◌, if◌then◌else◌, List, [], ◌∷◌, ◌++◌,
}
use pokestroller.Machine.{
  Flags, Ssu, Eeprom, Accelerometer, Lcd, TimerB, Walker, poke, set_flags, set_pc, low16,
}
use pokestroller.Machine.Memory.{set_memory8, set_memory16, set_memory32}
use pokestroller.Machine.Registers.{store8, store16, store32}
use pokestroller.Alu.{Width, byte, word, long}
use pokestroller.Cpu.Op.{store_reg}
use pokestroller.Cpu.Moves.{set_memory}
use pokestroller.Devices.Lcd.Bounds.{IsPlaced}

-- The values of a list are bytes.
abbrev pub AreBytes : List ℕ → Type 0
AreBytes [] = Unit
AreBytes (x ∷ xs) = (x < 256) × AreBytes xs

pub AreBytes-++ : (xs ys : List ℕ) → AreBytes xs → AreBytes ys → AreBytes (xs ++ ys)
AreBytes-++ [] ys h k = k
AreBytes-++ (x ∷ xs) ys h k = (h.0, AreBytes-++ xs ys h.1 k)

-- A byte count below 7, every member of the devices in the range of its type, and the LCD's page and
-- byte in those of its addresses.
pub record AreValid (s : Ssu) (a : Accelerometer) (e : Eeprom) (l : Lcd) : Type 0 where
  pub partial : s.progress < 7
  pub accel_address : a.address < 256
  pub accel_offset : a.offset < 256
  pub eeprom_status : e.status < 256
  pub eeprom_hi : e.hi_address < 256
  pub eeprom_lo : e.lo_address < 256
  pub eeprom_offset : e.offset < 65536
  pub accel_bytes : (j : ℕ) → a.memory j < 256
  pub eeprom_bytes : (j : ℕ) → e.memory j < 256
  pub lcd_bytes : (j : ℕ) → l.memory j < 256
  pub contrast : l.contrast < 256
  pub lcd : IsPlaced l

-- Every number of the session is in the range of its C type, or closer: `c` is the caller's cycle
-- counter, `q` the count of quarters, and the input queue, of `int`, holds bytes.
pub record IsValid (c q : ℕ) (w : Walker) : Type 0 where
  pub cycles : w.cycle_count ≡ c
  pub bytes : (a : ℕ) → w.memory a < 256
  pub words : (i : ℕ) → w.er i < 4294967296
  pub pc : w.pc < 65536
  pub saved : w.interrupt_saved_address < 65536
  pub quarters : w.quarters_ellapsed ≡ q
  pub cycle_range : w.cycle_count < 2 ^ 64
  pub quarter_range : w.quarters_ellapsed < 256
  pub sub_clock : w.sub_clock_cycles_ellapsed < 2 ^ 64
  pub keys : AreBytes w.input_queue
  pub reload : w.timer_b.tlb_value < 256
  pub ready : w.initialized ≡ true
  pub devices : AreValid w.ssu w.accel w.eeprom w.lcd

pub update-lt : (m : ℕ → ℕ) (a v n : ℕ) → ((j : ℕ) → m j < n) → v < n → (j : ℕ) → update m a v j < n
update-lt m a v n h k j = ground (arith, h j)

module _ {c q : ℕ} {w : Walker} where
  pub flags : {f : Flags} → IsValid c q w → IsValid c q (set_flags w f)
  flags i = search (i.bytes, i.words)

  pub goto : (a : ℕ) → IsValid c q w → IsValid c q (set_pc w a)
  goto a i = let inside : a % 65536 < 65536 = omega arith in search (i.bytes, i.words)

  with_memory :
      {m : ℕ → ℕ} → IsValid c q w → ((a : ℕ) → m a < 256) → IsValid c q (record w { memory = m })
  with_memory i h = search (i.words, h)

  with_er :
      {m : ℕ → ℕ} → IsValid c q w → ((j : ℕ) → m j < 4294967296) → IsValid c q (record w { er = m })
  with_er i h = search (i.bytes, h)

  pub poked : (a v : ℕ) → IsValid c q w → IsValid c q (poke w a v)
  poked a v i = with_memory i (update-lt w.memory a (u8 v) 256 i.bytes (omega arith))

  pub memory8 : (a v : ℕ) → IsValid c q w → IsValid c q (set_memory8 a v w)
  unfolding set_memory8
  memory8 a v i = with_memory i (update-lt w.memory (low16 a) (u8 v) 256 i.bytes (omega arith))

  pub memory16 : (a v : ℕ) → IsValid c q w → IsValid c q (set_memory16 a v w)
  unfolding set_memory16
  memory16 a v i =
      with_memory i (
        update-lt _ _ _ 256 (update-lt w.memory (low16 a) _ 256 i.bytes (omega arith))
          (omega arith))

  pub memory32 : (a v : ℕ) → IsValid c q w → IsValid c q (set_memory32 a v w)
  unfolding set_memory32
  memory32 a v i = with_memory i (
      update-lt _ _ _ 256
        (update-lt _ _ _ 256
          (update-lt _ _ _ 256 (update-lt w.memory (low16 a) _ 256 i.bytes (omega arith))
            (omega arith))
          (omega arith))
        (omega arith))

  pub reg : (wd : Width) (rd v : ℕ) → IsValid c q w → IsValid c q (store_reg wd rd v w)
  unfolding store_reg store8 store16 store32
  reg byte rd v i =
      with_er i (update-lt w.er _ _ 4294967296 i.words (ground (arith, i.words (rd % 8))))
  reg word rd v i =
      with_er i (update-lt w.er _ _ 4294967296 i.words (ground (arith, i.words (rd % 8))))
  reg long rd v i = with_er i (update-lt w.er _ _ 4294967296 i.words (omega arith))

  pub memory : (wd : Width) (a v : ℕ) → IsValid c q w → IsValid c q (set_memory wd a v w)
  unfolding set_memory
  memory byte a v i = memory8 a v i
  memory word a v i = memory16 a v i
  memory long a v i = memory32 a v i

  pub reloaded :
      (v : ℕ) (on : Bool)
      → v < 256
      → IsValid c q w
      → IsValid c q (record w { timer_b = record { on = on; tlb_value = v } })
  reloaded v on h i = search (i.bytes, i.words)

  pub switched :
      (on on_w : Bool)
      → IsValid c q w
      → IsValid c q (record w {
        timer_b = record { on = on; tlb_value = w.timer_b.tlb_value };
        timer_w_on = on_w;
      })
  switched on on_w i = search (i.bytes, i.words)

  pub sleeping : (s : Bool) → IsValid c q w → IsValid c q (record w { sleep = s })
  sleeping s i = search (i.bytes, i.words)

  pub queued :
      (xs : List ℕ) → AreBytes xs → IsValid c q w → IsValid c q (record w { input_queue = xs })
  queued xs h i = search (i.bytes, i.words)

  pub quartered :
      (n : ℕ) → n < 256 → IsValid c q w → IsValid c n (record w { quarters_ellapsed = n })
  quartered n h i = search (i.bytes, i.words)

  pub sub_clocked :
      (n : ℕ)
      → n < 2 ^ 64
      → IsValid c q w
      → IsValid c q (record w { sub_clock_cycles_ellapsed = n })
  sub_clocked n h i = search (i.bytes, i.words)

  pub counted : (n : ℕ) → n < 2 ^ 64 → IsValid c q w → IsValid n q (record w { cycle_count = n })
  counted n h i = search (i.bytes, i.words)

  pub saved_here :
      {f g : Flags} (v : ℕ) (s : Bool)
      → v < 65536
      → IsValid c q w
      → IsValid c q (record w {
        interrupt_saved_address = w.pc;
        interrupt_saved_flags = f;
        flags = g;
        pc = v;
        sleep = s;
      })
  saved_here v s h i = search (i.bytes, i.words)

  pub with_ssu :
      (k : ℕ) → k < 7 → IsValid c q w → IsValid c q (record w { ssu = record { progress = k } })
  with_ssu k h i =
      let d = i.devices in search (i.bytes, i.words, d.accel_bytes, d.eeprom_bytes, d.lcd_bytes)

  pub with_accel :
      (x : Accelerometer)
      → x.address < 256
      → x.offset < 256
      → ((j : ℕ) → x.memory j < 256)
      → IsValid c q w
      → IsValid c q (record w { accel = x })
  with_accel x h k m i =
      let d = i.devices in search (i.bytes, i.words, d.eeprom_bytes, d.lcd_bytes, m)

  pub with_eeprom :
      (x : Eeprom)
      → x.status < 256
      → x.hi_address < 256
      → x.lo_address < 256
      → x.offset < 65536
      → ((j : ℕ) → x.memory j < 256)
      → IsValid c q w
      → IsValid c q (record w { eeprom = x })
  with_eeprom x s h l k m i =
      let d = i.devices in search (i.bytes, i.words, d.accel_bytes, d.lcd_bytes, m)

  pub with_lcd :
      (x : Lcd)
      → IsPlaced x
      → x.contrast < 256
      → ((j : ℕ) → x.memory j < 256)
      → IsValid c q w
      → IsValid c q (record w { lcd = x })
  with_lcd x h b m i =
      let d = i.devices in search (i.bytes, i.words, d.accel_bytes, d.eeprom_bytes, m)

pub either :
    {c q : ℕ} (b : Bool) (x y : Walker)
    → IsValid c q x
    → IsValid c q y
    → IsValid c q (if b then x else y)
either true x y h k = h
either false x y h k = k

pub recast : {c c' q q' : ℕ} {w : Walker} → IsValid c q w → c ≡ c' → q ≡ q' → IsValid c' q' w
recast i e e' =
    let cycles = i.cycles ∙ e in let quarters = i.quarters ∙ e' in search (i.bytes, i.words)
