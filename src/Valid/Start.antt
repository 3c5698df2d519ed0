-- ===== src/Valid/Start.antt =====
-- initializeWalkerImages starts a session in a valid state.
use pokestroller.Base.{
  ℕ, ◌^◌, ◌<◌, ◌≡◌, ◌⊎◌, inl, inr, refl, subst, arith, Bool, true, false, Option, none, some, List,
  [], ◌∷◌,
}
use pokestroller.Machine.{Walker}
use pokestroller.Boot.{
  FileCalls, Message, started, exited, rom_size, mem_size, init_walker, blank_session,
  reset_registers, reset_clocks, write_bytes, initialize_walker_images,
}
use mathlib.Core.Bool.{false≢true}
use pokestroller.Boot.Laws.{IsImageFile, read_image-cases, error-not_IsImageFile}
use pokestroller.Valid.{IsValid, memory8, memory16}

write_bytes-IsValid :
    {c q : ℕ} (xs : List (ℕ × ℕ)) (w : Walker) → IsValid c q w → IsValid c q (write_bytes xs w)
unfolding write_bytes
write_bytes-IsValid [] w i = i
write_bytes-IsValid ((a, v) ∷ r) w i = write_bytes-IsValid r _ (memory8 a v i)

module _ (rom eeprom_image : ℕ → ℕ) (w : Walker) (h : (j : ℕ) → rom j < 256)
    (k : (j : ℕ) → eeprom_image j < 256) (z : w.cycle_count < 2 ^ 64) where
  blank-IsValid : IsValid w.cycle_count 0 (blank_session rom eeprom_image w)
  unfolding blank_session
  blank-IsValid = record {
    cycles = refl;
    bytes = λ j. ground (arith, h j);
    words = λ j. omega arith;
    pc = omega arith;
    saved = omega arith;
    quarters = refl;
    cycle_range = z;
    quarter_range = omega arith;
    sub_clock = omega arith;
    keys = tt;
    reload = omega arith;
    ready = refl;
    devices = record {
      partial = omega arith;
      accel_address = omega arith;
      accel_offset = omega arith;
      eeprom_status = omega arith;
      eeprom_hi = omega arith;
      eeprom_lo = omega arith;
      eeprom_offset = omega arith;
      accel_bytes = λ j. ground arith;
      eeprom_bytes = k;
      lcd_bytes = λ j. omega arith;
      contrast = omega arith;
      lcd = record { column = omega arith; page = omega arith; byte = omega arith };
    };
  }

  pub initialize-IsValid : IsValid w.cycle_count 0 (initialize_walker_images rom eeprom_image w)
  unfolding initialize_walker_images
  initialize-IsValid = write_bytes-IsValid reset_clocks _ (
      memory16 _ _ (
        memory16 _ _ (
          memory16 _ _ (
            memory16 _ _ (
              write_bytes-IsValid reset_registers (blank_session rom eeprom_image w)
                blank-IsValid)))))

-- The bytes of a file.
abbrev pub IsByteFile : Option FileCalls → Type 0
IsByteFile none = Unit
IsByteFile (some f) = (j : ℕ) → f.bytes j < 256

-- What initWalker needs: a ROM image and, without INIT_EEPROM, an EEPROM image.
abbrev pub IsStartable : Bool → Option FileCalls → Option FileCalls → Type 0
IsStartable init_eeprom rom_file eeprom_file =
    IsImageFile rom_size true rom_file
    × ((init_eeprom ≡ true) ⊎ IsImageFile mem_size false eeprom_file)

-- The image of the EEPROM that a session starts with.
abbrev pub eeprom_bytes : Bool → Option FileCalls → ℕ → ℕ
eeprom_bytes true o j = 255
eeprom_bytes false none j = 0
eeprom_bytes false (some g) j = g.bytes j

-- initWalker either starts a session or exits with a message. It starts one where the ROM file is an
-- image and either a blank EEPROM is asked for or the EEPROM file is an image; the session is that of
-- the ROM's bytes and of the EEPROM's, or of bytes 0xff, and every number in it is in the range of its
-- C type and every device where its registers can address. It exits where this is not so.
pub init_walker-IsValid :
    (init_eeprom : Bool) (rom_file eeprom_file : Option FileCalls) (w : Walker)
    → IsByteFile rom_file
    → IsByteFile eeprom_file
    → w.cycle_count < 2 ^ 64
    → (IsStartable init_eeprom rom_file eeprom_file
        × ((f : FileCalls) × (rom_file ≡ some f)
            × (let w' = initialize_walker_images f.bytes (eeprom_bytes init_eeprom eeprom_file) w in
                (init_walker init_eeprom rom_file eeprom_file w ≡ started w')
                × IsValid w.cycle_count 0 w')))
      ⊎ (¬ IsStartable init_eeprom rom_file eeprom_file
          × ((e : Message) × (init_walker init_eeprom rom_file eeprom_file w ≡ exited (some e))))
unfolding init_walker
init_walker-IsValid true rom_file eeprom_file w h k z =
    elim (read_image-cases rom_file rom_size true) [
      | inr (m, e) ↦
          inr ((λ b. error-not_IsImageFile rom_file rom_size true m e b.0), (m, rw e refl))
      | inl (f, ef, i, e) ↦ inl (
        ((f, ef, i), inl refl),
        (
          f,
          ef,
          (rw e refl, initialize-IsValid f.bytes _ w (subst IsByteFile ef h) (λ j. omega arith) z),
        ),
      )
    ]
init_walker-IsValid false rom_file eeprom_file w h k z =
    elim (read_image-cases rom_file rom_size true) [
      | inr (m, e) ↦
          inr ((λ b. error-not_IsImageFile rom_file rom_size true m e b.0), (m, rw e refl))
      | inl (f, ef, i, e) ↦ elim (read_image-cases eeprom_file mem_size false) [
        | inr (m, e') ↦ inr (
          (λ b. elim b.1 [
            | inl t ↦ false≢true t
            | inr d ↦ error-not_IsImageFile eeprom_file mem_size false m e' d
          ]),
          (m, rw (e, e') refl),
        )
        | inl (g, eg, i', e') ↦ inl (
          ((f, ef, i), inr (g, eg, i')),
          (
            f,
            ef,
            (
              rw (e, e', eg) refl,
              rw eg (
                  initialize-IsValid f.bytes g.bytes w (subst IsByteFile ef h)
                    (subst IsByteFile eg k) z),
            ),
          ),
        )
      ]
    ]
