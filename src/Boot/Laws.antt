-- ===== src/Boot/Laws.antt =====
-- About readImage, initWalkerFromFiles, initializeWalkerImages and copyWalkerEEPROM.
use pokestroller.Base.{
  ℕ, ◌<◌, ◌≤◌, ◌≡◌, ◌≢◌, ◌↔◌, ◌⊎◌, inl, inr, refl, sym, arith, Bool, true, false, Option, none,
  some, ltb, if◌then◌else◌,
}
use mathlib.Core.Bool.{false≢true}
use pokestroller.Machine.{Walker}
use pokestroller.Machine.Memory.{set_memory8, set_memory16}
use pokestroller.Boot.{
  FileCalls, Message, ImageResult, image, error, rom_size, mem_size, read_image,
  init_walker_from_files, initialize_walker_images, copy_walker_eeprom,
}

-- A file that can be opened, has one of the accepted sizes, and is read and closed without error.
pub record IsImage (expected : ℕ) (dump : Bool) (f : FileCalls) : Type 0 where
  pub sought : f.seek_ok ≡ true
  pub sized : (f.tell ≡ some expected) ⊎ ((dump ≡ true) × (f.tell ≡ some mem_size))
  pub whole : f.read_count ≡ expected
  pub sound : f.read_error ≡ false
  pub closed : f.close_ok ≡ true

read_image-of-IsImage :
    (expected : ℕ) (dump : Bool) (f : FileCalls)
    → IsImage expected dump f
    → read_image (some f) expected dump ≡ image f.bytes
unfolding read_image
read_image-of-IsImage expected dump f h = ground arith

IsImage-of_read_image :
    (expected : ℕ) (dump : Bool) (f : FileCalls) (b : ℕ → ℕ)
    → read_image (some f) expected dump ≡ image b
    → IsImage expected dump f × (b ≡ f.bytes)
unfolding read_image
IsImage-of_read_image expected dump f b h = ground arith

result-cases : (r : ImageResult) → ((b : ℕ → ℕ) × (r ≡ image b)) ⊎ ((e : Message) × (r ≡ error e))
result-cases (image b) = inl (b, refl)
result-cases (error e) = inr (e, refl)

-- readImage returns the bytes of an image, or a message.
pub read_image-cases :
    (o : Option FileCalls) (expected : ℕ) (dump : Bool)
    → ((f : FileCalls) × (o ≡ some f)
        × IsImage expected dump f
        × (read_image o expected dump ≡ image f.bytes))
      ⊎ ((e : Message) × (read_image o expected dump ≡ error e))
read_image-cases none expected dump = inr (Message.cannot_open, unfold read_image in refl)
read_image-cases (some f) expected dump = elim (result-cases (read_image (some f) expected dump)) [
  | inl (b, e) ↦
      let h = IsImage-of_read_image expected dump f b e in
      inl (f, refl, h.0, read_image-of-IsImage expected dump f h.0)
  | inr (m, e) ↦ inr (m, e)
]

-- A file that is there and is an image.
abbrev pub IsImageFile : ℕ → Bool → Option FileCalls → Type 0
IsImageFile expected dump o = (f : FileCalls) × (o ≡ some f) × IsImage expected dump f

-- readImage gives a message for no such file.
pub error-not_IsImageFile :
    (o : Option FileCalls) (expected : ℕ) (dump : Bool) (e : Message)
    → read_image o expected dump ≡ error e
    → ¬ IsImageFile expected dump o
error-not_IsImageFile o expected dump e h (f, ef, i) =
    let found = read_image-of-IsImage expected dump f i in
    let same : read_image o expected dump ≡ image f.bytes = rw ef found in cc

-- Both files are images: the ROM of 48 KiB or a dump of 64 KiB, the EEPROM of 64 KiB.
abbrev pub Accepted : Option FileCalls → Option FileCalls → Type 0
Accepted rom_file eeprom_file =
    (f : FileCalls) × (g : FileCalls) × (rom_file ≡ some f)
    × (eeprom_file ≡ some g)
    × IsImage rom_size true f
    × IsImage mem_size false g

Accepted-of_start :
    (rom_file eeprom_file : Option FileCalls) (w : Walker)
    → (init_walker_from_files rom_file eeprom_file w).0 ≡ true
    → Accepted rom_file eeprom_file
unfolding init_walker_from_files
Accepted-of_start rom_file eeprom_file w h = elim (read_image-cases rom_file rom_size true) [
  | inr (m, e) ↦ absurd (false≢true (rw e at h))
  | inl (f, ef, i, e) ↦ elim (read_image-cases eeprom_file mem_size false) [
    | inr (m, e') ↦ absurd (false≢true (rw (e, e') at h))
    | inl (g, eg, i', e') ↦ (f, g, ef, eg, i, i')
  ]
]

start_of_accepted :
    (f g : FileCalls) (w : Walker)
    → IsImage rom_size true f
    → IsImage mem_size false g
    → init_walker_from_files (some f) (some g) w
      ≡ (true, none, initialize_walker_images f.bytes g.bytes w)
unfolding init_walker_from_files
start_of_accepted f g w i i' =
    rw (read_image-of-IsImage rom_size true f i, read_image-of-IsImage mem_size false g i')

-- A start succeeds exactly when both files are images: the ROM of 48 KiB or a dump of 64 KiB, the
-- EEPROM of 64 KiB, each read to the end and closed without an error.
pub init_succeeds_iff :
    (rom_file eeprom_file : Option FileCalls) (w : Walker)
    → ((init_walker_from_files rom_file eeprom_file w).0 ≡ true) ↔ Accepted rom_file eeprom_file
init_succeeds_iff rom_file eeprom_file w = (
  Accepted-of_start rom_file eeprom_file w,
  λ (f, g, e, e', i, i'). rw (e, e', start_of_accepted f g w i i'),
)

-- A start that fails gives a message and leaves the whole session as it was; one that succeeds
-- gives none, and the session starts from the bytes of the two files.
pub init_walker_from_files_lem :
    (rom_file eeprom_file : Option FileCalls) (w : Walker)
    → let (done, message, w') = init_walker_from_files rom_file eeprom_file w in
      (done ≡ false → (message ≢ none) × (w' ≡ w))
      × (done ≡ true
          → (message ≡ none)
            × ((f : FileCalls) × (g : FileCalls) × (rom_file ≡ some f)
                × (eeprom_file ≡ some g)
                × (w' ≡ initialize_walker_images f.bytes g.bytes w)))
unfolding init_walker_from_files
init_walker_from_files_lem rom_file eeprom_file w = elim (read_image-cases rom_file rom_size true) [
  | inr (m, e) ↦ rw e ((λ h. ((λ q. cc), refl)), (λ h. absurd (false≢true h)))
  | inl (f, ef, i, e) ↦ elim (read_image-cases eeprom_file mem_size false) [
    | inr (m, e') ↦ rw (e, e') ((λ h. ((λ q. cc), refl)), (λ h. absurd (false≢true h)))
    | inl (g, eg, i', e') ↦
        rw (e, e') ((λ h. absurd (false≢true (sym h))), (λ h. (refl, (f, g, ef, eg, refl))))
  ]
]

-- A new session keeps nothing of the one before, but for the caller's cycle counter.
pub initialize_forgets :
    (rom eeprom_image : ℕ → ℕ) (w w' : Walker)
    → w.cycle_count ≡ w'.cycle_count
    → initialize_walker_images rom eeprom_image w ≡ initialize_walker_images rom eeprom_image w'
unfolding initialize_walker_images
initialize_forgets rom eeprom_image w w' h = rw h

-- After a start the program stands at 0x2c4 with the ROM below 0xc000 and zeros in RAM, CKSTPR1 (at
-- 0xfffa) holds 4, the value written for CKSTPR2, and CKSTPR2 (at 0xfffb) holds 0. The copy of the EEPROM, into a destination that is large enough, is the image.
pub initialize_lem :
    (rom eeprom_image : ℕ → ℕ) (w : Walker) (j capacity : ℕ)
    → let w' = initialize_walker_images rom eeprom_image w in
      (w'.pc ≡ 0x2c4)
      × (j < 0xc000 → w'.memory j ≡ rom j)
      × (0xf780 ≤ j → j < 0xff80 → w'.memory j ≡ 0)
      × (w'.memory 0xfffa ≡ 4)
      × (w'.memory 0xfffb ≡ 0)
      × (copy_walker_eeprom true capacity w'
          ≡ (if ltb capacity 65536 then none else some eeprom_image))
unfolding initialize_walker_images copy_walker_eeprom set_memory8 set_memory16
initialize_lem rom eeprom_image w j capacity =
    (refl, (λ h. ground arith), (λ h k. ground arith), refl, refl, refl)
