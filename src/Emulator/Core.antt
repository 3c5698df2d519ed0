-- ===== src/Emulator/Core.antt =====
-- The calls of src/emulator.cpp that pass on to the core: the clock, walking, received IR bytes, and
-- the picture of the LCD.
use pokestroller.Base.{
  ℕ, ◌+◌, ◌*◌, ◌/◌, ◌%◌, ◌^◌, ◌≡◌, ◌≢◌, refl, sym, ◌∙◌, Bool, true, false, Option, none, some, List,
  [], ◌∷◌, switch, ltb, if◌then◌else◌,
}
use mathlib.Core.Bool.{false≢true}
use mathlib.Core.Option.{some-ne-none}
use pokestroller.Video.{fill_rows}
use pokestroller.Video.Laws.{picture-fill_rows}
use pokestroller.Emulator.{core, Emulator, pw_clock}

module _ {S : Type 0} where
  -- `soc->rtc->Now`, with the host's time.
  unfoldable pub now : ℕ → Emulator S → ℕ
  now host pw = elim pw.clock_origin [ none ↦ host | some t ↦ t + pw.cycles / pw_clock ]

  unfoldable pub pw_clock_origin : Option ℕ → Emulator S → Emulator S
  pw_clock_origin origin pw = record pw { clock_origin = origin }

  -- `steps->is_enabled = enabled`, in the core.
  unfoldable pub pw_walk : (S → Bool → S) → Bool → Emulator S → Emulator S
  pw_walk enable enabled pw = record pw { soc = enable pw.soc enabled }

  unfoldable pub pw_ir_clear : (S → S) → Emulator S → Emulator S
  pw_ir_clear clear_receive pw = record pw { ir = []; soc = clear_receive pw.soc }

-- What ReceiveIR does with a byte: a new state of the core, or an exception.
pub data Taken (S : Type 0) : Type 0 where
  taken : S → Taken S
  thrown : S → ℕ → Taken S

module _ {S : Type 0} (receive_ir : S → ℕ → Taken S) where
  -- One byte, and the loop behind it.
  unfoldable pub receive_byte :
      Taken S → (Emulator S → Emulator S × Bool) → Emulator S → Emulator S × Bool
  receive_byte (thrown soc e) later pw = (record pw { soc = soc; error = some (core e) }, false)
  receive_byte (taken soc) later pw = later (record pw { soc = soc })

  unfoldable pub pw_ir_receive : List ℕ → Emulator S → Emulator S × Bool
  pw_ir_receive [] pw = (pw, true)
  pw_ir_receive (b ∷ bs) pw = receive_byte (receive_ir pw.soc b) (pw_ir_receive bs) pw

  receive_byte-error :
      (r : Taken S) (later : Emulator S → Emulator S × Bool) (pw : Emulator S)
      → ((pw1 : Emulator S)
          → pw1.error ≡ pw.error
          → ((later pw1).1 ≡ true → (later pw1).0.error ≡ pw.error)
            × ((later pw1).1 ≡ false → (later pw1).0.error ≢ none))
      → ((receive_byte r later pw).1 ≡ true → (receive_byte r later pw).0.error ≡ pw.error)
        × ((receive_byte r later pw).1 ≡ false → (receive_byte r later pw).0.error ≢ none)
  unfolding receive_byte
  receive_byte-error (thrown soc e) later pw h =
      ((λ t. absurd (false≢true t)), (λ t. some-ne-none (core e)))
  receive_byte-error (taken soc) later pw h = h (record pw { soc = soc }) refl

  -- pw_ir_receive returns true with the recorded error as it was, or false with an error recorded.
  pw_ir_receive_lem :
      (bs : List ℕ) (pw : Emulator S)
      → ((pw_ir_receive bs pw).1 ≡ true → (pw_ir_receive bs pw).0.error ≡ pw.error)
        × ((pw_ir_receive bs pw).1 ≡ false → (pw_ir_receive bs pw).0.error ≢ none)
  unfolding pw_ir_receive
  pw_ir_receive_lem [] pw = ((λ t. refl), (λ t. absurd (false≢true (sym t))))
  pw_ir_receive_lem (b ∷ bs) pw =
      receive_byte-error (receive_ir pw.soc b) (pw_ir_receive bs) pw
        λ pw1 e. let rest = pw_ir_receive_lem bs pw1 in ((λ t. rest.0 t ∙ e), rest.1)

-- The core's `draw_info`.
pub record DrawInfo : Type 0 where
  pub page_offset : ℕ
  pub power_save_mode : Bool
  pub vram : ℕ → ℕ

unfoldable pub frame_palette : ℕ → ℕ
frame_palette shade =
    switch shade ((0, 0xe0e7ce) ∷ (1, 0xa5af94) ∷ (2, 0x69765d) ∷ (3, 0x2b3726) ∷ []) 0

-- The shade of a pixel.
unfoldable pub shade : DrawInfo → ℕ → ℕ → ℕ
shade info x y =
    let base = (y / 8 + info.page_offset) * 256 + x * 2 in
    if info.power_save_mode
    then 0
    else info.vram base / 2 ^ (y % 8) % 2 * 2 + info.vram (base + 1) / 2 ^ (y % 8) % 2

-- The loops over x and y are those of fillVideoBuffer.
unfoldable pub pw_frame : DrawInfo → (ℕ → ℕ) → ℕ → ℕ
pw_frame info pixels = fill_rows (λ x y. frame_palette (shade info x y)) 64 0 pixels

-- Pixel (x, y) of the frame is at `y * 96 + x`, in the colour of its shade, and nothing else is
-- written.
pw_frame_lem :
    (info : DrawInfo) (pixels : ℕ → ℕ) (j : ℕ)
    → pw_frame info pixels j
      ≡ (if ltb j 6144 then frame_palette (shade info (j % 96) (j / 96)) else pixels j)
unfolding pw_frame
pw_frame_lem info pixels j = picture-fill_rows (λ x y. frame_palette (shade info x y)) pixels j
