-- ===== src/Video/Laws.antt =====
-- About fillVideoBuffer.
use pokestroller.Base.{
  ℕ, zero, suc, ◌+◌, ◌-◌, ◌*◌, ◌/◌, ◌%◌, ◌^◌, ◌<◌, ◌≡◌, ◌&&◌, refl, ◌∙◌, ap, arith, Bool, true,
  false, has_bit, switch, not, ltb, leb, ◌==◌, update, if◌then◌else◌,
}
use native.Mathlib.Decide.{ℕ_discrete}
use pokestroller.Machine.{Lcd, Walker}
use pokestroller.Devices.Lcd.{lcd_index, lcd_mem_size}
use pokestroller.Video.{pixel_index, palette, colour, fill_row, fill_rows, fill_video_buffer}

fill_row_lem :
    (pixel : ℕ → ℕ → ℕ) (y n x : ℕ) (buffer : ℕ → ℕ) (j : ℕ)
    → fill_row pixel y n x buffer j
      ≡ (if leb (y * 96 + x) j && ltb j (y * 96 + x + n) then pixel (j - y * 96) y else buffer j)
unfolding fill_row
fill_row_lem pixel y zero x buffer j = ground arith
fill_row_lem pixel y (suc n) x buffer j =
    ground (arith, fill_row_lem pixel y n (x + 1) (update buffer (y * 96 + x) (pixel x y)) j)

fill_row_whole :
    (pixel : ℕ → ℕ → ℕ) (y : ℕ) (buffer : ℕ → ℕ) (j : ℕ)
    → fill_row pixel y 96 0 buffer j ≡ (if j / 96 == y then pixel (j % 96) (j / 96) else buffer j)
fill_row_whole pixel y buffer j = elim (ℕ_discrete (j / 96) y) [
  | yes e ↦
      let inside : (leb (y * 96 + 0) j && ltb j (y * 96 + 0 + 96)) ≡ true = ground arith in
      let same : (j / 96 == y) ≡ true = ground arith in
      let column : j - y * 96 ≡ j % 96 = omega arith in
      fill_row_lem pixel y 96 0 buffer j ∙ rw (inside, same, column, e)
  | no e ↦
      let outside : (leb (y * 96 + 0) j && ltb j (y * 96 + 0 + 96)) ≡ false = ground arith in
      let differs : (j / 96 == y) ≡ false = ground arith in
      fill_row_lem pixel y 96 0 buffer j ∙ rw (outside, differs)
]

join_rows :
    (q y n c b : ℕ)
    → (if leb (y + 1) q && ltb q (y + 1 + n) then c else (if q == y then c else b))
      ≡ (if leb y q && ltb q (y + suc n) then c else b)
join_rows q y n c b = ground arith

fill_rows_lem :
    (pixel : ℕ → ℕ → ℕ) (n y : ℕ) (buffer : ℕ → ℕ) (j : ℕ)
    → fill_rows pixel n y buffer j
      ≡ (if leb y (j / 96) && ltb (j / 96) (y + n) then pixel (j % 96) (j / 96) else buffer j)
unfolding fill_rows
fill_rows_lem pixel zero y buffer j =
    let outside : (leb y (j / 96) && ltb (j / 96) (y + 0)) ≡ false = ground arith in rw outside
fill_rows_lem pixel (suc n) y buffer j =
    fill_rows_lem pixel n (y + 1) (fill_row pixel y 96 0 buffer) j
    ∙ rw (fill_row_whole pixel y buffer j)
        (join_rows (j / 96) y n (pixel (j % 96) (j / 96)) (buffer j))

-- The two loops over a whole picture.
pub picture-fill_rows :
    (pixel : ℕ → ℕ → ℕ) (buffer : ℕ → ℕ) (j : ℕ)
    → fill_rows pixel 64 0 buffer j ≡ (if ltb j 6144 then pixel (j % 96) (j / 96) else buffer j)
picture-fill_rows pixel buffer j =
    let same : (leb 0 (j / 96) && ltb (j / 96) (0 + 64)) ≡ ltb j 6144 = ground arith in
    rw (← same) (fill_rows_lem pixel 64 0 buffer j)

-- The place of the first or second byte of a pixel, as the LCD addresses it: column x of page y / 8 of
-- the current buffer, which starts at page 0 or 8.
abbrev pub pixel_byte : Lcd → ℕ → ℕ → ℕ → ℕ
pixel_byte l x y n = lcd_index (record l {
  current_page = (if l.current_buffer then 8 else 0) + y / 8;
  current_column = x;
  current_byte = n;
})

-- The four shades, from the bit of the first byte and that of the second.
abbrev pub shade_of : Bool → Bool → ℕ
shade_of false false = 0xcccccc
shade_of false true = 0x999999
shade_of true false = 0x666666
shade_of true true = 0x333333

-- Bit y % 8 of a byte of the pixel.
abbrev pub pixel_bit : Lcd → ℕ → ℕ → ℕ → Bool
pixel_bit l x y n = has_bit (l.memory (pixel_byte l x y n)) (y % 8)

palette-shade_of : (a b : ℕ) → palette (a % 2 * 2 + b % 2) ≡ shade_of (a % 2 == 1) (b % 2 == 1)
unfolding palette switch
palette-shade_of a b = ground arith

colour_lem : (l : Lcd) (x y : ℕ) → colour l x y ≡ shade_of (pixel_bit l x y 0) (pixel_bit l x y 1)
unfolding colour
colour_lem l x y =
    let first : pixel_index l x y ≡ pixel_byte l x y 0 = ground arith in
    let second : pixel_index l x y + 1 ≡ pixel_byte l x y 1 = ground arith in
    rw (second, first)
      (palette-shade_of (l.memory (pixel_byte l x y 0) / 2 ^ (y % 8))
        (l.memory (pixel_byte l x y 1) / 2 ^ (y % 8)))

-- Pixel (x, y) of the picture is at `y * 96 + x`. Its shade is that of bit y % 8 of the two bytes that
-- the LCD stores at column x of page y / 8 of the current buffer: light to dark 0xcccccc, 0x999999,
-- 0x666666 and 0x333333, the first byte's bit counting double. Nothing outside the picture is
-- written, and the buffers are exchanged for the next call.
pub fill_video_buffer_lem :
    (buffer : ℕ → ℕ) (w : Walker) (j : ℕ)
    → let (frame, w') = fill_video_buffer buffer w in
      let bit = pixel_bit w.lcd (j % 96) (j / 96) in
      (frame j ≡ (if ltb j 6144 then shade_of (bit 0) (bit 1) else buffer j))
      × (w'.lcd.current_buffer ≡ not w.lcd.current_buffer)
unfolding fill_video_buffer
fill_video_buffer_lem buffer w j = (
  picture-fill_rows (colour w.lcd) buffer j
      ∙ ap (λ c. if ltb j 6144 then c else buffer j) (colour_lem w.lcd (j % 96) (j / 96)),
  refl,
)

-- The picture reads inside the LCD's memory, and the two bytes of pixel (x, y) are those that the
-- LCD stores at column x of page y / 8 of the current buffer, which starts at page 0 or 8.
pub pixel_index_lem :
    (l : Lcd) (x y : ℕ)
    → x < 96
    → y < 64
    → (pixel_index l x y + 1 < lcd_mem_size)
      × (pixel_index l x y
          ≡ lcd_index (record l {
            current_page = (if l.current_buffer then 8 else 0) + y / 8;
            current_column = x;
            current_byte = 0;
          }))
pixel_index_lem l x y p q = (ground arith, ground arith)
