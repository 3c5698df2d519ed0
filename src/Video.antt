-- ===== src/Video.antt =====
-- fillVideoBuffer of src/walker.c: the picture of the current buffer of the LCD's memory, 96 by 64
-- pixels with two bits each, and the switch to the other buffer.
pub mod Laws
use pokestroller.Base.{
  ℕ, zero, suc, ◌+◌, ◌*◌, ◌/◌, ◌%◌, ◌^◌, Bool, not, List, [], ◌∷◌, ◌==◌, update, switch,
  if◌then◌else◌,
}
use pokestroller.Machine.{Lcd, Walker}

-- The index of the first byte of a pixel; the second byte follows.
abbrev pub pixel_index : Lcd → ℕ → ℕ → ℕ
pixel_index l x y = 2 * x + (if l.current_buffer then 1 else 0) * 96 * 16 + y / 8 * 96 * 2

-- `palette`
unfoldable pub palette : ℕ → ℕ
unfolding switch
palette i = switch i ((0, 0xcccccc) ∷ (1, 0x999999) ∷ (2, 0x666666) ∷ (3, 0x333333) ∷ []) 0

-- Bit `y % 8` of each of the two bytes; the first is the upper one.
unfoldable pub colour : Lcd → ℕ → ℕ → ℕ
unfolding palette
colour l x y =
    let first = l.memory (pixel_index l x y) / 2 ^ (y % 8) % 2 in
    let second = l.memory (pixel_index l x y + 1) / 2 ^ (y % 8) % 2 in palette (first * 2 + second)

-- The inner loop, with the colour of a pixel and the rounds left.
unfoldable pub fill_row : (ℕ → ℕ → ℕ) → ℕ → ℕ → ℕ → (ℕ → ℕ) → ℕ → ℕ
fill_row pixel y zero x buffer = buffer
fill_row pixel y (suc n) x buffer =
    fill_row pixel y n (x + 1) (update buffer (y * 96 + x) (pixel x y))

-- The outer loop.
unfoldable pub fill_rows : (ℕ → ℕ → ℕ) → ℕ → ℕ → (ℕ → ℕ) → ℕ → ℕ
unfolding fill_row
fill_rows pixel zero y buffer = buffer
fill_rows pixel (suc n) y buffer = fill_rows pixel n (y + 1) (fill_row pixel y 96 0 buffer)

unfoldable pub fill_video_buffer : (ℕ → ℕ) → Walker → (ℕ → ℕ) × Walker
unfolding fill_rows
fill_video_buffer buffer w =
    let l = w.lcd in
    (
      fill_rows (colour l) 64 0 buffer,
      record w { lcd = record l { current_buffer = not l.current_buffer } },
    )
