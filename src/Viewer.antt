-- ===== src/Viewer.antt =====
-- src/lcdMemViewer.c: two dumps of the LCD's memory, printed side by side. What the program prints is
-- a list of characters; the files are functions from the index to the byte.
use pokestroller.Base.{
  ℕ, zero, suc, ◌+◌, ◌*◌, ◌/◌, ◌%◌, ◌^◌, ◌<◌, ◌≡◌, refl, ap₂, subst, ◌∙◌, arith, Bool, true, not,
  ◌&&◌, length, List, [], ◌∷◌, ◌++◌, ◌==◌, switch,
}
use pokestroller.Link.Lists.{length-++}

-- `paletteIdx`: the sum of the two bits.
unfoldable pub palette_idx : (ℕ → ℕ) → ℕ → ℕ → ℕ
palette_idx memory x y =
    let i = 2 * x + y / 8 * 192 in memory i / 2 ^ (y % 8) % 2 + memory (i + 1) / 2 ^ (y % 8) % 2

-- `switch (paletteIdx)`: " ", "x", "*" and "-".
unfoldable pub print_pixel : ℕ → List ℕ
print_pixel i = switch i ((0, 32 ∷ []) ∷ (1, 120 ∷ []) ∷ (2, 42 ∷ []) ∷ (3, 45 ∷ []) ∷ []) []

-- The inner loop, with the rounds left.
unfoldable pub print_row : (ℕ → ℕ) → ℕ → ℕ → ℕ → List ℕ
print_row memory y zero x = []
print_row memory y (suc n) x = print_pixel (palette_idx memory x y) ++ print_row memory y n (x + 1)

abbrev gap : List ℕ
gap = 32 ∷ 32 ∷ 32 ∷ 32 ∷ 32 ∷ 32 ∷ 32 ∷ 32 ∷ []

-- One of the two pictures' line and its gap.
unfoldable pub half_line : (ℕ → ℕ) → ℕ → List ℕ
half_line memory y = print_row memory y 96 0 ++ gap

-- The outer loop, with the rounds left; 10 is the end of a line.
unfoldable pub print_lines : (ℕ → ℕ) → (ℕ → ℕ) → ℕ → ℕ → List ℕ
print_lines memory1 memory2 zero y = []
print_lines memory1 memory2 (suc n) y =
    half_line memory1 y
    ++ (half_line memory2 y ++ ((10 ∷ []) ++ print_lines memory1 memory2 n (y + 1)))

-- The character `c` is not in the list.
abbrev pub absent : ℕ → List ℕ → Bool
absent c [] = true
absent c (x ∷ xs) = not (x == c) && absent c xs

absent-++ :
    (c : ℕ) (xs ys : List ℕ) → absent c xs ≡ true → absent c ys ≡ true → absent c (xs ++ ys) ≡ true
absent-++ c [] ys h k = k
absent-++ c (x ∷ xs) ys h k =
    let rest = absent-++ c xs ys (ground (arith, h)) k in ground (arith, h, rest)

-- `n` characters, and no "-".
pub record HasNoDash (n : ℕ) (cs : List ℕ) : Type 0 where
  pub size : length cs ≡ n
  pub clean : absent 45 cs ≡ true

joined : (m n : ℕ) (xs ys : List ℕ) → HasNoDash m xs → HasNoDash n ys → HasNoDash (m + n) (xs ++ ys)
joined m n xs ys h k = record {
  size = length-++ xs ys ∙ ap₂ (λ a b. a + b) h.size k.size;
  clean = absent-++ 45 xs ys h.clean k.clean;
}

pixel-HasNoDash : (i : ℕ) → i < 3 → HasNoDash 1 (print_pixel i)
unfolding print_pixel switch
pixel-HasNoDash zero h = record { size = refl; clean = refl }
pixel-HasNoDash (suc zero) h = record { size = refl; clean = refl }
pixel-HasNoDash (suc (suc zero)) h = record { size = refl; clean = refl }
pixel-HasNoDash (suc (suc (suc i))) h = absurd (omega (arith, h))

row-HasNoDash : (memory : ℕ → ℕ) (y n x : ℕ) → HasNoDash n (print_row memory y n x)
unfolding print_row palette_idx
row-HasNoDash memory y zero x = record { size = refl; clean = refl }
row-HasNoDash memory y (suc n) x =
    subst (λ k. HasNoDash k (print_row memory y (suc n) x)) (omega arith)
      (joined 1 n _ _ (pixel-HasNoDash (palette_idx memory x y) (omega arith))
        (row-HasNoDash memory y n (x + 1)))

gap-HasNoDash : HasNoDash 8 gap
gap-HasNoDash = record { size = refl; clean = refl }

half-HasNoDash : (memory : ℕ → ℕ) (y : ℕ) → HasNoDash 104 (half_line memory y)
unfolding half_line
half-HasNoDash memory y =
    joined 96 8 (print_row memory y 96 0) gap (row-HasNoDash memory y 96 0) gap-HasNoDash

-- For n lines of two dumps, from line y on, the program prints 209 characters for each line, and none
-- of them is the "-" of the palette index 3.
pub print_lines-HasNoDash :
    (memory1 memory2 : ℕ → ℕ) (n y : ℕ) → HasNoDash (209 * n) (print_lines memory1 memory2 n y)
unfolding print_lines
print_lines-HasNoDash memory1 memory2 zero y = record { size = refl; clean = refl }
print_lines-HasNoDash memory1 memory2 (suc n) y =
    let tail = print_lines memory1 memory2 n (y + 1) in
    let rest =
      joined 1 (209 * n) (10 ∷ []) tail (record { size = refl; clean = refl })
        (print_lines-HasNoDash memory1 memory2 n (y + 1)) in
    let right =
      joined 104 (1 + 209 * n) (half_line memory2 y) ((10 ∷ []) ++ tail) (half-HasNoDash memory2 y)
        rest in
    subst (λ k. HasNoDash k (print_lines memory1 memory2 (suc n) y)) (omega arith)
      (joined 104 (104 + (1 + 209 * n)) (half_line memory1 y)
        (half_line memory2 y ++ ((10 ∷ []) ++ tail)) (half-HasNoDash memory1 y) right)
