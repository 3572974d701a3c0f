-- ===== src/Drivers/Framebuffer/Bounds.antt =====
-- What `fb_fill_rect` leaves alone.
use mira_os.Base.{
  ℕ, zero, suc, ◌+◌, ◌-◌, ◌*◌, ◌/◌, ◌^◌, ◌<◌, ◌≤◌, ◌≡◌, ◌⊎◌, refl, ◌∙◌, inl, inr, ◌||◌, not, ltb,
  leb, if◌then◌else◌, arith, Bool-cases,
}
use mira_os.Common.Memory.{Memory, poke}
use mira_os.Kernel.Words.{add32}
use mira_os.Drivers.Framebuffer.{
  Framebuffer, fb_ready, pixel_at, fill_line, fill_rows, fb_fill_rect,
}

fill_line-outside :
    (n col line color a : ℕ) (m : Memory)
    → (a < line + col * 4) ⊎ (line + (col + n) * 4 ≤ a)
    → fill_line n col line color m a ≡ m a
unfolding fill_line poke
fill_line-outside zero col line color a m h = refl
fill_line-outside (suc n) col line color a m (inl h) =
    fill_line-outside n (col + 1) line color a _ (inl (omega arith)) ∙ ground arith
fill_line-outside (suc n) col line color a m (inr h) =
    fill_line-outside n (col + 1) line color a _ (inr (omega arith)) ∙ ground arith

-- The start of the buffer that is drawn to.
abbrev pub start_of : Framebuffer → ℕ
start_of s = if s.use_double_buffer then s.back_buffer else s.addr

row_below : (r h p : ℕ) → r < h → r * p + p ≤ h * p
row_below r h p lt = grind arith

scaled : (h q p : ℕ) → q * 4 ≤ p → h * q * 4 ≤ h * p
scaled zero q p le = grind arith
scaled (suc h) q p le = grind (arith, scaled h q p le)

-- The line of `w` pixels at `x` in the row `r` lies in the buffer.
pub line_inside :
    (s : Framebuffer) (x r w : ℕ)
    → s.height * s.pitch < 2 ^ 32
    → s.width * 4 ≤ s.pitch
    → start_of s + s.height * s.pitch < 2 ^ 64
    → x + w ≤ s.width
    → r < s.height
    → (start_of s ≤ pixel_at s x r) × (pixel_at s x r + w * 4 ≤ start_of s + s.height * s.pitch)
unfolding pixel_at
line_inside s x r w size pitch top fits lt =
    let q = s.pitch / 4 in
    let rows = row_below r s.height q lt in
    let bytes = row_below r s.height s.pitch lt in
    let words = scaled s.height q s.pitch (omega arith) in
    elim (Bool-cases s.use_double_buffer) [
      | inl double ↦ (
        rw (double, pixel_at) (omega (arith, rows, words)),
        rw (double, pixel_at) (omega (arith, rows, words)),
      )
      | inr single ↦
          let low : s.addr + s.height * s.pitch < 2 ^ 64 = ground arith in
          (
            rw (single, pixel_at) (omega (arith, bytes, low)),
            rw (single, pixel_at) (omega (arith, bytes, low)),
          )
    ]

fill_rows-outside :
    (n r x w color a : ℕ) (s : Framebuffer) (m : Memory)
    → s.height * s.pitch < 2 ^ 32
    → s.width * 4 ≤ s.pitch
    → start_of s + s.height * s.pitch < 2 ^ 64
    → x + w ≤ s.width
    → r + n ≤ s.height
    → (a < start_of s) ⊎ (start_of s + s.height * s.pitch ≤ a)
    → fill_rows n r x w color s m a ≡ m a
unfolding fill_rows
fill_rows-outside zero r x w color a s m size pitch top fits rows outside = refl
fill_rows-outside (suc n) r x w color a s m size pitch top fits rows outside =
    let (from, to) = line_inside s x r w size pitch top fits (omega arith) in
    let away : (a < pixel_at s x r + 0 * 4) ⊎ (pixel_at s x r + (0 + w) * 4 ≤ a) = elim outside [
      | inl h ↦ inl (omega (arith, from, h))
      | inr h ↦ inr (omega (arith, to, h))
    ] in
    fill_rows-outside n (r + 1) x w color a s _ size pitch top fits (omega arith) outside
    ∙ fill_line-outside w 0 (pixel_at s x r) color a m away

-- `fb_fill_rect` changes no byte outside the buffer that is drawn to, whatever rectangle it is given whose
-- right and lower edges do not wrap: it clips the rest. The buffer holds the screen's rows and has fewer
-- than 2 ^ 32 bytes.
pub fb_fill_rect-outside :
    (x y w h color a : ℕ) (s : Framebuffer)
    → s.height * s.pitch < 2 ^ 32
    → s.width * 4 ≤ s.pitch
    → start_of s + s.height * s.pitch < 2 ^ 64
    → x + w < 2 ^ 32
    → y + h < 2 ^ 32
    → s.height < 2 ^ 32
    → (a < start_of s) ⊎ (start_of s + s.height * s.pitch ≤ a)
    → (fb_fill_rect x y w h color s).pixels a ≡ s.pixels a
unfolding fb_fill_rect
fb_fill_rect-outside x y w h color a s size pitch top wide high rows outside =
    let cw = if ltb s.width (add32 x w) then s.width - x else w in
    let ch = if ltb s.height (add32 y h) then s.height - y else h in
    elim (Bool-cases (not (fb_ready s))) [
      | inl hidden ↦ rw (hidden, fb_fill_rect) refl
      | inr shown ↦ elim (Bool-cases (leb s.width x || leb s.height y)) [
        | inl off ↦ rw (shown, fb_fill_rect) (rw off refl)
        | inr on ↦
            let fits : x + cw ≤ s.width = ground arith in
            let below : y + ch ≤ s.height = ground arith in
            let count : y + (add32 y ch - y) ≤ s.height = omega (arith, below) in
            rw (shown, fb_fill_rect)
              (rw on (
                fill_rows-outside (add32 y ch - y) y x cw color a s s.pixels size pitch top fits
                  count outside))
      ]
    ]
