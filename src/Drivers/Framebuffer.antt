-- ===== src/Drivers/Framebuffer.antt =====
-- drivers/framebuffer.c: pixels, rectangles and image copies. A pixel is a word of 4 bytes at its address in memory; the
-- coordinates are `uint32_t`.
pub mod Bounds
pub mod Copies
use mira_os.Base.{
  ℕ, zero, suc, ◌+◌, ◌-◌, ◌*◌, ◌/◌, ◌%◌, ◌^◌, Bool, true, false, ◌==◌, ◌&&◌, ◌||◌, not, ltb, leb,
  if◌then◌else◌,
}
use mira_os.Common.Memory.{Memory, poke}
use mira_os.Kernel.Words.{add32, sub32, mul32, add64}

pub record Framebuffer : Type 0 where
  pub addr : ℕ
  pub pitch : ℕ
  pub width : ℕ
  pub height : ℕ
  pub bpp : ℕ
  pub back_buffer : ℕ
  pub use_double_buffer : Bool
  pub pixels : Memory

unfoldable pub fb_ready : Framebuffer → Bool
fb_ready s = not (s.addr == 0) && (s.bpp == 32)

-- The address of the pixel at `x` in the row `y`
unfoldable pub pixel_at : Framebuffer → ℕ → ℕ → ℕ
pixel_at s x y =
    if s.use_double_buffer
    then s.back_buffer + add32 (mul32 y (s.pitch / 4)) x * 4
    else add64 s.addr (add64 (mul32 y s.pitch) (mul32 x 4))

unfoldable pub fb_write_pixel : ℕ → ℕ → ℕ → Framebuffer → Framebuffer
fb_write_pixel x y color s =
    if not (fb_ready s) || (leb s.width x || leb s.height y)
    then s
    else record s { pixels = poke s.pixels (pixel_at s x y) color }

unfoldable pub fb_put_pixel : ℕ → ℕ → ℕ → Framebuffer → Framebuffer
fb_put_pixel x y color s = fb_write_pixel x y color s

-- `line[col] = color` from column `col` on, with the rounds left.
unfoldable pub fill_line : ℕ → ℕ → ℕ → ℕ → Memory → Memory
fill_line zero col line color m = m
fill_line (suc n) col line color m =
    fill_line n (col + 1) line color (poke m (line + col * 4) color)

-- The rows from `row` on, with the rounds left.
unfoldable pub fill_rows : ℕ → ℕ → ℕ → ℕ → ℕ → Framebuffer → Memory → Memory
fill_rows zero row x w color s m = m
fill_rows (suc n) row x w color s m =
    fill_rows n (row + 1) x w color s (fill_line w 0 (pixel_at s x row) color m)

unfoldable pub fb_fill_rect : ℕ → ℕ → ℕ → ℕ → ℕ → Framebuffer → Framebuffer
fb_fill_rect x y w h color s =
    let clipped_w = if ltb s.width (add32 x w) then s.width - x else w in
    let clipped_h = if ltb s.height (add32 y h) then s.height - y else h in
    if not (fb_ready s)
    then s
    else if leb s.width x || leb s.height y
    then s
    else record s { pixels = fill_rows (add32 y clipped_h - y) y x clipped_w color s s.pixels }

unfoldable pub fb_draw_rect : ℕ → ℕ → ℕ → ℕ → ℕ → Framebuffer → Framebuffer
fb_draw_rect x y w h color s = fb_fill_rect x y w h color s

-- The loop of `fb_draw_rect_outline` from `t` on, with the rounds left.
unfoldable pub outline : ℕ → ℕ → ℕ → ℕ → ℕ → ℕ → ℕ → Framebuffer → Framebuffer
outline zero t x y w h color s = s
outline (suc n) t x y w h color s =
    let inner_w = sub32 w (mul32 2 t) in
    let inner_h = sub32 h (mul32 2 t) in
    let top = fb_fill_rect (add32 x t) (add32 y t) inner_w 1 color s in
    let bottom = fb_fill_rect (add32 x t) (sub32 (sub32 (add32 y h) 1) t) inner_w 1 color top in
    let left = fb_fill_rect (add32 x t) (add32 y t) 1 inner_h color bottom in
    outline n (t + 1) x y w h color
      (fb_fill_rect (sub32 (sub32 (add32 x w) 1) t) (add32 y t) 1 inner_h color left)

unfoldable pub fb_draw_rect_outline : ℕ → ℕ → ℕ → ℕ → ℕ → ℕ → Framebuffer → Framebuffer
fb_draw_rect_outline x y w h color thickness s = outline thickness 0 x y w h color s

unfoldable pub fb_clear : ℕ → Framebuffer → Framebuffer
fb_clear color s = fb_fill_rect 0 0 s.width s.height color s
