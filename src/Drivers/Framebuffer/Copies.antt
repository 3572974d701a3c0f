-- ===== src/Drivers/Framebuffer/Copies.antt =====
-- drivers/framebuffer.c: the copy of an image, and the end of the framebuffer. The image is the word at each
-- offset in bytes from `src`.
pub mod Inside
use mira_os.Base.{ℕ, zero, suc, ◌+◌, ◌*◌, false, not, ltb, if◌then◌else◌, Option, none, some}
use mira_os.Common.Memory.{Memory, poke}
use mira_os.Kernel.Words.{add32, sub32, mul32}
use mira_os.Drivers.Framebuffer.{Framebuffer, fb_ready, pixel_at}

abbrev pub Image : Type 0
Image = ℕ → ℕ

-- `dst_line[col] = src_line[col]` from column `col` on, with the rounds left.
unfoldable pub blit_line : ℕ → ℕ → ℕ → ℕ → Image → Memory → Memory
blit_line zero col dst_line src_line src m = m
blit_line (suc n) col dst_line src_line src m =
    blit_line n (col + 1) dst_line src_line src
      (poke m (dst_line + col * 4) (src (src_line + col * 4)))

-- The rows from `row` on, with the rounds left; a width that a row has cut is cut for the next rows too.
unfoldable pub blit_rows : ℕ → ℕ → ℕ → ℕ → ℕ → Image → ℕ → Framebuffer → Memory → Memory
unfolding blit_line pixel_at
blit_rows zero row dx dy w src src_pitch s m = m
blit_rows (suc n) row dx dy w src src_pitch s m =
    let clipped = if ltb s.width (add32 dx w) then sub32 s.width dx else w in
    let line = pixel_at s dx (add32 dy row) in
    let rest =
      blit_rows n (row + 1) dx dy clipped src src_pitch s
        (blit_line clipped 0 line (mul32 row src_pitch) src m) in
    if ltb (add32 dy row) s.height then rest else m

-- `src` is `none` for NULL.
unfoldable pub fb_blit : ℕ → ℕ → ℕ → ℕ → Option Image → ℕ → Framebuffer → Framebuffer
unfolding blit_rows fb_ready
fb_blit dx dy w h none src_pitch s = s
fb_blit dx dy w h (some src) src_pitch s =
    if not (fb_ready s)
    then s
    else record s { pixels = blit_rows h 0 dx dy w src src_pitch s s.pixels }

-- The release of the back buffer is a call of the heap.
unfoldable pub fb_shutdown : Framebuffer → Framebuffer
fb_shutdown s = record s {
  addr = 0;
  width = 0;
  height = 0;
  bpp = 0;
  back_buffer = 0;
  use_double_buffer = false;
}
