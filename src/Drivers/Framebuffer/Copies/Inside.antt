-- ===== src/Drivers/Framebuffer/Copies/Inside.antt =====
-- Where `fb_blit` of drivers/framebuffer.c writes.
use mira_os.Base.{
  ℕ, zero, suc, ◌+◌, ◌*◌, ◌^◌, ◌<◌, ◌≤◌, ◌≡◌, ◌⊎◌, refl, ◌∙◌, inl, inr, not, ltb, if◌then◌else◌,
  some, arith, Bool-cases,
}
use mira_os.Common.Memory.{Memory, poke}
use mira_os.Kernel.Words.{add32, sub32, mul32}
use mira_os.Drivers.Framebuffer.{Framebuffer, fb_ready, pixel_at}
use mira_os.Drivers.Framebuffer.Bounds.{start_of, line_inside}
use mira_os.Drivers.Framebuffer.Copies.{Image, blit_line, blit_rows, fb_blit}

blit_line-outside :
    (n col line from a : ℕ) (src : Image) (m : Memory)
    → (a < line + col * 4) ⊎ (line + (col + n) * 4 ≤ a)
    → blit_line n col line from src m a ≡ m a
unfolding blit_line poke
blit_line-outside zero col line from a src m h = refl
blit_line-outside (suc n) col line from a src m (inl h) =
    blit_line-outside n (col + 1) line from a src _ (inl (omega arith)) ∙ ground arith
blit_line-outside (suc n) col line from a src m (inr h) =
    blit_line-outside n (col + 1) line from a src _ (inr (omega arith)) ∙ ground arith

cut :
    (dx w width : ℕ)
    → dx ≤ width
    → width < 2 ^ 32
    → dx + w < 2 ^ 32
    → dx + (if ltb width (add32 dx w) then sub32 width dx else w) ≤ width
cut dx w width le small fits = ground (arith, le, small, fits)

blit_rows-outside :
    (n row dx dy w src_pitch a : ℕ) (src : Image) (s : Framebuffer) (m : Memory)
    → s.height * s.pitch < 2 ^ 32
    → s.width * 4 ≤ s.pitch
    → start_of s + s.height * s.pitch < 2 ^ 64
    → s.width < 2 ^ 32
    → dx ≤ s.width
    → dx + w < 2 ^ 32
    → (a < start_of s) ⊎ (start_of s + s.height * s.pitch ≤ a)
    → blit_rows n row dx dy w src src_pitch s m a ≡ m a
unfolding blit_rows
blit_rows-outside zero row dx dy w src_pitch a src s m size pitch top small le fits outside = refl
blit_rows-outside (suc n) row dx dy w src_pitch a src s m size pitch top small le fits outside =
    let clipped = if ltb s.width (add32 dx w) then sub32 s.width dx else w in
    let inside : dx + clipped ≤ s.width = cut dx w s.width le small fits in
    elim (Bool-cases (ltb (add32 dy row) s.height)) [
      | inr below ↦ rw (below, blit_rows) refl
      | inl shown ↦
          let lt : add32 dy row < s.height = ground (arith, shown) in
          let (low, high) = line_inside s dx (add32 dy row) clipped size pitch top inside lt in
          let line = pixel_at s dx (add32 dy row) in
          let apart : (a < line + 0 * 4) ⊎ (line + (0 + clipped) * 4 ≤ a) = elim outside [
            | inl before ↦ inl (omega (arith, low))
            | inr after ↦ inr (omega (arith, high))
          ] in
          rw (shown, blit_rows)
            (blit_rows-outside n (row + 1) dx dy clipped src_pitch a src s _ size pitch top small le
                (omega (arith, inside)) outside
              ∙ blit_line-outside clipped 0 line (mul32 row src_pitch) a src m apart)
    ]

-- `fb_blit` changes no byte outside the buffer that is drawn to, for an image whose left edge is on the screen or
-- at its right border and whose right edge does not wrap. The buffer holds the screen's rows and has fewer than
-- 2 ^ 32 bytes.
pub fb_blit-outside :
    (dx dy w h src_pitch a : ℕ) (src : Image) (s : Framebuffer)
    → s.height * s.pitch < 2 ^ 32
    → s.width * 4 ≤ s.pitch
    → start_of s + s.height * s.pitch < 2 ^ 64
    → s.width < 2 ^ 32
    → dx ≤ s.width
    → dx + w < 2 ^ 32
    → (a < start_of s) ⊎ (start_of s + s.height * s.pitch ≤ a)
    → (fb_blit dx dy w h (some src) src_pitch s).pixels a ≡ s.pixels a
unfolding fb_blit
fb_blit-outside dx dy w h src_pitch a src s size pitch top small le fits outside =
    elim (Bool-cases (not (fb_ready s))) [
      | inl none_ready ↦ rw none_ready refl
      | inr ready ↦ rw ready (
          blit_rows-outside h 0 dx dy w src_pitch a src s s.pixels size pitch top small le fits
            outside)
    ]
