-- ===== src/Graphics.antt =====
-- kernel/gui/framebuffer.c: the frame buffer. Its memory is a list of 32-bit pixels, and the static
-- variables are the record `Framebuffer`; the pointer `draw_target` is which of the two buffers it
-- is. An `int32_t` is an integer, and 0 to 2 ^ 31 - 1 is a `uint32_t` below 2 ^ 31.
pub mod Draw
pub mod Circle
pub mod Cursor
pub mod Pixels
pub mod Fill
pub mod Ends
mod Tests
use tark_os.Prelude.{
  ℕ, ◌+◌, ◌*◌, ◌/◌, ◌%◌, ◌^◌, Bool, true, false, not, ◌&&◌, ◌||◌, ◌==◌, if◌then◌else◌,
}
use tark_os.Prelude.{Option, none, some, List, [], ◌++◌, get_or, set, take, drop, replicate}
use tark_os.Prelude.Int.{ℤ, pos, ltb_ℤ, leb_ℤ, pos_part}
use tark_os.Prelude.Bits.{test}
use tark_os.Prelude.Grid.{span}

pub record Framebuffer : Type 0 where
  pub memory : List ℕ
  pub width : ℕ
  pub height : ℕ
  pub pitch : ℕ
  pub back_buffer : Option (List ℕ)
  pub to_back : Bool
  pub double_buffering : Bool

-- The frame buffer's part of the boot information.
pub record BootScreen : Type 0 where
  pub flags : ℕ
  pub framebuffer_type : ℕ
  pub framebuffer_width : ℕ
  pub framebuffer_height : ℕ
  pub framebuffer_pitch : ℕ
  pub framebuffer_memory : List ℕ

-- Nothing, where the code returns `false`.
unfoldable pub fb_init : Framebuffer → BootScreen → Option Framebuffer
unfolding test
fb_init s boot =
    if not (test boot.flags 12)
    then none
    else if not (boot.framebuffer_type == 1)
    then none
    else some (record s {
      memory = boot.framebuffer_memory;
      width = boot.framebuffer_width;
      height = boot.framebuffer_height;
      pitch = boot.framebuffer_pitch;
      to_back = false;
    })

-- The buffer behind `draw_target`, and the one that the drawing functions choose.
abbrev pub buffer_of : Framebuffer → Bool → List ℕ
buffer_of s back = if back then (elim s.back_buffer [ none ↦ [] | some buf ↦ buf ]) else s.memory

abbrev pub with_buffer : Framebuffer → Bool → List ℕ → Framebuffer
with_buffer s back buf =
    if back then record s { back_buffer = some buf } else record s { memory = buf }

abbrev pub draw_target : Framebuffer → List ℕ
draw_target s = buffer_of s s.to_back

abbrev pub is_inside : Framebuffer → ℤ → ℤ → Bool
is_inside s x y =
    not (ltb_ℤ x (pos 0) || leb_ℤ (pos s.width) x || ltb_ℤ y (pos 0) || leb_ℤ (pos s.height) y)

abbrev pub offset_of : Framebuffer → ℤ → ℤ → ℕ
offset_of s x y = pos_part y * (s.pitch / 4) + pos_part x

unfoldable pub fb_put_pixel : Framebuffer → ℤ → ℤ → ℕ → Framebuffer
fb_put_pixel s x y color =
    if is_inside s x y
    then with_buffer s s.to_back (set (draw_target s) (offset_of s x y) color)
    else s

unfoldable pub fb_get_pixel : Framebuffer → ℤ → ℤ → ℕ
fb_get_pixel s x y = if is_inside s x y then get_or (draw_target s) (offset_of s x y) 0 else 0

unfoldable pub fb_clear : Framebuffer → ℕ → Framebuffer
unfolding span
fb_clear s color = with_buffer s s.to_back (span (draw_target s) 0 color (s.pitch / 4 * s.height))

unfoldable pub fb_swap_buffers : Framebuffer → Framebuffer
fb_swap_buffers s =
    let pixels = s.pitch * s.height / 4 in
    if s.double_buffering
    then (elim s.back_buffer [
      | none ↦ s
      | some buf ↦ record s { memory = take pixels buf ++ drop pixels s.memory }
    ])
    else s

unfoldable pub fb_set_double_buffer : Framebuffer → Bool → Framebuffer
fb_set_double_buffer s false = record s { to_back = false; double_buffering = false }
fb_set_double_buffer s true = elim s.back_buffer [
  | some buf ↦ s
  | none ↦ record s {
    back_buffer = some (replicate (1024 * 768) 0);
    to_back = true;
    double_buffering = true;
  }
]
