-- ===== src/Console/Pong.antt =====
-- kernel.c: `game_pong`. The ball and the paddles stay in the window that the game draws.
use tark_os.Prelude.{ℕ, zero, suc, ◌≡◌, refl, ◌⊎◌, inl, inr, arith}
use tark_os.Prelude.{Bool, true, false, ◌&&◌, ◌||◌, ◌==◌, if◌then◌else◌, List, [], ◌∷◌}
use tark_os.Prelude.Int.{ℤ, pos, negsuc, ◌+ℤ◌, ◌-ℤ◌, ◌≤ℤ◌, ltb_ℤ, leb_ℤ}
use tark_os.Console.{put_char_raw}
use tark_os.Console.Window.{draw_sides}

pub record Pong : Type 0 where
  pub b_x : ℤ
  pub b_y : ℤ
  pub b_dx : ℤ
  pub b_dy : ℤ
  pub p1_y : ℤ
  pub p2_y : ℤ

abbrev pub initial_pong : Pong
initial_pong = record {
  b_x = pos 40;
  b_y = pos 12;
  b_dx = pos 1;
  b_dy = pos 1;
  p1_y = pos 10;
  p2_y = pos 10;
}

-- The player's paddle, for the scan codes of W and S.
abbrev pub move_player : ℕ → ℤ → ℤ
move_player sc p =
    if sc == 0x11 && ltb_ℤ (pos 6) p
    then p -ℤ pos 1
    else if sc == 0x1F && ltb_ℤ p (pos 16)
    then p +ℤ pos 1
    else p

-- The other paddle follows the ball; the second test reads the place the first has set.
abbrev pub move_other : ℤ → ℤ → ℤ
move_other b_y p =
    let down = if ltb_ℤ (p +ℤ pos 1) b_y && ltb_ℤ p (pos 16) then p +ℤ pos 1 else p in
    if ltb_ℤ b_y (down +ℤ pos 1) && ltb_ℤ (pos 6) down then down -ℤ pos 1 else down

abbrev pub flip : ℤ → ℤ
flip z = pos 0 -ℤ z

abbrev pub bounce : ℤ → ℤ → ℤ
bounce b_y b_dy = if leb_ℤ b_y (pos 6) || leb_ℤ (pos 18) b_y then flip b_dy else b_dy

-- The ball meets a paddle at `p`.
abbrev pub is_hit : ℤ → ℤ → Bool
is_hit b_y p = leb_ℤ p b_y && leb_ℤ b_y (p +ℤ pos 3)

abbrev pub is_out : ℤ → Bool
is_out b_x = ltb_ℤ b_x (pos 11) || ltb_ℤ (pos 68) b_x

-- What a round of the loop makes of the state, for the scan code that it reads.
unfoldable pub pong_step : ℕ → Pong → Pong
pong_step sc s =
    let p1_y = move_player sc s.p1_y in
    let p2_y = move_other s.b_y s.p2_y in
    let b_x = s.b_x +ℤ s.b_dx in
    let b_y = s.b_y +ℤ s.b_dy in
    let left = if leb_ℤ b_x (pos 13) && is_hit b_y p1_y then flip s.b_dx else s.b_dx in
    record {
      b_x = if is_out b_x then pos 40 else b_x;
      b_y = if is_out b_x then pos 12 else b_y;
      b_dx = if leb_ℤ (pos 66) b_x && is_hit b_y p2_y then flip left else left;
      b_dy = bounce b_y s.b_dy;
      p1_y = p1_y;
      p2_y = p2_y;
    }

-- The rounds for the scan codes that the keyboard gives in turn.
unfoldable pub pong_run : List ℕ → Pong → Pong
unfolding pong_step
pong_run [] s = s
pong_run (sc ∷ scans) s = pong_run scans (pong_step sc s)

-- The loop that draws the paddles, `n` rows more.
unfoldable pub draw_paddles : List ℕ → ℤ → ℤ → ℕ → List ℕ
unfolding put_char_raw
draw_paddles vga y1 y2 zero = vga
draw_paddles vga y1 y2 (suc n) =
    draw_paddles (put_char_raw (put_char_raw vga 124 0x0F (pos 12) y1) 124 0x0F (pos 67) y2)
      (y1 +ℤ pos 1) (y2 +ℤ pos 1) n

-- What a round draws, from the state before and after it: it clears the ball and the paddles'
-- columns, and draws them at their new places.
unfoldable pub draw_round : List ℕ → ℕ → Pong → Pong → List ℕ
unfolding put_char_raw draw_sides draw_paddles
draw_round vga bg s t =
    let no_ball = put_char_raw vga 32 bg s.b_x s.b_y in
    let cleared = draw_sides no_ball 32 bg bg (pos 12) (pos 67) (pos 6) 13 in
    let paddles = draw_paddles cleared t.p1_y t.p2_y 4 in put_char_raw paddles 79 0x0E t.b_x t.b_y

abbrev pub IsSpeed : ℤ → Type 0
IsSpeed d = (d ≡ pos 1) ⊎ (d ≡ negsuc 0)

-- The ball is between the borders and turns at the upper and the lower one; the paddles, of four
-- rows each, are on the rows from 6 to 19.
pub record IsInWindow (s : Pong) : Type 0 where
  pub left : pos 11 ≤ℤ s.b_x
  pub right : s.b_x ≤ℤ pos 68
  pub top : pos 6 ≤ℤ s.b_y
  pub bottom : s.b_y ≤ℤ pos 18
  pub turned_down : s.b_y ≤ℤ pos 6 → s.b_dy ≡ pos 1
  pub turned_up : pos 18 ≤ℤ s.b_y → s.b_dy ≡ negsuc 0
  pub across : IsSpeed s.b_dx
  pub along : IsSpeed s.b_dy
  pub player : (pos 6 ≤ℤ s.p1_y) × (s.p1_y ≤ℤ pos 16)
  pub other : (pos 6 ≤ℤ s.p2_y) × (s.p2_y ≤ℤ pos 16)

player_stays :
    (sc : ℕ) (p : ℤ)
    → (pos 6 ≤ℤ p) × (p ≤ℤ pos 16)
    → (pos 6 ≤ℤ move_player sc p) × (move_player sc p ≤ℤ pos 16)
unfolding ◌+ℤ◌ ◌-ℤ◌
player_stays sc (pos p) h = ground arith
player_stays sc (negsuc p) h = ground arith

other_stays :
    (b_y p : ℤ)
    → (pos 6 ≤ℤ p) × (p ≤ℤ pos 16)
    → (pos 6 ≤ℤ move_other b_y p) × (move_other b_y p ≤ℤ pos 16)
unfolding ◌+ℤ◌ ◌-ℤ◌
other_stays (pos b) (pos p) h = ground arith
other_stays (negsuc b) (pos p) h = ground arith
other_stays b_y (negsuc p) h = ground arith

-- The ball across: back to the middle, if it is out.
ball_across :
    (b : ℤ)
    → (pos 11 ≤ℤ (if is_out b then pos 40 else b)) × ((if is_out b then pos 40 else b) ≤ℤ pos 68)
ball_across (pos b) = ground arith
ball_across (negsuc b) = ground arith

-- The ball along: its place, its direction, and the turns.
record IsAlong (y d : ℤ) : Type 0 where
  top : pos 6 ≤ℤ y
  bottom : y ≤ℤ pos 18
  turned_down : y ≤ℤ pos 6 → d ≡ pos 1
  turned_up : pos 18 ≤ℤ y → d ≡ negsuc 0
  along : IsSpeed d

ball-IsAlong : (y d : ℤ) → IsAlong y d → IsAlong (y +ℤ d) (bounce (y +ℤ d) d)
unfolding ◌+ℤ◌ ◌-ℤ◌
ball-IsAlong (negsuc y) d v = absurd (ground (arith, v.top))
ball-IsAlong (pos y) d v = elim v.along [
  | inl e ↦ rw e record {
    top = ground (arith, v.top);
    bottom = ground (arith, v.bottom, v.turned_up, e);
    turned_down = λ h. ground (arith, v.top);
    turned_up = λ h. ground (arith, h);
    along = ground arith;
  }
  | inr e ↦ rw e record {
    top = ground (arith, v.top, v.turned_down, e);
    bottom = ground (arith, v.bottom);
    turned_down = λ h. ground (arith, h);
    turned_up = λ h. ground (arith, v.bottom);
    along = ground arith;
  }
]

reset-IsAlong : (out : Bool) (y d : ℤ) → IsAlong y d → IsAlong (if out then pos 12 else y) d
reset-IsAlong false y d v = v
reset-IsAlong true y d v = record {
  top = omega arith;
  bottom = omega arith;
  turned_down = λ h. absurd (omega arith);
  turned_up = λ h. absurd (omega arith);
  along = v.along;
}

turned-IsSpeed : (b : Bool) (d : ℤ) → IsSpeed d → IsSpeed (if b then flip d else d)
unfolding ◌-ℤ◌
turned-IsSpeed false d h = h
turned-IsSpeed true d (inl e) = inr (rw e refl)
turned-IsSpeed true d (inr e) = inl (rw e refl)

pub pong_step-IsInWindow : (sc : ℕ) (s : Pong) → IsInWindow s → IsInWindow (pong_step sc s)
unfolding pong_step
pong_step-IsInWindow sc s v =
    let b_x = s.b_x +ℤ s.b_dx in
    let b_y = s.b_y +ℤ s.b_dy in
    let p1_y = move_player sc s.p1_y in
    let p2_y = move_other s.b_y s.p2_y in
    let across = ball_across b_x in
    let along = reset-IsAlong (is_out b_x) b_y (bounce b_y s.b_dy) (
      ball-IsAlong s.b_y s.b_dy record {
        top = v.top;
        bottom = v.bottom;
        turned_down = v.turned_down;
        turned_up = v.turned_up;
        along = v.along;
      }) in
    let hit1 = leb_ℤ b_x (pos 13) && is_hit b_y p1_y in
    let left = if hit1 then flip s.b_dx else s.b_dx in
    record {
      left = across.0;
      right = across.1;
      top = along.top;
      bottom = along.bottom;
      turned_down = along.turned_down;
      turned_up = along.turned_up;
      across =
          turned-IsSpeed (leb_ℤ (pos 66) b_x && is_hit b_y p2_y) left
            (turned-IsSpeed hit1 s.b_dx v.across);
      along = along.along;
      player = player_stays sc s.p1_y v.player;
      other = other_stays s.b_y s.p2_y v.other;
    }

pong_runs : (scans : List ℕ) (s : Pong) → IsInWindow s → IsInWindow (pong_run scans s)
unfolding pong_run
pong_runs [] s v = v
pong_runs (sc ∷ scans) s v = pong_runs scans (pong_step sc s) (pong_step-IsInWindow sc s v)

-- Whatever scan codes the keyboard gives, after any number of rounds from where the game starts the
-- ball is between the borders and moves by one column and one row at a time, and the paddles are
-- within the borders.
pub pong_run-IsInWindow : (scans : List ℕ) → IsInWindow (pong_run scans initial_pong)
pong_run-IsInWindow scans = pong_runs scans initial_pong record {
  left = omega arith;
  right = omega arith;
  top = omega arith;
  bottom = omega arith;
  turned_down = λ h. absurd (omega arith);
  turned_up = λ h. absurd (omega arith);
  across = inl refl;
  along = inl refl;
  player = omega arith;
  other = omega arith;
}
