-- ===== src/Graphics/Ends.antt =====
-- graphics.c: the loops of the circles end, and no number in them overflows.
use tark_os.Prelude.{
  ℕ, zero, suc, ◌+◌, ◌-◌, ◌*◌, ◌^◌, ◌≤◌, ◌≡◌, refl, arith, Bool, Bool-cases, true, false, ◌&&◌,
  if_intro, inl, inr, Option, some,
}
use tark_os.Prelude.Int.{
  ℤ, pos, negsuc, ◌+ℤ◌, ◌-ℤ◌, ◌≤ℤ◌, ◌<ℤ◌, ltb_ℤ, leb_ℤ, pos_part, neg_part, +ℤ_parts, -ℤ_parts,
}
use tark_os.Graphics.{Framebuffer}
use tark_os.Graphics.Circle.{
  circle_loop, double, gfx_draw_circle, gfx_fill_circle, draw_octants, draw_chords, is_int32,
  round_fits,
}

abbrev Ends : Option Framebuffer → Type 0
Ends o = (t : Framebuffer) × (o ≡ some t)

no_room : (x y : ℤ) → x +ℤ pos 1 ≤ℤ y +ℤ pos 0 → leb_ℤ y x ≡ false
no_room x y h = ground (arith, +ℤ_parts x (pos 1), +ℤ_parts y (pos 0))

closer :
    (x' x y : ℤ) (fuel : ℕ)
    → x' ≤ℤ x
    → x +ℤ pos 1 ≤ℤ y +ℤ pos (suc fuel)
    → x' +ℤ pos 1 ≤ℤ y +ℤ pos 1 +ℤ pos fuel
closer x' x y fuel h k = omega (
  arith,
  +ℤ_parts x' (pos 1),
  +ℤ_parts x (pos 1),
  +ℤ_parts y (pos (suc fuel)),
  +ℤ_parts y (pos 1),
  +ℤ_parts (y +ℤ pos 1) (pos fuel),
)

-- The variables of the loop on a circle of radius `r`: the column is at most `r`, and `err` between
-- -r - 1 and r + 6 y.
record IsBounded (r : ℕ) (x y err : ℤ) : Type 0 where
  right : x ≤ℤ pos r
  down : pos 0 ≤ℤ y
  high : pos_part err + 6 * neg_part y ≤ r + 6 * pos_part y + neg_part err
  low : negsuc r ≤ℤ err

abbrev err_after : ℤ → ℤ → ℤ
err_after err y = err +ℤ pos 1 +ℤ double (y +ℤ pos 1)

-- The round in which the column goes left.
left-IsBounded :
    (r : ℕ) (x y err : ℤ)
    → IsBounded r x y err
    → y ≤ℤ x
    → ltb_ℤ (pos 0) (double (err_after err y -ℤ x) +ℤ pos 1) ≡ true
    → IsBounded r (x -ℤ pos 1) (y +ℤ pos 1) (err_after err y +ℤ pos 1 -ℤ double (x -ℤ pos 1))
left-IsBounded r x y err v go h =
    let ym = y +ℤ pos 1 in
    let e0 = err +ℤ pos 1 in
    let e1 = e0 +ℤ double ym in
    let xm = x -ℤ pos 1 in
    let d = e1 -ℤ x in
    let p0 = +ℤ_parts y (pos 1) in
    let p4 = -ℤ_parts e1 x in
    let p5 = +ℤ_parts d d in
    let p6 = +ℤ_parts (double d) (pos 1) in
    let p7 = -ℤ_parts x (pos 1) in
    let p8 = +ℤ_parts xm xm in
    let p9 = +ℤ_parts e1 (pos 1) in
    let p10 = -ℤ_parts (e1 +ℤ pos 1) (double xm) in
    let right = v.right in
    let down = v.down in
    let high = v.high in
    let far : pos 0 <ℤ double d +ℤ pos 1 = ltb_ℤ→lt (pos 0) (double d +ℤ pos 1) h in
    record {
      right = omega (arith, p7, right);
      down = omega (arith, p0, down);
      high = omega (
        arith,
        p0,
        +ℤ_parts ym ym,
        +ℤ_parts err (pos 1),
        +ℤ_parts e0 (double ym),
        p7,
        p8,
        p9,
        p10,
        go,
        high,
      );
      low = omega (arith, p4, p5, p6, p7, p8, p9, p10, far, right);
    }
  where
    ltb_ℤ→lt : (a b : ℤ) → ltb_ℤ a b ≡ true → a <ℤ b
    ltb_ℤ→lt a b h = ground (arith, h)

-- The round in which it stays.
same-IsBounded :
    (r : ℕ) (x y err : ℤ)
    → IsBounded r x y err
    → ltb_ℤ (pos 0) (double (err_after err y -ℤ x) +ℤ pos 1) ≡ false
    → IsBounded r x (y +ℤ pos 1) (err_after err y)
same-IsBounded r x y err v h =
    let ym = y +ℤ pos 1 in
    let e0 = err +ℤ pos 1 in
    let e1 = e0 +ℤ double ym in
    let d = e1 -ℤ x in
    let p0 = +ℤ_parts y (pos 1) in
    let p4 = -ℤ_parts e1 x in
    let p5 = +ℤ_parts d d in
    let p6 = +ℤ_parts (double d) (pos 1) in
    let right = v.right in
    let down = v.down in
    let low = v.low in
    let near : double d +ℤ pos 1 ≤ℤ pos 0 = ltb_ℤ→ge (pos 0) (double d +ℤ pos 1) h in
    record {
      right = right;
      down = omega (arith, p0, down);
      high = omega (arith, p0, p4, p5, p6, near, right, down);
      low =
          omega
            (arith, p0, +ℤ_parts ym ym, +ℤ_parts err (pos 1), +ℤ_parts e0 (double ym), down, low);
    }
  where
    ltb_ℤ→ge : (a b : ℤ) → ltb_ℤ a b ≡ false → b ≤ℤ a
    ltb_ℤ→ge a b h = ground (arith, h)

in_int32 : (z : ℤ) → negsuc (2 ^ 31 - 1) ≤ℤ z → z <ℤ pos (2 ^ 31) → is_int32 z ≡ true
in_int32 z low high = ground (arith, low, high)

all_true :
    {a b c d e f g h : Bool}
    → a ≡ true
    → b ≡ true
    → c ≡ true
    → d ≡ true
    → e ≡ true
    → f ≡ true
    → g ≡ true
    → h ≡ true
    → (((a && b) && (c && d)) && ((e && f) && (g && h))) ≡ true
all_true a b c d e f g h = rw (a, b, c, d, e, f, g, h) refl

-- A centre's coordinate, from -2 ^ 30 to 2 ^ 30.
abbrev pub IsNear : ℤ → Type 0
IsNear c = (negsuc (2 ^ 30 - 1) ≤ℤ c) × (c ≤ℤ pos (2 ^ 30))

round_fits-IsBounded :
    (r : ℕ) (cx cy x y err e2 : ℤ)
    → r ≤ 2 ^ 26
    → IsNear cx
    → IsNear cy
    → IsBounded r x y err
    → y ≤ℤ x
    → {xm : ℤ} → IsBounded r xm (y +ℤ pos 1) e2
    → round_fits cx cy x (err_after err y) e2 ≡ true
round_fits-IsBounded r cx cy x y err e2 small (cx0, cx1) (cy0, cy1) v go v2 =
    let ym = y +ℤ pos 1 in
    let e0 = err +ℤ pos 1 in
    let e1 = e0 +ℤ double ym in
    let d = e1 -ℤ x in
    let p0 = +ℤ_parts y (pos 1) in
    let p1 = +ℤ_parts ym ym in
    let p2 = +ℤ_parts err (pos 1) in
    let p3 = +ℤ_parts e0 (double ym) in
    let p4 = -ℤ_parts e1 x in
    let p5 = +ℤ_parts d d in
    let p6 = +ℤ_parts (double d) (pos 1) in
    let right = v.right in
    let down = v.down in
    let high = v.high in
    let low = v.low in
    let high2 = v2.high in
    let low2 = v2.low in
    let q0 = +ℤ_parts cx x in
    let q1 = -ℤ_parts cx x in
    let q2 = +ℤ_parts cy x in
    let q3 = -ℤ_parts cy x in
    let q4 = +ℤ_parts x x in
    let q5 = +ℤ_parts (double x) (pos 1) in
    all_true
      (in_int32 (cx +ℤ x) (omega (arith, q0, cx0, go, down)) (omega (arith, q0, cx1, right, small)))
      (in_int32 (cx -ℤ x) (omega (arith, q1, cx0, right, small)) (omega (arith, q1, cx1, go, down)))
      (in_int32 (cy +ℤ x) (omega (arith, q2, cy0, go, down)) (omega (arith, q2, cy1, right, small)))
      (in_int32 (cy -ℤ x) (omega (arith, q3, cy0, right, small)) (omega (arith, q3, cy1, go, down)))
      (in_int32 (double x +ℤ pos 1) (omega (arith, q4, q5, go, down))
        (omega (arith, q4, q5, right, small)))
      (in_int32 e1 (omega (arith, p0, p1, p2, p3, down, low, small))
        (omega (arith, p0, p1, p2, p3, go, right, high, small)))
      (in_int32 (double d +ℤ pos 1)
        (omega (arith, p0, p1, p2, p3, p4, p5, p6, down, low, right, small))
        (omega (arith, p0, p1, p2, p3, p4, p5, p6, go, down, right, high, small)))
      (in_int32 e2 (omega (arith, low2, small)) (omega (arith, p0, go, right, high2, small)))

leb_ℤ→le : (a b : ℤ) → leb_ℤ a b ≡ true → a ≤ℤ b
leb_ℤ→le a b e = ground (arith, e)

one_less : (x : ℤ) → x -ℤ pos 1 ≤ℤ x
one_less x = omega (arith, -ℤ_parts x (pos 1))

-- As the column never grows and the row does by one each round, the row passes it; and no number
-- overflows on the way.
module _ (draw : Framebuffer → ℤ → ℤ → Framebuffer) (r : ℕ) (small : r ≤ 2 ^ 26) (cx cy : ℤ)
    (hx : IsNear cx) (hy : IsNear cy) where
  circle_loop-Ends :
      (fuel : ℕ) (s : Framebuffer) (x y err : ℤ)
      → IsBounded r x y err
      → x +ℤ pos 1 ≤ℤ y +ℤ pos fuel
      → Ends (circle_loop draw cx cy fuel s x y err)
  unfolding circle_loop
  circle_loop-Ends zero s x y err v h =
      if_intro Ends (leb_ℤ y x) _ _ (λ e. absurd (ground (arith, e, no_room x y h)))
        (λ e. (s, refl))
  circle_loop-Ends (suc fuel) s x y err v h =
      if_intro Ends (leb_ℤ y x) _ _
        (λ e.
          let go = leb_ℤ→le y x e in
          elim (Bool-cases (ltb_ℤ (pos 0) (double (err_after err y -ℤ x) +ℤ pos 1))) [
            | inl left ↦
                let xm = x -ℤ pos 1 in
                let e2 = err_after err y +ℤ pos 1 -ℤ double xm in
                let v2 = left-IsBounded r x y err v go left in
                rw (left, round_fits-IsBounded r cx cy x y err e2 small hx hy v go v2)
                  (circle_loop-Ends fuel (draw s x y) xm (y +ℤ pos 1) e2 v2
                    (closer xm x y fuel (one_less x) h))
            | inr stays ↦
                let e2 = err_after err y in
                let v2 = same-IsBounded r x y err v stays in
                rw (stays, round_fits-IsBounded r cx cy x y err e2 small hx hy v go v2)
                  (circle_loop-Ends fuel (draw s x y) x (y +ℤ pos 1) e2 v2
                    (closer x x y fuel (omega arith) h))
          ])
        (λ e. (s, refl))

-- For a radius of at most 2 ^ 26, also a negative one, and a centre with coordinates from -2 ^ 30 to
-- 2 ^ 30, the loops of both circles end within `radius + 1` rounds, and within one for a negative
-- radius, and no `int32_t` in them overflows.
pub circles-end :
    (s : Framebuffer) (cx cy radius : ℤ) (color : ℕ)
    → IsNear cx
    → IsNear cy
    → pos_part radius ≤ 2 ^ 26
    → ((t : Framebuffer) × (gfx_draw_circle (pos_part radius + 1) s cx cy radius color ≡ some t))
      × ((t : Framebuffer) × (gfx_fill_circle (pos_part radius + 1) s cx cy radius color ≡ some t))
unfolding gfx_draw_circle gfx_fill_circle
circles-end s cx cy radius color hx hy small =
    let r = pos_part radius in
    let start : IsBounded r radius (pos 0) (pos 0) = record {
      right = omega arith;
      down = omega arith;
      high = omega arith;
      low = omega arith;
    } in
    (
      circle_loop-Ends (λ t x y. draw_octants t cx cy x y color) r small cx cy hx hy (r + 1) s
          radius (pos 0) (pos 0) start (enough radius),
      circle_loop-Ends (λ t x y. draw_chords t cx cy x y color) r small cx cy hx hy (r + 1) s radius
          (pos 0) (pos 0) start (enough radius),
    )
  where
    enough : (r : ℤ) → r +ℤ pos 1 ≤ℤ pos 0 +ℤ pos (pos_part r + 1)
    enough r = omega (arith, +ℤ_parts r (pos 1), +ℤ_parts (pos 0) (pos (pos_part r + 1)))
