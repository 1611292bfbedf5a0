-- ===== src/Paging/Identity.antt =====
-- paging.c: the loop of `paging_identity_map` ends.
use tark_os.Prelude.{
  ℕ, zero, suc, ◌+◌, ◌*◌, ◌%◌, ◌^◌, ◌≤◌, ◌<◌, ◌≡◌, refl, arith, ltb, if_intro, Option, some,
}
use tark_os.Pmm.{page_align_down, page_align_up, u32, page_size}
use tark_os.Paging.{Paging, paging_map, identity_loop, paging_identity_map}

abbrev Ends : Option Paging → Type 0
Ends o = (t : Paging) × (o ≡ some t)

identity_loop-Ends :
    (fuel : ℕ) (s : Paging) (addr end flags : ℕ)
    → addr % page_size ≡ 0
    → end % page_size ≡ 0
    → end < 2 ^ 32
    → end ≤ addr + fuel * page_size
    → Ends (identity_loop fuel s addr end flags)
unfolding identity_loop
identity_loop-Ends zero s addr end flags a b c d =
    if_intro Ends (ltb addr end) _ _ (λ e. absurd (ground arith)) (λ e. (s, refl))
identity_loop-Ends (suc fuel) s addr end flags a b c d =
    if_intro Ends (ltb addr end) _ _
      (λ e.
        let below : addr < end = ground arith in
        identity_loop-Ends fuel (paging_map s addr addr flags) (u32 (addr + page_size)) end flags
          (omega arith) b c (omega arith))
      (λ e. (s, refl))

-- For every start and size, `paging_identity_map` ends within 2 ^ 20 rounds: the address goes up by
-- a page each round, and its end is the address of a page.
pub identity_map-ends :
    (fuel : ℕ) (s : Paging) (start size flags : ℕ)
    → 2 ^ 20 ≤ fuel
    → (t : Paging) × (paging_identity_map fuel s start size flags ≡ some t)
unfolding paging_identity_map
identity_map-ends fuel s start size flags enough =
    identity_loop-Ends fuel s (page_align_down start) (page_align_up (u32 (start + size))) flags
      (omega arith) (omega arith) (omega arith) (omega arith)
