-- ===== src/Paging/Others.antt =====
-- paging.c: mapping an address leaves the addresses of all other pages.
use tark_os.Prelude.{ℕ, ◌+◌, ◌/◌, ◌%◌, ◌^◌, ◌<◌, ◌≡◌, ◌≢◌, refl, sym, ◌∙◌, ap, arith, inl, inr}
use tark_os.Prelude.{true, false, ◌==◌, ==→eq, ==→ne, if_intro, Bool-cases, Option, none, some}
use tark_os.Prelude.{get_or, set, get_or-set_self, get_or-set_ne, replicate, get_or-replicate_self}
use tark_os.Pmm.{Pmm, page_size, pmm_alloc_page, bitmap_test}
use tark_os.Pmm.Invariant
use tark_os.Pmm.Alloc.{alloc_page-cases}
use tark_os.Paging.{
  Paging, page_dir_index, page_table_index, is_present, frame_of, set_frame, get_page_table,
  write_entry, paging_map, address_in, paging_get_physical, page_table_entries,
}
use tark_os.Paging.Mapping.{
  IsPaging, not_found_again, read_through, if_true, with_table, alloc_page_aligned,
}

-- The directory's entry for an address.
abbrev dir_entry : Paging → ℕ → ℕ
dir_entry s v = get_or s.directory (page_dir_index v) 0

-- No two entries of the directory share a table, and the allocator has the tables in use.
pub record IsSeparate (s : Paging) : Type 0 where
  pub paging : IsPaging s
  pub pmm : Invariant.IsValid s.pmm
  pub apart :
      (i j : ℕ)
      → is_present (get_or s.directory i 0) ≡ true
      → is_present (get_or s.directory j 0) ≡ true
      → frame_of (get_or s.directory i 0) ≡ frame_of (get_or s.directory j 0)
      → i ≡ j
  pub in_use :
      (i : ℕ)
      → is_present (get_or s.directory i 0) ≡ true
      → bitmap_test s.pmm.bitmap (frame_of (get_or s.directory i 0) / page_size) ≡ true

read_absent :
    (t : Paging) (v : ℕ) → is_present (dir_entry t v) ≡ false → paging_get_physical t v ≡ 0
unfolding paging_get_physical
read_absent t v absent =
    ap
      (λ (r : Paging × Option ℕ). elim r.1 [
        | none ↦ 0
        | some frame ↦ address_in (get_or (r.0.frames frame) (page_table_index v) 0) v
      ])
      (not_found_again t v absent)

-- Two addresses of different pages are in different tables or in different entries.
other_entry :
    (v virt : ℕ)
    → v < 2 ^ 32
    → virt < 2 ^ 32
    → v / page_size ≢ virt / page_size
    → page_dir_index v ≡ page_dir_index virt
    → page_table_index v ≢ page_table_index virt
other_entry v virt h k differ same same' = differ (omega arith)

-- Writing an entry is seen through no other entry.
write_other :
    (t : Paging) (frame index entry v : ℕ)
    → (frame_of (dir_entry t v) ≡ frame
        → is_present (dir_entry t v) ≡ true
        → page_table_index v ≢ index)
    → paging_get_physical (write_entry t frame index entry) v ≡ paging_get_physical t v
write_other t frame index entry v other =
    let g = frame_of (dir_entry t v) in
    let iv = page_table_index v in
    let words = set (t.frames frame) index entry in
    elim (Bool-cases (is_present (dir_entry t v))) [
      | inr e ↦ read_absent (write_entry t frame index entry) v e ∙ sym (read_absent t v e)
      | inl e ↦
          let same : get_or (set_frame t.frames frame words g) iv 0 ≡ get_or (t.frames g) iv 0 =
            elim (Bool-cases (g == frame)) [
              | inr ne ↦ rw ne refl
              | inl eq ↦
                  let here : g ≡ frame = ==→eq g frame eq in
                  rw eq (
                    get_or-set_ne (t.frames frame) index iv entry 0 (λ i. other here e (sym i))
                    ∙ ap (λ f. get_or (t.frames f) iv 0) (sym here))
            ] in
          read_through (write_entry t frame index entry) v g (e, refl)
          ∙ ap (λ w. address_in w v) same
          ∙ sym (read_through t v g (e, refl))
    ]

-- A free page is not the table of any entry.
not_shared :
    (s : Paging) (v phys : ℕ)
    → IsSeparate s
    → is_present (dir_entry s v) ≡ true
    → bitmap_test s.pmm.bitmap (phys / page_size) ≡ false
    → frame_of (dir_entry s v) ≢ phys
not_shared s v phys sep present free same =
    let used = sep.in_use (page_dir_index v) present in
    let both = ap (λ f. bitmap_test s.pmm.bitmap (f / page_size)) same in
    absurd (ground (arith, used, both, free))

own_frame : (phys : ℕ) → phys % page_size ≡ 0 → frame_of (phys + 3) ≡ phys
own_frame phys h = omega arith

module _ (s : Paging) (virt phys : ℕ) (pmm : Pmm) (v : ℕ) (sep : IsSeparate s)
    (absent : is_present (dir_entry s virt) ≡ false) (aligned : phys % page_size ≡ 0)
    (free : bitmap_test s.pmm.bitmap (phys / page_size) ≡ false) where
  same_entry :
      page_dir_index virt ≢ page_dir_index v
      → dir_entry (with_table s virt phys pmm) v ≡ dir_entry s v
  same_entry ne = get_or-set_ne s.directory (page_dir_index virt) (page_dir_index v) (phys + 3) 0 ne

  new_entry :
      page_dir_index virt ≡ page_dir_index v → dir_entry (with_table s virt phys pmm) v ≡ phys + 3
  new_entry e =
      ap (λ i. get_or (set s.directory (page_dir_index virt) (phys + 3)) i 0) (sym e)
      ∙ get_or-set_self s.directory (page_dir_index virt) (phys + 3) 0
          (omega (arith, sep.paging.entries))

  -- A new table is seen through no address.
  table_other : paging_get_physical (with_table s virt phys pmm) v ≡ paging_get_physical s v
  table_other = elim (Bool-cases (page_dir_index virt == page_dir_index v)) [
    | inl e ↦
        let same = ==→eq (page_dir_index virt) (page_dir_index v) e in
        let entry = new_entry same in
        let frames = set_frame s.frames phys (replicate page_table_entries 0) in
        let there : is_present (phys + 3) ≡ true = ground arith in
        let gone = ap (λ i. is_present (get_or s.directory i 0)) (sym same) ∙ absent in
        let zeros : frames phys ≡ replicate page_table_entries 0 =
          if_true (phys == phys) _ _ (ground arith) in
        read_through (with_table s virt phys pmm) v phys
          (ap is_present entry ∙ there, ap frame_of entry ∙ own_frame phys aligned)
        ∙ ap (λ w. address_in (get_or w (page_table_index v) 0) v) zeros
        ∙ ap (λ w. address_in w v) (get_or-replicate_self {A = ℕ} 1024 (page_table_index v) 0)
        ∙ sym (read_absent s v gone)
    | inr e ↦
        let entry = same_entry (==→ne (page_dir_index virt) (page_dir_index v) e) in
        elim (Bool-cases (is_present (dir_entry s v))) [
          | inr gone ↦
              read_absent (with_table s virt phys pmm) v (ap is_present entry ∙ gone)
              ∙ sym (read_absent s v gone)
          | inl there ↦
              let g = frame_of (dir_entry s v) in
              let kept : set_frame s.frames phys (replicate page_table_entries 0) g ≡ s.frames g =
                if_intro (λ w. w ≡ s.frames g) (g == phys) _ _
                  (λ same. absurd (not_shared s v phys sep there free (==→eq g phys same)))
                  (λ other. refl) in
              read_through (with_table s virt phys pmm) v g
                (ap is_present entry ∙ there, ap frame_of entry)
              ∙ ap (λ w. address_in (get_or w (page_table_index v) 0) v) kept
              ∙ sym (read_through s v g (there, refl))
        ]
  ]

  -- No other page's entry is in the new table at the new entry.
  new_alone :
      v < 2 ^ 32
      → virt < 2 ^ 32
      → v / page_size ≢ virt / page_size
      → frame_of (dir_entry (with_table s virt phys pmm) v) ≡ frame_of (phys + 3)
      → is_present (dir_entry (with_table s virt phys pmm) v) ≡ true
      → page_table_index v ≢ page_table_index virt
  new_alone h k differ same there = elim (Bool-cases (page_dir_index virt == page_dir_index v)) [
    | inl e ↦ other_entry v virt h k differ (sym (==→eq (page_dir_index virt) (page_dir_index v) e))
    | inr e ↦
        let entry = same_entry (==→ne (page_dir_index virt) (page_dir_index v) e) in
        absurd (
          not_shared s v phys sep (ap is_present (sym entry) ∙ there) free
            (ap frame_of (sym entry) ∙ same ∙ own_frame phys aligned))
  ]

-- The allocator is not read.
pmm_other :
    (s : Paging) (pmm : Pmm) (v : ℕ)
    → paging_get_physical (record s { pmm = pmm }) v ≡ paging_get_physical s v
pmm_other s pmm v = elim (Bool-cases (is_present (dir_entry s v))) [
  | inr e ↦ read_absent (record s { pmm = pmm }) v e ∙ sym (read_absent s v e)
  | inl e ↦
      let g = frame_of (dir_entry s v) in
      read_through (record s { pmm = pmm }) v g (e, refl) ∙ sym (read_through s v g (e, refl))
]

-- A page that the allocator returns was free.
alloc_was_free :
    (p : Pmm)
    → Invariant.IsValid p
    → ((pmm_alloc_page p).1 == 0) ≡ false
    → bitmap_test p.bitmap ((pmm_alloc_page p).1 / page_size) ≡ false
alloc_was_free p v some_page = elim (alloc_page-cases p v) [
  | inl (page, free, inside, below, at, taken) ↦
      let here : (pmm_alloc_page p).1 / page_size ≡ page = omega (arith, at) in
      ap (bitmap_test p.bitmap) here ∙ free
  | inr (full, none_left) ↦
      let zero_page = ap (λ (r : Pmm × ℕ). r.1) none_left in
      absurd (ground (arith, some_page, zero_page))
]

-- What is read of an address is as before, after writing through the table that was got.
abbrev Keeps : Paging → ℕ → ℕ → ℕ → Paging × Option ℕ → Type 0
Keeps s index entry v r =
    paging_get_physical
      (elim r.1 as (λ x. Paging) [ none ↦ r.0 | some frame ↦ write_entry r.0 frame index entry ]) v
    ≡ paging_get_physical s v

-- Where the tables are separate, mapping an address changes nothing that is read of an address of
-- another page, whether its table was there, is made, or cannot be made.
pub get_physical-map_other :
    (s : Paging) (virt phys flags v : ℕ)
    → IsSeparate s
    → virt < 2 ^ 32
    → v < 2 ^ 32
    → v / page_size ≢ virt / page_size
    → paging_get_physical (paging_map s virt phys flags) v ≡ paging_get_physical s v
unfolding paging_map get_page_table
get_physical-map_other s virt phys flags v sep hvirt hv differ =
    let index = page_table_index virt in
    let entry = frame_of phys + flags % page_size in
    let page = (pmm_alloc_page s.pmm).1 in
    let pmm = (pmm_alloc_page s.pmm).0 in
    let aligned = alloc_page_aligned s.pmm in
    let P = Keeps s index entry v in
    if_intro P (is_present (dir_entry s virt)) _ _
      (λ e. write_other s (frame_of (dir_entry s virt)) index entry v (λ same there.
        other_entry v virt hv hvirt differ
          (sep.apart (page_dir_index v) (page_dir_index virt) there e same)))
      (λ absent.
        if_intro P (page == 0) _ _ (λ e. pmm_other s pmm v)
          (λ e.
            let free = alloc_was_free s.pmm sep.pmm e in
            write_other (with_table s virt page pmm) (frame_of (page + 3)) index entry v
              (new_alone s virt page pmm v sep absent aligned free hv hvirt differ)
            ∙ table_other s virt page pmm v sep absent aligned free))
