-- ===== src/Paging/Mapping.antt =====
-- paging.c: what is read of a page that was mapped or unmapped.
use tark_os.Prelude.{ℕ, ◌+◌, ◌*◌, ◌/◌, ◌%◌, ◌≡◌, refl, ◌∙◌, ap, arith, ◌⊎◌, inl, inr}
use tark_os.Prelude.{
  Bool, true, false, not, ◌==◌, if◌then◌else◌, if_intro, Bool-cases, Option, none, some, List,
  length, get_or, set, get_or-set_self, length-set, replicate, length-replicate,
}
use tark_os.Pmm.{Pmm, pmm_alloc_page, bitmap_find_free, not_found, page_size}
use tark_os.Paging.{
  Paging, page_dir_index, page_table_index, is_present, frame_of, set_frame, get_page_table,
  write_entry, paging_map, paging_unmap, address_in, paging_get_physical, page_table_entries,
}

-- The directory and every page have 1,024 words.
pub record IsPaging (s : Paging) : Type 0 where
  pub entries : length s.directory ≡ 1024
  pub words : (f : ℕ) → length (s.frames f) ≡ 1024

pub alloc_page_aligned : (p : Pmm) → (pmm_alloc_page p).1 % page_size ≡ 0
unfolding pmm_alloc_page
alloc_page_aligned p =
    if_intro (λ (r : Pmm × ℕ). r.1 % page_size ≡ 0) (bitmap_find_free p == not_found) _ _
      (λ e. refl) (λ e. omega arith)

-- The table at `frame` is the one for `virt`.
abbrev pub HasTable : Paging → ℕ → ℕ → Type 0
HasTable t virt frame =
    let entry = get_or t.directory (page_dir_index virt) 0 in
    (is_present entry ≡ true) × (frame_of entry ≡ frame)

-- What `get_page_table` finds or makes.
abbrev Gets : ℕ → Paging × Option ℕ → Type 0
Gets virt (t, none) = Unit
Gets virt (t, some frame) = HasTable t virt frame × IsPaging t

set_frame-words :
    (frames : ℕ → List ℕ) (at : ℕ) (words : List ℕ)
    → ((f : ℕ) → length (frames f) ≡ 1024)
    → length words ≡ 1024
    → (f : ℕ) → length (set_frame frames at words f) ≡ 1024
set_frame-words frames at words all size f =
    if_intro (λ (b : List ℕ). length b ≡ 1024) (f == at) words (frames f) (λ e. size) (λ e. all f)

-- The state with a new table at `phys`.
abbrev pub with_table : Paging → ℕ → ℕ → Pmm → Paging
with_table s virt phys pmm = record {
  directory = set s.directory (page_dir_index virt) (phys + 3);
  frames = set_frame s.frames phys (replicate page_table_entries 0);
  pmm = pmm;
}

pub with_table-Gets :
    (s : Paging) (virt phys : ℕ) (pmm : Pmm)
    → IsPaging s
    → phys % page_size ≡ 0
    → Gets virt (with_table s virt phys pmm, some (frame_of (phys + 3)))
with_table-Gets s virt phys pmm v aligned =
    let at = page_dir_index virt in
    let there : get_or (set s.directory at (phys + 3)) at 0 ≡ phys + 3 =
      get_or-set_self s.directory at (phys + 3) 0 (omega (arith, v.entries)) in
    let odd : is_present (phys + 3) ≡ true = ground arith in
    (
      (rw there odd, ap frame_of there),
      record {
        entries = length-set s.directory at (phys + 3) ∙ v.entries;
        words =
            set_frame-words s.frames phys (replicate page_table_entries 0) v.words
              (length-replicate {A = ℕ} 1024 0);
      },
    )

get_page_table-Gets :
    (s : Paging) (virt : ℕ) (create : Bool) → IsPaging s → Gets virt (get_page_table s virt create)
unfolding get_page_table
get_page_table-Gets s virt create v =
    let index = page_dir_index virt in
    let entry = get_or s.directory index 0 in
    let phys = (pmm_alloc_page s.pmm).1 in
    if_intro (Gets virt) (is_present entry) _ _ (λ e. ((e, refl), v))
      (λ e.
        if_intro (Gets virt) (not create) _ _ (λ e. tt)
          (λ e.
            if_intro (Gets virt) (phys == 0) _ _ (λ e. tt)
              (λ e.
                with_table-Gets s virt phys (pmm_alloc_page s.pmm).0 v (alloc_page_aligned s.pmm))))

pub if_true : {A : Type 0} (b : Bool) (x y : A) → b ≡ true → (if b then x else y) ≡ x
if_true b x y h = rw h refl

pub found_again :
    (t : Paging) (virt frame : ℕ)
    → HasTable t virt frame
    → get_page_table t virt false ≡ (t, some frame)
unfolding get_page_table
found_again t virt frame (present, here) =
    if_true (is_present (get_or t.directory (page_dir_index virt) 0)) _ _ present
    ∙ ap (λ f. (t, some f)) here

-- Reading through a table that is there.
pub read_through :
    (t : Paging) (virt frame : ℕ)
    → HasTable t virt frame
    → paging_get_physical t virt
      ≡ address_in (get_or (t.frames frame) (page_table_index virt) 0) virt
unfolding paging_get_physical
read_through t virt frame table =
    ap
      (λ (r : Paging × Option ℕ). elim r.1 [
        | none ↦ 0
        | some frame ↦ address_in (get_or (r.0.frames frame) (page_table_index virt) 0) virt
      ])
      (found_again t virt frame table)

-- Reading through an entry just written.
read_written :
    (t : Paging) (virt frame entry : ℕ)
    → HasTable t virt frame
    → IsPaging t
    → paging_get_physical (write_entry t frame (page_table_index virt) entry) virt
      ≡ address_in entry virt
read_written t virt frame entry table v =
    let index = page_table_index virt in
    let words = set (t.frames frame) index entry in
    let same : (frame == frame) ≡ true = ground arith in
    let at : get_or (set_frame t.frames frame words frame) index 0 ≡ entry =
      rw same (get_or-set_self (t.frames frame) index entry 0 (omega (arith, v.words frame))) in
    read_through (write_entry t frame index entry) virt frame table ∙ ap (λ e. address_in e virt) at

entry_address :
    (phys flags virt : ℕ)
    → flags % 2 ≡ 1
    → address_in (frame_of phys + flags % page_size) virt ≡ frame_of phys + virt % page_size
entry_address phys flags virt h = ground arith

mapped :
    (r : Paging × Option ℕ) (virt phys flags : ℕ)
    → Gets virt r
    → flags % 2 ≡ 1
    → (r.1 ≡ none)
      ⊎ (paging_get_physical
            (elim r.1 [
              | none ↦ r.0
              | some frame ↦
                  write_entry r.0 frame (page_table_index virt) (frame_of phys + flags % page_size)
            ])
            virt
          ≡ frame_of phys + virt % page_size)
mapped (t, none) virt phys flags g h = inl refl
mapped (t, some frame) virt phys flags (table, v) h = inr (
    read_written t virt frame (frame_of phys + flags % page_size) table v
    ∙ entry_address phys flags virt h)

-- With the flag of a present page, an address that was mapped is read as the frame it was mapped to
-- with its own offset, unless no table could be made for it.
pub get_physical-map :
    (s : Paging) (virt phys flags : ℕ)
    → IsPaging s
    → flags % 2 ≡ 1
    → ((get_page_table s virt true).1 ≡ none)
      ⊎ (paging_get_physical (paging_map s virt phys flags) virt
          ≡ phys / page_size * page_size + virt % page_size)
unfolding paging_map
get_physical-map s virt phys flags v present =
    mapped (get_page_table s virt true) virt phys flags (get_page_table-Gets s virt true v) present

pub not_found_again :
    (t : Paging) (virt : ℕ)
    → is_present (get_or t.directory (page_dir_index virt) 0) ≡ false
    → get_page_table t virt false ≡ (t, none)
unfolding get_page_table
not_found_again t virt absent =
    if_intro (λ (r : Paging × Option ℕ). r ≡ (t, none))
      (is_present (get_or t.directory (page_dir_index virt) 0)) _ _
      (λ e. absurd (ground (arith, e, absent))) (λ e. refl)

-- An address that was unmapped is read as 0.
pub get_physical-unmap :
    (s : Paging) (virt : ℕ) → IsPaging s → paging_get_physical (paging_unmap s virt) virt ≡ 0
unfolding paging_get_physical paging_unmap
get_physical-unmap s virt v =
    let index = page_table_index virt in
    let entry = get_or s.directory (page_dir_index virt) 0 in
    let written = λ (r : Paging × Option ℕ). elim r.1 as (λ x. Paging) [
      | none ↦ r.0
      | some frame ↦ write_entry r.0 frame index 0
    ] in
    elim (Bool-cases (is_present entry)) [
      | inl e ↦
          ap (λ r. paging_get_physical (written r) virt)
            (found_again s virt (frame_of entry) (e, refl))
          ∙ read_written s virt (frame_of entry) 0 (e, refl) v
      | inr e ↦
          ap (λ r. paging_get_physical (written r) virt) (not_found_again s virt e)
          ∙ ap
              (λ (r : Paging × Option ℕ). elim r.1 as (λ x. ℕ) [
                | none ↦ 0
                | some frame ↦ address_in (get_or (r.0.frames frame) index 0) virt
              ])
              (not_found_again s virt e)
    ]
