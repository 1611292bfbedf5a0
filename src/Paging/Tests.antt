-- ===== src/Paging/Tests.antt =====
-- A run of the page tables, with an allocator that has one free page, page 8.
use tark_os.Prelude.{suc, ap, arith, false, get_or, get_or-replicate_self}
use tark_os.Prelude.{
  ℕ, ◌+◌, ◌*◌, ◌/◌, ◌%◌, ◌≡◌, ◌⊎◌, refl, true, none, ◌∷◌, replicate, length-replicate,
}
use tark_os.Pmm.{page_size, bitmap_test}
use tark_os.Pmm.Bitmap.{count_used}
use tark_os.Paging.{Paging, is_present, get_page_table, paging_map, paging_get_physical}
use tark_os.Paging.Mapping.{IsPaging, get_physical-map}
use tark_os.Paging.Others.{IsSeparate, get_physical-map_other}

abbrev blank : Paging
blank = record {
  directory = replicate 1024 0;
  frames = λ f. replicate 1024 0;
  pmm = record {
    bitmap = 0xFFFFFEFF ∷ replicate 8191 0xFFFFFFFF;
    total_memory = 131072;
    used_pages = 31;
    total_pages = 32;
  };
}

blank-IsPaging : IsPaging blank
blank-IsPaging = record {
  entries = length-replicate {A = ℕ} 1024 0;
  words = λ f. length-replicate {A = ℕ} 1024 0;
}

get_physical-map_example :
    ((get_page_table blank 0x40001234 true).1 ≡ none)
    ⊎ (paging_get_physical (paging_map blank 0x40001234 0x9000 3) 0x40001234
        ≡ 0x9000 / page_size * page_size + 0x40001234 % page_size)
get_physical-map_example = get_physical-map blank 0x40001234 0x9000 3 blank-IsPaging refl

absent : (i : ℕ) → is_present (get_or blank.directory i 0) ≡ false
absent i = ap is_present (get_or-replicate_self {A = ℕ} 1024 i 0)

blank-IsSeparate : IsSeparate blank
unfolding count_used bitmap_test
blank-IsSeparate = record {
  paging = blank-IsPaging;
  pmm = record {
    size = ap suc (length-replicate {A = ℕ} 8191 0xFFFFFFFF);
    fits = omega arith;
    counted = refl;
  };
  apart = λ i j p q e. absurd (ground (arith, p, absent i));
  in_use = λ i p. absurd (ground (arith, p, absent i));
}

get_physical-map_other_example :
    paging_get_physical (paging_map blank 0x40001234 0x9000 3) 0x40002000
    ≡ paging_get_physical blank 0x40002000
get_physical-map_other_example =
    get_physical-map_other blank 0x40001234 0x9000 3 0x40002000 blank-IsSeparate (omega arith)
      (omega arith) (omega arith)
