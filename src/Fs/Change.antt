-- ===== src/Fs/Change.antt =====
-- kernel.c: `fs_append_file` and `fs_delete_file` on the map of files.
use mathlib.Core.Option
use tark_os.Prelude.{
  ℕ, zero, suc, ◌+◌, ◌-◌, ◌≤◌, ◌<◌, ◌≡◌, ◌≢◌, refl, sym, ◌∙◌, ap, arith, ◌⊎◌, inl, inr,
}
use tark_os.Prelude.{Bool, true, false, ◌||◌, ◌==◌, leb, if◌then◌else◌, Bool-cases}
use tark_os.Prelude.{Option, none, some, List, [], ◌∷◌, ◌++◌, append-nil, length, set, take, min}
use tark_os.Prelude.{length-take}
use tark_os.Prelude.Int.{ℤ, pos, negsuc}
use tark_os.Text.{CString, str_eq}
use tark_os.Text.Search.{str_eq→eq, str_eq_refl}
use tark_os.Fs.{
  File, Table, file_at, grow_file, fs_append_file, fs_delete_file, room_for, max_file_size,
  no_space,
}
use tark_os.Fs.Buffer.{content, content-grow_file}
use tark_os.Fs.Lookup.{is_named, lookup, find_file-cases, IsSlot, IsFirstNamed, same_name}
use tark_os.Fs.Invariant.{IsFile, IsValid, set-IsValid, slot_alone}
use tark_os.Fs.Map.{view, view-set, grow_file-IsFile}

named-IsSlot : (t : Table) (n : CString) (k : ℕ) → IsFirstNamed t n k → IsSlot t n k
named-IsSlot t n k (inside, at, named, first) = record {
  inside = inside;
  free = inr named;
  first = first;
}

view-named :
    (t : Table) (n : CString) (k : ℕ) → IsFirstNamed t n k → view t n ≡ some (content (file_at t k))
view-named t n k (inside, at, named, first) = ap (Option.map content) at

abbrev pub is_some {ℓ} : {A : Type ℓ} → Option A → Bool
is_some none = false
is_some (some a) = true

-- Storing under a name what the map has there already changes nothing.
view_same :
    (t : Table) (n m : CString) (c : List ℕ)
    → view t n ≡ some c
    → view t m ≡ (if str_eq n m then some c else view t m)
view_same t n m c e = elim (Bool-cases (str_eq n m)) [
  | inr other ↦ rw other
  | inl same ↦ rw same (ap (view t) (sym (str_eq→eq n m same)) ∙ e)
]

-- What `fs_append_file` does to a valid table with a size of `n`: -1 and no change where the name
-- has no file; otherwise it returns how many bytes fit, at most `n`, and the map has the first so
-- many bytes of the source behind the old ones under the name, and is else as before.
abbrev pub Appends : Table → CString → List ℕ → ℕ → Type 0
Appends t name src n =
    ((view t name ≡ none) × (fs_append_file t name src (pos n) ≡ (t, no_space)))
    ⊎ ((old : List ℕ) × (view t name ≡ some old)
        × (let fits = min n (max_file_size - 1 - length old) in
            ((fs_append_file t name src (pos n)).1 ≡ pos fits)
            × ((m : CString)
                → view (fs_append_file t name src (pos n)).0 m
                  ≡ (if str_eq name m then some (old ++ take fits src) else view t m))))

length-content : (f : File) → IsFile f → length (content f) ≡ f.size
length-content f v = length-take f.size f.contents ∙ omega (arith, v.buffer, v.fits)

-- On a valid table, for a source of at least `n` bytes, `fs_append_file` extends the file of the
-- name by as many of them as fit, and no other file.
pub append_file-Appends :
    (t : Table) (name : CString) (src : List ℕ) (n : ℕ)
    → IsValid t
    → n ≤ length src
    → Appends t name src n
unfolding fs_append_file
append_file-Appends t name src n v enough = elim (find_file-cases t name) [
  | inl (missing, gone) ↦ inl (rw gone, rw (missing, fs_append_file))
  | inr (k, found, h) ↦
      let f = file_at t k in
      let file = v.files k in
      let size = length-content f file in
      inr (
        content f,
        view-named t name k h,
        elim (Bool-cases (n == 0 || leb (max_file_size - 1) f.size)) [
          | inl nothing ↦
              let fits : min n (max_file_size - 1 - length (content f)) ≡ 0 =
                ground (arith, size) in
              (
                rw (found, fs_append_file, nothing, fits),
                λ m.
                    rw (found, fs_append_file, nothing, fits, append-nil (content f))
                      (view_same t name m (content f) (view-named t name k h)),
              )
          | inr something ↦
              let room = room_for f.size n in
              let fits : min n (max_file_size - 1 - length (content f)) ≡ room =
                ground (arith, size) in
              let inside : f.size + room < max_file_size = ground (arith, file.fits) in
              (
                rw (found, fs_append_file, something, fits),
                λ m.
                    rw (found, fs_append_file, something, fits)
                      (view-set t name m k (grow_file f src room) (named-IsSlot t name k h) h.2
                        ∙ ap (λ c. if str_eq name m then some c else view t m)
                            (content-grow_file f src room (omega (arith, file.buffer))
                              (ground arith))),
              )
        ],
      )
]

-- `fs_append_file` keeps the table valid.
pub append_file-IsValid :
    (t : Table) (name : CString) (src : List ℕ) (size : ℤ)
    → IsValid t
    → IsValid (fs_append_file t name src size).0
unfolding fs_append_file
append_file-IsValid t name src (negsuc n) v = elim (find_file-cases t name) [
  | inl (missing, gone) ↦ rw (missing, fs_append_file) v
  | inr (k, found, h) ↦ rw (found, fs_append_file) v
]
append_file-IsValid t name src (pos n) v = elim (find_file-cases t name) [
  | inl (missing, gone) ↦ rw (missing, fs_append_file) v
  | inr (k, found, h) ↦
      let f = file_at t k in
      elim (Bool-cases (n == 0 || leb (max_file_size - 1) f.size)) [
        | inl nothing ↦ rw (found, fs_append_file, nothing) v
        | inr something ↦
            let g = grow_file f src (room_for f.size n) in
            rw (found, fs_append_file, something)
              (set-IsValid t k g v h.0
                (grow_file-IsFile f src (room_for f.size n) (v.files k)
                  (ground (arith, (v.files k).fits)))
                (λ used. slot_alone t f.name k v (inr (rename f name h.2))))
      ]
]
  where
    rename : (f : File) (n : CString) → is_named n f ≡ true → is_named f.name f ≡ true
    rename f n e = ground (arith, str_eq_refl f.name)

pub lookup-none :
    (t : Table) (n : CString) → ((j : ℕ) → is_named n (file_at t j) ≡ false) → lookup t n ≡ none
unfolding lookup
lookup-none [] n h = refl
lookup-none (f ∷ fs) n h = rw (h 0) (lookup-none fs n (λ j. h (suc j)))

lookup-unused :
    (t : Table) (n m : CString) (k : ℕ)
    → IsFirstNamed t n k
    → ((j : ℕ) → k ≢ j → is_named n (file_at t j) ≡ false)
    → lookup (set t k (record (file_at t k) { used = false })) m
      ≡ (if str_eq n m then none else lookup t m)
unfolding lookup
lookup-unused [] n m k h alone = absurd (omega (arith, h.0))
lookup-unused (f ∷ fs) n m zero h alone =
    let gone = lookup-none fs n (λ j. alone (suc j) (omega arith)) in
    ground (
      arith,
      h.2,
      gone,
      same_name n m f.name,
      λ (e : str_eq n m ≡ true). ap (lookup fs) (sym (str_eq→eq n m e)) ∙ gone,
    )
lookup-unused (f ∷ fs) n m (suc k) h alone = ground (
  arith,
  lookup-unused fs n m k (omega (arith, h.0), tail_found, h.2, λ j l. h.3 (suc j) (omega arith))
      (λ j ne. alone (suc j) (omega arith)),
  h.3 0 (omega arith),
  λ (e : str_eq n m ≡ true). ap (str_eq f.name) (str_eq→eq n m e),
)
  where
    tail_found : lookup fs n ≡ some (file_at fs k)
    tail_found = rw (h.3 0 (omega arith)) at (h.1)

view-unused :
    (b : Bool) (o : Option File)
    → Option.map content (if b then none else o) ≡ (if b then none else Option.map content o)
view-unused true o = refl
view-unused false o = refl

-- On a valid table `fs_delete_file` removes the name from the map, and no other, and returns
-- whether there was a file of that name.
pub delete_file_lem :
    (t : Table) (name : CString)
    → IsValid t
    → ((fs_delete_file t name).1 ≡ is_some (view t name))
      × ((m : CString)
          → view (fs_delete_file t name).0 m ≡ (if str_eq name m then none else view t m))
unfolding fs_delete_file
delete_file_lem t name v = elim (find_file-cases t name) [
  | inl (missing, gone) ↦ (
    rw (missing, fs_delete_file, gone),
    λ m.
        rw (missing, fs_delete_file)
          (elim (Bool-cases (str_eq name m)) [
            | inr other ↦ rw other
            | inl same ↦
                rw same (ap (view t) (sym (str_eq→eq name m same)) ∙ ap (Option.map content) gone)
          ]),
  )
  | inr (k, found, h) ↦ (
    rw (found, fs_delete_file, view-named t name k h),
    λ m.
        rw (found, fs_delete_file)
          (ap (Option.map content) (lookup-unused t name m k h (slot_alone t name k v (inr h.2)))
            ∙ view-unused (str_eq name m) (lookup t m)),
  )
]

-- `fs_delete_file` keeps the table valid.
pub delete_file-IsValid :
    (t : Table) (name : CString) → IsValid t → IsValid (fs_delete_file t name).0
unfolding fs_delete_file
delete_file-IsValid t name v = elim (find_file-cases t name) [
  | inl (missing, gone) ↦ rw (missing, fs_delete_file) v
  | inr (k, found, h) ↦
      rw (found, fs_delete_file)
        (set-IsValid t k (record (file_at t k) { used = false }) v h.0
          (let f = v.files k in
            record { short_name = f.short_name; buffer = f.buffer; fits = f.fits; ended = f.ended })
          (λ used. cc))
]
