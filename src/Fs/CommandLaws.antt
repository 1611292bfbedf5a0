-- ===== src/Fs/CommandLaws.antt =====
-- kernel.c: copying and moving a file, and the invariant under any sequence of calls.
use mathlib.Core.Option
use tark_os.Prelude.{ℕ, zero, suc, ◌≡◌, ◌≢◌, refl, sym, ◌∙◌, ap, arith, inl, inr}
use tark_os.Prelude.{Bool, true, false, if◌then◌else◌}
use tark_os.Prelude.{Option, none, some, [], ◌∷◌, set, length, ◌<◌}
use tark_os.Text.{CString, str_eq}
use tark_os.Text.Search.{str_eq→eq}
use tark_os.Fs.{File, Table, file_at}
use tark_os.Fs.Buffer.{content}
use tark_os.Fs.Lookup.{is_named, lookup, find_file-cases, IsFirstNamed, same_name}
use tark_os.Fs.Invariant.{IsValid, slot_alone}
use tark_os.Fs.Map.{view}
use tark_os.Fs.Change.{lookup-none}
use tark_os.Fs.Commands.{done, mv, renamed-fits}

-- Renaming the file in entry `k`, whose new name no file has.
lookup-rename :
    (t : Table) (src dest m : CString) (k : ℕ)
    → IsFirstNamed t src k
    → ((j : ℕ) → k ≢ j → is_named src (file_at t j) ≡ false)
    → lookup t dest ≡ none
    → lookup (set t k (record (file_at t k) { name = dest })) m ≡ (
        if str_eq dest m
        then some (record (file_at t k) { name = dest })
        else if str_eq src m
        then none
        else lookup t m)
unfolding lookup
lookup-rename [] src dest m k h alone gone = absurd (omega (arith, h.0))
lookup-rename (f ∷ fs) src dest m zero h alone gone =
    let no_other = lookup-none fs src (λ j. alone (suc j) (omega arith)) in
    ground (
      arith,
      h.2,
      no_other,
      same_name src m f.name,
      λ (e : str_eq src m ≡ true). ap (lookup fs) (sym (str_eq→eq src m e)) ∙ no_other,
    )
lookup-rename (f ∷ fs) src dest m (suc k) h alone gone =
    let tail_gone : lookup fs dest ≡ none = ground arith in
    ground (
      arith,
      gone,
      lookup-rename fs src dest m k
          (
            omega (arith, h.0),
            (rw (h.3 0 (omega arith)) at h.1),
            h.2,
            λ j l. h.3 (suc j) (omega arith),
          )
          (λ j ne. alone (suc j) (omega arith)) tail_gone,
      h.3 0 (omega arith),
      (λ (e : str_eq src m ≡ true). ap (str_eq f.name) (str_eq→eq src m e)),
      (λ (e : str_eq dest m ≡ true). ap (str_eq f.name) (str_eq→eq dest m e)),
    )

-- What a successful move does to the map.
abbrev pub Moves : Table → CString → CString → Table → Type 0
Moves t src dest t' =
    (m : CString)
    → view t' m ≡ (if str_eq dest m then view t src else if str_eq src m then none else view t m)

-- On a valid table, where the source is a file, and the destination is none and has less than 32
-- bytes, as many as `name` holds with its NUL, `mv` reports success
-- and moves the source's contents to the destination's name; no other name is touched.
pub mv-Moves :
    (t : Table) (src dest : CString)
    → IsValid t
    → view t src ≢ none
    → view t dest ≡ none
    → length dest < 32
    → ((mv t src dest).1 ≡ done) × Moves t src dest (mv t src dest).0
unfolding mv
mv-Moves t src dest v there free short = elim (find_file-cases t src) [
  | inl (missing, gone) ↦ absurd (there (rw gone))
  | inr (k, found, h) ↦ elim (find_file-cases t dest) [
    | inr (d, found', h') ↦ cc (ap (Option.map content) (sym h'.1) ∙ free)
    | inl (missing, gone) ↦ (
      rw (found, mv, missing),
      λ m.
          rw (found, mv, missing, renamed-fits (file_at t k) dest short)
            (ap (Option.map content)
                (lookup-rename t src dest m k h (slot_alone t src k v (inr h.2)) gone)
              ∙ rw h.1 (split (str_eq dest m) (str_eq src m) (file_at t k) (lookup t m))),
    )
  ]
]
  where
    split :
        (a b : Bool) (f : File) (o : Option File)
        → Option.map content (if a then some (record f { name = dest }) else if b then none else o)
          ≡ (if a then some (content f) else if b then none else Option.map content o)
    split true b f o = refl
    split false true f o = refl
    split false false f o = refl
