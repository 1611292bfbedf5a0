-- ===== src/Shell/Help.antt =====
-- kernel.c: what the shell says of a command that stands alone in its line, and whether it runs then.
use tark_os.Prelude.{
  ◌≡◌, refl, ◌∙◌, ap, inl, inr, arith, Bool, true, false, if◌then◌else◌, Bool-cases,
}
use tark_os.Prelude.{Option, none, some, List, [], ◌∷◌, codes}
use tark_os.Text.{CString, str_eq}
use tark_os.Text.Search.{str_eq→eq}

-- The tests of `command_desc` in their order, with what they return.
abbrev pub descriptions : List (CString × CString)
descriptions =
    (codes "help", codes "help: Kullanilabilir komutlarin listesini gosterir.")
    ∷ (codes "sysinfo", codes "sysinfo: Kernel ve sistem ozeti bilgilerini gosterir.")
    ∷ (codes "cpuinfo", codes "cpuinfo: CPU uyumlulugu bilgisini gosterir.")
    ∷ (codes "calc", codes "calc: Basit aritmetik ifade hesaplar.")
    ∷ (codes "themes", codes "themes: Tema degistirir (dark|neon|classic).")
    ∷ (codes "echo", codes "echo: Girilen metni ekrana yazar.")
    ∷ (codes "date", codes "date: Tarih ve saat bilgisini gosterir.")
    ∷ (codes "time", codes "time: Sistem saatini gosterir.")
    ∷ (codes "matrix", codes "matrix: Matrix efektini calistirir.")
    ∷ (codes "ls", codes "ls: Dizin icerigini listeler.")
    ∷ (codes "dir", codes "ls: Dizin icerigini listeler.")
    ∷ (codes "pwd", codes "pwd: Mevcut dizin yolunu gosterir.")
    ∷ (codes "cd", codes "cd: Dizin degistirir.")
    ∷ (codes "mkdir", codes "mkdir: Yeni dizin olusturur.")
    ∷ (codes "rmdir", codes "rmdir: Dizin ve icindeki girdileri siler.")
    ∷ (codes "cat", codes "cat: Dosya icerigini gosterir.")
    ∷ (codes "cp", codes "cp: Dosya kopyalar.")
    ∷ (codes "mv", codes "mv: Dosya tasir veya adini degistirir.")
    ∷ (codes "touch", codes "touch: Bos dosya olusturur.")
    ∷ (codes "write", codes "write: Dosyaya yazar (ustune yazar).")
    ∷ (codes "append", codes "append: Dosyaya ekleme yapar.")
    ∷ (codes "stat", codes "stat: Dosya boyutu bilgisini gosterir.")
    ∷ (codes "find", codes "find: Dosya adinda metin arar.")
    ∷ (codes "history", codes "history: Komut gecmisini listeler.")
    ∷ (codes "rm", codes "rm: Dosya siler.")
    ∷ (codes "tredit", codes "tredit: Metin duzenleyicisini acar.")
    ∷ (codes "cls", codes "clear: Ekrani temizler.")
    ∷ (codes "clear", codes "clear: Ekrani temizler.")
    ∷ (codes "reboot", codes "reboot: Sistemi yeniden baslatir.")
    ∷ (codes "ver", codes "ver: Surum bilgisini gosterir.")
    ∷ (codes "pong", codes "pong: Pong oyununu baslatir.")
    ∷ (codes "about", codes "about: TarkOS hakkinda kisa bilgi verir.")
    ∷ (codes "df", codes "df: RAMDisk kullanimini gosterir.")
    ∷ (codes "wc", codes "wc: Dosya satir/kelime/byte sayar.")
    ∷ []

unfoldable pub find_desc : List (CString × CString) → CString → Option CString
unfolding str_eq
find_desc [] cmd = none
find_desc ((name, desc) ∷ rows) cmd =
    let rest = find_desc rows cmd in if str_eq cmd name then some desc else rest

unfoldable pub command_desc : CString → Option CString
unfolding find_desc
command_desc cmd = find_desc descriptions cmd

abbrev pub bare_commands : List CString
bare_commands =
    codes "help"
    ∷ codes "sysinfo"
    ∷ codes "cpuinfo"
    ∷ codes "date"
    ∷ codes "time"
    ∷ codes "matrix"
    ∷ codes "ls"
    ∷ codes "dir"
    ∷ codes "pwd"
    ∷ codes "cd"
    ∷ codes "history"
    ∷ codes "cls"
    ∷ codes "clear"
    ∷ codes "reboot"
    ∷ codes "ver"
    ∷ codes "pong"
    ∷ codes "about"
    ∷ codes "df"
    ∷ []

unfoldable pub is_among : List CString → CString → Bool
unfolding str_eq
is_among [] cmd = false
is_among (name ∷ names) cmd =
    let rest = is_among names cmd in if str_eq cmd name then true else rest

unfoldable pub command_runs_without_args : CString → Bool
unfolding is_among
command_runs_without_args cmd = is_among bare_commands cmd

-- Whether a line of one word runs its command: it does not, where there is a description and the
-- command wants arguments.
unfoldable pub runs_alone : CString → Bool
unfolding command_desc command_runs_without_args
runs_alone cmd = elim (command_desc cmd) [ none ↦ true | some desc ↦ command_runs_without_args cmd ]

has_desc : List (CString × CString) → CString → Bool
unfolding find_desc
has_desc rows cmd = elim (find_desc rows cmd) [ none ↦ false | some desc ↦ true ]

all_described : List CString → Bool
unfolding has_desc
all_described [] = true
all_described (name ∷ names) =
    let rest = all_described names in if has_desc descriptions name then rest else false

if_and : (b rest : Bool) → (if b then rest else false) ≡ true → (b ≡ true) × (rest ≡ true)
if_and true rest h = (refl, h)
if_and false rest h = absurd (ground (arith, h))

or_else : (b rest : Bool) → (if b then true else rest) ≡ true → b ≡ false → rest ≡ true
or_else true rest h e = absurd (ground (arith, e))
or_else false rest h e = h

is_among-all :
    (names : List CString) (cmd : CString)
    → all_described names ≡ true
    → is_among names cmd ≡ true
    → has_desc descriptions cmd ≡ true
unfolding all_described is_among
is_among-all [] cmd all among = absurd (ground (arith, among))
is_among-all (name ∷ names) cmd all among =
    let (here, rest) = if_and (has_desc descriptions name) (all_described names) all in
    elim (Bool-cases (str_eq cmd name)) [
      | inl e ↦ ap (has_desc descriptions) (str_eq→eq cmd name e) ∙ here
      | inr e ↦ is_among-all names cmd rest (or_else (str_eq cmd name) (is_among names cmd) among e)
    ]

described :
    (o : Option CString)
    → (elim o [ none ↦ false | some desc ↦ true ]) ≡ true
    → (desc : CString) × (o ≡ some desc)
described none h = absurd (ground (arith, h))
described (some desc) h = (desc, refl)

table_described : all_described bare_commands ≡ true
unfolding all_described has_desc find_desc str_eq
table_described = refl

-- Each command that runs without arguments has a description, which the shell prints first.
pub runs_without_args-described :
    (cmd : CString)
    → command_runs_without_args cmd ≡ true
    → (desc : CString) × (command_desc cmd ≡ some desc)
unfolding command_runs_without_args command_desc has_desc
runs_without_args-described cmd h =
    described (find_desc descriptions cmd) (is_among-all bare_commands cmd table_described h)
