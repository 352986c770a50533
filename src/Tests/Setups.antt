-- ===== src/Tests/Setups.antt =====
-- The writes of the setup on a small file system, in which one path cannot be removed or moved to.
use codex_mimo_adapter.Base.{
  ◌≤◌, ◌<◌, String, Char, All, not, ◌≡◌, ◌≢◌, inl, inr, refl, ap, ◌∙◌, arith, Bool, true, false,
  ◌&&◌, Bool-cases, Option, none, some, List, [], ◌∷◌, ◌==◌, eq_refl, if◌then◌else◌, str-cases,
  str_append,
}
use codex_mimo_adapter.Base.Result.{ok, err}
use codex_mimo_adapter.Base.Str.{char_count}
use codex_mimo_adapter.Base.Decimal.{char_count-append}
use codex_mimo_adapter.Base.Assoc.{get}
use codex_mimo_adapter.Base.Decimal.{decimal, AllChars}
use codex_mimo_adapter.Base.Str.{is_empty, is_whitespace}
use codex_mimo_adapter.Config.{Env}
use codex_mimo_adapter.Project.EnvText.{parse_env_text}
use codex_mimo_adapter.Init.EnvFile.{env_lines, common_settings, project_settings, project_env}
use codex_mimo_adapter.Init.EnvFile.Readable.{
  visible, key_char, IsReadable, IsDistinct, parse_env_text-env_lines,
}
use codex_mimo_adapter.Init.{
  FilePath, Bytes, Disk, PendingChange, delete, temp_path, apply_writes_with_rollback,
}
use codex_mimo_adapter.Init.Applied.{IsFileSystem, IsNotTemp}
use codex_mimo_adapter.Init.Rollback.{CanTakeBack, apply_writes_with_rollback_failed}

abbrev same_path : FilePath → FilePath → Bool
same_path [] [] = true
same_path [] (b ∷ q) = false
same_path (a ∷ p) [] = false
same_path (a ∷ p) (b ∷ q) = a == b && same_path p q

same_path_self : (p : FilePath) → same_path p p ≡ true
same_path_self [] = refl
same_path_self (a ∷ p) = rw (eq_refl a) (same_path_self p)

same_path_eq : (p q : FilePath) → same_path p q ≡ true → p ≡ q
same_path_eq [] [] h = refl
same_path_eq [] (b ∷ q) h = cc
same_path_eq (a ∷ p) [] h = cc
same_path_eq (a ∷ p) (b ∷ q) h = elim (str-cases a b) [
  | inl (e, test) ↦ let rest = same_path_eq p q (rw test at h) in cc
  | inr (other, test) ↦ absurd (cc (rw test at h))
]

different : (p q : FilePath) → p ≢ q → same_path p q ≡ false
different p q other = elim (Bool-cases (same_path p q)) [
  | inl e ↦ absurd (other (same_path_eq p q e))
  | inr e ↦ e
]

abbrev Files : Type 0
Files = FilePath → Option Bytes

abbrev put : FilePath → Option Bytes → Files → Files
put p o files x = if same_path x p then o else files x

put_other :
    (p : FilePath) (o : Option Bytes) (files : Files) (q : FilePath)
    → q ≢ p
    → put p o files q ≡ files q
put_other p o files q other = rw (different q p other) refl

put_self : (p : FilePath) (o : Option Bytes) (files : Files) → put p o files p ≡ o
put_self p o files = rw (same_path_self p) refl

abbrev locked : FilePath
locked = "b" ∷ []

abbrev disk : Disk
disk = record {
  Fs = Files;
  look = λ p files. files p;
  display = λ p. "file";
  create_dir_all = λ p files. (ok tt, files);
  read = λ p files. (elim (files p) [ none ↦ err "missing" | some c ↦ ok c ], files);
  write = λ p c files. (ok tt, put p (some c) files);
  remove_file =
      λ p files. if same_path p locked then (err "locked", files) else (ok tt, put p none files);
  rename = λ p d files.
      if same_path d locked
      then (err "locked", files)
      else (ok tt, put d (files p) (put p none files));
  uuid = λ files. (ok "0", files);
  log_path = "init.log" ∷ [];
  log = λ message files. (ok tt, files);
}

rename_other :
    (p d q : FilePath) (files : Files) → q ≢ p → q ≢ d → (disk.rename p d files).1 q ≡ files q
rename_other p d q files other other' = elim (Bool-cases (same_path d locked)) [
  | inl e ↦ rw e refl
  | inr e ↦
      rw e (put_other d (files p) (put p none files) q other' ∙ put_other p none files q other)
]

rename_failed :
    (p d q : FilePath) (files : Files) (e : String)
    → (disk.rename p d files).0 ≡ err e
    → (disk.rename p d files).1 q ≡ files q
rename_failed p d q files error h = elim (Bool-cases (same_path d locked)) [
  | inl e ↦ rw e refl
  | inr e ↦ absurd (cc (rw e at h))
]

read_read :
    (p : FilePath) (files : Files) (c : Bytes) → (disk.read p files).0 ≡ ok c → files p ≡ some c
read_read p files c h = ground (arith, h)

remove_other : (p q : FilePath) (files : Files) → q ≢ p → (disk.remove_file p files).1 q ≡ files q
remove_other p q files other = elim (Bool-cases (same_path p locked)) [
  | inl e ↦ rw e refl
  | inr e ↦ rw e (put_other p none files q other)
]

removed :
    (p : FilePath) (files : Files)
    → (disk.remove_file p files).0 ≡ ok tt
    → (disk.remove_file p files).1 p ≡ none
removed p files h = elim (Bool-cases (same_path p locked)) [
  | inl e ↦ absurd (cc (rw e at h))
  | inr e ↦ rw e (put_self p none files)
]

remove_failed :
    (p q : FilePath) (files : Files) (e : String)
    → (disk.remove_file p files).0 ≡ err e
    → (disk.remove_file p files).1 q ≡ files q
remove_failed p q files error h = elim (Bool-cases (same_path p locked)) [
  | inl e ↦ rw e refl
  | inr e ↦ absurd (cc (rw e at h))
]

disk-IsFileSystem : IsFileSystem disk
disk-IsFileSystem = record {
  create_keeps = λ p q s. refl;
  read_keeps = λ p q s. refl;
  reads = read_read;
  write_others = λ p c q s other. put_other p (some c) s q other;
  writes = λ p c s h. put_self p (some c) s;
  remove_others = λ p q s other. remove_other p q s other;
  removes = λ p s h. removed p s h;
  remove_fails = λ p q s e h. remove_failed p q s e h;
  rename_others = λ p d q s other other'. rename_other p d q s other other';
  rename_fails = λ p d q s e h. rename_failed p d q s e h;
  uuid_keeps = λ q s. refl;
  log_others = λ message q s other. refl;
}

abbrev first : FilePath → String
first [] = ""
first (name ∷ folder) = name

temp_long : (p : FilePath) (id : String) → 5 ≤ char_count (first (temp_path p id))
temp_long [] id =
    omega (arith, char_count-append "tmp" (str_append ".tmp." id), char_count-append ".tmp." id)
temp_long (name ∷ folder) id =
    omega (arith, char_count-append name (str_append ".tmp." id), char_count-append ".tmp." id)

short-IsNotTemp : (q : FilePath) → char_count (first q) < 5 → IsNotTemp q
short-IsNotTemp q short p id e =
    omega (arith, short, temp_long p id, ap (λ x. char_count (first x)) e)

-- two files before the setup
abbrev kept : FilePath
kept = "a" ∷ []

abbrev before : Files
before = put kept (some (1 ∷ [])) (put locked (some (9 ∷ [])) (λ x. none))

abbrev writes : List PendingChange
writes =
    PendingChange.write (record { path = kept; contents = 2 ∷ [] })
    ∷ delete kept
    ∷ delete locked
    ∷ []

refused : (apply_writes_with_rollback disk writes before).0 ≡ err "failed to remove file"
unfolding apply_writes_with_rollback
refused = refl

restored : CanTakeBack disk writes [] before
unfolding apply_writes_with_rollback
restored = (refl, (refl, tt))

apply_writes_with_rollback_failed_example :
    (apply_writes_with_rollback disk writes before).1 kept ≡ some (1 ∷ [])
apply_writes_with_rollback_failed_example =
    apply_writes_with_rollback_failed disk disk-IsFileSystem kept
      (short-IsNotTemp kept (omega arith)) (λ message s. refl) (λ e. cc) writes before
      (
        short-IsNotTemp kept (omega arith),
        (short-IsNotTemp kept (omega arith), (short-IsNotTemp locked (omega arith), tt)),
      )
      restored refused

abbrev all_chars : (Char → Bool) → String → Bool
all_chars test String.[] = true
all_chars test (String.◌∷◌ c s) = test c && all_chars test s

all_chars-AllChars : (test : Char → Bool) (s : String) → all_chars test s ≡ true → AllChars test s
all_chars-AllChars test String.[] h = tt
all_chars-AllChars test (String.◌∷◌ c s) h =
    (ground (arith, h), all_chars-AllChars test s (ground (arith, h)))

abbrev is_readable : Env → Bool
is_readable [] = true
is_readable ((key, value) ∷ settings) =
    not (is_empty key)
    && (all_chars key_char key && (all_chars visible value && is_readable settings))

is_readable-IsReadable : (settings : Env) → is_readable settings ≡ true → All IsReadable settings
is_readable-IsReadable [] h = tt
is_readable-IsReadable ((key, value) ∷ settings) h = (
  (
    ground (arith, h),
    all_chars-AllChars key_char key (ground (arith, h)),
    all_chars-AllChars visible value (ground (arith, h)),
  ),
  is_readable-IsReadable settings (ground (arith, h)),
)

abbrev settings : Env
settings =
    project_settings project_env "sk-1" "codex-mimo-1" "p-1"
      (record { host = "127.0.0.1"; port = 4010; upstream_base = "https://mimo/v1" })

settings-IsReadable : All IsReadable settings
unfolding project_settings common_settings decimal is_whitespace
settings-IsReadable = is_readable-IsReadable settings refl

settings-IsDistinct : IsDistinct settings
unfolding project_settings common_settings get
settings-IsDistinct =
    (refl, (refl, (refl, (refl, (refl, (refl, (refl, (refl, (refl, (refl, (refl, tt)))))))))))

parse_env_text-env_lines_example :
    (env : Env) × (parse_env_text (env_lines settings) ≡ ok env)
    × ((key : String) → get key env ≡ get key settings)
parse_env_text-env_lines_example =
    parse_env_text-env_lines settings settings-IsReadable settings-IsDistinct
