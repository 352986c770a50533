-- ===== src/Init.antt =====
-- src/init.rs: the writes of the setup, which are taken back where one of them fails. The file
-- system is an argument, with what its documentation promises of each call.
pub mod Applied
pub mod Rollback
pub mod EnvFile
use codex_mimo_adapter.Base.{
  ℕ, String, Bool, true, false, ◌≡◌, ◌≢◌, Option, none, some, List, [], ◌∷◌, ◌⊎◌,
}
use codex_mimo_adapter.Base.Result.{Result, ok, err, map_err}
use codex_mimo_adapter.Base.Str.{concat, is_some}
use codex_mimo_adapter.Stream.Exec.{Exec, pure, when, with_state, either, continue, ◌>>=◌, ◌>>◌}
use codex_mimo_adapter.Stream.Exec

-- A path by its components, the last one first.
abbrev pub FilePath : Type 0
FilePath = List String

abbrev pub Bytes : Type 0
Bytes = List ℕ

-- The calls of `std::fs`, of the random identifiers and of the log, each of which may fail.
pub record Disk : Type 1 where
  pub Fs : Type 0
  -- the contents of the file at a path, where there is one
  pub look : FilePath → Fs → Option Bytes
  pub display : FilePath → String
  pub create_dir_all : FilePath → Exec Fs (Unit {0})
  pub read : FilePath → Exec Fs Bytes
  pub write : FilePath → Bytes → Exec Fs (Unit {0})
  pub remove_file : FilePath → Exec Fs (Unit {0})
  pub rename : FilePath → FilePath → Exec Fs (Unit {0})
  pub uuid : Exec Fs String
  -- `InitLogger::log`, which appends to the file at `log_path`
  pub log_path : FilePath
  pub log : String → Exec Fs (Unit {0})

pub record PendingWrite : Type 0 where
  pub path : FilePath
  pub contents : Bytes

pub data PendingChange : Type 0 where
  write : PendingWrite → PendingChange
  delete : FilePath → PendingChange

-- `PendingChange::path` and `action`
abbrev pub path_of : PendingChange → FilePath
path_of (write w) = w.path
path_of (delete path) = path

abbrev pub action_of : PendingChange → String
action_of (write w) = "writing"
action_of (delete path) = "removing"

pub record WrittenFile : Type 0 where
  pub path : FilePath
  pub original : Option Bytes

-- `temp_path`, with the identifier that it draws
abbrev pub temp_path : FilePath → String → FilePath
temp_path [] id = concat ("tmp" ∷ ".tmp." ∷ id ∷ []) ∷ []
temp_path (name ∷ folder) id = concat (name ∷ ".tmp." ∷ id ∷ []) ∷ folder

abbrev pub parent_of : FilePath → Option FilePath
parent_of [] = none
parent_of (name ∷ folder) = some folder

module _ (disk : Disk) where
  open disk use {Fs, look, display, create_dir_all, read, remove_file, rename, uuid, log}

  -- `with_context`: the error is told with what was tried
  unfoldable pub context : {A : Type 0} → String → Exec Fs A → Exec Fs A
  context what m s = let (result, s') = m s in (map_err (λ e. what) result, s')

  -- what a call gave, failed or not
  unfoldable pub attempt : {A : Type 0} → Exec Fs A → Exec Fs (Result String A)
  attempt m s = let (result, s') = m s in (ok result, s')

  abbrev pub about : String → FilePath → String
  about what path = concat (what ∷ display path ∷ [])

  -- the contents of a path, where it exists
  unfoldable pub snapshot : FilePath → Exec Fs (Option Bytes)
  unfolding ◌>>=◌ context
  snapshot path = with_state (λ s.
      either (is_some (look path s))
        (do contents ← context (about "failed to snapshot " path) (read path); pure (some contents))
        (pure none))

  -- `PendingDelete::apply`
  unfoldable pub apply_delete : FilePath → Exec Fs WrittenFile
  unfolding ◌>>=◌ context
  apply_delete path = with_state (λ s.
      either (is_some (look path s))
        (do
          contents ← context (about "failed to snapshot " path) (read path)
          context (about "failed to remove " path) (remove_file path)
          pure (record { path = path; original = some contents }))
        (pure (record { path = path; original = none })))

  abbrev pub create_parent : Option FilePath → Exec Fs (Unit {0})
  create_parent none = Exec.done
  create_parent (some parent) = context (about "failed to create " parent) (create_dir_all parent)

  -- `replace_path`, where the platform is not Windows
  unfoldable pub replace_path : FilePath → FilePath → Exec Fs (Unit {0})
  unfolding context
  replace_path source destination =
      context
        (concat
          ("failed to move temp file " ∷ display source ∷ " into " ∷ display destination ∷ []))
        (rename source destination)

  -- behind `replace_path`: the temporary file is removed where the move failed, whether or not it
  -- can be
  unfoldable pub settle : FilePath → Result String (Unit {0}) → Exec Fs (Unit {0})
  unfolding ◌>>=◌ attempt
  settle tmp (ok moved) = Exec.done
  settle tmp (err error) = do attempt (remove_file tmp); (λ s. (err error, s))

  -- `PendingWrite::apply`
  unfoldable pub apply_write : PendingWrite → Exec Fs WrittenFile
  unfolding ◌>>=◌ context attempt snapshot replace_path settle
  apply_write w = do
    create_parent (parent_of w.path)
    original ← snapshot w.path
    id ← uuid
    let tmp = temp_path w.path id
    context (about "failed to write temp file " tmp) (disk.write tmp w.contents)
    moved ← attempt (replace_path tmp w.path)
    settle tmp moved
    pure (record { path = w.path; original = original })

  -- `PendingChange::apply`
  abbrev pub apply : PendingChange → Exec Fs WrittenFile
  apply (PendingChange.write w) = apply_write w
  apply (delete path) = apply_delete path

  abbrev pub restore : FilePath → Option Bytes → Exec Fs (Unit {0})
  restore path (some contents) =
      context (about "failed to restore " path) (disk.write path contents)
  restore path none = with_state (λ s.
      when (is_some (look path s)) (context (about "failed to remove " path) (remove_file path)))

  -- `WrittenFile::rollback`
  unfoldable pub rollback : WrittenFile → Exec Fs (Unit {0})
  unfolding ◌>>=◌ context
  rollback w = restore w.path w.original

  abbrev pub told : FilePath → Result String (Unit {0}) → String
  told path (ok done) = about "rolled back " path
  told path (err error) = concat ("rollback failed for " ∷ display path ∷ ": " ∷ error ∷ [])

  -- the loop over the snapshots, the newest first
  unfoldable pub roll_back : List WrittenFile → Exec Fs (Unit {0})
  unfolding ◌>>=◌ attempt rollback
  roll_back [] = Exec.done
  roll_back (w ∷ applied) = do
    result ← attempt (rollback w)
    log (told w.path result)
    roll_back applied

  -- a change failed: what was applied is taken back, and the error is returned
  abbrev pub give_up : List WrittenFile → String → Exec Fs (Unit {0})
  give_up applied error = do
    log (concat ("write failed, starting rollback: " ∷ error ∷ []))
    roll_back applied
    (λ s. (err error, s))

  abbrev pub go_on :
      (List WrittenFile → Exec Fs (Unit {0}))
      → List WrittenFile
      → Result String WrittenFile
      → Exec Fs (Unit {0})
  go_on rest applied (ok written) = rest (written ∷ applied)
  go_on rest applied (err error) = give_up applied error

  -- the loop over the changes, with the snapshots of those applied, the newest first
  unfoldable pub apply_changes : List PendingChange → List WrittenFile → Exec Fs (Unit {0})
  unfolding ◌>>=◌ attempt apply_write apply_delete roll_back
  apply_changes [] applied = Exec.done
  apply_changes (change ∷ changes) applied = do
    log (concat (action_of change ∷ " " ∷ display (path_of change) ∷ []))
    result ← attempt (apply change)
    go_on (apply_changes changes) applied result

  -- `apply_writes_with_rollback`
  unfoldable pub apply_writes_with_rollback : List PendingChange → Exec Fs (Unit {0})
  unfolding apply_changes
  apply_writes_with_rollback writes = apply_changes writes []
