-- ===== src/Init/Rollback.antt =====
-- Where a write of the setup fails, the files are as they were.
use codex_mimo_adapter.Base.{
  String, Bool, true, false, ◌≡◌, ◌≢◌, inl, inr, refl, sym, ap, ◌∙◌, Option, none, some, List, [],
  ◌∷◌, All,
}
use codex_mimo_adapter.Base.Result.{Result, ok, err, map_err-eq-ok}
use codex_mimo_adapter.Base.Str.{is_some, concat}
use codex_mimo_adapter.Stream.Exec.{Exec, when, with_state, continue, ◌>>=◌}
use codex_mimo_adapter.Init.{
  FilePath, Bytes, Disk, PendingChange, delete, path_of, action_of, WrittenFile, context, attempt,
  apply, restore, rollback, told, roll_back, give_up, go_on, apply_changes,
  apply_writes_with_rollback,
}
use codex_mimo_adapter.Init.Applied.{
  IsFileSystem, IsNotTemp, path_cases, none_of, Outcome, After, apply_write-Leaves,
  apply_delete-Leaves,
}

continue_ok :
    {S A : Type 0} (r : Result String (Unit {0})) (f : Unit {0} → Exec S A) (s : S)
    → r ≡ ok tt
    → continue r f s ≡ f tt s
continue_ok (ok done) f s h = refl
continue_ok (err e) f s h = cc

-- What is asked of the rollback of one run, where it has one, and of nothing else: from the state in
-- which a change failed, the applied ones are restored one after the other, each of them
-- successfully.
module _ (disk : Disk) where
  abbrev CanRollBack : List WrittenFile → disk.Fs → Type 0
  CanRollBack [] s = Unit
  CanRollBack (w ∷ applied) s =
      ((rollback disk w s).0 ≡ ok tt)
      × CanRollBack applied
          (disk.log (told disk w.path (rollback disk w s).0) (rollback disk w s).1).1

  abbrev CanGiveUp : List WrittenFile → String → disk.Fs → Type 0
  CanGiveUp applied error s =
      CanRollBack applied (disk.log (concat ("write failed, starting rollback: " ∷ error ∷ [])) s).1

  abbrev CanGoOn :
      (List WrittenFile → disk.Fs → Type 0)
      → List WrittenFile
      → Result String WrittenFile
      → disk.Fs
      → Type 0
  CanGoOn rest applied (ok written) s = rest (written ∷ applied) s
  CanGoOn rest applied (err error) s = CanGiveUp applied error s

  -- along the run of the changes
  abbrev pub CanTakeBack : List PendingChange → List WrittenFile → disk.Fs → Type 0
  CanTakeBack [] applied s = Unit
  CanTakeBack (change ∷ changes) applied s =
      let message = concat (action_of change ∷ " " ∷ disk.display (path_of change) ∷ []) in
      let (result, s') = apply disk change (disk.log message s).1 in
      CanGoOn (CanTakeBack changes) applied result s'

-- Restoring a file, and what it leaves alone.
module _ (disk : Disk) (laws : IsFileSystem disk) (q : FilePath) where
  removed_other :
      (b : Bool) (p : FilePath) (what : String) (s : disk.Fs)
      → q ≢ p
      → disk.look q (when b (context disk what (disk.remove_file p)) s).1 ≡ disk.look q s
  unfolding context when ◌>>=◌
  removed_other true p what s other = laws.remove_others p q s other
  removed_other false p what s other = refl

  restore_other :
      (p : FilePath) (original : Option Bytes) (s : disk.Fs)
      → q ≢ p
      → disk.look q (restore disk p original s).1 ≡ disk.look q s
  unfolding context with_state
  restore_other p (some contents) s other = laws.write_others p contents q s other
  restore_other p none s other = removed_other (is_some (disk.look p s)) p _ s other

  removed_own :
      (b : Bool) (p : FilePath) (what : String) (s : disk.Fs)
      → is_some (disk.look p s) ≡ b
      → (when b (context disk what (disk.remove_file p)) s).0 ≡ ok tt
      → disk.look p (when b (context disk what (disk.remove_file p)) s).1 ≡ none
  unfolding context when ◌>>=◌
  removed_own true p what s e h = laws.removes p s (map_err-eq-ok _ (disk.remove_file p s).0 h)
  removed_own false p what s e h = sym (none_of (disk.look p s) e)

  restore_own :
      (p : FilePath) (original : Option Bytes) (s : disk.Fs)
      → (restore disk p original s).0 ≡ ok tt
      → disk.look p (restore disk p original s).1 ≡ original
  unfolding context with_state
  restore_own p (some contents) s h =
      laws.writes p contents s (map_err-eq-ok _ (disk.write p contents s).0 h)
  restore_own p none s h = removed_own (is_some (disk.look p s)) p _ s refl h

-- What applying a change leaves: on success the snapshot, and all other files as they were; on a
-- failure all files.
module _ (disk : Disk) (laws : IsFileSystem disk) (q : FilePath) (q_not_temp : IsNotTemp q) where
  apply-Outcome :
      (change : PendingChange) (s : disk.Fs)
      → IsNotTemp (path_of change)
      → Outcome disk laws
          (path_of change)
          q
          (disk.look (path_of change) s)
          (disk.look q s)
          (After disk laws (path_of change) q (disk.look (path_of change) s) (disk.look q s))
          (apply disk change s)
  apply-Outcome (PendingChange.write w) s p_not_temp =
      (apply_write-Leaves disk laws w.path q (disk.look w.path s) (disk.look q s) q_not_temp
          p_not_temp w.contents).leaves
        s (refl, refl)
  apply-Outcome (delete path) s p_not_temp =
      (apply_delete-Leaves disk laws path q (disk.look path s) (disk.look q s)).leaves s
        (refl, refl)

  module _ (log_ok : (message : String) (s : disk.Fs) → (disk.log message s).0 ≡ ok tt)
      (q_not_log : q ≢ disk.log_path) where
    rollback_other :
        (w : WrittenFile) (s : disk.Fs)
        → q ≢ w.path
        → disk.look q (rollback disk w s).1 ≡ disk.look q s
    unfolding rollback
    rollback_other w s other = restore_other disk laws q w.path w.original s other

    rollback_own :
        (w : WrittenFile) (s : disk.Fs)
        → (rollback disk w s).0 ≡ ok tt
        → disk.look w.path (rollback disk w s).1 ≡ w.original
    unfolding rollback
    rollback_own w s restored = restore_own disk laws q w.path w.original s restored

    -- taking back what was applied gives the file at `q` what it had, `v`
    abbrev Undoes : List WrittenFile → Option Bytes → disk.Fs → Type 0
    Undoes applied v s =
        (t : disk.Fs)
        → disk.look q t ≡ disk.look q s
        → CanRollBack disk applied t
        → disk.look q (roll_back disk applied t).1 ≡ v

    Undoes-cons :
        (w : WrittenFile) (applied : List WrittenFile) (v : Option Bytes) (s s' : disk.Fs)
        → Undoes applied v s
        → w.original ≡ disk.look w.path s
        → (q ≢ w.path → disk.look q s' ≡ disk.look q s)
        → Undoes (w ∷ applied) v s'
    unfolding roll_back ◌>>=◌ attempt
    Undoes-cons w applied v s s' undoes was others t same (restored, can) =
        let s1 = (rollback disk w t).1 in
        let message = told disk w.path (rollback disk w t).0 in
        let s2 = (disk.log message s1).1 in
        let logged : disk.look q s2 ≡ disk.look q s1 = laws.log_others message q s1 q_not_log in
        let back : disk.look q s1 ≡ disk.look q s = elim (path_cases q w.path) [
          | inl e ↦
              ap (λ x. disk.look x s1) e
              ∙ rollback_own w t restored
              ∙ was
              ∙ ap (λ x. disk.look x s) (sym e)
          | inr other ↦ rollback_other w t other ∙ same ∙ others other
        ] in
        ap (disk.look q) (
          ap (λ (x : Result String (Unit {0}) × disk.Fs). x.1)
            (continue_ok (disk.log message s1).0 (λ done. roll_back disk applied) s2
              (log_ok message s1)))
        ∙ undoes s2 (logged ∙ back) can

    Undoes-moved :
        (applied : List WrittenFile) (v : Option Bytes) (s s' : disk.Fs)
        → Undoes applied v s
        → disk.look q s' ≡ disk.look q s
        → Undoes applied v s'
    Undoes-moved applied v s s' undoes e t same can = undoes t (same ∙ e) can

    ended :
        (r : Result String (Unit {0})) (error : String) (s : disk.Fs)
        → (continue r
            (λ done s. (let x : Result String (Unit {0}) × disk.Fs = (err error, s) in x))
            s).1
          ≡ s
    ended (ok done) error s = refl
    ended (err e) error s = refl

    give_up_undone :
        (applied : List WrittenFile) (error : String) (v : Option Bytes) (s : disk.Fs)
        → Undoes applied v s
        → CanGiveUp disk applied error s
        → disk.look q (give_up disk applied error s).1 ≡ v
    unfolding ◌>>=◌
    give_up_undone applied error v s undoes can =
        let message = concat ("write failed, starting rollback: " ∷ error ∷ []) in
        let s1 = (disk.log message s).1 in
        let (r, s2) = roll_back disk applied s1 in
        ap (λ (x : Result String (Unit {0}) × disk.Fs). disk.look q x.1)
          (continue_ok (disk.log message s).0 _ s1 (log_ok message s))
        ∙ ap (disk.look q) (ended r error s2)
        ∙ undoes s1 (laws.log_others message q s q_not_log) can

    -- from the result of a change, where the rest of the changes takes back what was applied
    go_on_undone :
        (rest : List WrittenFile → Exec disk.Fs (Unit {0}))
        (can_rest : List WrittenFile → disk.Fs → Type 0) (change : PendingChange)
        (applied : List WrittenFile) (v : Option Bytes) (s : disk.Fs)
        (result : Result String WrittenFile) (s' : disk.Fs) {error : String}
        → ((more : List WrittenFile)
            → Undoes more v s'
            → can_rest more s'
            → (rest more s').0 ≡ err error
            → disk.look q (rest more s').1 ≡ v)
        → Undoes applied v s
        → Outcome disk laws
            (path_of change)
            q
            (disk.look (path_of change) s)
            (disk.look q s)
            (After disk laws (path_of change) q (disk.look (path_of change) s) (disk.look q s))
            (result, s')
        → CanGoOn disk can_rest applied result s'
        → (go_on disk rest applied result s').0 ≡ err error
        → disk.look q (go_on disk rest applied result s').1 ≡ v
    go_on_undone rest can_rest change applied v s (ok w) s' ih undoes after can h =
        let path : w.path ≡ path_of change = ap (λ (x : WrittenFile). x.path) after.0 in
        let was : w.original ≡ disk.look w.path s =
          ap (λ (x : WrittenFile). x.original) after.0 ∙ ap (λ p. disk.look p s) (sym path) in
        ih (w ∷ applied)
          (Undoes-cons w applied v s s' undoes was (λ other. after.1 (λ e. other (e ∙ sym path))))
          can h
    go_on_undone rest can_rest change applied v s (err error) s' ih undoes before can h =
        give_up_undone applied error v s' (Undoes-moved applied v s s' undoes before.0) can

    apply_changes_undone :
        (changes : List PendingChange) (applied : List WrittenFile) (v : Option Bytes) (s : disk.Fs)
        {error : String}
        → All (λ change. IsNotTemp (path_of change)) changes
        → Undoes applied v s
        → CanTakeBack disk changes applied s
        → (apply_changes disk changes applied s).0 ≡ err error
        → disk.look q (apply_changes disk changes applied s).1 ≡ v
    unfolding apply_changes ◌>>=◌ attempt
    apply_changes_undone [] applied v s paths undoes can h = cc
    apply_changes_undone (change ∷ changes) applied v s {error} paths undoes can h =
        let message = concat (action_of change ∷ " " ∷ disk.display (path_of change) ∷ []) in
        let s1 = (disk.log message s).1 in
        let logged = Undoes-moved applied v s s1 undoes (laws.log_others message q s q_not_log) in
        let (result, s2) = apply disk change s1 in
        let went =
          continue_ok (disk.log message s).0
            (λ done s.
              go_on disk (apply_changes disk changes) applied (apply disk change s).0
                (apply disk change s).1)
            s1 (log_ok message s) in
        ap (λ (x : Result String (Unit {0}) × disk.Fs). disk.look q x.1) went
        ∙ go_on_undone (apply_changes disk changes) (CanTakeBack disk changes) change applied v s1
            result s2 {error = error}
            (λ more ok_more can_more failed.
              apply_changes_undone changes more v s2 paths.1 ok_more can_more failed)
            logged (apply-Outcome change s1 paths.0) can
            (sym (ap (λ (x : Result String (Unit {0}) × disk.Fs). x.0) went) ∙ h)

    -- Where a write of the setup fails, however it does, the log can be written, and the restoring
    -- of the files that were changed before does not fail: every file, but the log and the temporary
    -- ones, is as it was, also those that several writes changed.
    pub apply_writes_with_rollback_failed :
        (writes : List PendingChange) (s : disk.Fs) {error : String}
        → All (λ change. IsNotTemp (path_of change)) writes
        → CanTakeBack disk writes [] s
        → (apply_writes_with_rollback disk writes s).0 ≡ err error
        → disk.look q (apply_writes_with_rollback disk writes s).1 ≡ disk.look q s
    unfolding apply_writes_with_rollback roll_back ◌>>=◌
    apply_writes_with_rollback_failed writes s paths can failed =
        apply_changes_undone writes [] (disk.look q s) s paths (λ t same _. same) can failed
