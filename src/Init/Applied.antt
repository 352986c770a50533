-- ===== src/Init/Applied.antt =====
-- What one write or removal of the setup leaves of a file, on a file system as it is documented.
use codex_mimo_adapter.Base.{
  String, Bool, true, false, ◌≡◌, ◌≢◌, ◌⊎◌, inl, inr, refl, sym, ap, ◌∙◌, Option, none, some, [],
  ◌∷◌, str-cases,
}
use mathlib.Core.Path.{subst}
use codex_mimo_adapter.Base.Result.{Result, ok, err, map_err}
use codex_mimo_adapter.Base.Str.{is_some}
use codex_mimo_adapter.Stream.Exec.{Exec, pure, either, continue, ◌>>=◌}
use codex_mimo_adapter.Init.{
  FilePath, Bytes, Disk, WrittenFile, temp_path, parent_of, context, attempt, snapshot,
  apply_delete, create_parent, replace_path, settle, apply_write,
}

-- What the documentation of the calls promises, of what they do and of the files that they leave
-- alone: a call that fails may have written a part of its own file, but it has not removed or
-- replaced one.
pub record IsFileSystem (disk : Disk) : Type 0 where
  pub create_keeps :
      (p q : FilePath) (s : disk.Fs) → disk.look q (disk.create_dir_all p s).1 ≡ disk.look q s
  pub read_keeps : (p q : FilePath) (s : disk.Fs) → disk.look q (disk.read p s).1 ≡ disk.look q s
  pub reads :
      (p : FilePath) (s : disk.Fs) (c : Bytes) → (disk.read p s).0 ≡ ok c → disk.look p s ≡ some c
  pub write_others :
      (p : FilePath) (c : Bytes) (q : FilePath) (s : disk.Fs)
      → q ≢ p
      → disk.look q (disk.write p c s).1 ≡ disk.look q s
  pub writes :
      (p : FilePath) (c : Bytes) (s : disk.Fs)
      → (disk.write p c s).0 ≡ ok tt
      → disk.look p (disk.write p c s).1 ≡ some c
  pub remove_others :
      (p q : FilePath) (s : disk.Fs) → q ≢ p → disk.look q (disk.remove_file p s).1 ≡ disk.look q s
  pub removes :
      (p : FilePath) (s : disk.Fs)
      → (disk.remove_file p s).0 ≡ ok tt
      → disk.look p (disk.remove_file p s).1 ≡ none
  pub remove_fails :
      (p q : FilePath) (s : disk.Fs) (e : String)
      → (disk.remove_file p s).0 ≡ err e
      → disk.look q (disk.remove_file p s).1 ≡ disk.look q s
  pub rename_others :
      (p d q : FilePath) (s : disk.Fs)
      → q ≢ p
      → q ≢ d
      → disk.look q (disk.rename p d s).1 ≡ disk.look q s
  pub rename_fails :
      (p d q : FilePath) (s : disk.Fs) (e : String)
      → (disk.rename p d s).0 ≡ err e
      → disk.look q (disk.rename p d s).1 ≡ disk.look q s
  pub uuid_keeps : (q : FilePath) (s : disk.Fs) → disk.look q (disk.uuid s).1 ≡ disk.look q s
  pub log_others :
      (message : String) (q : FilePath) (s : disk.Fs)
      → q ≢ disk.log_path
      → disk.look q (disk.log message s).1 ≡ disk.look q s

-- No temporary file has this path.
abbrev pub IsNotTemp : FilePath → Type 0
IsNotTemp q = (p : FilePath) (id : String) → q ≢ temp_path p id

-- Two paths are equal, or they are not.
pub path_cases : (p q : FilePath) → (p ≡ q) ⊎ (p ≢ q)
path_cases [] [] = inl refl
path_cases [] (b ∷ q) = inr (λ e. cc)
path_cases (a ∷ p) [] = inr (λ e. cc)
path_cases (a ∷ p) (b ∷ q) = elim (str-cases a b) [
  | inr (other, test) ↦ inr (λ e. other (cc))
  | inl (same, test) ↦ elim (path_cases p q) [
    | inl rest ↦ inl (cc)
    | inr rest ↦ inr (λ e. rest (cc))
  ]
]

pub none_of : (o : Option Bytes) → is_some o ≡ false → none ≡ o
none_of none h = refl
none_of (some c) h = cc

module _ (disk : Disk) (laws : IsFileSystem disk) (p q : FilePath) (u v : Option Bytes) where
  -- the file at `q`, and the one at the path `p` that is being changed
  abbrev pub Before : disk.Fs → Type 0
  Before s = (disk.look q s ≡ v) × (disk.look p s ≡ u)

  abbrev pub After : WrittenFile → disk.Fs → Type 0
  After w s = (w ≡ record { path = p; original = u }) × (q ≢ p → disk.look q s ≡ v)

  -- where an action fails, `Before` holds still
  abbrev pub Outcome : {A : Type 0} → (A → disk.Fs → Type 0) → Result String A × disk.Fs → Type 0
  Outcome R (ok a, s) = R a s
  Outcome R (err e, s) = Before s

  pub record Leaves {A : Type 0} (R : A → disk.Fs → Type 0) (m : Exec disk.Fs A) : Type 0 where
    pub leaves : (s : disk.Fs) → Before s → Outcome R (m s)

  Leaves-continue :
      {A B : Type 0} (R : B → disk.Fs → Type 0) (F : A → Type 0) (result : Result String A)
      (f : A → Exec disk.Fs B) (s : disk.Fs)
      → ((a : A) → F a → Leaves R (f a))
      → Outcome (λ a s. Before s × F a) (result, s)
      → Outcome R (continue result f s)
  Leaves-continue R F (ok a) f s k h = (k a h.1).leaves s h.0
  Leaves-continue R F (err e) f s k h = h

  Leaves-bind :
      {A B : Type 0} (R : B → disk.Fs → Type 0) (F : A → Type 0) (m : Exec disk.Fs A)
      (f : A → Exec disk.Fs B)
      → Leaves (λ a s. Before s × F a) m
      → ((a : A) → F a → Leaves R (f a))
      → Leaves R (m >>= f)
  unfolding ◌>>=◌
  Leaves-bind R F m f km kf = record {
    leaves = λ s h. let (result, s') = m s in Leaves-continue R F result f s' kf (km.leaves s h);
  }

  keeping :
      {A : Type 0} (r : Result String A) (s : disk.Fs)
      → Before s
      → Outcome (λ a t. Before t × Unit {0}) (r, s)
  keeping (ok a) s h = (h, tt)
  keeping (err e) s h = h

  Leaves-kept :
      {A : Type 0} (m : Exec disk.Fs A)
      → ((s : disk.Fs) → Before s → Before (m s).1)
      → Leaves (λ a s. Before s × Unit {0}) m
  Leaves-kept m h = record { leaves = λ s b. let (r, s') = m s in keeping r s' (h s b) }

  moved : (a b : disk.Fs) → ((x : FilePath) → disk.look x b ≡ disk.look x a) → Before a → Before b
  moved a b same h = (same q ∙ h.0, same p ∙ h.1)

  create-Leaves :
      (parent : Option FilePath) → Leaves (λ a s. Before s × Unit {0}) (create_parent disk parent)
  unfolding context ◌>>=◌
  create-Leaves none = Leaves-kept _ λ s h. h
  create-Leaves (some parent) = Leaves-kept _ λ s h. moved s _ (λ x. laws.create_keeps parent x s) h

  uuid-Leaves : Leaves (λ a s. Before s × Unit {0}) disk.uuid
  uuid-Leaves = Leaves-kept _ λ s h. moved s _ (λ x. laws.uuid_keeps x s) h

  module _ (q_not_temp : IsNotTemp q) (p_not_temp : IsNotTemp p) where
    temp-Leaves :
        (id what : String) (contents : Bytes)
        → Leaves
            (λ a s. Before s × Unit {0})
            (context disk what (disk.write (temp_path p id) contents))
    unfolding context
    temp-Leaves id what contents = Leaves-kept _ λ s h. (
      laws.write_others (temp_path p id) contents q s (q_not_temp p id) ∙ h.0,
      laws.write_others (temp_path p id) contents p s (p_not_temp p id) ∙ h.1,
    )

  read_snapshot :
      (s : disk.Fs) (r : Result String Bytes) (s' : disk.Fs) (what : String)
      → ((c : Bytes) → r ≡ ok c → disk.look p s ≡ some c)
      → Before s
      → Before s'
      → Outcome
          (λ a t. Before t × (a ≡ u))
          (continue (map_err (λ e. what) r) (λ contents. pure (some contents)) s')
  unfolding ◌>>=◌
  read_snapshot s (ok c) s' what is h h' = (h', sym (is c refl) ∙ h.1)
  read_snapshot s (err e) s' what is h h' = h'

  snapshot_at :
      (b : Bool) (s : disk.Fs)
      → is_some (disk.look p s) ≡ b
      → Before s
      → (what : String)
      → Outcome
          (λ a t. Before t × (a ≡ u))
          (either b
            (context disk what (disk.read p) >>= λ contents. pure (some contents))
            (pure none)
            s)
  unfolding ◌>>=◌ context
  snapshot_at true s e h what =
      read_snapshot s _ _ what (λ c. laws.reads p s c) h (moved s _ (λ x. laws.read_keeps p x s) h)
  snapshot_at false s e h what = (h, none_of (disk.look p s) e ∙ h.1)

  snapshot-Leaves : Leaves (λ a s. Before s × (a ≡ u)) (snapshot disk p)
  unfolding snapshot
  snapshot-Leaves = record { leaves = λ s h. snapshot_at (is_some (disk.look p s)) s refl h _ }

  module _ (q_not_temp : IsNotTemp q) (p_not_temp : IsNotTemp p) where
    -- the move, what follows a failed one, and the snapshot that is returned
    abbrev finish : Option Bytes → FilePath → Exec disk.Fs WrittenFile
    finish original tmp = attempt disk (replace_path disk tmp p) >>= λ moved.
        settle disk tmp moved >>= λ settled. pure (record { path = p; original = original })

    finish-Outcome :
        (id : String) (s : disk.Fs) (r : Result String (Unit {0})) (s' : disk.Fs) (what : String)
        → (r ≡ ok tt → q ≢ p → disk.look q s' ≡ disk.look q s)
        → ((e : String) → r ≡ err e → (x : FilePath) → disk.look x s' ≡ disk.look x s)
        → Before s
        → Outcome After (
            continue
              (ok (map_err (λ e. what) r))
              (λ moved. settle disk (temp_path p id) moved >>= λ settled.
                pure (record { path = p; original = u }))
              s')
    unfolding ◌>>=◌ settle attempt
    finish-Outcome id s (ok done) s' what moved_on same h =
        (refl, λ other. moved_on refl other ∙ h.0)
    finish-Outcome id s (err e) s' what moved_on same h = (
      laws.remove_others (temp_path p id) q s' (q_not_temp p id) ∙ same e refl q ∙ h.0,
      laws.remove_others (temp_path p id) p s' (p_not_temp p id) ∙ same e refl p ∙ h.1,
    )

    finish-Leaves : (id : String) → Leaves After (finish u (temp_path p id))
    unfolding ◌>>=◌ attempt replace_path context
    finish-Leaves id = record {
      leaves = λ s h.
          let (r, s') = disk.rename (temp_path p id) p s in
          finish-Outcome id s r s' _
            (λ is_ok other. laws.rename_others (temp_path p id) p q s (q_not_temp p id) other)
            (λ e is_err x. laws.rename_fails (temp_path p id) p x s e is_err) h;
    }

    pub apply_write-Leaves :
        (contents : Bytes)
        → Leaves After (apply_write disk (record { path = p; contents = contents }))
    unfolding apply_write
    apply_write-Leaves contents =
        Leaves-bind After (λ a. Unit {0}) (create_parent disk (parent_of p)) _
          (create-Leaves (parent_of p))
          λ made t.
            Leaves-bind After (λ a. a ≡ u) (snapshot disk p) _ snapshot-Leaves
              λ original is.
                Leaves-bind After (λ a. Unit {0}) disk.uuid _ uuid-Leaves
                  λ id t'.
                    Leaves-bind After (λ a. Unit {0})
                      (context disk _ (disk.write (temp_path p id) contents)) _
                      (temp-Leaves q_not_temp p_not_temp id _ contents)
                      λ written t''.
                        subst (λ o. Leaves After (finish o (temp_path p id))) (sym is)
                          (finish-Leaves id)

  remove-Outcome :
      (contents : Bytes) (s : disk.Fs) (r : Result String (Unit {0})) (s' : disk.Fs) (what : String)
      → some contents ≡ u
      → (q ≢ p → disk.look q s' ≡ disk.look q s)
      → ((e : String) → r ≡ err e → (x : FilePath) → disk.look x s' ≡ disk.look x s)
      → Before s
      → Outcome After (
          continue
            (map_err (λ e. what) r)
            (λ removed. pure (record { path = p; original = some contents }))
            s')
  unfolding ◌>>=◌
  remove-Outcome contents s (ok done) s' what is others same h = (
    ap (λ o. let w : WrittenFile = record { path = p; original = o } in w) is,
    λ other. others other ∙ h.0,
  )
  remove-Outcome contents s (err e) s' what is others same h =
      (same e refl q ∙ h.0, same e refl p ∙ h.1)

  remove-Leaves :
      (contents : Bytes) (what : String)
      → some contents ≡ u
      → Leaves After (
          context disk what (disk.remove_file p) >>= λ removed.
          pure (record { path = p; original = some contents }))
  unfolding ◌>>=◌ context
  remove-Leaves contents what is = record {
    leaves = λ s h.
        let (r, s') = disk.remove_file p s in
        remove-Outcome contents s r s' what is (laws.remove_others p q s)
          (λ e is_err x. laws.remove_fails p x s e is_err) h;
  }

  read-Outcome :
      (s : disk.Fs) (r : Result String Bytes) (s' : disk.Fs) (what : String)
      → ((c : Bytes) → r ≡ ok c → disk.look p s ≡ some c)
      → Before s
      → Before s'
      → Outcome (λ c t. Before t × (some c ≡ u)) (map_err (λ e. what) r, s')
  read-Outcome s (ok c) s' what is h h' = (h', sym (is c refl) ∙ h.1)
  read-Outcome s (err e) s' what is h h' = h'

  read-Leaves :
      (what : String) → Leaves (λ c t. Before t × (some c ≡ u)) (context disk what (disk.read p))
  unfolding context
  read-Leaves what = record {
    leaves = λ s h.
        read-Outcome s _ _ what (λ c. laws.reads p s c) h
          (moved s _ (λ x. laws.read_keeps p x s) h);
  }

  delete_at :
      (b : Bool) (s : disk.Fs) (m : Exec disk.Fs WrittenFile)
      → is_some (disk.look p s) ≡ b
      → Leaves After m
      → Before s
      → Outcome After (either b m (pure (record { path = p; original = none })) s)
  unfolding ◌>>=◌
  delete_at true s m e k h = k.leaves s h
  delete_at false s m e k h = (
    ap (λ o. let w : WrittenFile = record { path = p; original = o } in w)
        (none_of (disk.look p s) e ∙ h.1),
    λ other. h.0,
  )

  pub apply_delete-Leaves : Leaves After (apply_delete disk p)
  unfolding apply_delete
  apply_delete-Leaves = record {
    leaves = λ s h.
        delete_at (is_some (disk.look p s)) s _ refl
          (Leaves-bind After (λ c. some c ≡ u) (context disk _ (disk.read p)) _ (read-Leaves _)
            λ c is. remove-Leaves c _ is)
          h;
  }
