-- ===== src/Server/Refresh/Loaded.antt =====
-- Which projects are loaded after a refresh.
use codex_mimo_adapter.Base.{
  String, Bool, true, false, not, ◌&&◌, ◌||◌, ◌≡◌, ◌⊎◌, refl, sym, ap, ◌∙◌, arith, Option, none,
  some, List, [], ◌∷◌, ◌==◌, contains, if◌then◌else◌, str-cases, inl, inr,
}
use codex_mimo_adapter.Base.Assoc.{get, get-insert}
use codex_mimo_adapter.Base.Result.{Result, ok, err, to_option}
use codex_mimo_adapter.Base.Str.{is_some}
use codex_mimo_adapter.Json.{and_then}
use codex_mimo_adapter.Project.Clean.{remove_all, get-remove_all, IsMap}
use codex_mimo_adapter.Project.Ids.{global_project_id}
use codex_mimo_adapter.Project.Registry.{ProjectRegistry, ProjectRegistryEntry}
use codex_mimo_adapter.Server.Refresh.{
  Opener, ProjectRuntime, to_remove, load_project, with_loaded, load_missing, refreshed, Projects,
}

-- neither global nor registered
abbrev leaves : ProjectRegistry → String → Bool
leaves registry id = not (id == global_project_id) && not (is_some (get id registry))

-- what stays loaded of what was
abbrev pub staying {ℓ} : {R : Type ℓ} → ProjectRegistry → String → Option R → Option R
staying registry id runtime = if leaves registry id then none else runtime

first_left :
    (l : Bool) (id j : String) (rest : List String)
    → contains (if l then j ∷ rest else rest) id ≡ ((l && (j == id)) || contains rest id)
first_left true id j rest = refl
first_left false id j rest = refl

and_nothing : (b : Bool) → false ≡ (b && false)
and_nothing true = refl
and_nothing false = refl

on_self : (l m t r x : Bool) → l ≡ m → t ≡ true → r ≡ (m && x) → ((l && t) || r) ≡ (m && true)
on_self l m t r x e at_self others = ground (arith, e, at_self, others)

on_other : (l t r : Bool) → t ≡ false → ((l && t) || r) ≡ r
on_other l t r e = ground (arith, e)

contains-to_remove {ℓ} :
    {R : Type ℓ} (registry : ProjectRegistry) (projects : List (String × R)) (id : String)
    → contains (to_remove registry projects) id ≡ (leaves registry id && is_some (get id projects))
unfolding to_remove get
contains-to_remove registry [] id = and_nothing (leaves registry id)
contains-to_remove registry ((j, runtime) ∷ projects) id = elim (str-cases j id) [
  | inl (e, test) ↦ rw test (
      first_left (leaves registry j) id j (to_remove registry projects)
      ∙ on_self (leaves registry j) (leaves registry id) (j == id)
          (contains (to_remove registry projects) id) (is_some (get id projects))
          (ap (leaves registry) e) test (contains-to_remove registry projects id))
  | inr (other, test) ↦ rw test (
      first_left (leaves registry j) id j (to_remove registry projects)
      ∙ on_other (leaves registry j) (j == id) (contains (to_remove registry projects) id) test
      ∙ contains-to_remove registry projects id)
]

pick {ℓ} :
    {R : Type ℓ} (l : Bool) (o : Option R)
    → (if l && is_some o then none else o) ≡ (if l then none else o)
pick true none = refl
pick true (some r) = refl
pick false none = refl
pick false (some r) = refl

module _ {Client Store : Type 1} (opener : Opener Client Store) where
  -- what a refresh loads under an identifier
  abbrev pub loading : Option ProjectRegistryEntry → Option (ProjectRuntime Client Store)
  loading entry = and_then entry (λ e. to_option (load_project opener e))

  abbrev pub otherwise :
      Option (ProjectRuntime Client Store)
      → Option (ProjectRuntime Client Store)
      → Option (ProjectRuntime Client Store)
  otherwise none loaded = loaded
  otherwise (some runtime) loaded = some runtime

  otherwise_nothing : (o : Option (ProjectRuntime Client Store)) → o ≡ otherwise o none
  otherwise_nothing none = refl
  otherwise_nothing (some runtime) = refl

  loading-if :
      (t : Bool) (entry : ProjectRegistryEntry) (o : Option ProjectRegistryEntry)
      → loading (if t then some entry else o)
        ≡ (if t then to_option (load_project opener entry) else loading o)
  loading-if true entry o = refl
  loading-if false entry o = refl

  -- one more project loaded, where none was under its identifier
  get-with_loaded :
      (j id : String) (result : Result String (ProjectRuntime Client Store))
      (projects : Projects opener) (rest : Option (ProjectRuntime Client Store))
      → get j projects ≡ none
      → (j ≡ id → rest ≡ none)
      → otherwise (get id (with_loaded opener j result projects)) rest
        ≡ otherwise (get id projects) (if j == id then to_option result else rest)
  get-with_loaded j id (ok runtime) projects rest new last =
      ap (λ o. otherwise o rest) (get-insert j id runtime projects) ∙ elim (str-cases j id) [
        | inl (e, test) ↦ rw (test, ap (λ x. get x projects) (sym e) ∙ new) refl
        | inr (other, test) ↦ rw test refl
      ]
  get-with_loaded j id (err reason) projects rest new last = elim (str-cases j id) [
    | inl (e, test) ↦ rw (test, ap (λ x. get x projects) (sym e) ∙ new) (last e)
    | inr (other, test) ↦ rw test refl
  ]

  -- an entry under an identifier that is loaded says nothing
  get-loaded :
      (j id : String) (projects : Projects opener) {runtime : ProjectRuntime Client Store}
      (a b : Option (ProjectRuntime Client Store))
      → get j projects ≡ some runtime
      → otherwise (get id projects) b ≡ otherwise (get id projects) (if j == id then a else b)
  get-loaded j id projects a b old = elim (str-cases j id) [
    | inl (e, test) ↦ rw (test, ap (λ x. get x projects) (sym e) ∙ old) refl
    | inr (other, test) ↦ rw test refl
  ]

  Option-cases {ℓ} : {A : Type ℓ} (o : Option A) → ((a : A) × (o ≡ some a)) ⊎ (o ≡ none)
  Option-cases none = inr refl
  Option-cases (some a) = inl (a, refl)

  load_missing_lem :
      (registry : ProjectRegistry) (projects : Projects opener) (id : String)
      → IsMap registry
      → get id (load_missing opener registry projects)
        ≡ otherwise (get id projects) (loading (get id registry))
  unfolding load_missing get
  load_missing_lem [] projects id h = otherwise_nothing (get id projects)
  load_missing_lem ((j, entry) ∷ registry) projects id (new, h) =
      let result = load_project opener entry in
      let split = loading-if (j == id) entry (get id registry) in
      elim (Option-cases (get j projects)) [
        | inl (runtime, old) ↦
            ap
              (λ o. get id (
                if is_some o
                then load_missing opener registry projects
                else load_missing opener registry (with_loaded opener j result projects)))
              old
            ∙ load_missing_lem registry projects id h
            ∙ get-loaded j id projects (to_option result) (loading (get id registry)) old
            ∙ ap (otherwise (get id projects)) (sym split)
        | inr missing ↦
            ap
              (λ o. get id (
                if is_some o
                then load_missing opener registry projects
                else load_missing opener registry (with_loaded opener j result projects)))
              missing
            ∙ load_missing_lem registry (with_loaded opener j result projects) id h
            ∙ get-with_loaded j id result projects (loading (get id registry)) missing
                (λ e. ap loading (ap (λ x. get x registry) (sym e) ∙ new))
            ∙ ap (otherwise (get id projects)) (sym split)
      ]

  -- After a refresh of projects from a registry without an identifier twice: a project that was
  -- loaded is as it was, if it is the global one or still registered. Another one is loaded where
  -- the registry has it and it can be opened.
  pub get-refreshed :
      (registry : ProjectRegistry) (projects : Projects opener) (id : String)
      → IsMap registry
      → get id (refreshed opener registry projects)
        ≡ otherwise (staying registry id (get id projects)) (loading (get id registry))
  unfolding refreshed
  get-refreshed registry projects id h =
      load_missing_lem registry (remove_all (to_remove registry projects) projects) id h
      ∙ ap (λ o. otherwise o (loading (get id registry)))
          (get-remove_all (to_remove registry projects) id projects
            ∙ ap (λ b. if b then none else get id projects)
                (contains-to_remove registry projects id)
            ∙ pick (leaves registry id) (get id projects))
