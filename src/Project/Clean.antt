-- ===== src/Project/Clean.antt =====
-- src/project.rs: `clean_stale_registry`, which takes the projects out of the registry that are no
-- longer there.
use codex_mimo_adapter.Base.{
  String, Bool, true, false, not, ◌&&◌, ◌||◌, ◌≡◌, refl, sym, ap, ◌∙◌, arith, Option, none, some,
  List, [], ◌∷◌, ◌==◌, eq_iff, contains, is_nil, if◌then◌else◌, str-cases, inl, inr,
}
use codex_mimo_adapter.Base.Assoc.{get}
use codex_mimo_adapter.Json.{and_then}
use codex_mimo_adapter.Project.Registry.{
  World, ProjectRegistry, ProjectRegistryEntry, is_valid, stale_project_ids,
}

-- `HashMap::remove`
unfoldable pub remove {ℓ} : {V : Type ℓ} → String → List (String × V) → List (String × V)
remove k [] = []
remove k ((j, entry) ∷ registry) =
    let rest = remove k registry in if j == k then rest else (j, entry) ∷ rest

unfoldable pub remove_all {ℓ} : {V : Type ℓ} → List String → List (String × V) → List (String × V)
unfolding remove
remove_all [] registry = registry
remove_all (project_id ∷ stale) registry = remove_all stale (remove project_id registry)

-- `clean_stale_registry` on the registry that was loaded: the stale identifiers, and the registry
-- to save, where it is saved
unfoldable pub clean_stale_registry :
    World → Bool → ProjectRegistry → List String × Option ProjectRegistry
unfolding stale_project_ids remove_all
clean_stale_registry world dry_run registry =
    let stale = stale_project_ids world registry in
    (stale, if not dry_run && not (is_nil stale) then some (remove_all stale registry) else none)

-- no identifier twice, as in every map
abbrev pub IsMap : ProjectRegistry → Type 0
IsMap [] = Unit
IsMap ((id, entry) ∷ registry) = (get id registry ≡ none) × IsMap registry

get-remove {ℓ} :
    {V : Type ℓ} (k id : String) (registry : List (String × V))
    → get id (remove k registry) ≡ (if k == id then none else get id registry)
unfolding get remove
get-remove k id [] = ground arith
get-remove k id ((j, entry) ∷ registry) =
    ground (arith, get-remove k id registry, eq_iff k id, eq_iff j k, eq_iff j id)

pub get-remove_all {ℓ} :
    {V : Type ℓ} (stale : List String) (id : String) (registry : List (String × V))
    → get id (remove_all stale registry) ≡ (if contains stale id then none else get id registry)
unfolding remove_all
get-remove_all [] id registry = refl
get-remove_all (k ∷ stale) id registry =
    ground (arith, get-remove_all stale id (remove k registry), get-remove k id registry)

contains-first :
    (b : Bool) (pid id : String) (rest : List String)
    → contains (if b then rest else pid ∷ rest) id ≡ ((not b && (pid == id)) || contains rest id)
contains-first true pid id rest = refl
contains-first false pid id rest = refl

on_left : (b t r : Bool) → t ≡ true → r ≡ false → ((b && t) || r) ≡ b
on_left b t r e f = ground (arith, e, f)

on_right : (b t r : Bool) → t ≡ false → ((b && t) || r) ≡ r
on_right b t r e = ground (arith, e)

if-some : {A : Type 0} (b : Bool) (a : A) {x : A} → (if b then some a else none) ≡ some x → a ≡ x
if-some true a h = cc
if-some false a h = absurd (cc)

if-not :
    {A : Type 0} (b : Bool) (a : A)
    → (if not b then none else some a) ≡ (if b then some a else none)
if-not true a = refl
if-not false a = refl

module _ (world : World) where
  abbrev pub still_valid : String → Option ProjectRegistryEntry → Option ProjectRegistryEntry
  still_valid id entry = and_then entry (λ e. if is_valid world id e then some e else none)

  abbrev is_stale : String → Option ProjectRegistryEntry → Bool
  is_stale id none = false
  is_stale id (some entry) = not (is_valid world id entry)

  contains-stale :
      (registry : ProjectRegistry) (id : String)
      → IsMap registry
      → contains (stale_project_ids world registry) id ≡ is_stale id (get id registry)
  unfolding stale_project_ids get
  contains-stale [] id h = refl
  contains-stale ((pid, entry) ∷ registry) id (new, h) = elim (str-cases pid id) [
    | inl (e, test) ↦
        let rest : contains (stale_project_ids world registry) id ≡ false =
          contains-stale registry id h
          ∙ ap (is_stale id) (ap (λ x. get x registry) (sym e) ∙ new) in
        rw test (
          contains-first (is_valid world pid entry) pid id (stale_project_ids world registry)
          ∙ on_left (not (is_valid world pid entry)) (pid == id)
              (contains (stale_project_ids world registry) id) test rest
          ∙ ap (λ x. not (is_valid world x entry)) e)
    | inr (other, test) ↦ rw test (
        contains-first (is_valid world pid entry) pid id (stale_project_ids world registry)
        ∙ on_right (not (is_valid world pid entry)) (pid == id)
            (contains (stale_project_ids world registry) id) test
        ∙ contains-stale registry id h)
  ]

  kept :
      (id : String) (o : Option ProjectRegistryEntry)
      → (if is_stale id o then none else o) ≡ still_valid id o
  kept id none = refl
  kept id (some entry) = if-not (is_valid world id entry) entry

  cleaned :
      (registry : ProjectRegistry) (id : String)
      → IsMap registry
      → get id (remove_all (stale_project_ids world registry) registry)
        ≡ still_valid id (get id registry)
  cleaned registry id h =
      get-remove_all (stale_project_ids world registry) id registry
      ∙ ap (λ b. if b then none else get id registry) (contains-stale registry id h)
      ∙ kept id (get id registry)

  -- In a registry without an identifier twice, what `clean_stale_registry` saves is every project
  -- that is still valid, under its identifier as before, and no other.
  pub clean_stale_registry-saved :
      (dry_run : Bool) (registry : ProjectRegistry) (id : String) {saved : ProjectRegistry}
      → IsMap registry
      → (clean_stale_registry world dry_run registry).1 ≡ some saved
      → get id saved ≡ still_valid id (get id registry)
  unfolding clean_stale_registry
  clean_stale_registry-saved dry_run registry id h saves =
      ap (get id) (
        sym (
          if-some (not dry_run && not (is_nil (stale_project_ids world registry)))
            (remove_all (stale_project_ids world registry) registry) saves))
      ∙ cleaned registry id h
