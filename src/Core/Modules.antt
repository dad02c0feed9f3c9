-- ===== src/Core/Modules.antt =====
-- core/modules.py: module metadata, and the check of the dependency graph at startup.
use journey_map.Prelude.{◌≡◌, refl, Bool-cases, inl, inr}
use journey_map.Prelude.{
  ℕ, zero, suc, String, Bool, true, false, not, ◌||◌, List, [], ◌∷◌, ◌++◌, map, is_empty, ◌==◌,
  text_ltb, if◌then◌else◌, any, keep, length,
}
use journey_map.Prelude.Exec.{
  Result, ok, err, module_registration, module_dependency, runtime_error, ◌>>◌, raise_if,
}
use journey_map.Prelude.Dict.{Dict, contains}

pub record ModuleMetadata : Type 0 where
  pub module_id : String
  pub version : String
  pub dependencies : List String

has_duplicates : List String → Bool
has_duplicates [] = false
has_duplicates (k ∷ ks) = any (λ j. j == k) ks || has_duplicates ks

-- `ModuleMetadata(...)` with its `__post_init__`.
pub make_metadata : String → String → List String → Result ModuleMetadata
unfolding has_duplicates
make_metadata module_id version dependencies = do
  raise_if (is_empty module_id) module_registration
  raise_if (is_empty version) module_registration
  raise_if (has_duplicates dependencies) module_registration
  ok (record { module_id = module_id; version = version; dependencies = dependencies })

-- `_modules`, with the dependencies of each module.
abbrev pub ModuleRegistry : Type 0
ModuleRegistry = Dict (List String)

unfoldable pub register : ModuleMetadata → ModuleRegistry → Result ModuleRegistry
register m r = do
  raise_if (contains m.module_id r) module_registration
  ok (r ++ (m.module_id, m.dependencies) ∷ [])

insert_text : String → List String → List String
insert_text k [] = k ∷ []
insert_text k (j ∷ js) =
    let rest = insert_text k js in if text_ltb j k then j ∷ rest else k ∷ j ∷ js

-- `sorted`, of texts.
unfoldable pub sort_texts : List String → List String
unfolding insert_text
sort_texts [] = []
sort_texts (k ∷ ks) = insert_text k (sort_texts ks)

or-swap : (a b c : Bool) → (a || (b || c)) ≡ (b || (a || c))
or-swap true true c = refl
or-swap true false c = refl
or-swap false b c = refl

any-insert_text :
    (p : String → Bool) (k : String) (js : List String)
    → any p (insert_text k js) ≡ (p k || any p js)
unfolding insert_text
any-insert_text p k [] = refl
any-insert_text p k (j ∷ js) = elim (Bool-cases (text_ltb j k)) [
  | inr after ↦ rw after refl
  | inl before ↦ rw before (rw (any-insert_text p k js) (or-swap (p j) (p k) (any p js)))
]

-- Sorting keeps what is in a list.
pub any-sort_texts : (p : String → Bool) (ks : List String) → any p (sort_texts ks) ≡ any p ks
unfolding sort_texts
any-sort_texts p [] = refl
any-sort_texts p (k ∷ ks) = rw (any-insert_text p k (sort_texts ks)) (rw (any-sort_texts p ks) refl)

abbrev pub mem : String → List String → Bool
mem k ks = any (λ j. j == k) ks

abbrev pub ids : Dict (List String) → List String
ids r = map (λ m. m.0) r

pub module_ids : ModuleRegistry → List String
module_ids r = sort_texts (ids r)

abbrev pub is_ready : String × List String → Bool
is_ready (_, []) = true
is_ready (_, _ ∷ _) = false

abbrev pub difference : List String → List String → List String
difference ds placed = keep (λ d. not (mem d placed)) ds

-- One pass of the `while` loop over what is left: the modules that wait on a module, without the
-- ready ones among their dependencies.
unfoldable pub remaining : List String → Dict (List String) → Dict (List String)
remaining placed unresolved =
    map (λ m. (m.0, difference m.1 placed)) (keep (λ m. not (is_ready m)) unresolved)

-- Each pass takes a module off, so the number of modules is fuel enough.
pub resolve : ℕ → Dict (List String) → List String → Result (List String)
resolve fuel [] resolved = ok resolved
resolve zero (m ∷ ms) resolved = err runtime_error
resolve (suc fuel) (m ∷ ms) resolved =
    let placed = sort_texts (ids (keep is_ready (m ∷ ms))) in
    elim placed [
      | [] ↦ err module_dependency
      | k ∷ ks ↦ resolve fuel (remaining (k ∷ ks) (m ∷ ms)) (resolved ++ k ∷ ks)
    ]

abbrev has_missing : ModuleRegistry → Bool
has_missing r = any (λ m. any (λ d. not (contains d r)) m.1) r

pub validate_dependencies : ModuleRegistry → Result (List String)
unfolding resolve
validate_dependencies r = do raise_if (has_missing r) module_dependency; resolve (length r) r []
