-- ===== src/Modules/Registry.antt =====
-- `ValidateAndSort` (internal/platform/module/registry.go). A map from ids to modules is the list of
-- its modules; no two of them share an id.
use nexa_panel.Prelude.{
  ℕ, zero, suc, Bool, not, ◌||◌, Option, none, some, List, [], ◌∷◌, ◌++◌, map, Text, length, any,
  all, select, is_empty, if◌then◌else◌, text_eq, text_lt,
}

-- `Descriptor`, with the fields that the registry reads.
pub record Descriptor : Type 0 where
  pub id : Text
  pub name : Text
  pub version : Text
  pub dependencies : List Text

-- `unfinished` is a loop whose fuel has run out.
pub data ModuleError : Type 0 where
  nil_module descriptor_incomplete duplicate_id missing_module : ModuleError
  dependency_cycle unfinished : ModuleError

pub data Sorted : Type 0 where
  sorted : List Descriptor → Sorted
  failed : ModuleError → Sorted

abbrev pub ids_of : List Descriptor → List Text
ids_of modules = map (λ (d : Descriptor). d.id) modules

-- Whether an id is among those of a map.
unfoldable pub known : List Text → Text → Bool
known ids id = any (λ i. text_eq i id) ids

-- The first loop, over the candidates; `seen` is what it has put into the map.
unfoldable pub collect : List (Option Descriptor) → List Descriptor → Sorted
collect [] seen = sorted seen
collect (none ∷ candidates) seen = failed nil_module
collect (some d ∷ candidates) seen =
    let rest = collect candidates (seen ++ d ∷ []) in
    if is_empty d.id || is_empty d.name || is_empty d.version
    then failed descriptor_incomplete
    else if known (ids_of seen) d.id
    then failed duplicate_id
    else rest

-- `dependenciesReady`
unfoldable pub dependencies_in : List Text → Descriptor → Bool
dependencies_in ids d = all (known ids) d.dependencies

unfoldable pub insert_module : Descriptor → List Descriptor → List Descriptor
insert_module d [] = d ∷ []
insert_module d (e ∷ modules) =
    let rest = insert_module d modules in if text_lt e.id d.id then e ∷ rest else d ∷ e ∷ modules

-- `slices.Sort(ready)`
unfoldable pub sort_modules : List Descriptor → List Descriptor
sort_modules [] = []
sort_modules (d ∷ modules) = insert_module d (sort_modules modules)

unfoldable pub after_ready : List Descriptor → Sorted → Sorted
after_ready ready (sorted rest) = sorted (ready ++ rest)
after_ready ready (failed e) = failed e

-- A round: the modules that are ready come next, those that are not remain.
unfoldable pub take_ready : List Descriptor → (List Descriptor → Sorted) → Sorted
take_ready [] next = failed dependency_cycle
take_ready (d ∷ ready) next =
    after_ready (sort_modules (d ∷ ready)) (next (sort_modules (d ∷ ready)))

-- The loop over `remaining`; each round takes a module, so their number is fuel enough.
unfoldable pub resolve : ℕ → List Text → List Descriptor → Sorted
unfolding take_ready dependencies_in
resolve zero resolved remaining = failed unfinished
resolve (suc fuel) resolved [] = sorted []
resolve (suc fuel) resolved (d ∷ remaining) =
    take_ready (select (dependencies_in resolved) (d ∷ remaining)) (λ ready.
      resolve fuel (ids_of ready ++ resolved)
        (select (λ e. not (dependencies_in resolved e)) (d ∷ remaining)))

unfoldable pub sort_collected : Sorted → Sorted
unfolding resolve
sort_collected (failed e) = failed e
sort_collected (sorted modules) =
    if all (dependencies_in (ids_of modules)) modules
    then resolve (suc (length modules)) [] modules
    else failed missing_module

-- `ValidateAndSort`
unfoldable pub validate_and_sort : List (Option Descriptor) → Sorted
unfolding collect sort_collected
validate_and_sort candidates = sort_collected (collect candidates [])
