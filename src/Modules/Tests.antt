-- ===== src/Modules/Tests.antt =====
-- The order of three modules of the panel, and a cycle.
use nexa_panel.Prelude.{
  ◌≤◌, ◌≡◌, refl, Bool, Option, some, List, [], ◌∷◌, Text, codes, inl, inr, count_where, text_eq,
}
use nexa_panel.Modules.Registry.{
  Descriptor, sorted, failed, dependency_cycle, known, dependencies_in, insert_module, sort_modules,
  after_ready, take_ready, resolve, validate_and_sort, sort_collected, collect,
}
use nexa_panel.Modules.Order.{DependenciesFirst}
use nexa_panel.Modules.Complete.{on_candidate, has_id, validate_and_sort-sorted}
use nexa_panel.Modules.Possible.{validate_and_sort_possible}

abbrev audit : Descriptor
audit = record {
  id = codes "audit";
  name = codes "Audit Log";
  version = codes "0.1.0";
  dependencies = [];
}

abbrev identity : Descriptor
identity = record {
  id = codes "identity";
  name = codes "Identity";
  version = codes "0.1.0";
  dependencies = codes "audit" ∷ [];
}

abbrev jobs : Descriptor
jobs = record {
  id = codes "jobs";
  name = codes "Jobs";
  version = codes "0.1.0";
  dependencies = codes "audit" ∷ codes "identity" ∷ [];
}

abbrev candidates : List (Option Descriptor)
candidates = some jobs ∷ some identity ∷ some audit ∷ []

sorted_candidates : validate_and_sort candidates ≡ sorted (audit ∷ identity ∷ jobs ∷ [])
unfolding validate_and_sort collect sort_collected resolve take_ready after_ready sort_modules
    insert_module dependencies_in known text_eq
sorted_candidates = refl

validate_and_sort-sorted_example :
    DependenciesFirst [] (audit ∷ identity ∷ jobs ∷ [])
    × ((p : Descriptor → Bool)
        → count_where p (audit ∷ identity ∷ jobs ∷ []) ≡ count_where (on_candidate p) candidates)
    × ((id : Text) → count_where (has_id id) (audit ∷ identity ∷ jobs ∷ []) ≤ 1)
validate_and_sort-sorted_example =
    validate_and_sort-sorted candidates (audit ∷ identity ∷ jobs ∷ []) sorted_candidates

collected : collect candidates [] ≡ sorted (jobs ∷ identity ∷ audit ∷ [])
unfolding collect known text_eq
collected = refl

audit_first : DependenciesFirst [] (audit ∷ identity ∷ jobs ∷ [])
unfolding dependencies_in known text_eq
audit_first = (refl, (refl, (refl, tt)))

validate_and_sort_possible_example :
    (out : List Descriptor) × (validate_and_sort candidates ≡ sorted out)
validate_and_sort_possible_example =
    validate_and_sort_possible candidates (jobs ∷ identity ∷ audit ∷ [])
      (audit ∷ identity ∷ jobs ∷ []) collected audit_first
      (inr (inr (inl refl)), (inr (inl refl), (inl refl, tt)))
      (inr (inr (inl refl)), (inr (inl refl), (inl refl, tt)))

-- Two modules that depend on each other.
abbrev circular : Descriptor
circular = record audit { dependencies = codes "identity" ∷ [] }

cycle_refused : validate_and_sort (some circular ∷ some identity ∷ []) ≡ failed dependency_cycle
unfolding validate_and_sort collect sort_collected resolve take_ready after_ready sort_modules
    insert_module dependencies_in known text_eq
cycle_refused = refl
