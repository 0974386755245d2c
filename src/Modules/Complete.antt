-- ===== src/Modules/Complete.antt =====
-- When `ValidateAndSort` succeeds, and what it gives.
use nexa_panel.Prelude.{
  suc, ◌+◌, ◌≤◌, ◌≡◌, refl, ap, sym, subst, ◌∙◌, Bool, false, ◌||◌, Option, none, some, List, [],
  ◌∷◌, ◌++◌, Text, arith, Bool-cases, inl, inr, length, all, count_where, count_where-append,
  text_eq, text_eq_sound, is_empty,
}
use nexa_panel.Modules.Registry.{
  Descriptor, Sorted, sorted, failed, ids_of, known, dependencies_in, resolve, validate_and_sort,
  sort_collected, collect,
}
use nexa_panel.Modules.Order.{DependenciesFirst, modules_of, resolve-sorted}

-- A test on modules, on candidates that may be nil.
abbrev pub on_candidate : (Descriptor → Bool) → Option Descriptor → Bool
on_candidate p none = false
on_candidate p (some d) = p d

abbrev pub has_id : Text → Descriptor → Bool
has_id id d = text_eq d.id id

known-none :
    (id : Text) (seen : List Descriptor)
    → known (ids_of seen) id ≡ false
    → count_where (has_id id) seen ≡ 0
unfolding known
known-none id [] h = refl
known-none id (d ∷ seen) h = ground (arith, known-none id seen)

one_more :
    (d : Descriptor) (seen : List Descriptor)
    → known (ids_of seen) d.id ≡ false
    → ((id : Text) → count_where (has_id id) seen ≤ 1)
    → (id : Text) → count_where (has_id id) (seen ++ d ∷ []) ≤ 1
one_more d seen new le id = elim (Bool-cases (text_eq d.id id)) [
  | inl e ↦
      let none_yet : count_where (has_id id) seen ≡ 0 =
        subst (λ t. count_where (has_id t) seen ≡ 0) (text_eq_sound d.id id e)
          (known-none d.id seen new) in
      rw (count_where-append (has_id id) seen (d ∷ []), e) (omega (arith, none_yet))
  | inr e ↦ rw (count_where-append (has_id id) seen (d ∷ []), e) (omega (arith, le id))
]

-- What the first loop collects: the candidates in their order, with no id twice.
record Collected (seen : List Descriptor) (candidates : List (Option Descriptor))
    (modules : List Descriptor) : Type 0 where
  counts :
      (p : Descriptor → Bool)
      → count_where p modules ≡ count_where p seen + count_where (on_candidate p) candidates
  unique :
      ((id : Text) → count_where (has_id id) seen ≤ 1)
      → (id : Text) → count_where (has_id id) modules ≤ 1

collect_step :
    (d : Descriptor) (candidates : List (Option Descriptor)) (seen : List Descriptor)
    → (is_empty d.id || is_empty d.name || is_empty d.version) ≡ false
    → known (ids_of seen) d.id ≡ false
    → collect (some d ∷ candidates) seen ≡ collect candidates (seen ++ d ∷ [])
unfolding collect
collect_step d candidates seen good new = rw (good, new) refl

collect-sorted :
    (candidates : List (Option Descriptor)) (seen modules : List Descriptor)
    → collect candidates seen ≡ sorted modules
    → Collected seen candidates modules
unfolding collect
collect-sorted [] seen modules e =
    let same : seen ≡ modules = ap modules_of e in
    record {
      counts = λ p. ap (count_where p) (sym same) ∙ omega arith;
      unique = λ le. subst (λ t. (id : Text) → count_where (has_id id) t ≤ 1) same le;
    }
collect-sorted (none ∷ candidates) seen modules e = absurd (ground arith)
collect-sorted (some d ∷ candidates) seen modules e =
    elim (Bool-cases (is_empty d.id || is_empty d.name || is_empty d.version)) [
      | inl bad ↦ absurd (ground arith)
      | inr good ↦ elim (Bool-cases (known (ids_of seen) d.id)) [
        | inl twice ↦ absurd (ground arith)
        | inr new ↦
            let c =
              collect-sorted candidates (seen ++ d ∷ []) modules
                (sym (collect_step d candidates seen good new) ∙ e) in
            record {
              counts = λ p. c.counts p ∙ rw (count_where-append p seen (d ∷ [])) (omega arith);
              unique = λ le. c.unique (one_more d seen new le);
            }
      ]
    ]

sort_collected-sorted :
    (s : Sorted) (out : List Descriptor)
    → sort_collected s ≡ sorted out
    → (modules : List Descriptor) × (s ≡ sorted modules)
      × (resolve (suc (length modules)) [] modules ≡ sorted out)
unfolding sort_collected
sort_collected-sorted (failed x) out e = absurd (ground arith)
sort_collected-sorted (sorted modules) out e =
    elim (Bool-cases (all (dependencies_in (ids_of modules)) modules)) [
      | inl known_all ↦ (modules, refl, sym (rw known_all refl) ∙ e)
      | inr missing ↦ absurd (ground arith)
    ]

-- A list of modules that is accepted comes out with every module as often as it was given, no id
-- twice, and each module behind those that it depends on.
pub validate_and_sort-sorted :
    (candidates : List (Option Descriptor)) (out : List Descriptor)
    → validate_and_sort candidates ≡ sorted out
    → DependenciesFirst [] out
      × ((p : Descriptor → Bool) → count_where p out ≡ count_where (on_candidate p) candidates)
      × ((id : Text) → count_where (has_id id) out ≤ 1)
unfolding validate_and_sort sort_collected
validate_and_sort-sorted candidates out e =
    let (modules, collected, e') = sort_collected-sorted (collect candidates []) out e in
    let c = collect-sorted candidates [] modules collected in
    let (first, counts) = resolve-sorted (suc (length modules)) [] modules out e' in
    (
      first,
      λ p. counts p ∙ c.counts p ∙ omega arith,
      λ id. subst (λ k. k ≤ 1) (sym (counts (has_id id))) (c.unique (λ t. omega arith) id),
    )
