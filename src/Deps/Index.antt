-- ===== src/Deps/Index.antt =====
-- What the sorter's index from names to containers finds, and which dependencies it walks.
use updater.Common.{
  ℕ, zero, suc, ◌+◌, ◌≡◌, refl, sym, ap, subst, ◌≢◌, ◌↔◌, ◌⊎◌, inl, inr, none, some, List, [], ◌∷◌,
  ◌++◌, map, arith, Bool-cases, Option-cases, get_elem?, In, Text, ◌==◌, eq_iff, Map, lookup,
  insert, lookup-insert, elem_iff,
}
use updater.Deps.{
  ContainerWithDeps, index_from, ContainerSorter, container_named, dedupe_from,
  get_all_dependencies,
}

abbrev pub names : List ContainerWithDeps → List Text
names cs = map (λ c. c.name) cs

-- The sorter works on the list `cs`.
pub record IsFor (cs : List ContainerWithDeps) (s : ContainerSorter) : Type 0 where
  pub same_containers : s.containers ≡ cs
  pub same_index : s.name_to_index ≡ index_from 0 [] cs

pub In-names :
    (c : ContainerWithDeps) (cs : List ContainerWithDeps) → In c cs → In c.name (names cs)
In-names c (x ∷ cs) (inl e) = inl (ap (λ (y : ContainerWithDeps). y.name) e)
In-names c (x ∷ cs) (inr h) = inr (In-names c cs h)
In-names c [] h = absurd h

pub In-names_cases :
    (d : Text) (cs : List ContainerWithDeps)
    → In d (names cs)
    → (c : ContainerWithDeps) × In c cs × (c.name ≡ d)
In-names_cases d (x ∷ cs) (inl e) = (x, inl refl, sym e)
In-names_cases d (x ∷ cs) (inr h) = let (c, m, e) = In-names_cases d cs h in (c, inr m, e)
In-names_cases d [] h = absurd h

get_elem?-In :
    (cs : List ContainerWithDeps) (k : ℕ) {c : ContainerWithDeps}
    → get_elem? cs k ≡ some c
    → In c cs
get_elem?-In [] k h = cc
get_elem?-In (x ∷ cs) zero h = inl (ground arith)
get_elem?-In (x ∷ cs) (suc k) h = inr (get_elem?-In cs k h)

index_from_found :
    (i : ℕ) (index : Map ℕ) (cs : List ContainerWithDeps) (name : Text) (idx : ℕ)
    → lookup (index_from i index cs) name ≡ some idx
    → (lookup index name ≡ some idx)
      ⊎ ((k : ℕ) × (c : ContainerWithDeps) × (idx ≡ i + k)
          × (get_elem? cs k ≡ some c)
          × (c.name ≡ name))
unfolding index_from
index_from_found i index [] name idx h = inl h
index_from_found i index (c ∷ cs) name idx h =
    elim (index_from_found (suc i) (insert index c.name i) cs name idx h) [
      | inr (k, x, e, g, n) ↦ inr (suc k, x, omega arith, g, n)
      | inl e ↦ elim (Bool-cases (c.name == name)) [
        | inl same ↦
            let at : some i ≡ some idx = ground (arith, lookup-insert index c.name name i) in
            inr (0, c, ground arith, refl, (eq_iff _ _).0 same)
        | inr other ↦ inl (ground (arith, lookup-insert index c.name name i))
      ]
    ]

index_from_keeps :
    (i : ℕ) (index : Map ℕ) (cs : List ContainerWithDeps) (name : Text)
    → lookup index name ≢ none
    → lookup (index_from i index cs) name ≢ none
unfolding index_from
index_from_keeps i index [] name h = h
index_from_keeps i index (c ∷ cs) name h =
    index_from_keeps (suc i) (insert index c.name i) cs name
      (ground (arith, lookup-insert index c.name name i))

index_from_total :
    (i : ℕ) (index : Map ℕ) (cs : List ContainerWithDeps) (name : Text)
    → In name (names cs)
    → lookup (index_from i index cs) name ≢ none
unfolding index_from
index_from_total i index [] name h = absurd h
index_from_total i index (c ∷ cs) name (inl e) =
    index_from_keeps (suc i) (insert index c.name i) cs name
      (ground (arith, lookup-insert index c.name name i, eq_iff c.name name))
index_from_total i index (c ∷ cs) name (inr h) =
    index_from_total (suc i) (insert index c.name i) cs name h

index_from-In :
    (cs : List ContainerWithDeps) (d : Text) (idx : ℕ)
    → lookup (index_from 0 [] cs) d ≡ some idx
    → (c : ContainerWithDeps) × (get_elem? cs idx ≡ some c) × In c cs × (c.name ≡ d)
unfolding lookup
index_from-In cs d idx h = elim (index_from_found 0 [] cs d idx h) [
  | inl e ↦ absurd (missing e)
  | inr (k, c, e, g, n) ↦
      let same : idx ≡ k = omega arith in
      (c, subst (λ j. get_elem? cs j ≡ some c) (sym same) g, get_elem?-In cs k g, n)
]
  where
    missing : lookup [] d ≡ some idx → ⊥
    missing e = cc

module _ {cs : List ContainerWithDeps} {s : ContainerSorter} (f : IsFor cs s) (d : Text) where
  pub container_named-In :
      {c : ContainerWithDeps} → container_named s d ≡ some c → In c cs × (c.name ≡ d)
  unfolding container_named
  container_named-In {c} h = elim (Option-cases (lookup s.name_to_index d)) [
    | inl e ↦ absurd (ground arith)
    | inr (idx, e) ↦
        let (x, g, m, n) = index_from-In cs d idx (rw (sym f.same_index) e) in
        let g' : get_elem? s.containers idx ≡ some x = rw f.same_containers g in
        let same : x ≡ c = ground arith in rw (← same) (m, n)
  ]

  pub container_named-eq-none : container_named s d ≡ none → ¬ In d (names cs)
  unfolding container_named
  container_named-eq-none h m = elim (Option-cases (lookup s.name_to_index d)) [
    | inl e ↦ index_from_total 0 [] cs d m (rw (sym f.same_index) e)
    | inr (idx, e) ↦
        let (x, g, _, _) = index_from-In cs d idx (rw (sym f.same_index) e) in
        let g' : get_elem? s.containers idx ≡ some x = rw f.same_containers g in ground arith
  ]

dedupe_from-In : (d : Text) (seen deps : List Text) → In d (dedupe_from seen deps) → In d deps
unfolding dedupe_from
dedupe_from-In d seen [] h = h
dedupe_from-In d seen (dep ∷ deps) h =
    ground (arith, dedupe_from-In d seen deps, dedupe_from-In d (dep ∷ seen) deps)

In-dedupe_from :
    (d : Text) (seen deps : List Text) → In d deps → In d seen ⊎ In d (dedupe_from seen deps)
unfolding dedupe_from
In-dedupe_from d seen [] h = absurd h
In-dedupe_from d seen (dep ∷ deps) h =
    ground
      (arith, elem_iff dep seen, In-dedupe_from d seen deps, In-dedupe_from d (dep ∷ seen) deps)

-- All dependencies of a container.
abbrev pub deps_of : ContainerWithDeps → List Text
deps_of c = c.links ++ (c.depends_on ++ c.network_deps)

pub get_all_dependencies-In :
    (d : Text) (c : ContainerWithDeps) → In d (get_all_dependencies c) ↔ In d (deps_of c)
unfolding get_all_dependencies
get_all_dependencies-In d c = (
  dedupe_from-In d [] (deps_of c),
  λ h. elim (In-dedupe_from d [] (deps_of c) h) [ inl e ↦ absurd e | inr m ↦ m ],
)
