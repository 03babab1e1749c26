-- ===== src/Deps/Implicit.antt =====
-- One round of `update_implicit_restart`.
use updater.Common.{
  ◌≤◌, ◌<◌, ◌≡◌, refl, sym, subst, ◌≢◌, inl, inr, Bool, true, ◌||◌, List, [], ◌∷◌, ◌++◌, arith,
  Bool-cases, In, Includes, In-append_left, In-append_right, In-append_cases, Text, elem, elem_iff,
}
use updater.Deps.{ContainerWithDeps, has_marked_dependency, update_implicit_restart}
use updater.Deps.Index.{In-names, deps_of}
use updater.Deps.Fuel.{open_count, open_count-mark-lt}

-- One of the three tests that the round makes of a container.
abbrev pub depends_on_marked : List Text → ContainerWithDeps → Bool
depends_on_marked marked c =
    has_marked_dependency marked c.links
    || has_marked_dependency marked c.depends_on
    || has_marked_dependency marked c.network_deps

has_marked_dependency-In :
    (marked deps : List Text)
    → has_marked_dependency marked deps ≡ true
    → (d : Text) × In d deps × In d marked
unfolding has_marked_dependency
has_marked_dependency-In marked [] h = cc
has_marked_dependency-In marked (dep ∷ deps) h = elim (Bool-cases (elem dep marked)) [
  | inl here ↦ (dep, inl refl, (elem_iff dep marked).0 here)
  | inr away ↦ let (d, m, n) = has_marked_dependency-In marked deps (ground arith) in (d, inr m, n)
]

In-has_marked_dependency :
    (marked deps : List Text) (d : Text)
    → In d deps
    → In d marked
    → has_marked_dependency marked deps ≡ true
unfolding has_marked_dependency
In-has_marked_dependency marked [] d m n = absurd m
In-has_marked_dependency marked (dep ∷ deps) d (inl e) n =
    let here : elem dep marked ≡ true = (elem_iff dep marked).1 (rw (← e) n) in ground arith
In-has_marked_dependency marked (dep ∷ deps) d (inr m) n =
    ground (arith, In-has_marked_dependency marked deps d m n)

depends_on_marked-In :
    (marked : List Text) (c : ContainerWithDeps)
    → depends_on_marked marked c ≡ true
    → (d : Text) × In d (deps_of c) × In d marked
depends_on_marked-In marked c h = elim (Bool-cases (has_marked_dependency marked c.links)) [
  | inl e ↦
      let (d, m, n) = has_marked_dependency-In marked c.links e in
      (d, In-append_left d c.links (c.depends_on ++ c.network_deps) m, n)
  | inr e ↦ elim (Bool-cases (has_marked_dependency marked c.depends_on)) [
    | inl f ↦
        let (d, m, n) = has_marked_dependency-In marked c.depends_on f in
        (d, In-append_right d c.links _ (In-append_left d c.depends_on c.network_deps m), n)
    | inr f ↦
        let (d, m, n) = has_marked_dependency-In marked c.network_deps (ground arith) in
        (d, In-append_right d c.links _ (In-append_right d c.depends_on c.network_deps m), n)
  ]
]

In-depends_on_marked :
    (marked : List Text) (c : ContainerWithDeps) (d : Text)
    → In d (deps_of c)
    → In d marked
    → depends_on_marked marked c ≡ true
In-depends_on_marked marked c d m n =
    elim (In-append_cases d c.links (c.depends_on ++ c.network_deps) m) [
      | inl l ↦ ground (arith, In-has_marked_dependency marked c.links d l n)
      | inr r ↦ elim (In-append_cases d c.depends_on c.network_deps r) [
        | inl l ↦ ground (arith, In-has_marked_dependency marked c.depends_on d l n)
        | inr l ↦ ground (arith, In-has_marked_dependency marked c.network_deps d l n)
      ]
    ]

-- A property of names that passes from a dependency to its dependents.
abbrev pub IsInherited : List ContainerWithDeps → (Text → Type 0) → Type 0
IsInherited cs P =
    (c : ContainerWithDeps) → In c cs → (d : Text) → In d (deps_of c) → P d → P c.name

module _ (P : Text → Type 0) where
  pub update-inherits :
      (cs : List ContainerWithDeps) (marked : List Text)
      → IsInherited cs P
      → ((n : Text) → In n marked → P n)
      → (n : Text) → In n (update_implicit_restart cs marked).0
      → P n
  unfolding update_implicit_restart
  update-inherits [] marked up h n m = h n m
  update-inherits (c ∷ cs) marked up h n m =
      let up' : IsInherited cs P = λ x l. up x (inr l) in
      elim (Bool-cases (elem c.name marked)) [
        | inl old ↦ update-inherits cs marked up' h n (rw (old, update_implicit_restart) at m)
        | inr new ↦ elim (Bool-cases (depends_on_marked marked c)) [
          | inr free ↦
              update-inherits cs marked up' h n (rw (new, free, update_implicit_restart) at m)
          | inl bound ↦
              let (d, dep, seed) = depends_on_marked-In marked c bound in
              let first : P c.name = up c (inl refl) d dep (h d seed) in
              update-inherits cs (c.name ∷ marked) up'
                (λ x l. elim l [ inl e ↦ subst P (sym e) first | inr r ↦ h x r ]) n
                (rw (new, bound, update_implicit_restart) at m)
        ]
      ]

pub update-grows :
    (cs : List ContainerWithDeps) (marked : List Text)
    → Includes marked (update_implicit_restart cs marked).0
unfolding update_implicit_restart
update-grows [] marked n m = m
update-grows (c ∷ cs) marked n m = elim (Bool-cases (elem c.name marked)) [
  | inl old ↦ rw (old, update_implicit_restart) (update-grows cs marked n m)
  | inr new ↦ elim (Bool-cases (depends_on_marked marked c)) [
    | inr free ↦ rw (new, free, update_implicit_restart) (update-grows cs marked n m)
    | inl bound ↦
        rw (new, bound, update_implicit_restart) (update-grows cs (c.name ∷ marked) n (inr m))
  ]
]

-- Every container with a marked dependency is marked.
abbrev pub IsClosed : List ContainerWithDeps → List Text → Type 0
IsClosed cs marked = IsInherited cs (λ n. In n marked)

pub update-IsClosed :
    (cs : List ContainerWithDeps) (marked : List Text)
    → (update_implicit_restart cs marked).1 ≡ []
    → ((update_implicit_restart cs marked).0 ≡ marked) × IsClosed cs marked
unfolding update_implicit_restart
update-IsClosed [] marked h = (refl, λ c m. absurd m)
update-IsClosed (c ∷ cs) marked h = elim (Bool-cases (elem c.name marked)) [
  | inl old ↦
      let (same, closed) = update-IsClosed cs marked (rw (old, update_implicit_restart) at h) in
      (
        rw (old, update_implicit_restart) same,
        λ x l d dep seed. elim l [
          | inl e ↦ rw e ((elem_iff c.name marked).0 old)
          | inr r ↦ closed x r d dep seed
        ],
      )
  | inr new ↦ elim (Bool-cases (depends_on_marked marked c)) [
    | inr free ↦
        let (same, closed) =
          update-IsClosed cs marked (rw (new, free, update_implicit_restart) at h) in
        (
          rw (new, free, update_implicit_restart) same,
          λ x l d dep seed. elim l [
            | inl e ↦
                let bound =
                  In-depends_on_marked marked c d (subst (λ y. In d (deps_of y)) e dep) seed in
                absurd (ground (arith, bound))
            | inr r ↦ closed x r d dep seed
          ],
        )
    | inl bound ↦ absurd (impossible (rw (new, bound, update_implicit_restart) at h))
  ]
]
  where
    impossible : {a : Text} {xs : List Text} → a ∷ xs ≡ [] → ⊥
    impossible e = cc

pub update-le :
    (all cs : List ContainerWithDeps) (marked : List Text)
    → Includes cs all
    → open_count all (update_implicit_restart cs marked).0 ≤ open_count all marked
unfolding update_implicit_restart
update-le all [] marked sub = omega arith
update-le all (c ∷ cs) marked sub = ground (
  arith,
  update-le all cs marked (λ a m. sub a (inr m)),
  update-le all cs (c.name ∷ marked) (λ a m. sub a (inr m)),
  open_count-mark-lt all c.name marked (In-names c all (sub c (inl refl))),
)

-- A round that marks something leaves fewer containers unmarked.
pub update-lt :
    (all cs : List ContainerWithDeps) (marked : List Text)
    → Includes cs all
    → (update_implicit_restart cs marked).1 ≢ []
    → open_count all (update_implicit_restart cs marked).0 < open_count all marked
unfolding update_implicit_restart
update-lt all [] marked sub h = absurd (h refl)
update-lt all (c ∷ cs) marked sub h = ground (
  arith,
  update-lt all cs marked (λ a m. sub a (inr m)),
  update-le all cs (c.name ∷ marked) (λ a m. sub a (inr m)),
  open_count-mark-lt all c.name marked (In-names c all (sub c (inl refl))),
)
