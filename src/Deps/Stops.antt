-- ===== src/Deps/Stops.antt =====
-- Where a loop of the sorter stops without a result.
use updater.Common.{
  ℕ, ◌≡◌, refl, sym, ◌∙◌, subst, ◌⊎◌, inl, inr, List, [], ◌∷◌, Bool-cases, Option-cases, In,
  Includes, Text, elem,
}
use updater.Deps.{
  ContainerWithDeps, ContainerSorter, Outcome, done, cycle, out_of_fuel, ◌>>=◌, container_named,
  visit_deps, visit, sort_loop,
}
use updater.Deps.Index.{container_named-In}
use updater.Deps.Order.{IsSound}
use updater.Deps.Visit.{Places, visit-Step}

-- The outcome is no sorter.
abbrev pub Stops : Outcome → Type 0
Stops (done s) = ⊥
Stops (cycle names) = Unit
Stops out_of_fuel = Unit

pub bind-Stops :
    (m : Outcome) (f : ContainerSorter → Outcome) {o : Outcome}
    → Stops o
    → (m >>= f) ≡ o
    → (m ≡ o) ⊎ ((t : ContainerSorter) × (m ≡ done t) × (f t ≡ o))
bind-Stops (done t) f stops h = inr (t, refl, h)
bind-Stops (cycle names) f stops h = inl h
bind-Stops out_of_fuel f stops h = inl h

module _ (cs : List ContainerWithDeps) where
  -- A call of `v` that stopped, on a listed container whose name is in `ds`.
  pub record Stopped (v : ContainerWithDeps → ContainerSorter → Outcome) (ds marks : List Text)
      (o : Outcome) : Type 0 where
    pub culprit : ContainerWithDeps
    pub state : ContainerSorter
    pub listed : In culprit cs
    pub named : In culprit.name ds
    pub sound : IsSound cs state
    pub same_marks : state.marked ≡ marks
    pub stopped : v culprit state ≡ o

  pub visit_deps-Stopped :
      (v : ContainerWithDeps → ContainerSorter → Outcome) (ds : List Text) (s : ContainerSorter)
      {o : Outcome}
      → Places cs v
      → IsSound cs s
      → Stops o
      → visit_deps v ds s ≡ o
      → Stopped v ds s.marked o
  unfolding visit_deps
  visit_deps-Stopped v [] s {o} p i stops h = absurd (subst Stops (sym h) stops)
  visit_deps-Stopped v (dep ∷ ds) s p i stops h = elim (Option-cases (container_named s dep)) [
    | inl e ↦
        let r = visit_deps-Stopped v ds s p i stops (rw (e, visit_deps) at h) in
        record {
          culprit = r.culprit;
          state = r.state;
          listed = r.listed;
          named = inr r.named;
          sound = r.sound;
          same_marks = r.same_marks;
          stopped = r.stopped;
        }
    | inr (c, e) ↦
        let (listed, named) = container_named-In i.is_for dep e in
        elim (bind-Stops (v c s) (visit_deps v ds) stops (rw (e, visit_deps) at h)) [
          | inl now ↦ record {
            culprit = c;
            state = s;
            listed = listed;
            named = inl named;
            sound = i;
            same_marks = refl;
            stopped = now;
          }
          | inr (t, first, rest) ↦
              let (st, _) = p c s t listed i first in
              let r = visit_deps-Stopped v ds t p st.sound stops rest in
              record {
                culprit = r.culprit;
                state = r.state;
                listed = r.listed;
                named = inr r.named;
                sound = r.sound;
                same_marks = r.same_marks ∙ st.marks;
                stopped = r.stopped;
              }
        ]
  ]

  pub sort_loop-Stopped :
      (fuel : ℕ) (xs : List ContainerWithDeps) (s : ContainerSorter) {o : Outcome}
      → Includes xs cs
      → IsSound cs s
      → Stops o
      → sort_loop fuel xs s ≡ o
      → (c : ContainerWithDeps) × (t : ContainerSorter) × In c cs
        × IsSound cs t
        × (t.marked ≡ s.marked)
        × (visit fuel [] c t ≡ o)
  unfolding sort_loop
  sort_loop-Stopped fuel [] s sub i stops h = absurd (subst Stops (sym h) stops)
  sort_loop-Stopped fuel (c ∷ xs) s {o} sub i stops h = elim (Bool-cases (elem c.name s.visited)) [
    | inl old ↦
        sort_loop-Stopped fuel xs s (λ a m. sub a (inr m)) i stops (rw (old, sort_loop) at h)
    | inr new ↦
        elim (bind-Stops (visit fuel [] c s) (sort_loop fuel xs) {o = o} stops
          (rw (new, sort_loop) at h)) [
            | inl now ↦ (c, s, sub c (inl refl), i, refl, now)
            | inr (t, first, rest) ↦
                let (st, _) = visit-Step cs fuel [] c s t (sub c (inl refl)) i first in
                let (x, u, listed, sound, marks, e) =
                  sort_loop-Stopped fuel xs t (λ a m. sub a (inr m)) st.sound stops rest in
                (x, u, listed, sound, marks ∙ st.marks, e)
          ]
  ]
