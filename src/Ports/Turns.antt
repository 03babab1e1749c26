-- ===== src/Ports/Turns.antt =====
-- Code that makes requests of one kind first, and only then those of another.
use updater.Common.{refl, Option, none, some, []}
use updater.Ports.Requests.{Request, History}
use updater.Ports.Effects.{Action, After, After-trans, Ensures, ◌>>=◌, ◌>>◌}

-- From each history, `m` first adds requests that satisfy `P`, and then requests that satisfy `Q`.
pub record Phases {A : Type 0} (P Q : Request → Type 0) (m : Action A) : Type 0 where
  pub parts : (h : History) → (middle : History) × After P h middle × After Q middle (m h).1

module _ {A : Type 0} {P Q : Request → Type 0} where
  pub Phases-of_second : {R : A → Type 0} {m : Action A} → Ensures Q R m → Phases P Q m
  Phases-of_second q = record { parts = λ h. (h, ([], refl, tt), q.appends h) }

module _ {A B : Type 0} {P Q : Request → Type 0} {R : A → Type 0} where
  pub Phases-first :
      {m : Action A} {f : A → Action B}
      → Ensures P R m
      → ((a : A) → Phases P Q (f a))
      → Phases P Q (m >>= f)
  unfolding ◌>>=◌
  Phases-first {m} {f} p q = record {
    parts = λ h.
        let (middle, first, second) = (q (m h).0).parts (m h).1 in
        (middle, After-trans h (m h).1 middle (p.appends h) first, second);
  }

  pub Phases-first_then :
      {m : Action A} {k : Action B} → Ensures P R m → Phases P Q k → Phases P Q (m >> k)
  unfolding ◌>>◌
  Phases-first_then {m} {k} p q = record {
    parts = λ h.
        let (middle, first, second) = q.parts (m h).1 in
        (middle, After-trans h (m h).1 middle (p.appends h) first, second);
  }

module _ {A B : Type 0} {P Q : Request → Type 0} where
  pub Phases-Option :
      {m : Action B} {f : A → Action B} (o : Option A)
      → Phases P Q m
      → ((a : A) → Phases P Q (f a))
      → Phases P Q (elim o [ none ↦ m | some a ↦ f a ])
  Phases-Option none p q = p
  Phases-Option (some a) p q = q a

  pub Phases-second :
      {m : Action A} {f : A → Action B} {S : B → Type 0}
      → Phases P Q m
      → ((a : A) → Ensures Q S (f a))
      → Phases P Q (m >>= f)
  unfolding ◌>>=◌
  Phases-second {m} {f} p q = record {
    parts = λ h.
        let (middle, first, second) = p.parts h in
        (middle, first, After-trans middle (m h).1 _ second ((q (m h).0).appends (m h).1));
  }
