-- ===== src/Ports/Effects.antt =====
-- Code that makes requests: from the requests made before to its value and the requests made then.
use updater.Common.{
  ◌≡◌, refl, sym, ap, ◌∙◌, subst, ◌⊎◌, inl, inr, Bool, true, false, Option, none, some, List, [],
  ◌∷◌, ◌++◌, if◌then◌else◌, In, All, In-append_right, In-append_cases, All-append, All-In, All-map,
  Result, ok, err, Text,
}
use mathlib.Core.List.{append_assoc}
use updater.Ports.Requests.{Request, History}

abbrev pub Action : Type 0 → Type 0
Action A = History → A × History

module _ {A : Type 0} where
  abbrev pub pure : A → Action A
  pure a h = (a, h)

  -- Makes a request and returns its answer.
  abbrev pub ask : Request → (History → A) → Action A
  ask request answer h = (answer h, request ∷ h)

module _ {A B : Type 0} where
  infixl 5 ◌>>=◌ ◌>>◌
  unfoldable pub ◌>>=◌ : Action A → (A → Action B) → Action B
  ◌>>=◌ m f h = let (a, h') = m h in f a h'

  unfoldable pub ◌>>◌ : Action A → Action B → Action B
  ◌>>◌ m k h = let (a, h') = m h in k h'

-- `h` continues `before` with requests that satisfy `P`; later ones stand in front.
abbrev pub After : (Request → Type 0) → History → History → Type 0
After P before h = (later : History) × (h ≡ later ++ before) × All P later

After-refl : {P : Request → Type 0} (h : History) → After P h h
After-refl h = ([], refl, tt)

pub After-trans : {P : Request → Type 0} (g h k : History) → After P g h → After P h k → After P g k
After-trans {P} g h k (l, e, a) (l', e', a') =
    (l' ++ l, e' ∙ ap (λ t. l' ++ t) e ∙ sym (append_assoc l' l g), All-append P l' l a' a)

-- `m` adds only requests that satisfy `P` to a history, and its value satisfies `Q`.
pub record Ensures {A : Type 0} (P : Request → Type 0) (Q : A → Type 0) (m : Action A)
    : Type 0 where
  pub appends : (h : History) → After P h (m h).1
  pub value : (h : History) → Q (m h).0

abbrev pub Any : {A : Type 0} → A → Type 0
Any a = Unit

module _ {A : Type 0} {P : Request → Type 0} {Q : A → Type 0} where
  pub Ensures-requests :
      {m : Action A} → Ensures P Q m → (h : History) (r : Request) → In r (m h).1 → In r h ⊎ P r
  Ensures-requests {m} p h r i =
      let (later, e, a) = p.appends h in
      elim (In-append_cases r later h (subst (λ k. In r k) e i)) [
        | inl l ↦ inr (All-In P r later a l)
        | inr o ↦ inl o
      ]

  pub Ensures-keeps :
      {m : Action A} → Ensures P Q m → (h : History) (r : Request) → In r h → In r (m h).1
  Ensures-keeps {m} p h r i =
      let (later, e, a) = p.appends h in subst (λ k. In r k) (sym e) (In-append_right r later h i)

  pub Ensures-pure : (a : A) → Q a → Ensures P Q (pure a)
  Ensures-pure a q = record { appends = After-refl; value = λ h. q }

  pub Ensures-ask :
      (q : Request) (answer : History → A)
      → P q
      → ((h : History) → Q (answer h))
      → Ensures P Q (ask q answer)
  Ensures-ask q answer p k = record { appends = λ h. (q ∷ [], refl, (p, tt)); value = k }

module _ {A B : Type 0} {P : Request → Type 0} {Q : A → Type 0} {R : B → Type 0} where
  pub Ensures-bind :
      {m : Action A} {f : A → Action B}
      → Ensures P Q m
      → ((a : A) → Q a → Ensures P R (f a))
      → Ensures P R (m >>= f)
  unfolding ◌>>=◌
  Ensures-bind {m} {f} p q = record {
    appends = λ h. After-trans h (m h).1 _ (p.appends h) ((q (m h).0 (p.value h)).appends (m h).1);
    value = λ h. (q (m h).0 (p.value h)).value (m h).1;
  }

  pub Ensures-then :
      {m : Action A} {k : Action B} → Ensures P Q m → Ensures P R k → Ensures P R (m >> k)
  unfolding ◌>>◌
  Ensures-then {m} {k} p q = record {
    appends = λ h. After-trans h (m h).1 _ (p.appends h) (q.appends (m h).1);
    value = λ h. q.value (m h).1;
  }

pub Ensures-weaken :
    {A : Type 0} {P P' : Request → Type 0} {Q : A → Type 0} {m : Action A}
    → ((r : Request) → P r → P' r)
    → Ensures P Q m
    → Ensures P' Q m
Ensures-weaken {P} {P'} f p = record {
  appends = λ h. let (later, e, a) = p.appends h in (later, e, All-map P P' later f a);
  value = p.value;
}

pub Ensures-map :
    {A : Type 0} {P : Request → Type 0} {Q R : A → Type 0} {m : Action A}
    → ((a : A) → Q a → R a)
    → Ensures P Q m
    → Ensures P R m
Ensures-map {m} f p = record { appends = p.appends; value = λ h. f (m h).0 (p.value h) }

-- The same for code that branches.
module _ {A B : Type 0} {P : Request → Type 0} {Q : B → Type 0} where
  pub Ensures-Option :
      {m : Action B} {f : A → Action B} (o : Option A)
      → Ensures P Q m
      → ((a : A) → Ensures P Q (f a))
      → Ensures P Q (elim o [ none ↦ m | some a ↦ f a ])
  Ensures-Option none p q = p
  Ensures-Option (some a) p q = q a

  pub Ensures-Result :
      {f : Text → Action B} {g : A → Action B} (o : Result A)
      → ((e : Text) → Ensures P Q (f e))
      → ((a : A) → Ensures P Q (g a))
      → Ensures P Q (elim o [ err e ↦ f e | ok a ↦ g a ])
  Ensures-Result (err e) p q = p e
  Ensures-Result (ok a) p q = q a

  pub Ensures-List :
      {m : Action B} {f : A → List A → Action B} (o : List A)
      → Ensures P Q m
      → ((a : A) (xs : List A) → Ensures P Q (f a xs))
      → Ensures P Q (elim o [ [] ↦ m | a ∷ xs ↦ f a xs ])
  Ensures-List [] p q = p
  Ensures-List (a ∷ xs) p q = q a xs

module _ {B : Type 0} {P : Request → Type 0} {Q : B → Type 0} where
  pub Ensures-if :
      {m k : Action B} (b : Bool) → Ensures P Q m → Ensures P Q k → Ensures P Q (if b then m else k)
  Ensures-if true p q = p
  Ensures-if false p q = q
