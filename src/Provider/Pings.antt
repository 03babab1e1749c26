-- ===== src/Provider/Pings.antt =====
-- A client is pinged with success before the pointer holds it and before a call returns it.
use updater.Common.{
  ℕ, refl, inl, inr, Option, none, some, List, ◌∷◌, Bool-cases, In, Includes, Text,
}
use updater.Provider.Calls.{
  Call, load, ping_held, drop_held, close_held, open_new, ping_new, close_failed, publish,
  load_winner, close_unused, handed, failed, swap, close_swapped, closed, Provider, holds,
  after_load, after_unused, publish_at, after_swap, step,
}

-- The client of an optional pointer was pinged with success.
abbrev pub IsPointerPinged : List ℕ → Option ℕ → Type 0
IsPointerPinged pinged none = Unit
IsPointerPinged pinged (some client) = In client pinged

-- So was the client that a call returns, is about to publish, or would return.
abbrev pub IsCallPinged : List ℕ → Call → Type 0
IsCallPinged pinged (publish c) = In c pinged
IsCallPinged pinged (load_winner c) = In c pinged
IsCallPinged pinged (close_unused c winner) = IsPointerPinged pinged winner
IsCallPinged pinged (handed c) = In c pinged
IsCallPinged pinged load = Unit
IsCallPinged pinged (ping_held c) = Unit
IsCallPinged pinged (drop_held c error) = Unit
IsCallPinged pinged (close_held c error) = Unit
IsCallPinged pinged open_new = Unit
IsCallPinged pinged (ping_new c) = Unit
IsCallPinged pinged (close_failed c error) = Unit
IsCallPinged pinged (failed error) = Unit
IsCallPinged pinged swap = Unit
IsCallPinged pinged (close_swapped c) = Unit
IsCallPinged pinged (closed error) = Unit

after_load-pinged : (pinged : List ℕ) (o : Option ℕ) → IsCallPinged pinged (after_load o)
unfolding after_load
after_load-pinged pinged none = tt
after_load-pinged pinged (some c) = tt

after_unused-pinged :
    (pinged : List ℕ) (o : Option ℕ)
    → IsPointerPinged pinged o
    → IsCallPinged pinged (after_unused o)
unfolding after_unused
after_unused-pinged pinged none h = tt
after_unused-pinged pinged (some c) h = h

after_swap-pinged : (pinged : List ℕ) (o : Option ℕ) → IsCallPinged pinged (after_swap o)
unfolding after_swap
after_swap-pinged pinged none = tt
after_swap-pinged pinged (some c) = tt

-- What a step leaves true of its call and of the pointer, and the pings it keeps.
pub record Steps (p : Provider) (p' : Provider) (call : Call) : Type 0 where
  pub keeps : (client : ℕ) → In client p.pinged → In client p'.pinged
  pub pointer_pinged : IsPointerPinged p'.pinged p'.pointer
  pub call_pinged : IsCallPinged p'.pinged call

IsPointerPinged-cons :
    (c : ℕ) (pinged : List ℕ) (o : Option ℕ)
    → IsPointerPinged pinged o
    → IsPointerPinged (c ∷ pinged) o
IsPointerPinged-cons c pinged none h = tt
IsPointerPinged-cons c pinged (some client) h = inr h

-- A step that pings nothing and leaves the pointer, and one that clears it.
module _ (p : Provider) where
  same :
      (shut : List ℕ) (opened : ℕ) (call : Call)
      → IsPointerPinged p.pinged p.pointer
      → IsCallPinged p.pinged call
      → Steps p (record p { shut = shut; opened = opened }) call
  same shut opened call h k = record { keeps = λ client m. m; pointer_pinged = h; call_pinged = k }

  cleared : (call : Call) → IsCallPinged p.pinged call → Steps p (record p { pointer = none }) call
  cleared call k = record { keeps = λ client m. m; pointer_pinged = tt; call_pinged = k }

  pinging :
      (c : ℕ) (call : Call)
      → IsPointerPinged p.pinged p.pointer
      → IsCallPinged (c ∷ p.pinged) call
      → Steps p (record p { pinged = c ∷ p.pinged }) call
  pinging c call h k = record {
    keeps = λ client m. inr m;
    pointer_pinged = IsPointerPinged-cons c p.pinged p.pointer h;
    call_pinged = k;
  }

publish_at-Steps :
    (p : Provider) (c : ℕ)
    → IsPointerPinged p.pinged p.pointer
    → In c p.pinged
    → (pointer : Option ℕ) → Steps p (publish_at p c pointer).0 (publish_at p c pointer).1
unfolding publish_at
publish_at-Steps p c h k none = record {
  keeps = λ client m. m;
  pointer_pinged = k;
  call_pinged = k;
}
publish_at-Steps p c h k (some other) = same p p.shut p.opened _ h k

pub step-Steps :
    (answer : Option Text) (p : Provider) (call : Call)
    → IsPointerPinged p.pinged p.pointer
    → IsCallPinged p.pinged call
    → Steps p (step answer p call).0 (step answer p call).1
unfolding step
step-Steps answer p load h k = same p _ _ _ h (after_load-pinged p.pinged p.pointer)
step-Steps none p (ping_held c) h k = pinging p c _ h (inl refl)
step-Steps (some e) p (ping_held c) h k = same p _ _ _ h tt
step-Steps answer p (drop_held c error) h k = elim (Bool-cases (holds p.pointer c)) [
  | inl e ↦ rw (step, e) (cleared p _ tt)
  | inr e ↦ rw (step, e) (same p _ _ _ h tt)
]
step-Steps answer p (close_held c error) h k = same p _ _ _ h tt
step-Steps none p open_new h k = same p _ _ _ h tt
step-Steps (some e) p open_new h k = same p _ _ _ h tt
step-Steps none p (ping_new c) h k = pinging p c _ h (inl refl)
step-Steps (some e) p (ping_new c) h k = same p _ _ _ h tt
step-Steps answer p (close_failed c error) h k = same p _ _ _ h tt
step-Steps answer p (publish c) h k = publish_at-Steps p c h k p.pointer
step-Steps answer p (load_winner c) h k = same p _ _ _ h h
step-Steps none p (close_unused c winner) h k =
    same p _ _ _ h (after_unused-pinged p.pinged winner k)
step-Steps (some e) p (close_unused c winner) h k = same p _ _ _ h tt
step-Steps answer p swap h k = cleared p _ (after_swap-pinged p.pinged p.pointer)
step-Steps answer p (close_swapped c) h k = same p _ _ _ h tt
step-Steps answer p (handed c) h k = same p _ _ _ h k
step-Steps answer p (failed error) h k = same p _ _ _ h k
step-Steps answer p (closed error) h k = same p _ _ _ h k

IsPointerPinged-mono :
    (l l' : List ℕ) (o : Option ℕ) → Includes l l' → IsPointerPinged l o → IsPointerPinged l' o
IsPointerPinged-mono l l' none f h = tt
IsPointerPinged-mono l l' (some c) f h = f c h

pub IsCallPinged-mono :
    (l l' : List ℕ) → Includes l l' → (call : Call) → IsCallPinged l call → IsCallPinged l' call
IsCallPinged-mono l l' f (publish c) h = f c h
IsCallPinged-mono l l' f (load_winner c) h = f c h
IsCallPinged-mono l l' f (close_unused c winner) h = IsPointerPinged-mono l l' winner f h
IsCallPinged-mono l l' f (handed c) h = f c h
IsCallPinged-mono l l' f load h = tt
IsCallPinged-mono l l' f (ping_held c) h = tt
IsCallPinged-mono l l' f (drop_held c error) h = tt
IsCallPinged-mono l l' f (close_held c error) h = tt
IsCallPinged-mono l l' f open_new h = tt
IsCallPinged-mono l l' f (ping_new c) h = tt
IsCallPinged-mono l l' f (close_failed c error) h = tt
IsCallPinged-mono l l' f (failed error) h = tt
IsCallPinged-mono l l' f swap h = tt
IsCallPinged-mono l l' f (close_swapped c) h = tt
IsCallPinged-mono l l' f (closed error) h = tt
