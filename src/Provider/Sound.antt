-- ===== src/Provider/Sound.antt =====
-- What holds of the provider under every schedule of its calls.
use updater.Common.{
  ℕ, zero, suc, ◌+◌, ◌≡◌, refl, subst, inl, inr, Bool, true, false, Option, some, List, [], ◌∷◌,
  arith, Option-cases, get_elem?, set, All, All-map, Text,
}
use updater.Provider.Calls.{
  Call, System, new_docker_client_provider, docker_client_call, close_call, step, step_at, run,
}
use updater.Provider.Pings.{IsPointerPinged, IsCallPinged, step-Steps, IsCallPinged-mono}
use updater.Provider.Places.{in_hands, all_hands, places, opened_once, step-places}

-- Each client that was opened is in exactly one place, once: at the pointer, among those that
-- were shut, or in the hands of a call; others are nowhere. Clients at the pointer and those
-- handed out were pinged with success.
pub record IsSound (s : System) : Type 0 where
  pub placed :
      (client : ℕ)
      → places client s.provider + all_hands client s.calls ≡ opened_once client s.provider.opened
  pub pointer_pinged : IsPointerPinged s.provider.pinged s.provider.pointer
  pub calls_pinged : All (IsCallPinged s.provider.pinged) s.calls

set-hands :
    (client : ℕ) (calls : List Call) (i : ℕ) (call call' : Call)
    → get_elem? calls i ≡ some call
    → all_hands client (set calls i call') + in_hands client call
      ≡ all_hands client calls + in_hands client call'
set-hands client [] i call call' e = cc
set-hands client (c ∷ calls) zero call call' e = let f : c ≡ call = cc in rw f (omega arith)
set-hands client (c ∷ calls) (suc i) call call' e =
    omega (arith, set-hands client calls i call call' e)

All-set :
    (P : Call → Type 0) (calls : List Call) (i : ℕ) (call : Call)
    → All P calls
    → P call
    → All P (set calls i call)
All-set P [] i call h p = tt
All-set P (c ∷ calls) zero call h p = (p, h.1)
All-set P (c ∷ calls) (suc i) call h p = (h.0, All-set P calls i call h.1 p)

All-get :
    (P : Call → Type 0) (calls : List Call) (i : ℕ) (call : Call)
    → All P calls
    → get_elem? calls i ≡ some call
    → P call
All-get P [] i call h e = cc
All-get P (c ∷ calls) zero call h e = let f : c ≡ call = cc in subst P f h.0
All-get P (c ∷ calls) (suc i) call h e = All-get P calls i call h.1 e

step_at-IsSound :
    (s : System) (i : ℕ) (answer : Option Text) → IsSound s → IsSound (step_at s i answer)
unfolding step_at
step_at-IsSound s i answer sound = elim (Option-cases (get_elem? s.calls i)) [
  | inl e ↦ rw (step_at, e) sound
  | inr (call, e) ↦
      let p' = (step answer s.provider call).0 in
      let call' = (step answer s.provider call).1 in
      let steps =
        step-Steps answer s.provider call sound.pointer_pinged
          (All-get (IsCallPinged s.provider.pinged) s.calls i call sound.calls_pinged e) in
      rw (step_at, e)
        (record {
          placed = λ client. omega (
            arith,
            sound.placed client,
            set-hands client s.calls i call call' e,
            step-places client answer s.provider call,
          );
          pointer_pinged = steps.pointer_pinged;
          calls_pinged =
              All-set (IsCallPinged p'.pinged) s.calls i call'
                (All-map (IsCallPinged s.provider.pinged) (IsCallPinged p'.pinged) s.calls
                  (IsCallPinged-mono s.provider.pinged p'.pinged steps.keeps) sound.calls_pinged)
                steps.call_pinged;
        })
]

run-IsSound :
    (schedule : List (ℕ × Option Text)) (s : System) → IsSound s → IsSound (run s schedule)
unfolding run
run-IsSound [] s sound = sound
run-IsSound ((i, answer) ∷ schedule) s sound =
    run-IsSound schedule (step_at s i answer) (step_at-IsSound s i answer sound)

abbrev pub begun : List Bool → List Call
begun [] = []
begun (true ∷ kinds) = close_call false ∷ begun kinds
begun (false ∷ kinds) = docker_client_call false ∷ begun kinds

begun-hands : (client : ℕ) (kinds : List Bool) → all_hands client (begun kinds) ≡ 0
unfolding close_call docker_client_call
begun-hands client [] = refl
begun-hands client (true ∷ kinds) = omega (arith, begun-hands client kinds)
begun-hands client (false ∷ kinds) = omega (arith, begun-hands client kinds)

begun-pinged : (kinds : List Bool) → All (IsCallPinged []) (begun kinds)
unfolding close_call docker_client_call
begun-pinged [] = tt
begun-pinged (true ∷ kinds) = (tt, begun-pinged kinds)
begun-pinged (false ∷ kinds) = (tt, begun-pinged kinds)

-- Whatever calls of `DockerClient` and `Close` run at once on a new provider, in whatever order
-- their steps interleave and whatever Docker answers: each client that was opened is in exactly
-- one place, once, at the pointer, among those shut, or in the hands of a call that is not done,
-- so none is shut twice and none is lost, and the pointer's is not shut; the client at the
-- pointer, and each that a call returned, was pinged with success.
pub new_provider-IsSound :
    (kinds : List Bool) (schedule : List (ℕ × Option Text))
    → IsSound (run (record { provider = new_docker_client_provider; calls = begun kinds }) schedule)
new_provider-IsSound kinds schedule = run-IsSound schedule _ (record {
  placed = λ client. grind (arith, begun-hands client kinds);
  pointer_pinged = tt;
  calls_pinged = begun-pinged kinds;
})
