-- ===== src/Provider/Places.antt =====
-- Every client that was opened is in one place: held by the pointer, shut, or in the hands of one
-- call that will publish it or shut it.
use updater.Common.{
  ℕ, ◌+◌, ◌≡◌, refl, inl, inr, Option, none, some, List, [], ◌∷◌, arith, ltb, num_eq, if◌then◌else◌,
  Option-cases, Text,
}
use updater.Provider.Calls.{
  Call, load, ping_held, drop_held, close_held, open_new, ping_new, close_failed, publish,
  load_winner, close_unused, handed, failed, swap, close_swapped, closed, Provider, holds,
  after_load, after_unused, publish_at, after_swap, step,
}

abbrev pub times : ℕ → List ℕ → ℕ
times client [] = 0
times client (x ∷ xs) = (if num_eq x client then 1 else 0) + times client xs

abbrev one_if : ℕ → ℕ → ℕ
one_if x client = if num_eq x client then 1 else 0

-- Whether a call has the client in its hands.
abbrev pub in_hands : ℕ → Call → ℕ
in_hands client (close_held c error) = one_if c client
in_hands client (ping_new c) = one_if c client
in_hands client (close_failed c error) = one_if c client
in_hands client (publish c) = one_if c client
in_hands client (load_winner c) = one_if c client
in_hands client (close_unused c winner) = one_if c client
in_hands client (close_swapped c) = one_if c client
in_hands client load = 0
in_hands client (ping_held c) = 0
in_hands client (drop_held c error) = 0
in_hands client open_new = 0
in_hands client (handed c) = 0
in_hands client (failed error) = 0
in_hands client swap = 0
in_hands client (closed error) = 0

abbrev pub all_hands : ℕ → List Call → ℕ
all_hands client [] = 0
all_hands client (call ∷ calls) = in_hands client call + all_hands client calls

abbrev pub at_pointer : ℕ → Option ℕ → ℕ
at_pointer client none = 0
at_pointer client (some held) = one_if held client

abbrev pub places : ℕ → Provider → ℕ
places client p = at_pointer client p.pointer + times client p.shut

abbrev pub opened_once : ℕ → ℕ → ℕ
opened_once client opened = if ltb client opened then 1 else 0

after_load-hands : (client : ℕ) (o : Option ℕ) → in_hands client (after_load o) ≡ 0
unfolding after_load
after_load-hands client none = refl
after_load-hands client (some c) = refl

after_unused-hands : (client : ℕ) (o : Option ℕ) → in_hands client (after_unused o) ≡ 0
unfolding after_unused
after_unused-hands client none = refl
after_unused-hands client (some c) = refl

after_swap-hands :
    (client : ℕ) (o : Option ℕ) → in_hands client (after_swap o) ≡ at_pointer client o
unfolding after_swap
after_swap-hands client none = refl
after_swap-hands client (some c) = refl

-- One step moves a client from place to place; only the step that opens it adds one.
pub step-places :
    (client : ℕ) (answer : Option Text) (p : Provider) (call : Call)
    → places client (step answer p call).0
        + in_hands client (step answer p call).1
        + opened_once client p.opened
      ≡ places client p + in_hands client call + opened_once client (step answer p call).0.opened
unfolding step holds publish_at
step-places client answer p load = ground (arith, after_load-hands client p.pointer)
step-places client none p (ping_held c) = ground arith
step-places client (some e) p (ping_held c) = ground arith
step-places client answer p (drop_held c error) = ground arith
step-places client answer p (close_held c error) = ground arith
step-places client none p open_new = ground arith
step-places client (some e) p open_new = ground arith
step-places client none p (ping_new c) = ground arith
step-places client (some e) p (ping_new c) = ground arith
step-places client answer p (close_failed c error) = ground arith
step-places client answer p (publish c) = elim (Option-cases p.pointer) [
  | inl e ↦ rw (e, step) (ground arith)
  | inr (held, e) ↦ rw (e, step) (ground arith)
]
step-places client answer p (load_winner c) = ground arith
step-places client none p (close_unused c winner) = ground (arith, after_unused-hands client winner)
step-places client (some e) p (close_unused c winner) = ground arith
step-places client answer p swap = ground (arith, after_swap-hands client p.pointer)
step-places client answer p (close_swapped c) = ground arith
step-places client answer p (handed c) = refl
step-places client answer p (failed error) = refl
step-places client answer p (closed error) = refl
