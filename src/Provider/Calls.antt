-- ===== src/Provider/Calls.antt =====
-- The steps of `DockerClient` and `Close`.
use updater.Common.{
  ℕ, suc, Bool, false, Option, none, some, List, [], ◌∷◌, ◌++◌, num_eq, if◌then◌else◌, get_elem?,
  set, Text, codes,
}
use updater.Hooks.{err_docker_client_provider_required}

-- Where a call stands: what it does next, and the clients it has in its variables.
pub data Call : Type 0 where
  -- `DockerClient`.
  load : Call
  ping_held : (client : ℕ) → Call
  drop_held : (client : ℕ) (error : Text) → Call
  close_held : (client : ℕ) (error : Text) → Call
  open_new : Call
  ping_new : (client : ℕ) → Call
  close_failed : (client : ℕ) (error : Text) → Call
  publish : (client : ℕ) → Call
  load_winner : (client : ℕ) → Call
  close_unused : (client : ℕ) (winner : Option ℕ) → Call
  handed : (client : ℕ) → Call
  failed : (error : Text) → Call
  -- `Close`.
  swap : Call
  close_swapped : (client : ℕ) → Call
  closed : (error : Option Text) → Call

-- The pointer, and what has happened to clients; they are numbered as they are opened.
pub record Provider : Type 0 where
  pub pointer : Option ℕ
  pub opened : ℕ
  pub pinged : List ℕ
  pub shut : List ℕ

abbrev pub new_docker_client_provider : Provider
new_docker_client_provider = record { pointer = none; opened = 0; pinged = []; shut = [] }

-- A provider that is nil.
unfoldable pub docker_client_call : (is_nil : Bool) → Call
docker_client_call is_nil = if is_nil then failed err_docker_client_provider_required else load

unfoldable pub close_call : (is_nil : Bool) → Call
close_call is_nil = if is_nil then closed none else swap

unfoldable pub holds : Option ℕ → ℕ → Bool
holds none client = false
holds (some held) client = num_eq held client

unfoldable pub ping_error : Text → Text
ping_error e = codes "ping docker daemon: " ++ e

-- `errors.Join` of two errors.
unfoldable pub joined : Text → Option Text → Text
joined e none = e
joined e (some close_error) = e ++ (codes "\n" ++ close_error)

unfoldable pub after_load : Option ℕ → Call
after_load none = open_new
after_load (some client) = ping_held client

unfoldable pub after_unused : Option ℕ → Call
after_unused none = load
after_unused (some winner) = handed winner

unfoldable pub after_swap : Option ℕ → Call
after_swap none = closed none
after_swap (some client) = close_swapped client

-- The swap of a nil pointer, by what the pointer is.
unfoldable pub publish_at : Provider → (client : ℕ) → Option ℕ → Provider × Call
publish_at p client none = (record p { pointer = some client }, handed client)
publish_at p client (some other) = (p, load_winner client)

unfoldable pub step : Option Text → Provider → Call → Provider × Call
unfolding publish_at after_swap holds ping_error joined after_load after_unused
step answer p load = (p, after_load p.pointer)
step none p (ping_held client) = (record p { pinged = client ∷ p.pinged }, handed client)
step (some e) p (ping_held client) = (p, drop_held client e)
step answer p (drop_held client error) =
    if holds p.pointer client
    then (record p { pointer = none }, close_held client error)
    else (p, failed (ping_error error))
step answer p (close_held client error) =
    (record p { shut = client ∷ p.shut }, failed (ping_error (joined error answer)))
step none p open_new = (record p { opened = suc p.opened }, ping_new p.opened)
step (some e) p open_new = (p, failed e)
step none p (ping_new client) = (record p { pinged = client ∷ p.pinged }, publish client)
step (some e) p (ping_new client) = (p, close_failed client e)
step answer p (close_failed client error) =
    (record p { shut = client ∷ p.shut }, failed (ping_error (joined error answer)))
step answer p (publish client) = publish_at p client p.pointer
step answer p (load_winner client) = (p, close_unused client p.pointer)
step none p (close_unused client winner) =
    (record p { shut = client ∷ p.shut }, after_unused winner)
step (some e) p (close_unused client winner) =
    (record p { shut = client ∷ p.shut }, failed (codes "close unused docker client: " ++ e))
step answer p swap = (record p { pointer = none }, after_swap p.pointer)
step answer p (close_swapped client) = (record p { shut = client ∷ p.shut }, closed answer)
step answer p (handed client) = (p, handed client)
step answer p (failed error) = (p, failed error)
step answer p (closed error) = (p, closed error)

-- A provider and the calls made of it.
pub record System : Type 0 where
  pub provider : Provider
  pub calls : List Call

-- One step of the call at an index.
unfoldable pub step_at : System → ℕ → Option Text → System
unfolding step
step_at s i answer = elim (get_elem? s.calls i) [
  | none ↦ s
  | some call ↦
      let (p, call') = step answer s.provider call in
      record { provider = p; calls = set s.calls i call' }
]

-- A schedule: which call steps next, and with what answer.
unfoldable pub run : System → List (ℕ × Option Text) → System
unfolding step_at
run s [] = s
run s ((i, answer) ∷ schedule) = run (step_at s i answer) schedule
