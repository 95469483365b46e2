-- ===== src/Events/Examples.antt =====
-- The theorem about the event bus at a short run, and what its queues hold.
use fast_page.Prelude.{◌≡◌, refl, none, some, List, [], ◌∷◌}
use fast_page.Events.Bus.{
  empty_bus, Call, publishes, closes, registers, unregisters, takes, run, chat_event_channel,
}
use fast_page.Events.Views.{no_view, view_run}
use fast_page.Events.Refines.{Refines, run-Refines}

-- The second queue joins late, the first one leaves early.
abbrev calls : List Call
calls =
    registers (chat_event_channel "a") 1
    ∷ publishes (chat_event_channel "a") "x"
    ∷ publishes (chat_event_channel "b") "other"
    ∷ registers (chat_event_channel "a") 2
    ∷ publishes (chat_event_channel "a") "y"
    ∷ takes 1
    ∷ closes (chat_event_channel "a")
    ∷ unregisters (chat_event_channel "a") 1
    ∷ publishes (chat_event_channel "a") "z"
    ∷ []

queues :
    ((run calls empty_bus).taken 1 ≡ some "x" ∷ [])
    × ((run calls empty_bus).queue 1 ≡ some "y" ∷ none ∷ [])
    × ((run calls empty_bus).queue 2 ≡ some "y" ∷ none ∷ some "z" ∷ [])
unfolding run
queues = (refl, refl, refl)

run-Refines_example : Refines (run calls empty_bus) (view_run calls no_view)
run-Refines_example = run-Refines calls
