-- ===== src/Events/Views.antt =====
-- What a bus promises, apart from how it is built: how often each queue is registered on each channel,
-- and everything that has been sent to each queue.
use fast_page.Prelude.{
  ℕ, zero, suc, ◌+◌, ◌-◌, String, Bool, ◌&&◌, none, some, List, [], ◌∷◌, ◌++◌, ◌==◌, str_eq,
  if◌then◌else◌,
}
use fast_page.Events.Bus.{Item, Call, publishes, closes, registers, unregisters, takes}

pub record View : Type 0 where
  pub registered : String → ℕ → ℕ
  pub sent : ℕ → List Item

abbrev pub no_view : View
no_view = record { registered = λ c q. 0; sent = λ q. [] }

abbrev pub copies : ℕ → Item → List Item
copies zero item = []
copies (suc n) item = item ∷ copies n item

-- A queue gets an item once for each of its registrations.
abbrev pub view_send : String → Item → View → View
view_send channel item v = record v { sent = λ q. v.sent q ++ copies (v.registered channel q) item }

abbrev pub is_at : String → ℕ → String → ℕ → Bool
is_at channel q c r = str_eq c channel && r == q

unfoldable pub view_call : Call → View → View
view_call (publishes channel payload) v = view_send channel (some payload) v
view_call (closes channel) v = view_send channel none v
view_call (registers channel q) v = record v {
  registered = λ c r. if is_at channel q c r then v.registered c r + 1 else v.registered c r;
}
view_call (unregisters channel q) v = record v {
  registered = λ c r. if is_at channel q c r then v.registered c r - 1 else v.registered c r;
}
view_call (takes q) v = v

unfoldable pub view_run : List Call → View → View
unfolding view_call
view_run [] v = v
view_run (c ∷ cs) v = view_run cs (view_call c v)
