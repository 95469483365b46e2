-- ===== src/Events/Bus.antt =====
-- `LocalChatEventBus` and `LocalChatEventSubscription`. A queue has no bound and the lock is never held
-- across a wait, so that each call runs in one piece. A queue is known by its number.
use Prim.Native.String.{◌++◌ as str_append}
use fast_page.Prelude.{ℕ, String, Option, none, some, List, [], ◌∷◌, ◌++◌, ◌==◌, if◌then◌else◌}
use fast_page.Prelude.Dict.{Dict, lookup, insert, get_or}
use fast_page.Chars.{is_empty}
use fast_page.Reuse.Cache.{pop}

-- `chat_event_channel`
abbrev pub chat_event_channel : String → String
chat_event_channel run_id = str_append "pageindex:chat:events:" run_id

-- What a queue holds: a payload, or `None`, the end of the stream
abbrev pub Item : Type 0
Item = Option String

-- The subscribers of each channel, the queues, and what has been taken from each of them so far
pub record Bus : Type 0 where
  pub subscribers : Dict (List ℕ)
  pub queue : ℕ → List Item
  pub taken : ℕ → List Item

abbrev pub empty_bus : Bus
empty_bus = record { subscribers = []; queue = λ q. []; taken = λ q. [] }

-- `queue.put(item)`
unfoldable pub put : Item → ℕ → (ℕ → List Item) → ℕ → List Item
put item q queue r = if r == q then queue r ++ (item ∷ []) else queue r

unfoldable pub put_all : Item → List ℕ → (ℕ → List Item) → ℕ → List Item
unfolding put
put_all item [] queue = queue
put_all item (q ∷ qs) queue = put_all item qs (put item q queue)

-- What `publish` and `close` share: the subscribers at the time get the item.
unfoldable pub send : String → Item → Bus → Bus
unfolding put_all lookup
send channel item b = record b { queue = put_all item (get_or b.subscribers channel []) b.queue }

unfoldable pub publish : String → String → Bus → Bus
unfolding send
publish channel payload b = send channel (some payload) b

unfoldable pub close : String → Bus → Bus
unfolding send
close channel b = send channel none b

-- `setdefault(channel, []).append(queue)`
unfoldable pub register : String → ℕ → Bus → Bus
unfolding insert lookup
register channel q b = record b {
  subscribers = insert channel (get_or b.subscribers channel [] ++ (q ∷ [])) b.subscribers;
}

-- `subscribers.remove(queue)`, where it is there
unfoldable pub remove : ℕ → List ℕ → List ℕ
remove q [] = []
remove q (r ∷ rs) = let rest = remove q rs in if r == q then rs else r ∷ rest

abbrev pub without : String → List ℕ → Dict (List ℕ) → Dict (List ℕ)
without channel rest d = if is_empty rest then pop channel d else insert channel rest d

abbrev pub unsubscribe : String → ℕ → Option (List ℕ) → Bus → Bus
unsubscribe channel q none b = b
unsubscribe channel q (some qs) b = record b {
  subscribers = without channel (remove q qs) b.subscribers;
}

unfoldable pub unregister : String → ℕ → Bus → Bus
unfolding remove pop insert lookup
unregister channel q b = unsubscribe channel q (lookup channel b.subscribers) b

pub data Event : Type 0 where
  end_of_stream : Event
  event : String → Event

abbrev pub event_of : Item → Event
event_of none = end_of_stream
event_of (some payload) = event payload

-- `next_event`: `none` while the queue is empty, when the call waits
abbrev pub take_item : ℕ → List Item → Bus → Option (Event × Bus)
take_item q [] b = none
take_item q (item ∷ items) b = some (
  event_of item,
  record b {
    queue = λ r. if r == q then items else b.queue r;
    taken = λ r. if r == q then b.taken r ++ (item ∷ []) else b.taken r;
  },
)

unfoldable pub next_event : ℕ → Bus → Option (Event × Bus)
next_event q b = take_item q (b.queue q) b

-- The calls on a bus, in the order in which they run. One that waits has not run yet.
pub data Call : Type 0 where
  publishes : String → String → Call
  closes : String → Call
  registers : String → ℕ → Call
  unregisters : String → ℕ → Call
  takes : ℕ → Call

abbrev pub bus_after : Option (Event × Bus) → Bus → Bus
bus_after none b = b
bus_after (some (e, b')) b = b'

unfoldable pub call : Call → Bus → Bus
unfolding publish close register unregister next_event
call (publishes channel payload) b = publish channel payload b
call (closes channel) b = close channel b
call (registers channel q) b = register channel q b
call (unregisters channel q) b = unregister channel q b
call (takes q) b = bus_after (next_event q b) b

unfoldable pub run : List Call → Bus → Bus
unfolding call
run [] b = b
run (c ∷ cs) b = run cs (call c b)
