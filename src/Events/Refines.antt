-- ===== src/Events/Refines.antt =====
-- The bus keeps its promise.
use fast_page.Prelude.{
  ℕ, suc, ◌+◌, ◌-◌, ◌≡◌, refl, sym, ap, ◌∙◌, inl, inr, String, true, false, Option, none, some,
  List, [], ◌∷◌, ◌++◌, arith, ◌==◌, str_eq, eq_iff, if◌then◌else◌, Bool-cases, append-nil,
  append_assoc,
}
use fast_page.Prelude.Dict.{
  Dict, lookup, insert, get_or, lookup-insert, IsDistinct, insert-IsDistinct,
}
use fast_page.Reuse.Cache.{pop}
use fast_page.Events.Bus.{
  Item, Bus, empty_bus, put, put_all, send, publish, close, register, remove, without, unsubscribe,
  unregister, next_event, take_item, bus_after, Call, publishes, closes, registers, unregisters,
  takes, call, run,
}
use fast_page.Events.Views.{View, no_view, copies, view_send, view_call, view_run}

-- How often a queue stands in a list
unfoldable pub occurrences : ℕ → List ℕ → ℕ
occurrences q [] = 0
occurrences q (r ∷ rs) = let rest = occurrences q rs in if r == q then suc rest else rest

abbrev pub subscribed : Dict (List ℕ) → String → ℕ → ℕ
subscribed d channel q = occurrences q (get_or d channel [])

-- The bus is as the view has it: no channel stands twice, registrations agree, and what was sent to a
-- queue has been taken from it or is still in it, in order.
pub record Refines (b : Bus) (v : View) : Type 0 where
  pub distinct : IsDistinct b.subscribers
  pub registrations : (c : String) (q : ℕ) → subscribed b.subscribers c q ≡ v.registered c q
  pub items : (q : ℕ) → b.taken q ++ b.queue q ≡ v.sent q

put_all_lem :
    (item : Item) (qs : List ℕ) (queue : ℕ → List Item) (r : ℕ)
    → put_all item qs queue r ≡ queue r ++ copies (occurrences r qs) item
unfolding put_all put occurrences
put_all_lem item [] queue r = sym (append-nil (queue r))
put_all_lem item (q ∷ qs) queue r = elim (Bool-cases (r == q)) [
  | inl e ↦
      let same : (q == r) ≡ true = ground arith in
      put_all_lem item qs (put item q queue) r
      ∙ rw (e, same) (append_assoc (queue r) (item ∷ []) (copies (occurrences r qs) item))
  | inr e ↦
      let other : (q == r) ≡ false = ground arith in
      put_all_lem item qs (put item q queue) r ∙ rw (e, other) refl
]

occurrences-append :
    (r q : ℕ) (qs : List ℕ)
    → occurrences r (qs ++ (q ∷ [])) ≡ occurrences r qs + (if q == r then 1 else 0)
unfolding occurrences
occurrences-append r q [] = ground arith
occurrences-append r q (p ∷ ps) = ground (arith, occurrences-append r q ps)

occurrences-remove :
    (r q : ℕ) (qs : List ℕ)
    → occurrences r (remove q qs) ≡ (if r == q then occurrences r qs - 1 else occurrences r qs)
unfolding occurrences remove
occurrences-remove r q [] = ground arith
occurrences-remove r q (p ∷ ps) = ground (arith, occurrences-remove r q ps)

-- A subscription that is taken out of a dictionary
lookup-pop :
    {A : Type 0} (k j : String) (d : Dict A)
    → IsDistinct d
    → lookup j (pop k d) ≡ (if str_eq k j then none else lookup j d)
unfolding lookup pop
lookup-pop k j [] h = ground arith
lookup-pop k j ((i, v) ∷ d) h =
    ground (arith, eq_iff k j, eq_iff i k, eq_iff i j, lookup-pop k j d h.1)

pop-IsDistinct : {A : Type 0} (k : String) (d : Dict A) → IsDistinct d → IsDistinct (pop k d)
unfolding lookup pop
pop-IsDistinct k [] h = tt
pop-IsDistinct k ((i, v) ∷ d) h =
    ground (arith, eq_iff k i, eq_iff i k, lookup-pop k i d h.1, pop-IsDistinct k d h.1)

module _ (b : Bus) (v : View) (r : Refines b v) where
  send-Refines :
      (channel : String) (item : Item) → Refines (send channel item b) (view_send channel item v)
  unfolding send
  send-Refines channel item = record {
    distinct = r.distinct;
    registrations = r.registrations;
    items = λ q.
        let qs = get_or b.subscribers channel [] in
        ap (λ (l : List Item). b.taken q ++ l) (put_all_lem item qs b.queue q)
        ∙ (sym (append_assoc (b.taken q) (b.queue q) (copies (occurrences q qs) item))
            ∙ (ap (λ (l : List Item). l ++ copies (occurrences q qs) item) (r.items q)
                ∙ ap (λ n. v.sent q ++ copies n item) (r.registrations channel q)));
  }

  subscribed-insert :
      (channel c : String) (qs : List ℕ) (q : ℕ)
      → subscribed (insert channel qs b.subscribers) c q
        ≡ (if str_eq channel c then occurrences q qs else subscribed b.subscribers c q)
  subscribed-insert channel c qs q = ground (arith, lookup-insert channel c qs b.subscribers)

  register-Refines :
      (channel : String) (q : ℕ)
      → Refines (register channel q b) (view_call (registers channel q) v)
  unfolding register view_call
  register-Refines channel q = record {
    distinct =
        insert-IsDistinct channel (get_or b.subscribers channel [] ++ (q ∷ [])) b.subscribers
          r.distinct;
    registrations = λ c p. ground (
      arith,
      subscribed-insert channel c (get_or b.subscribers channel [] ++ (q ∷ [])) p,
      occurrences-append p q (get_or b.subscribers channel []),
      r.registrations c p,
      r.registrations channel p,
      eq_iff channel c,
      eq_iff c channel,
    );
    items = r.items;
  }

  subscribed-without :
      (channel c : String) (qs : List ℕ) (p : ℕ)
      → subscribed (without channel qs b.subscribers) c p
        ≡ (if str_eq channel c then occurrences p qs else subscribed b.subscribers c p)
  unfolding occurrences
  subscribed-without channel c [] p = ground (arith, lookup-pop channel c b.subscribers r.distinct)
  subscribed-without channel c (q ∷ qs) p = subscribed-insert channel c (q ∷ qs) p

  without-IsDistinct :
      (channel : String) (qs : List ℕ) → IsDistinct (without channel qs b.subscribers)
  without-IsDistinct channel [] = pop-IsDistinct channel b.subscribers r.distinct
  without-IsDistinct channel (q ∷ qs) = insert-IsDistinct channel (q ∷ qs) b.subscribers r.distinct

  unsubscribe-Refines :
      (channel : String) (q : ℕ) (o : Option (List ℕ))
      → lookup channel b.subscribers ≡ o
      → Refines (unsubscribe channel q o b) (view_call (unregisters channel q) v)
  unfolding view_call occurrences
  unsubscribe-Refines channel q none e = record {
    distinct = r.distinct;
    registrations = λ c p. ground (
      arith,
      e,
      r.registrations c p,
      r.registrations channel p,
      eq_iff channel c,
      eq_iff c channel,
    );
    items = r.items;
  }
  unsubscribe-Refines channel q (some qs) e = record {
    distinct = without-IsDistinct channel (remove q qs);
    registrations = λ c p. ground (
      arith,
      e,
      subscribed-without channel c (remove q qs) p,
      occurrences-remove p q qs,
      r.registrations c p,
      r.registrations channel p,
      eq_iff channel c,
      eq_iff c channel,
    );
    items = r.items;
  }

  take_item-Refines :
      (q : ℕ) (items : List Item)
      → b.queue q ≡ items
      → Refines (bus_after (take_item q items b) b) v
  take_item-Refines q [] e = r
  take_item-Refines q (item ∷ items) e = record {
    distinct = r.distinct;
    registrations = r.registrations;
    items = λ p. elim (Bool-cases (p == q)) [
      | inr other ↦ rw other (r.items p)
      | inl same ↦
          let p_is : p ≡ q = ground arith in
          rw same (
            append_assoc (b.taken p) (item ∷ []) items
            ∙ (ap (λ (l : List Item). b.taken p ++ l) (sym (ap b.queue p_is ∙ e)) ∙ r.items p))
    ];
  }

  call-Refines : (c : Call) → Refines (call c b) (view_call c v)
  unfolding call publish close unregister next_event view_call
  call-Refines (publishes channel payload) = send-Refines channel (some payload)
  call-Refines (closes channel) = send-Refines channel none
  call-Refines (registers channel q) = register-Refines channel q
  call-Refines (unregisters channel q) =
      unsubscribe-Refines channel q (lookup channel b.subscribers) refl
  call-Refines (takes q) = take_item-Refines q (b.queue q) refl

runs-Refines :
    (cs : List Call) (b : Bus) (v : View) → Refines b v → Refines (run cs b) (view_run cs v)
unfolding run view_run
runs-Refines [] b v r = r
runs-Refines (c ∷ cs) b v r = runs-Refines cs (call c b) (view_call c v) (call-Refines b v r c)

-- Whatever calls run on a new bus, in whatever order: each queue is registered on each channel as
-- often as calls have put it there and not taken it out, and what has been taken from a queue, with
-- what still waits in it, is everything that was published or closed on the channels where it stood at
-- the time, in the order of the calls and once for each of its registrations; nothing is lost,
-- repeated or swapped.
pub run-Refines : (cs : List Call) → Refines (run cs empty_bus) (view_run cs no_view)
unfolding lookup occurrences
run-Refines cs =
    runs-Refines cs empty_bus no_view
      (record { distinct = tt; registrations = λ c q. refl; items = λ q. refl })
