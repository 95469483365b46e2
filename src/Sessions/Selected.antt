-- ===== src/Sessions/Selected.antt =====
-- A query of messages at tables with one message more.
use fast_page.Prelude.{
  ℕ, ◌-◌, ◌≤◌, ◌≡◌, ◌≢◌, refl, ap, ◌∙◌, inl, inr, Bool, true, false, ◌&&◌, Option, none, some, List,
  [], ◌∷◌, ◌++◌, arith, ◌==◌, leb, keep, length, drop, length-append, Bool-cases, All,
}
use fast_page.Sessions.Models.{ChatMessage, SessionStore}
use fast_page.Sessions.Scope.{insert_sorted, sort}
use fast_page.Sessions.Messages.{
  max_number, next_sequence, store_message, last_messages, select_messages,
}
use fast_page.Sessions.Orderly.{in_session, keep-append_kept, keep-append_left_out}

abbrev by_number : ChatMessage → ChatMessage → Bool
by_number m k = leb m.sequence_no k.sequence_no

insert_sorted-append :
    (x y : ChatMessage) (ms : List ChatMessage)
    → x.sequence_no ≤ y.sequence_no
    → insert_sorted by_number x (ms ++ (y ∷ [])) ≡ insert_sorted by_number x ms ++ (y ∷ [])
unfolding insert_sorted
insert_sorted-append x y [] h = ground arith
insert_sorted-append x y (m ∷ ms) h = ground (arith, insert_sorted-append x y ms h)

abbrev AreBelow : ChatMessage → List ChatMessage → Type 0
AreBelow y = All (λ (x : ChatMessage). x.sequence_no ≤ y.sequence_no)

-- A message that is numbered above all others is sorted to the end.
sort-append :
    (y : ChatMessage) (ms : List ChatMessage)
    → AreBelow y ms
    → sort by_number (ms ++ (y ∷ [])) ≡ sort by_number ms ++ (y ∷ [])
unfolding sort insert_sorted
sort-append y [] h = refl
sort-append y (m ∷ ms) h =
    ap (insert_sorted by_number m) (sort-append y ms h.1)
    ∙ insert_sorted-append m y (sort by_number ms) h.0

max_number-cons :
    (m : ChatMessage) (ms : List ChatMessage) (n : ℕ)
    → max_number (m ∷ ms) ≤ n
    → (m.sequence_no ≤ n) × (max_number ms ≤ n)
unfolding max_number
max_number-cons m ms n h = ground arith

-- The clauses of a query admit no message above the highest number of its session.
keep-AreBelow :
    (id : ℕ) (clauses : ChatMessage → Bool) (y : ChatMessage) (ms : List ChatMessage)
    → max_number (keep (in_session id) ms) ≤ y.sequence_no
    → AreBelow y (keep (λ m. m.session_id == id && clauses m) ms)
unfolding max_number
keep-AreBelow id clauses y [] h = tt
keep-AreBelow id clauses y (m ∷ ms) h = elim (Bool-cases (m.session_id == id)) [
  | inr other ↦ rw other (keep-AreBelow id clauses y ms (rw other at h))
  | inl same ↦
      let (head, rest) = max_number-cons m (keep (in_session id) ms) y.sequence_no (rw same at h) in
      let below : AreBelow y (keep (λ k. k.session_id == id && clauses k) ms) =
        keep-AreBelow id clauses y ms rest in
      elim (Bool-cases (clauses m)) [
        | inl admitted ↦ rw (same, admitted) (head, below)
        | inr left_out ↦ rw (same, left_out) below
      ]
]

drop-append_one : {A : Type 0} (xs : List A) (y : A) → drop (length xs) (xs ++ (y ∷ [])) ≡ y ∷ []
drop-append_one [] y = refl
drop-append_one (x ∷ xs) y = drop-append_one xs y

pub last_messages-append :
    (xs : List ChatMessage) (y : ChatMessage) → last_messages (some 1) (xs ++ (y ∷ [])) ≡ y ∷ []
last_messages-append xs y =
    let n : length (xs ++ (y ∷ [])) - 1 ≡ length xs = omega (arith, length-append xs (y ∷ [])) in
    rw n (drop-append_one xs y)

module _ (st : SessionStore) (m : ChatMessage) (updated_at : ℕ) where
  -- The tables with the message
  abbrev pub with_message : SessionStore
  with_message = (store_message st none m updated_at).1

  pub select_messages-new :
      (clauses : ChatMessage → Bool) (limit : Option ℕ)
      → m.sequence_no ≡ next_sequence st m.session_id
      → clauses m ≡ true
      → select_messages with_message m.session_id clauses limit
        ≡ last_messages limit (select_messages st m.session_id clauses none ++ (m ∷ []))
  unfolding select_messages next_sequence
  select_messages-new clauses limit number admitted =
      let p : ChatMessage → Bool = λ k. k.session_id == m.session_id && clauses k in
      let here : p m ≡ true = ground arith in
      ap (λ (ms : List ChatMessage). last_messages limit (sort by_number ms))
        (keep-append_kept p st.messages m here)
      ∙ ap (last_messages limit) (
          sort-append m (keep p st.messages)
            (keep-AreBelow m.session_id clauses m st.messages (omega (arith, number))))

  pub select_messages-other :
      (id : ℕ) (clauses : ChatMessage → Bool) (limit : Option ℕ)
      → m.session_id ≢ id
      → select_messages with_message id clauses limit ≡ select_messages st id clauses limit
  unfolding select_messages
  select_messages-other id clauses limit other =
      let p : ChatMessage → Bool = λ k. k.session_id == id && clauses k in
      let away : p m ≡ false = ground arith in
      ap (λ (ms : List ChatMessage). last_messages limit (sort by_number ms))
        (keep-append_left_out p st.messages m away)
