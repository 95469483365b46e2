-- ===== src/Sessions/Orderly.antt =====
-- The messages of `append_message` are numbered one by one in each session, and answer a run once.
use fast_page.Prelude.{
  true, append-nil, ℕ, suc, ◌+◌, ◌≡◌, refl, ap, ◌∙◌, inl, inr, Bool, false, Option, none, some,
  List, [], ◌∷◌, ◌++◌, arith, ◌==◌, keep, length, All, append-nil, Bool-cases,
}
use fast_page.Workspace.Queries.{first}
use fast_page.Sessions.Models.{ChatMessage, SessionStore}
use fast_page.Sessions.Messages.{is_turn, message_of_run, max_number, next_sequence}

abbrev pub in_session : ℕ → ChatMessage → Bool
in_session id m = m.session_id == id

-- The messages are numbered one by one, from the number after `n`.
abbrev pub AreNumbered : ℕ → List ChatMessage → Type 0
AreNumbered n [] = Unit
AreNumbered n (m ∷ ms) = (m.sequence_no ≡ suc n) × AreNumbered (suc n) ms

-- The message is not another answer of its run in its session.
abbrev pub is_repeat : ChatMessage → ChatMessage → Bool
is_repeat m k = elim m.run_id [ none ↦ false | some run ↦ is_turn m.session_id run m.role k ]

abbrev pub HaveOneTurn : List ChatMessage → Type 0
HaveOneTurn [] = Unit
HaveOneTurn (m ∷ ms) = All (λ (k : ChatMessage). is_repeat k m ≡ false) ms × HaveOneTurn ms

pub record IsOrderly (ms : List ChatMessage) : Type 0 where
  pub numbered : (session_id : ℕ) → AreNumbered 0 (keep (in_session session_id) ms)
  pub once : HaveOneTurn ms

pub keep-append :
    {A : Type 0} (p : A → Bool) (xs ys : List A) → keep p (xs ++ ys) ≡ keep p xs ++ keep p ys
keep-append p [] ys = refl
keep-append p (x ∷ xs) ys = ground (arith, keep-append p xs ys)

pub keep-append_kept :
    {A : Type 0} (p : A → Bool) (xs : List A) (y : A)
    → p y ≡ true
    → keep p (xs ++ (y ∷ [])) ≡ keep p xs ++ (y ∷ [])
keep-append_kept p xs y h = keep-append p xs (y ∷ []) ∙ rw h refl

pub keep-append_left_out :
    {A : Type 0} (p : A → Bool) (xs : List A) (y : A)
    → p y ≡ false
    → keep p (xs ++ (y ∷ [])) ≡ keep p xs
keep-append_left_out p xs y h = keep-append p xs (y ∷ []) ∙ rw h (append-nil (keep p xs))

AreNumbered-append :
    (n : ℕ) (ms : List ChatMessage) (m : ChatMessage)
    → AreNumbered n ms
    → m.sequence_no ≡ suc (n + length ms)
    → AreNumbered n (ms ++ (m ∷ []))
AreNumbered-append n [] m h e = (omega arith, tt)
AreNumbered-append n (k ∷ ms) m h e = (h.0, AreNumbered-append (suc n) ms m h.1 (omega arith))

-- The last number of messages that are numbered one by one
max_number_lem :
    (n : ℕ) (m : ChatMessage) (ms : List ChatMessage)
    → AreNumbered n (m ∷ ms)
    → max_number (m ∷ ms) ≡ n + length (m ∷ ms)
unfolding max_number
max_number_lem n m [] h = ground arith
max_number_lem n m (k ∷ ms) h = ground (arith, max_number_lem (suc n) k ms h.1)

max_number-numbered : (ms : List ChatMessage) → AreNumbered 0 ms → max_number ms ≡ length ms
unfolding max_number
max_number-numbered [] h = refl
max_number-numbered (m ∷ ms) h = omega (arith, max_number_lem 0 m ms h)

All-append_one {κ} :
    {A : Type 0} (P : A → Type κ) (xs : List A) (y : A) → All P xs → P y → All P (xs ++ (y ∷ []))
All-append_one P [] y h p = (p, tt)
All-append_one P (x ∷ xs) y h p = (h.0, All-append_one P xs y h.1 p)

HaveOneTurn-append :
    (ms : List ChatMessage) (m : ChatMessage)
    → HaveOneTurn ms
    → keep (is_repeat m) ms ≡ []
    → HaveOneTurn (ms ++ (m ∷ []))
HaveOneTurn-append [] m h e = (tt, tt)
HaveOneTurn-append (k ∷ ms) m h e = elim (Bool-cases (is_repeat m k)) [
  | inl same ↦ absurd (cc (rw same at e))
  | inr other ↦ (
    All-append_one (λ (r : ChatMessage). is_repeat r k ≡ false) ms m h.0 other,
    HaveOneTurn-append ms m h.1 (rw other at e),
  )
]

pub first-none : {A : Type 0} (xs : List A) → first xs ≡ none → xs ≡ []
first-none [] h = refl
first-none (x ∷ xs) h = cc

keep-false : {A : Type 0} (xs : List A) → keep (λ (x : A). false) xs ≡ []
keep-false [] = refl
keep-false (x ∷ xs) = keep-false xs

-- Where no message of the run is found, a new one repeats none.
pub message_of_run-none :
    (ms : List ChatMessage) (m : ChatMessage) (run_id : Option ℕ)
    → m.run_id ≡ run_id
    → message_of_run ms m.session_id run_id m.role ≡ none
    → keep (is_repeat m) ms ≡ []
message_of_run-none ms m none e h = rw e (keep-false ms)
message_of_run-none ms m (some run) e h =
    rw e (first-none (keep (is_turn m.session_id run m.role) ms) h)

-- The number of a new message is the next one in its session.
pub append-IsOrderly :
    (st : SessionStore) (m : ChatMessage)
    → m.sequence_no ≡ next_sequence st m.session_id
    → keep (is_repeat m) st.messages ≡ []
    → IsOrderly st.messages
    → IsOrderly (st.messages ++ (m ∷ []))
unfolding next_sequence
append-IsOrderly st m number new o = record {
  numbered = λ id.
      rw (keep-append (in_session id) st.messages (m ∷ [])) (elim (Bool-cases (in_session id m)) [
        | inr other ↦ rw (other, append-nil (keep (in_session id) st.messages)) (o.numbered id)
        | inl same ↦
            let here : m.session_id ≡ id = ground arith in
            rw same (
              AreNumbered-append 0 (keep (in_session id) st.messages) m (o.numbered id) (
                omega (
                  arith,
                  number ∙ ap (λ i. next_sequence st i) here,
                  max_number-numbered (keep (in_session id) st.messages) (o.numbered id),
                )))
      ]);
  once = HaveOneTurn-append st.messages m o.once new;
}
