-- ===== src/Reuse/OneLoad.antt =====
-- Until the cache is closed, no two calls load the same key at the same time.
use fast_page.Prelude.{
  ℕ, ◌≡◌, ◌≢◌, ◌⊎◌, inl, inr, refl, sym, ap, subst, ◌∙◌, String, Bool, true, false, Option, none,
  some, List, [], ◌∷◌, ◌++◌, length, get_elem?, modify_at, str_eq, Bool-cases, arith, eq_iff,
}
use fast_page.Prelude.Dict.{lookup}
use fast_page.Reuse.Cache.{RunReuseCache, Point, entering}
use fast_page.Reuse.Runs.{
  System, Step, calls_load_once, advances, closes, clears, Run, starts, then_step,
}
use fast_page.Reuse.Below.{some-eq, get_elem?-changed_at, get_elem?-snoc, AreBelow-lookup}
use fast_page.Reuse.Creators.{creates, Flight, FlightOf, advance-Flight}
use fast_page.Reuse.Progress.{IsLive, Run-IsLive}

none_not_some : {f : ℕ} → ◌≡◌ {A = Option ℕ} none (some f) → ⊥
none_not_some h = cc

true_not_false : {b : Bool} → b ≡ true → b ≡ false → ⊥
true_not_false h k = ground (arith, h, k)

module _ {V : Type 0} where
  -- The call with number `i` is for the key, and creates the future.
  abbrev pub IsCreator : List (String × Point V) → ℕ → String → ℕ → Type 0
  IsCreator calls i key f =
      (point : Point V) × (get_elem? calls i ≡ some (key, point)) × (creates point ≡ some f)

  record IsSingle (s : System V) : Type 0 where
    pub in_flight :
        (i : ℕ) (key : String) (f : ℕ)
        → IsCreator s.calls i key f
        → lookup key s.cache.inflight ≡ some f
    pub one :
        (i j : ℕ) (k k' : String) (f : ℕ)
        → IsCreator s.calls i k f
        → IsCreator s.calls j k' f
        → i ≡ j

  pair-split :
      {key key' : String} {p p' : Point V}
      → ◌≡◌ {A = String × Point V} (key, p) (key', p')
      → (key ≡ key') × (p ≡ p')
  pair-split h = (ap (λ (x : String × Point V). x.0) h, ap (λ (x : String × Point V). x.1) h)

  old-IsCreator :
      (calls : List (String × Point V)) (key k : String) (i f : ℕ)
      → IsCreator (calls ++ ((key, entering) ∷ [])) i k f
      → IsCreator calls i k f
  old-IsCreator calls key k i f (point, at, creator) =
      elim (get_elem?-snoc i (key, entering) calls at) [
        | inl new ↦
            let (_, enters) = pair-split new in absurd (none_not_some (ap creates enters ∙ creator))
        | inr old ↦ (point, old, creator)
      ]

  module _ (s : System V) (i : ℕ) (key : String) (point point' : Point V) (cache' : RunReuseCache V)
      (live : IsLive s) (h : IsSingle s) (there : get_elem? s.calls i ≡ some (key, point))
      (facts : Flight key s.cache cache' point point') where
    abbrev calls' : List (String × Point V)
    calls' = modify_at i (λ _. (key, point')) s.calls

    -- A creator afterwards: the call at hand, or another one from before
    which :
        (j : ℕ) (k : String) (f : ℕ)
        → IsCreator calls' j k f
        → ((j ≡ i) × (k ≡ key) × (creates point' ≡ some f)) ⊎ ((j ≢ i) × IsCreator s.calls j k f)
    which j k f (p, at, creator) = elim (get_elem?-changed_at i j (key, point') s.calls at) [
      | inl (same, new) ↦
          let (key_is, point_is) = pair-split new in
          inl (same, sym key_is, ap creates point_is ∙ creator)
      | inr (other, old) ↦ inr (other, (p, old, creator))
    ]

    -- Another creator keeps its future in flight.
    other_in_flight :
        (j : ℕ) (k : String) (f : ℕ)
        → j ≢ i
        → IsCreator s.calls j k f
        → lookup k cache'.inflight ≡ some f
    other_in_flight j k f other old = elim (Bool-cases (str_eq key k)) [
      | inr differs ↦ facts.others k differs ∙ h.in_flight j k f old
      | inl same ↦
          let key_is : key ≡ k = (eq_iff key k).0 same in
          elim facts.same_key [
            | inl unchanged ↦ ap (lookup k) unchanged ∙ h.in_flight j k f old
            | inr (inl missing) ↦ absurd (
                none_not_some (
                  sym (subst (λ x. lookup x s.cache.inflight ≡ none) key_is missing)
                  ∙ h.in_flight j k f old))
            | inr (inr (g, creator)) ↦
                let mine = h.in_flight i key g (point, there, creator) in
                let same_future : f ≡ g = some-eq f g (
                  sym (h.in_flight j k f old)
                  ∙ subst (λ x. lookup x s.cache.inflight ≡ some g) key_is mine) in
                absurd (
                  other (
                    h.one j i k key g (subst (IsCreator s.calls j k) same_future old)
                      (point, there, creator)))
          ]
    ]

    own_in_flight : (f : ℕ) → creates point' ≡ some f → lookup key cache'.inflight ≡ some f
    own_in_flight f creator = elim (facts.own f creator) [
      | inl (before, unchanged) ↦
          ap (lookup key) unchanged ∙ h.in_flight i key f (point, there, before)
      | inr (is_new, now, missing) ↦ now
    ]

    -- The call at hand and another one do not create the same future.
    apart :
        (j : ℕ) (k : String) (f : ℕ) → creates point' ≡ some f → j ≢ i → IsCreator s.calls j k f → ⊥
    apart j k f creator other old = elim (facts.own f creator) [
      | inl (before, unchanged) ↦ other (h.one j i k key f old (point, there, before))
      | inr (is_new, now, missing) ↦
          let below =
            AreBelow-lookup (length s.cache.futures) k s.cache.inflight live.known
              (h.in_flight j k f old) in
          omega (arith, below, is_new)
    ]

    advances-IsSingle : IsSingle (record { cache = cache'; calls = calls' })
    advances-IsSingle = record {
      in_flight = λ j k f c. elim (which j k f c) [
        | inl (same, key_is, creator) ↦
            subst (λ x. lookup x cache'.inflight ≡ some f) (sym key_is) (own_in_flight f creator)
        | inr (other, old) ↦ other_in_flight j k f other old
      ];
      one = λ j j' k k' f c c'. elim (which j k f c) [
        | inl (same, key_is, creator) ↦ elim (which j' k' f c') [
          | inl (same', key_is', creator') ↦ same ∙ sym same'
          | inr (other', old') ↦ absurd (apart j' k' f creator other' old')
        ]
        | inr (other, old) ↦ elim (which j' k' f c') [
          | inl (same', key_is', creator') ↦ absurd (apart j k f creator' other old)
          | inr (other', old') ↦ h.one j j' k k' f old old'
        ]
      ];
    }

  -- As long as the cache is not closed
  Step-IsSingle :
      {s s' : System V}
      → IsLive s
      → Step s s'
      → (s.cache.closed ≡ false → IsSingle s)
      → s'.cache.closed ≡ false
      → IsSingle s'
  unfolding FlightOf
  Step-IsSingle {s} live (calls_load_once key) h open_cache = record {
    in_flight = λ i k f c. (h open_cache).in_flight i k f (old-IsCreator s.calls key k i f c);
    one = λ i j k k' f c c'.
        (h open_cache).one i j k k' f (old-IsCreator s.calls key k i f c)
          (old-IsCreator s.calls key k' j f c');
  }
  Step-IsSingle {s} live (advances i {key} {point} {point'} answer {cache'} there goes) h
        open_cache =
      let facts : Flight key s.cache cache' point point' =
        subst (FlightOf key s.cache point) goes (advance-Flight key point answer s.cache) in
      advances-IsSingle s i key point point' cache' live (h (sym facts.closed ∙ open_cache)) there
        facts
  Step-IsSingle live closes h open_cache = absurd (true_not_false refl open_cache)
  Step-IsSingle live (clears closed) h open_cache = absurd (true_not_false closed open_cache)

  Run-IsSingle : {s : System V} → Run s → s.cache.closed ≡ false → IsSingle s
  Run-IsSingle starts open_cache = record {
    in_flight = λ i k f (p, at, creator). cc;
    one = λ i j k k' f (p, at, creator) c'. cc;
  }
  Run-IsSingle (then_step r step) open_cache =
      Step-IsSingle (Run-IsLive r) step (Run-IsSingle r) open_cache

  -- Until the cache is closed, two calls that load the same key at the same time are one and the
  -- same call, in whatever order the stretches of concurrent calls have run.
  pub Run-single_load :
      {s : System V} (i j : ℕ) (key : String) (f g : ℕ)
      → Run s
      → s.cache.closed ≡ false
      → IsCreator s.calls i key f
      → IsCreator s.calls j key g
      → i ≡ j
  Run-single_load i j key f g r open_cache c c' =
      let single = Run-IsSingle r open_cache in
      let same : g ≡ f =
        some-eq g f (sym (single.in_flight j key g c') ∙ single.in_flight i key f c) in
      single.one i j key key f c (subst (IsCreator _ j key) same c')
