-- ===== src/Reuse/Kept.antt =====
-- What a stretch of a call keeps of the futures.
use fast_page.Prelude.{
  ℕ, ◌≤◌, ◌<◌, ◌≡◌, ◌≢◌, ◌⊎◌, inl, inr, refl, sym, ap, subst, ◌∙◌, String, Bool, true, Option, none,
  some, List, [], ◌∷◌, ◌++◌, length, get_elem?, length-append, length-modify_at,
  get_elem?-append_lt, get_elem?-ge, if◌then◌else◌, Bool-cases, Option-cases, arith, ltb, ◌==◌,
}
use fast_page.Prelude.Dict.{lookup, insert}
use fast_page.Reuse.Cache.{
  Future, pending, result, exception, RunReuseCache, Point, entering, closed_out, inside, waiting,
  loading, loaded, stored, failing, failed, returned, raised, set_future, join, await, advance,
}
use fast_page.Reuse.Below.{
  some-eq, get_elem?-modify_at, get_elem?-some, is_done, AreBelow, AreBelow-pop, AreBelow-insert,
  AreBelow-lookup,
}

module _ {V : Type 0} where
  abbrev pub resolved : RunReuseCache V → ℕ → Bool
  resolved cache f = is_done (get_elem? cache.futures f)

  -- The future that a call will yet resolve
  abbrev pub owned : Point V → Option ℕ
  owned (loading f) = some f
  owned (loaded f v) = some f
  owned (stored f v) = some f
  owned (failing f) = some f
  owned _ = none

  -- The futures of calls under way are all there.
  abbrev pub AreKnown : RunReuseCache V → Type 0
  AreKnown cache = AreBelow (length cache.futures) cache.inflight

  resolved-set_future :
      (f g : ℕ) (outcome : Future V) (cache : RunReuseCache V)
      → is_done (some outcome) ≡ true
      → resolved cache g ≡ true
      → resolved (set_future f outcome cache) g ≡ true
  resolved-set_future f g outcome cache h done = elim (Option-cases (get_elem? cache.futures g)) [
    | inl missing ↦ ground (arith, missing)
    | inr (x, found) ↦
        rw (get_elem?-modify_at f g outcome cache.futures found) (elim (Bool-cases (f == g)) [
          | inl same ↦ rw same h
          | inr other ↦ rw other (ap is_done (sym found) ∙ done)
        ])
  ]

  pub record Facts (cache cache' : RunReuseCache V) (point point' : Point V) : Type 0 where
    pub longer : length cache.futures ≤ length cache'.futures
    pub kept : (f : ℕ) → resolved cache f ≡ true → resolved cache' f ≡ true
    pub handed :
        (f : ℕ)
        → owned point ≡ some f
        → f < length cache.futures
        → (owned point' ≡ some f) ⊎ (resolved cache' f ≡ true)
    pub fresh :
        (f : ℕ) → f < length cache'.futures → (f < length cache.futures) ⊎ (owned point' ≡ some f)
    pub known : AreKnown cache'
    pub waits : (f : ℕ) → point' ≡ waiting f → f < length cache'.futures

  -- The futures stay as they are, and so does what the call owns.
  same_futures :
      (cache cache' : RunReuseCache V) (point point' : Point V)
      → cache'.futures ≡ cache.futures
      → AreKnown cache'
      → ((f : ℕ) → owned point ≡ some f → (owned point' ≡ some f) ⊎ (resolved cache' f ≡ true))
      → ((f : ℕ) → point' ≡ waiting f → f < length cache'.futures)
      → Facts cache cache' point point'
  same_futures cache cache' point point' same known handed waits = record {
    longer = omega (arith, ap length same);
    kept = λ f h. ap (λ fs. is_done (get_elem? fs f)) same ∙ h;
    handed = λ f h _. handed f h;
    fresh = λ f lt. inl (omega (arith, ap length same, lt));
    known = known;
    waits = waits;
  }

  unfoldable pub FactsOf : RunReuseCache V → Point V → Option (RunReuseCache V × Point V) → Type 0
  FactsOf cache point none = Unit
  FactsOf cache point (some (cache', point')) = Facts cache cache' point point'

  waiting-eq : (f g : ℕ) → ◌≡◌ {A = Point V} (waiting f) (waiting g) → f ≡ g
  waiting-eq f g h = cc

  resolved-append :
      (f : ℕ) (fs : List (Future V))
      → is_done (get_elem? fs f) ≡ true
      → is_done (get_elem? (fs ++ (pending ∷ [])) f) ≡ true
  resolved-append f fs h = elim (Bool-cases (ltb f (length fs))) [
    | inl before ↦ ap is_done (get_elem?-append_lt f fs (pending ∷ []) (ground (arith, before))) ∙ h
    | inr beyond ↦ ground (arith, beyond, get_elem?-ge f fs (ground (arith, beyond)))
  ]

  join-Facts :
      (key : String) (cache : RunReuseCache V)
      → AreKnown cache
      → (o : Option ℕ) → lookup key cache.inflight ≡ o
      → FactsOf cache inside (some (join key o cache))
  unfolding FactsOf
  join-Facts key cache known (some f) h =
      same_futures cache cache inside (waiting f) refl known (λ g e. cc)
        (λ g e.
          subst (λ n. n < length cache.futures) (waiting-eq f g e)
            (AreBelow-lookup (length cache.futures) key cache.inflight known h))
  join-Facts key cache known none h =
      let one_more = length-append cache.futures (pending ∷ []) in
      record {
        longer = omega (arith, one_more);
        kept = λ f h. resolved-append f cache.futures h;
        handed = λ f h _. cc;
        fresh = λ f lt. elim (Bool-cases (f == length cache.futures)) [
          | inl last ↦ inr (ap some (ground (arith, last)))
          | inr earlier ↦ inl (ground (arith, earlier, one_more, lt))
        ];
        known =
            subst (λ n. AreBelow n (insert key (length cache.futures) cache.inflight))
              (omega (arith, one_more))
              (AreBelow-insert (length cache.futures) key cache.inflight known);
        waits = λ f h. cc;
      }

  set_future-resolved :
      (f : ℕ) (outcome : Future V) (cache : RunReuseCache V)
      → is_done (some outcome) ≡ true
      → f < length cache.futures
      → resolved (set_future f outcome cache) f ≡ true
  set_future-resolved f outcome cache done lt =
      let (x, found) = get_elem?-some f cache.futures lt in
      let same : (f == f) ≡ true = ground arith in
      rw (get_elem?-modify_at f f outcome cache.futures found) (rw same done)

  -- A resolved future, with nothing handed on
  resolves :
      (f : ℕ) (outcome : Future V) (cache : RunReuseCache V) (point point' : Point V)
      → AreKnown cache
      → is_done (some outcome) ≡ true
      → owned point ≡ some f
      → ((g : ℕ) → point' ≢ waiting g)
      → Facts cache (set_future f outcome cache) point point'
  resolves f outcome cache point point' known done owns no_wait =
      let same = length-modify_at f (λ _. outcome) cache.futures in
      record {
        longer = omega (arith, same);
        kept = λ g h. resolved-set_future f g outcome cache done h;
        handed = λ g h lt. inr (
            subst (λ n. resolved (set_future f outcome cache) n ≡ true) (some-eq f g (sym owns ∙ h))
              (set_future-resolved f outcome cache done
                (subst (λ n. n < length cache.futures) (sym (some-eq f g (sym owns ∙ h))) lt)));
        fresh = λ g lt. inl (omega (arith, same, lt));
        known = subst (λ n. AreBelow n cache.inflight) (sym same) known;
        waits = λ g h. absurd (no_wait g h);
      }

  await-Facts :
      (f : ℕ) (cache : RunReuseCache V)
      → AreKnown cache
      → (o : Option (Future V)) → FactsOf cache (waiting f) (await o cache)
  unfolding FactsOf
  await-Facts f cache known none = tt
  await-Facts f cache known (some pending) = tt
  await-Facts f cache known (some (result v)) =
      same_futures cache cache (waiting f) (returned v) refl known (λ g e. cc) (λ g e. cc)
  await-Facts f cache known (some exception) =
      same_futures cache cache (waiting f) raised refl known (λ g e. cc) (λ g e. cc)

  pub advance-Facts :
      (key : String) (point : Point V) (answer : Option V) (cache : RunReuseCache V)
      → AreKnown cache
      → FactsOf cache point (advance key point answer cache)
  unfolding advance FactsOf
  advance-Facts key entering answer cache known =
      same_futures cache cache entering (if cache.closed then closed_out else inside) refl known
        (λ g e. cc) (λ g e. ground arith)
  advance-Facts key closed_out none cache known =
      same_futures cache cache closed_out raised refl known (λ g e. cc) (λ g e. cc)
  advance-Facts key closed_out (some v) cache known =
      same_futures cache cache closed_out (returned v) refl known (λ g e. cc) (λ g e. cc)
  advance-Facts key inside answer cache known = elim (Option-cases (lookup key cache.values)) [
    | inl absent ↦ rw absent (join-Facts key cache known (lookup key cache.inflight) refl)
    | inr (v, there) ↦
        rw there (same_futures cache cache inside (returned v) refl known (λ g e. cc) (λ g e. cc))
  ]
  advance-Facts key (waiting f) answer cache known =
      await-Facts f cache known (get_elem? cache.futures f)
  advance-Facts key (loading f) none cache known =
      same_futures cache cache (loading f) (failing f) refl known (λ g e. inl e) (λ g e. cc)
  advance-Facts key (loading f) (some v) cache known =
      same_futures cache cache (loading f) (loaded f v) refl known (λ g e. inl e) (λ g e. cc)
  advance-Facts key (loaded f v) answer cache known =
      same_futures cache _ (loaded f v) (stored f v) refl
        (AreBelow-pop (length cache.futures) key cache.inflight known) (λ g e. inl e) (λ g e. cc)
  advance-Facts key (stored f v) answer cache known =
      resolves f (result v) cache (stored f v) (returned v) known refl refl (λ g e. cc)
  advance-Facts key (failing f) answer cache known =
      resolves f exception cache (failing f) (failed f) known refl refl (λ g e. cc)
  advance-Facts key (failed f) answer cache known =
      same_futures cache _ (failed f) raised refl
        (AreBelow-pop (length cache.futures) key cache.inflight known) (λ g e. cc) (λ g e. cc)
  advance-Facts key (returned v) answer cache known = tt
  advance-Facts key raised answer cache known = tt
