-- ===== src/Reuse/Progress.antt =====
-- No call of `load_once` waits for ever.
use fast_page.Prelude.{
  ℕ, ◌<◌, ◌≡◌, ◌⊎◌, inl, inr, refl, sym, ap, subst, ◌∙◌, String, Bool, true, false, Option, none,
  some, List, [], ◌∷◌, ◌++◌, length, get_elem?, modify_at, get_elem?-append_lt, Bool-cases, arith,
  ◌==◌,
}
use fast_page.Reuse.Cache.{
  Future, pending, result, exception, RunReuseCache, Point, entering, closed_out, inside, waiting,
  loading, loaded, stored, failing, failed, returned, raised, advance, await,
}
use fast_page.Reuse.Runs.{
  System, Step, calls_load_once, advances, closes, clears, Run, starts, then_step,
}
use fast_page.Reuse.Below.{
  get_elem?-modify_at, is_done, get_elem?-lt, get_elem?-changed, get_elem?-snoc,
}
use fast_page.Reuse.Kept.{resolved, owned, AreKnown, Facts, FactsOf, advance-Facts}

module _ {V : Type 0} where
  -- A call that will yet resolve the future
  abbrev pub HasOwner : ℕ → List (String × Point V) → Type 0
  HasOwner f calls =
      (i : ℕ) × (key : String) × (point : Point V) × (get_elem? calls i ≡ some (key, point))
      × (owned point ≡ some f)

  pub record IsLive (s : System V) : Type 0 where
    pub live :
        (f : ℕ) → f < length s.cache.futures → (resolved s.cache f ≡ true) ⊎ HasOwner f s.calls
    pub known : AreKnown s.cache
    pub waits :
        (i : ℕ) (key : String) (f : ℕ)
        → get_elem? s.calls i ≡ some (key, waiting f)
        → f < length s.cache.futures

  pair-point :
      (key key' : String) (p p' : Point V) → ◌≡◌ {A = String × Point V} (key, p) (key', p') → p ≡ p'
  pair-point key key' p p' h = ap (λ (x : String × Point V). x.1) h

  entering-waiting : (f : ℕ) → ◌≡◌ {A = Point V} entering (waiting f) → ⊥
  entering-waiting f h = cc

  some-pair :
      {x y : String × Point V} → ◌≡◌ {A = Option (String × Point V)} (some x) (some y) → x ≡ y
  some-pair h = cc

  HasOwner-append :
      (f : ℕ) (calls : List (String × Point V)) (call : String × Point V)
      → HasOwner f calls
      → HasOwner f (calls ++ (call ∷ []))
  HasOwner-append f calls call (i, key, point, there, owns) = (
    i,
    key,
    point,
    get_elem?-append_lt i calls (call ∷ []) (get_elem?-lt i calls there) ∙ there,
    owns,
  )

  enters-IsLive :
      (s : System V) (key : String)
      → IsLive s
      → IsLive (record s { calls = s.calls ++ ((key, entering) ∷ []) })
  enters-IsLive s key h = record {
    live = λ f lt. elim (h.live f lt) [
      | inl done ↦ inl done
      | inr owner ↦ inr (HasOwner-append f s.calls (key, entering) owner)
    ];
    known = h.known;
    waits = λ i k f there. elim (get_elem?-snoc i (key, entering) s.calls there) [
      | inl new ↦ absurd (entering-waiting f (pair-point key k entering (waiting f) new))
      | inr old ↦ h.waits i k f old
    ];
  }

  module _ (s : System V) (i : ℕ) (key : String) (point point' : Point V) (cache' : RunReuseCache V)
      (h : IsLive s) (there : get_elem? s.calls i ≡ some (key, point))
      (facts : Facts s.cache cache' point point') where
    now_there : get_elem? (modify_at i (λ _. (key, point')) s.calls) i ≡ some (key, point')
    now_there =
        let same : (i == i) ≡ true = ground arith in
        get_elem?-modify_at i i (key, point') s.calls there ∙ (rw same refl)

    owner_after :
        (f : ℕ)
        → f < length s.cache.futures
        → HasOwner f s.calls
        → (resolved cache' f ≡ true) ⊎ HasOwner f (modify_at i (λ _. (key, point')) s.calls)
    owner_after f lt (j, k, p, at, owns) = elim (Bool-cases (i == j)) [
      | inl same ↦
          let i_is : j ≡ i = ground arith in
          let at_i : get_elem? s.calls i ≡ some (k, p) =
            subst (λ n. get_elem? s.calls n ≡ some (k, p)) i_is at in
          let p_is : p ≡ point = pair-point k key p point (some-pair (sym at_i ∙ there)) in
          elim (facts.handed f (subst (λ q. owned q ≡ some f) p_is owns) lt) [
            | inl still ↦ inr (i, key, point', now_there, still)
            | inr done ↦ inl done
          ]
      | inr other ↦
          inr (j, k, p, get_elem?-modify_at i j (key, point') s.calls at ∙ (rw other refl), owns)
    ]

    advances-IsLive :
        IsLive (record { cache = cache'; calls = modify_at i (λ _. (key, point')) s.calls })
    advances-IsLive = record {
      live = λ f lt. elim (facts.fresh f lt) [
        | inl old ↦ elim (h.live f old) [
          | inl done ↦ inl (facts.kept f done)
          | inr owner ↦ owner_after f old owner
        ]
        | inr owns ↦ inr (i, key, point', now_there, owns)
      ];
      known = facts.known;
      waits = λ j k f at. elim (get_elem?-changed i j (key, point') s.calls at) [
        | inl new ↦ facts.waits f (pair-point key k point' (waiting f) new)
        | inr old ↦ omega (arith, h.waits j k f old, facts.longer)
      ];
    }

  Step-IsLive : {s s' : System V} → Step s s' → IsLive s → IsLive s'
  unfolding FactsOf
  Step-IsLive {s} (calls_load_once key) h = enters-IsLive s key h
  Step-IsLive {s} (advances i {key} {point} {point'} answer {cache'} there goes) h =
      advances-IsLive s i key point point' cache' h there
        (subst (FactsOf s.cache point) goes (advance-Facts key point answer s.cache h.known))
  Step-IsLive closes h = record { live = h.live; known = h.known; waits = h.waits }
  Step-IsLive (clears closed) h = record { live = h.live; known = tt; waits = h.waits }

  pub Run-IsLive : {s : System V} → Run s → IsLive s
  Run-IsLive starts = record {
    live = λ f lt. absurd (omega (arith, lt));
    known = tt;
    waits = λ i key f there. cc;
  }
  Run-IsLive (then_step r step) = Step-IsLive step (Run-IsLive r)

  abbrev pub is_over : Point V → Bool
  is_over (returned v) = true
  is_over raised = true
  is_over _ = false

  -- Some call can go on, whatever the loaders answer.
  abbrev pub CanAdvance : System V → Type 0
  CanAdvance s =
      (answer : Option V)
      → (i : ℕ) × (key : String) × (point : Point V) × (after : RunReuseCache V × Point V)
        × (get_elem? s.calls i ≡ some (key, point))
        × (advance key point answer s.cache ≡ some after)

  owned-advance :
      (key : String) (point : Point V) (answer : Option V) (cache : RunReuseCache V) (f : ℕ)
      → owned point ≡ some f
      → (after : RunReuseCache V × Point V) × (advance key point answer cache ≡ some after)
  unfolding advance
  owned-advance key (loading g) answer cache f h = (_, refl)
  owned-advance key (loaded g v) answer cache f h = (_, refl)
  owned-advance key (stored g v) answer cache f h = (_, refl)
  owned-advance key (failing g) answer cache f h = (_, refl)
  owned-advance key _ answer cache f h = cc

  await-done :
      (o : Option (Future V)) (cache : RunReuseCache V)
      → is_done o ≡ true
      → (after : RunReuseCache V × Point V) × (await o cache ≡ some after)
  await-done none cache h = ground (arith, h)
  await-done (some pending) cache h = ground (arith, h)
  await-done (some (result v)) cache h = (_, refl)
  await-done (some exception) cache h = (_, refl)

  waiting-CanAdvance :
      (s : System V) (j : ℕ) (key : String) (f : ℕ)
      → IsLive s
      → get_elem? s.calls j ≡ some (key, waiting f)
      → CanAdvance s
  unfolding advance
  waiting-CanAdvance s j key f h at answer = elim (h.live f (h.waits j key f at)) [
    | inl done ↦
        let (after, goes) = await-done (get_elem? s.cache.futures f) s.cache done in
        (j, key, waiting f, after, at, goes)
    | inr (i, k, point, there, owns) ↦
        let (after, goes) = owned-advance k point answer s.cache f owns in
        (i, k, point, after, there, goes)
  ]

  -- In whatever state concurrent calls of `load_once` and `close` lead to, as long as some call is
  -- not over there is a call whose next stretch can run, whatever its loader answers.
  pub Run-CanAdvance :
      {s : System V} (j : ℕ) (key : String) (point : Point V)
      → Run s
      → get_elem? s.calls j ≡ some (key, point)
      → is_over point ≡ false
      → CanAdvance s
  unfolding advance
  Run-CanAdvance {s} j key (waiting f) r at open_call =
      waiting-CanAdvance s j key f (Run-IsLive r) at
  Run-CanAdvance j key entering r at open_call = λ answer. (j, key, _, _, at, refl)
  Run-CanAdvance j key closed_out r at open_call = λ answer. (j, key, _, _, at, refl)
  Run-CanAdvance j key inside r at open_call = λ answer. (j, key, _, _, at, refl)
  Run-CanAdvance j key (loading f) r at open_call = λ answer. (j, key, _, _, at, refl)
  Run-CanAdvance j key (loaded f v) r at open_call = λ answer. (j, key, _, _, at, refl)
  Run-CanAdvance j key (stored f v) r at open_call = λ answer. (j, key, _, _, at, refl)
  Run-CanAdvance j key (failing f) r at open_call = λ answer. (j, key, _, _, at, refl)
  Run-CanAdvance j key (failed f) r at open_call = λ answer. (j, key, _, _, at, refl)
  Run-CanAdvance j key (returned v) r at open_call = ground (arith, open_call)
  Run-CanAdvance j key raised r at open_call = ground (arith, open_call)
