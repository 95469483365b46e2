-- ===== src/Reuse/Creators.antt =====
-- What a stretch of a call does to the futures in flight.
use fast_page.Prelude.{
  ℕ, ◌≡◌, ◌≢◌, ◌⊎◌, inl, inr, refl, sym, ap, ◌∙◌, String, true, false, Option, none, some, [], ◌∷◌,
  length, get_elem?, str_eq, if◌then◌else◌, Option-cases, arith, eq_iff,
}
use fast_page.Prelude.Dict.{Dict, lookup, insert, lookup-insert}
use fast_page.Reuse.Cache.{
  Future, pending, result, exception, RunReuseCache, Point, entering, closed_out, inside, waiting,
  loading, loaded, stored, failing, failed, returned, raised, pop, advance, await, join,
}
use fast_page.Reuse.Below.{some-eq}

lookup-pop_other :
    {A : Type 0} (key k : String) (d : Dict A)
    → str_eq key k ≡ false
    → lookup k (pop key d) ≡ lookup k d
unfolding lookup pop
lookup-pop_other key k [] h = refl
lookup-pop_other key k ((j, v) ∷ d) h =
    ground (arith, lookup-pop_other key k d h, eq_iff j key, eq_iff j k, eq_iff key k)

lookup-insert_other :
    {A : Type 0} (key k : String) (v : A) (d : Dict A)
    → str_eq key k ≡ false
    → lookup k (insert key v d) ≡ lookup k d
lookup-insert_other key k v d h = lookup-insert key k v d ∙ (rw h refl)

module _ {V : Type 0} where
  -- The future of a call that loads, as long as the future is in flight
  abbrev pub creates : Point V → Option ℕ
  creates (loading f) = some f
  creates (loaded f v) = some f
  creates (failing f) = some f
  creates (failed f) = some f
  creates _ = none

  pub record Flight (key : String) (cache cache' : RunReuseCache V) (point point' : Point V)
      : Type 0 where
    pub closed : cache'.closed ≡ cache.closed
    pub others :
        (k : String) → str_eq key k ≡ false → lookup k cache'.inflight ≡ lookup k cache.inflight
    pub own :
        (f : ℕ)
        → creates point' ≡ some f
        → ((creates point ≡ some f) × (cache'.inflight ≡ cache.inflight))
          ⊎ ((f ≡ length cache.futures)
              × (lookup key cache'.inflight ≡ some f)
              × (lookup key cache.inflight ≡ none))
    pub same_key :
        (cache'.inflight ≡ cache.inflight)
        ⊎ ((lookup key cache.inflight ≡ none) ⊎ ((f : ℕ) × (creates point ≡ some f)))

  -- The futures in flight stay, and the call creates none anew.
  stays :
      (key : String) (cache cache' : RunReuseCache V) (point point' : Point V)
      → cache'.closed ≡ cache.closed
      → cache'.inflight ≡ cache.inflight
      → ((f : ℕ) → creates point' ≡ some f → creates point ≡ some f)
      → Flight key cache cache' point point'
  stays key cache cache' point point' closed same own = record {
    closed = closed;
    others = λ k h. ap (lookup k) same;
    own = λ f h. inl (own f h, same);
    same_key = inl same;
  }

  -- The call takes its own future out.
  pops :
      (key : String) (cache cache' : RunReuseCache V) (point point' : Point V) (g : ℕ)
      → cache'.closed ≡ cache.closed
      → cache'.inflight ≡ pop key cache.inflight
      → creates point ≡ some g
      → ((f : ℕ) → creates point' ≢ some f)
      → Flight key cache cache' point point'
  pops key cache cache' point point' g closed popped creator over = record {
    closed = closed;
    others = λ k h. ap (lookup k) popped ∙ lookup-pop_other key k cache.inflight h;
    own = λ f h. absurd (over f h);
    same_key = inr (inr (g, creator));
  }

  unfoldable pub FlightOf :
      String → RunReuseCache V → Point V → Option (RunReuseCache V × Point V) → Type 0
  FlightOf key cache point none = Unit
  FlightOf key cache point (some (cache', point')) = Flight key cache cache' point point'

  join-Flight :
      (key : String) (cache : RunReuseCache V) (o : Option ℕ)
      → lookup key cache.inflight ≡ o
      → FlightOf key cache inside (some (join key o cache))
  unfolding FlightOf
  join-Flight key cache (some f) h = stays key cache cache inside (waiting f) refl refl (λ g e. cc)
  join-Flight key cache none h =
      let n = length cache.futures in
      let same : str_eq key key ≡ true = (eq_iff key key).1 refl in
      let there : lookup key (insert key n cache.inflight) ≡ some n =
        lookup-insert key key n cache.inflight ∙ (rw same refl) in
      record {
        closed = refl;
        others = λ k differs. lookup-insert_other key k n cache.inflight differs;
        own = λ f e. inr (some-eq f n (sym e), there ∙ e, h);
        same_key = inr (inl h);
      }

  await-Flight :
      (key : String) (f : ℕ) (cache : RunReuseCache V) (o : Option (Future V))
      → FlightOf key cache (waiting f) (await o cache)
  unfolding FlightOf
  await-Flight key f cache none = tt
  await-Flight key f cache (some pending) = tt
  await-Flight key f cache (some (result v)) =
      stays key cache cache (waiting f) (returned v) refl refl (λ g e. cc)
  await-Flight key f cache (some exception) =
      stays key cache cache (waiting f) raised refl refl (λ g e. cc)

  pub advance-Flight :
      (key : String) (point : Point V) (answer : Option V) (cache : RunReuseCache V)
      → FlightOf key cache point (advance key point answer cache)
  unfolding advance FlightOf
  advance-Flight key entering answer cache =
      stays key cache cache entering (if cache.closed then closed_out else inside) refl refl
        (λ g e. ground arith)
  advance-Flight key closed_out none cache =
      stays key cache cache closed_out raised refl refl (λ g e. cc)
  advance-Flight key closed_out (some v) cache =
      stays key cache cache closed_out (returned v) refl refl (λ g e. cc)
  advance-Flight key inside answer cache = elim (Option-cases (lookup key cache.values)) [
    | inl absent ↦ rw absent (join-Flight key cache (lookup key cache.inflight) refl)
    | inr (v, there) ↦ rw there (stays key cache cache inside (returned v) refl refl (λ g e. cc))
  ]
  advance-Flight key (waiting f) answer cache = await-Flight key f cache (get_elem? cache.futures f)
  advance-Flight key (loading f) none cache =
      stays key cache cache (loading f) (failing f) refl refl (λ g e. e)
  advance-Flight key (loading f) (some v) cache =
      stays key cache cache (loading f) (loaded f v) refl refl (λ g e. e)
  advance-Flight key (loaded f v) answer cache =
      pops key cache _ (loaded f v) (stored f v) f refl refl refl (λ g e. cc)
  advance-Flight key (stored f v) answer cache =
      stays key cache _ (stored f v) (returned v) refl refl (λ g e. cc)
  advance-Flight key (failing f) answer cache =
      stays key cache _ (failing f) (failed f) refl refl (λ g e. e)
  advance-Flight key (failed f) answer cache =
      pops key cache _ (failed f) raised f refl refl refl (λ g e. cc)
  advance-Flight key (returned v) answer cache = tt
  advance-Flight key raised answer cache = tt
