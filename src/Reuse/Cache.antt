-- ===== src/Reuse/Cache.antt =====
-- `RunReuseCache.load_once`, one step for each stretch that runs under the lock or touches a
-- future, and `close`. A key is the pair of namespace and key, written as one text. Paths of
-- temporary files are left out.
use fast_page.Prelude.{
  ℕ, String, Bool, Option, none, some, List, [], ◌∷◌, ◌++◌, length, get_elem?, modify_at, str_eq,
  if◌then◌else◌,
}
use fast_page.Prelude.Dict.{Dict, lookup, insert}

module _ (V : Type 0) where
  pub data Future : Type 0 where
    pending : Future
    result : V → Future
    exception : Future

  pub record RunReuseCache : Type 0 where
    pub values : Dict V
    pub inflight : Dict ℕ
    pub futures : List Future
    pub closed : Bool

  -- Where a call of `load_once` stands. A future is known by its number.
  pub data Point : Type 0 where
    entering : Point
    closed_out : Point
    inside : Point
    waiting : ℕ → Point
    loading : ℕ → Point
    loaded : ℕ → V → Point
    stored : ℕ → V → Point
    failing : ℕ → Point
    failed : ℕ → Point
    returned : V → Point
    raised : Point

-- `dict.pop(key, None)`
unfoldable pub pop {ℓ} : {A : Type ℓ} → String → Dict A → Dict A
pop key [] = []
pop key ((k, v) ∷ d) = let rest = pop key d in if str_eq k key then d else (k, v) ∷ rest

module _ {V : Type 0} where
  abbrev pub set_future : ℕ → Future V → RunReuseCache V → RunReuseCache V
  set_future f outcome cache = record cache { futures = modify_at f (λ _. outcome) cache.futures }

  abbrev pub pop_inflight : String → RunReuseCache V → RunReuseCache V
  pop_inflight key cache = record cache { inflight = pop key cache.inflight }

  -- The creator's branch, or a wait for the future that is there
  abbrev pub join : String → Option ℕ → RunReuseCache V → RunReuseCache V × Point V
  join key (some f) cache = (cache, waiting f)
  join key none cache = (
    record cache {
      futures = cache.futures ++ (pending ∷ []);
      inflight = insert key (length cache.futures) cache.inflight;
    },
    loading (length cache.futures),
  )

  abbrev pub look : String → Option V → RunReuseCache V → RunReuseCache V × Point V
  look key (some v) cache = (cache, returned v)
  look key none cache = join key (lookup key cache.inflight) cache

  abbrev pub await : Option (Future V) → RunReuseCache V → Option (RunReuseCache V × Point V)
  await (some (result v)) cache = some (cache, returned v)
  await (some exception) cache = some (cache, raised)
  await _ cache = none

  abbrev pub after_load : (V → Point V) → Point V → Option V → Point V
  after_load good bad none = bad
  after_load good bad (some v) = good v

  -- The next stretch of a call; `answer` is the loader's, `none` if it raises. No stretch follows
  -- a wait for a pending future, nor the end of the call.
  unfoldable pub advance :
      String → Point V → (answer : Option V) → RunReuseCache V → Option (RunReuseCache V × Point V)
  unfolding pop
  advance key entering answer cache = some (cache, if cache.closed then closed_out else inside)
  advance key closed_out answer cache = some (cache, after_load returned raised answer)
  advance key inside answer cache = some (look key (lookup key cache.values) cache)
  advance key (waiting f) answer cache = await (get_elem? cache.futures f) cache
  advance key (loading f) answer cache = some (cache, after_load (loaded f) (failing f) answer)
  advance key (loaded f v) answer cache =
      some (pop_inflight key (record cache { values = insert key v cache.values }), stored f v)
  advance key (stored f v) answer cache = some (set_future f (result v) cache, returned v)
  advance key (failing f) answer cache = some (set_future f exception cache, failed f)
  advance key (failed f) answer cache = some (pop_inflight key cache, raised)
  advance key (returned v) answer cache = none
  advance key raised answer cache = none
