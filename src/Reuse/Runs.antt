-- ===== src/Reuse/Runs.antt =====
-- Runs of concurrent calls of `load_once` on one cache, with `close` in two stretches.
use fast_page.Prelude.{
  ℕ, ◌≡◌, String, true, false, Option, some, List, [], ◌∷◌, ◌++◌, get_elem?, modify_at,
}
use fast_page.Reuse.Cache.{RunReuseCache, Point, entering, advance}

pub record System (V : Type 0) : Type 0 where
  pub cache : RunReuseCache V
  pub calls : List (String × Point V)

abbrev pub empty_cache : (V : Type 0) → RunReuseCache V
empty_cache V = record { values = []; inflight = []; futures = []; closed = false }

module _ {V : Type 0} where
  pub data Step (s : System V) : System V → Type 0 where
    calls_load_once :
        (key : String) → Step s (record s { calls = s.calls ++ ((key, entering) ∷ []) })
    advances :
        (i : ℕ) {key : String} {point point' : Point V} (answer : Option V)
        {cache' : RunReuseCache V}
        → get_elem? s.calls i ≡ some (key, point)
        → advance key point answer s.cache ≡ some (cache', point')
        → Step s (record { cache = cache'; calls = modify_at i (λ _. (key, point')) s.calls })
    closes : Step s (record s { cache = record s.cache { closed = true } })
    clears :
        s.cache.closed ≡ true
        → Step s (record s { cache = record s.cache { values = []; inflight = [] } })

  pub data Run : System V → Type 0 where
    starts : Run (record { cache = empty_cache V; calls = [] })
    then_step : {s s' : System V} → Run s → Step s s' → Run s'
