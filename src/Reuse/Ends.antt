-- ===== src/Reuse/Ends.antt =====
-- A call of `load_once` has few stretches.
use fast_page.Prelude.{ℕ, ◌<◌, Option, none, some}
use fast_page.Reuse.Cache.{
  RunReuseCache, Point, entering, closed_out, inside, waiting, loading, loaded, stored, failing,
  failed, returned, raised,
}

module _ {V : Type 0} where
  -- How many stretches a call may still have
  abbrev pub stretches_left : Point V → ℕ
  stretches_left entering = 5
  stretches_left closed_out = 1
  stretches_left inside = 4
  stretches_left (waiting f) = 1
  stretches_left (loading f) = 3
  stretches_left (loaded f v) = 2
  stretches_left (stored f v) = 1
  stretches_left (failing f) = 2
  stretches_left (failed f) = 1
  stretches_left (returned v) = 0
  stretches_left raised = 0

  IsLess : ℕ → Option (RunReuseCache V × Point V) → Type 0
  IsLess n none = Unit
  IsLess n (some (cache, point)) = stretches_left point < n
