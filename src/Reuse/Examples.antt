-- ===== src/Reuse/Examples.antt =====
-- Two calls for one key: the first loads, the second waits for it.
use fast_page.Prelude.{ℕ, ◌≡◌, refl, false, none, [], ◌∷◌}
use fast_page.Prelude.Dict.{lookup, insert}
use fast_page.Reuse.Cache.{pending, RunReuseCache, waiting, loading, advance}
use fast_page.Reuse.Runs.{System, calls_load_once, advances, Run, starts, then_step}
use fast_page.Reuse.Progress.{CanAdvance, Run-CanAdvance}
use fast_page.Reuse.OneLoad.{Run-single_load}

abbrev in_flight : RunReuseCache ℕ
in_flight = record {
  values = [];
  inflight = ("pages", 0) ∷ [];
  futures = pending ∷ [];
  closed = false;
}

abbrev one_waits : System ℕ
one_waits = record { cache = in_flight; calls = ("pages", loading 0) ∷ ("pages", waiting 0) ∷ [] }

two_calls : Run one_waits
unfolding advance lookup insert
two_calls =
    let both = then_step (then_step starts (calls_load_once "pages")) (calls_load_once "pages") in
    let first_in =
      then_step (then_step both (advances 0 none refl refl)) (advances 0 none refl refl) in
    then_step (then_step first_in (advances 1 none refl refl)) (advances 1 none refl refl)

Run-CanAdvance_example : CanAdvance one_waits
Run-CanAdvance_example = Run-CanAdvance 1 "pages" (waiting 0) two_calls refl refl

Run-single_load_example : ◌≡◌ {A = ℕ} 0 0
Run-single_load_example =
    Run-single_load {V = ℕ} 0 0 "pages" 0 0 two_calls refl (loading 0, refl, refl)
      (loading 0, refl, refl)
