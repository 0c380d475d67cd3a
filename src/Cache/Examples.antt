-- ===== src/Cache/Examples.antt =====
-- A cache with a time to live of ten, and calls of it.
use kumacore.Prelude.{ℕ, pos, [], ◌∷◌, ◌≡◌, arith, Eq-nat}
use kumacore.Cache.{Cache, new_cache, set, get_read, after_read}
use kumacore.Cache.View.{view}
use kumacore.Cache.Timeline.{
  Calls, IsTimed, getting, setting, replies, expected_replies, replies-new_cache,
}
use kumacore.Cache.Race.{perform_all, view-get_race}

abbrev some_calls : Calls ℕ ℕ
some_calls = (1, setting 5 50) ∷ (4, getting 5) ∷ (20, getting 5) ∷ (21, getting 5) ∷ []

some_calls-IsTimed : IsTimed 0 some_calls
some_calls-IsTimed = (omega arith, (omega arith, (omega arith, (omega arith, tt))))

replies-new_cache_example :
    replies (new_cache (pos 10)) some_calls ≡ expected_replies (pos 10) [] some_calls
replies-new_cache_example = replies-new_cache (pos 10) 0 some_calls some_calls-IsTimed

abbrev stale : Cache ℕ ℕ
stale = set 1 5 50 (new_cache (pos 10))

abbrev rewriting : Calls ℕ ℕ
rewriting = (20, setting 5 51) ∷ []

view-get_race_example :
    view (after_read 20 5 (get_read 20 5 stale) (perform_all rewriting stale)).0 25 5
    ≡ view (perform_all rewriting stale) 25 5
view-get_race_example = view-get_race 20 20 25 5 5 rewriting stale (omega arith)
