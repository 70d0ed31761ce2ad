-- ===== src/Tests/Limits.antt =====
-- The rate limiter on concrete data.
use relays.Prelude.{◌≤◌, ◌≡◌, refl, some, [], ◌∷◌, ◌++◌, arith, ltb, if◌then◌else◌, length}
use relays.RateLimit.{SortedSet, sliding_window_limiter, inside, zcount}
use relays.RateLimit.Window.{live, sliding_window_limiter_lem}
use relays.RateLimit.Trace.{start, serve, request, sliding_window_bound}

-- With one request in thirty units, the requests at 0, 29 and 30 are allowed, refused, allowed.
cooldown_run : (serve 30 1 (0 ∷ 29 ∷ 30 ∷ []) (start 30)).allowed ≡ 0 ∷ 30 ∷ []
unfolding serve start request sliding_window_limiter inside zcount
cooldown_run = refl

sliding_window_bound_example :
    length (inside 30 30 (serve 30 1 (0 ∷ 29 ∷ 30 ∷ []) (start 30)).allowed) ≤ 1
sliding_window_bound_example =
    sliding_window_bound 1 30 (0 ∷ 29 ∷ 30 ∷ []) 30 (omega arith) (omega arith)

abbrev one_recent : SortedSet
one_recent = record { scores = 5 ∷ 20 ∷ []; expires_at = some 50 }

sliding_window_limiter_lem_example :
    ((sliding_window_limiter 1 30 40 one_recent).0 ≡ ltb (length (live 40 30 one_recent)) 1)
    × ((sliding_window_limiter 1 30 40 one_recent).1.scores ≡ (
        if ltb (length (live 40 30 one_recent)) 1
        then live 40 30 one_recent ++ 40 ∷ []
        else live 40 30 one_recent))
sliding_window_limiter_lem_example = sliding_window_limiter_lem 1 30 40 one_recent
