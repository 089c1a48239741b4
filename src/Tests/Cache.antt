-- ===== src/Tests/Cache.antt =====
-- Examples for src/cache/cache.service.ts.
use legacy_made_api.Prelude.{ℕ, ◌≡◌, refl, some, List, [], ◌∷◌}
use legacy_made_api.Cache.{
  Event, call, access, resume, factory_returns, resolved, settled, Service, run, new_service,
}
use legacy_made_api.Cache.Coalescing.{leads, one_factory}
use legacy_made_api.Cache.Followers.{followers_share}

-- Two calls for the key 5 that overlap.
abbrev overlapping : List (Event ℕ)
overlapping = call 0 5 ∷ call 1 5 ∷ access 0 ∷ access 1 ∷ resume 0 ∷ resume 1 ∷ []

-- The first one computes 77 and stores it; the second one gets it.
abbrev finishing : List (Event ℕ)
finishing =
    access 0 ∷ resume 0 ∷ factory_returns 0 (resolved 77) ∷ access 0 ∷ resume 0 ∷ resume 1 ∷ []

one_factory_example :
    ((r' : ℕ) → leads ((run overlapping new_service).phase r') ≡ some 5 → r' ≡ 0)
    × ((r' : ℕ) → (run overlapping new_service).in_flight 5 ≡ some r' → r' ≡ 0)
unfolding run legacy_made_api.Cache.step
one_factory_example = one_factory overlapping 0 5 refl

followers_share_example :
    (run finishing (run overlapping new_service)).phase 0 ≡ settled 5 (resolved 77)
unfolding run legacy_made_api.Cache.step
followers_share_example = followers_share overlapping finishing 1 0 5 (resolved 77) refl refl
