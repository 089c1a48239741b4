-- ===== src/Cache/Followers.antt =====
-- The calls of `getOrSet` that return the promise of another call (src/cache/cache.service.ts).
use legacy_made_api.Prelude.{
  ℕ, ◌≡◌, ◌⊎◌, inl, inr, Option, some, List, [], ◌∷◌, arith, Text, ◌==◌, Bool-cases, refl,
}
use legacy_made_api.Cache.{
  Outcome, Phase, waiting, settled, Service, Event, call, access, access_fails, resume,
  factory_returns, write, step, run, new_service,
}
use legacy_made_api.Cache.Coalescing.{leads, IsCoalesced, step-IsCoalesced, new_service-IsCoalesced}

-- The key for which a call runs or has ended a promise.
abbrev pub serves : {V : Type 0} → Phase V → Option Text
serves (settled key _) = some key
serves p = leads p

-- Who waits, waits for a call that runs or has ended a promise for the same key.
abbrev pub IsServed : {V : Type 0} → Service V → Type 0
IsServed s = (r l : ℕ) (key : Text) → s.phase r ≡ waiting key l → serves (s.phase l) ≡ some key

module _ {V : Type 0} (l : ℕ) (key : Text) where
  step-settled :
      (o : Outcome V) (e : Event V) (s : Service V)
      → s.phase l ≡ settled key o
      → (step e s).phase l ≡ settled key o
  unfolding step
  step-settled o (call r k) s h = ground arith
  step-settled o (access r) s h = ground arith
  step-settled o (access_fails r) s h = ground arith
  step-settled o (resume r) s h = ground arith
  step-settled o (factory_returns r p) s h = ground arith
  step-settled o (write k v) s h = h

  step-serves :
      (e : Event V) (s : Service V)
      → serves (s.phase l) ≡ some key
      → serves ((step e s).phase l) ≡ some key
  unfolding step
  step-serves (call r k) s h = ground arith
  step-serves (access r) s h = ground arith
  step-serves (access_fails r) s h = ground arith
  step-serves (resume r) s h = ground arith
  step-serves (factory_returns r p) s h = ground arith
  step-serves (write k v) s h = h

  -- A call that waits after a step has waited before, or has found its key in the map.
  step-waiting :
      (e : Event V) (s : Service V) (r : ℕ)
      → (step e s).phase r ≡ waiting key l
      → (s.phase r ≡ waiting key l) ⊎ (s.in_flight key ≡ some l)
  unfolding step
  step-waiting (call q k) s r h = ground arith
  step-waiting (access q) s r h = ground arith
  step-waiting (access_fails q) s r h = ground arith
  step-waiting (resume q) s r h = ground arith
  step-waiting (factory_returns q p) s r h = ground arith
  step-waiting (write k v) s r h = inl h

  resume-follower :
      (s : Service V) (q r : ℕ) (p : Phase V)
      → s.phase l ≡ p
      → serves p ≡ some key
      → s.phase r ≡ waiting key l
      → ((step (resume q) s).phase r ≡ waiting key l)
        ⊎ ((o : Outcome V) × ((step (resume q) s).phase r ≡ settled key o)
            × (s.phase l ≡ settled key o))
  unfolding step
  resume-follower s q r (settled k o) e a h = elim (Bool-cases (r == q)) [
    | inl here ↦ inr (o, ground (arith, here), ground arith)
    | inr other ↦ inl (ground (arith, other))
  ]
  resume-follower s q r _ e a h = inl (ground arith)

  -- A call that has waited waits on, or has what the other call has.
  step-follower :
      (e : Event V) (s : Service V) (r : ℕ)
      → serves (s.phase l) ≡ some key
      → s.phase r ≡ waiting key l
      → ((step e s).phase r ≡ waiting key l)
        ⊎ ((o : Outcome V) × ((step e s).phase r ≡ settled key o) × (s.phase l ≡ settled key o))
  unfolding step
  step-follower (call q k) s r a h = inl (ground arith)
  step-follower (access q) s r a h = inl (ground arith)
  step-follower (access_fails q) s r a h = inl (ground arith)
  step-follower (resume q) s r a h = resume-follower s q r (s.phase l) refl a h
  step-follower (factory_returns q p) s r a h = inl (ground arith)
  step-follower (write k v) s r a h = inl h

module _ {V : Type 0} where
  step-IsServed : (e : Event V) (s : Service V) → IsCoalesced s → IsServed s → IsServed (step e s)
  step-IsServed e s inv served r l key h = elim (step-waiting l key e s r h) [
    | inl before ↦ step-serves l key e s (served r l key before)
    | inr mapped ↦ step-serves l key e s (ground (arith, inv.leading l key mapped))
  ]

  run-IsServed :
      (events : List (Event V)) (s : Service V)
      → IsCoalesced s
      → IsServed s
      → IsServed (run events s)
  unfolding run
  run-IsServed [] s inv served = served
  run-IsServed (e ∷ events) s inv served =
      run-IsServed events (step e s) (step-IsCoalesced e s inv) (step-IsServed e s inv served)

  run-settled :
      (events : List (Event V)) (s : Service V) (r : ℕ) (key : Text) (o : Outcome V)
      → s.phase r ≡ settled key o
      → (run events s).phase r ≡ settled key o
  unfolding run
  run-settled [] s r key o h = h
  run-settled (e ∷ events) s r key o h =
      run-settled events (step e s) r key o (step-settled r key o e s h)

  run-follower :
      (events : List (Event V)) (s : Service V) (r l : ℕ) (key : Text) (o : Outcome V)
      → serves (s.phase l) ≡ some key
      → s.phase r ≡ waiting key l
      → (run events s).phase r ≡ settled key o
      → (run events s).phase l ≡ settled key o
  unfolding run
  run-follower [] s r l key o a h done = ground arith
  run-follower (e ∷ events) s r l key o a h done = elim (step-follower l key e s r a h) [
    | inl waits ↦ run-follower events (step e s) r l key o (step-serves l key e s a) waits done
    | inr (o', mine, same) ↦
        let ended = run-settled events (step e s) r key o' mine in
        let theirs = run-settled events (step e s) l key o' (step-settled l key o' e s same) in
        ground arith
  ]

  -- A call that waits for the promise of another call for its key settles only as that call has
  -- settled, with the same value or with a rejection too, in whatever order the events come.
  pub followers_share :
      (events later : List (Event V)) (r l : ℕ) (key : Text) (o : Outcome V)
      → (run events new_service).phase r ≡ waiting key l
      → (run later (run events new_service)).phase r ≡ settled key o
      → (run later (run events new_service)).phase l ≡ settled key o
  followers_share events later r l key o h done =
      let s = run events new_service in
      let served =
        run-IsServed events new_service new_service-IsCoalesced (λ r' l' k waits. cc) r l key h in
      run-follower later s r l key o served h done
