-- ===== src/Cache.antt =====
-- `CacheService` (src/cache/cache.service.ts): the calls of `getOrSet` as tasks of the event loop,
-- which runs the code between two `await`s without a break. The store of cache-manager may change at
-- any time, by `set`, by `del` or because an entry is too old, and its calls may fail; what the
-- factory of a caller returns is an event too.
pub mod Coalescing
pub mod Followers
use legacy_made_api.Prelude.{ℕ, Option, none, some, List, [], ◌∷◌, Text, ◌==◌, if◌then◌else◌}

-- What a promise settles with.
pub data Outcome (V : Type 0) : Type 0 where
  resolved : V → Outcome V
  rejected : Outcome V

-- Where a call of `getOrSet` stands; `none` is undefined or null.
pub data Phase (V : Type 0) : Type 0 where
  idle : Phase V
  -- at the first `await this.cache.get(key)`, with and without its answer
  getting : Text → Phase V
  got : Text → Option V → Phase V
  -- it returned the promise of another call
  waiting : Text → ℕ → Phase V
  -- in the promise of its own: the second `get`, the factory, and `set`
  rechecking : Text → Phase V
  rechecked : Text → Option V → Phase V
  computing : Text → Phase V
  storing : Text → V → Phase V
  stored : Text → V → Phase V
  settled : Text → Outcome V → Phase V

-- The service, with the calls by their numbers: `inFlight` maps a key to the call whose promise it is.
pub record Service (V : Type 0) : Type 0 where
  pub cached : Text → Option V
  pub in_flight : Text → Option ℕ
  pub phase : ℕ → Phase V

pub data Event (V : Type 0) : Type 0 where
  -- a caller calls `getOrSet` with a key
  call : ℕ → Text → Event V
  -- the store does, or fails to do, what a call awaits
  access : ℕ → Event V
  access_fails : ℕ → Event V
  -- the code after an `await` of the service runs
  resume : ℕ → Event V
  -- the promise of a call's factory settles
  factory_returns : ℕ → Outcome V → Event V
  -- the entry of a key is replaced or removed by others
  write : Text → Option V → Event V

abbrev pub at : {A : Type 0} → (ℕ → A) → ℕ → A → ℕ → A
at f i a j = if j == i then a else f j

module _ {V : Type 0} where
  abbrev pub move : Service V → ℕ → Phase V → Service V
  move s r p = record s { phase = at s.phase r p }

  -- `finally { this.inFlight.delete(key) }`, and the promise settles
  abbrev pub settle : Service V → ℕ → Text → Outcome V → Service V
  settle s r key o = record s {
    in_flight = at s.in_flight key none;
    phase = at s.phase r (settled key o);
  }

  -- the code behind the first `get` that found nothing
  abbrev pub join_or_lead : Service V → ℕ → Text → Option ℕ → Service V
  join_or_lead s r key (some leader) = move s r (waiting key leader)
  join_or_lead s r key none = record s {
    in_flight = at s.in_flight key (some r);
    phase = at s.phase r (rechecking key);
  }

  -- a promise that settles resumes the calls that returned it
  abbrev pub follow : Service V → ℕ → Text → Phase V → Service V
  follow s r key (settled _ o) = move s r (settled key o)
  follow s r key _ = s

  abbrev pub started : Service V → ℕ → Text → Phase V → Service V
  started s r key idle = move s r (getting key)
  started s r key _ = s

  abbrev pub accessed : Service V → ℕ → Phase V → Service V
  accessed s r (getting key) = move s r (got key (s.cached key))
  accessed s r (rechecking key) = move s r (rechecked key (s.cached key))
  accessed s r (storing key v) = record s {
    cached = at s.cached key (some v);
    phase = at s.phase r (stored key v);
  }
  accessed s r _ = s

  abbrev pub failed : Service V → ℕ → Phase V → Service V
  failed s r (getting key) = move s r (settled key rejected)
  failed s r (rechecking key) = settle s r key rejected
  failed s r (storing key _) = settle s r key rejected
  failed s r _ = s

  abbrev pub resumed : Service V → ℕ → Phase V → Service V
  resumed s r (got key (some v)) = move s r (settled key (resolved v))
  resumed s r (got key none) = join_or_lead s r key (s.in_flight key)
  resumed s r (waiting key leader) = follow s r key (s.phase leader)
  resumed s r (rechecked key (some v)) = settle s r key (resolved v)
  resumed s r (rechecked key none) = move s r (computing key)
  resumed s r (stored key v) = settle s r key (resolved v)
  resumed s r _ = s

  abbrev pub computed : Service V → ℕ → Outcome V → Phase V → Service V
  computed s r (resolved v) (computing key) = move s r (storing key v)
  computed s r rejected (computing key) = settle s r key rejected
  computed s r _ _ = s

  unfoldable pub step : Event V → Service V → Service V
  step (call r key) s = started s r key (s.phase r)
  step (access r) s = accessed s r (s.phase r)
  step (access_fails r) s = failed s r (s.phase r)
  step (resume r) s = resumed s r (s.phase r)
  step (factory_returns r o) s = computed s r o (s.phase r)
  step (write key v) s = record s { cached = at s.cached key v }

  unfoldable pub run : List (Event V) → Service V → Service V
  run [] s = s
  run (e ∷ events) s = run events (step e s)

  -- The service with an empty store and before any call.
  abbrev pub new_service : Service V
  new_service = record { cached = λ _. none; in_flight = λ _. none; phase = λ _. idle }
