-- ===== src/Cache/Coalescing.antt =====
-- The calls of `getOrSet` for one key share one run of the factory (src/cache/cache.service.ts).
use legacy_made_api.Prelude.{ℕ, ◌≡◌, refl, sym, ap, Option, none, some, List, [], ◌∷◌, arith, Text}
use legacy_made_api.Cache.{
  Outcome, resolved, rejected, Phase, idle, getting, got, waiting, rechecking, rechecked, computing,
  storing, stored, settled, Service, Event, call, access, access_fails, resume, factory_returns,
  write, move, settle, step, run, new_service, join_or_lead, follow, started, accessed, failed,
  resumed, computed,
}

-- The key for which a call runs a promise of its own.
abbrev pub leads : {V : Type 0} → Phase V → Option Text
leads idle = none
leads (getting _) = none
leads (got _ _) = none
leads (waiting _ _) = none
leads (rechecking key) = some key
leads (rechecked key _) = some key
leads (computing key) = some key
leads (storing key _) = some key
leads (stored key _) = some key
leads (settled _ _) = none

-- The map of promises holds exactly those that are not settled.
pub record IsCoalesced {V : Type 0} (s : Service V) : Type 0 where
  pub known : (r : ℕ) (key : Text) → leads (s.phase r) ≡ some key → s.in_flight key ≡ some r
  pub leading : (r : ℕ) (key : Text) → s.in_flight key ≡ some r → leads (s.phase r) ≡ some key

module _ {V : Type 0} (s : Service V) (r : ℕ) (inv : IsCoalesced s) where
  move-IsCoalesced : (p : Phase V) → leads p ≡ leads (s.phase r) → IsCoalesced (move s r p)
  move-IsCoalesced p same = record {
    known = λ r' key h. ground (arith, inv.known r' key);
    leading = λ r' key h. ground (arith, inv.leading r' key);
  }

  settle-IsCoalesced :
      (key : Text) (o : Outcome V) → leads (s.phase r) ≡ some key → IsCoalesced (settle s r key o)
  settle-IsCoalesced key o leader = record {
    known = λ r' k h. ground (arith, inv.known r' k, inv.known r key);
    leading = λ r' k h. ground (arith, inv.leading r' k);
  }

  lead-IsCoalesced :
      (key : Text)
      → leads (s.phase r) ≡ none
      → s.in_flight key ≡ none
      → IsCoalesced (join_or_lead s r key none)
  lead-IsCoalesced key follower free = record {
    known = λ r' k h. ground (arith, inv.known r' k);
    leading = λ r' k h. ground (arith, inv.leading r' k);
  }

  store-IsCoalesced :
      (key : Text) (v : V) → s.phase r ≡ storing key v → IsCoalesced (accessed s r (storing key v))
  store-IsCoalesced key v here = record {
    known = λ r' k h. ground (arith, inv.known r' k);
    leading = λ r' k h. ground (arith, inv.leading r' k);
  }

  join_or_lead-IsCoalesced :
      (key : Text) (o : Option ℕ)
      → leads (s.phase r) ≡ none
      → s.in_flight key ≡ o
      → IsCoalesced (join_or_lead s r key o)
  join_or_lead-IsCoalesced key (some leader) follower e =
      move-IsCoalesced (waiting key leader) (sym follower)
  join_or_lead-IsCoalesced key none follower e = lead-IsCoalesced key follower e

  follow-IsCoalesced :
      (key : Text) (leader : ℕ) (p : Phase V)
      → s.phase r ≡ waiting key leader
      → IsCoalesced (follow s r key p)
  follow-IsCoalesced key leader (settled _ o) h =
      move-IsCoalesced (settled key o) (sym (ap leads h))
  follow-IsCoalesced key leader _ h = inv

  started-IsCoalesced : (key : Text) (p : Phase V) → s.phase r ≡ p → IsCoalesced (started s r key p)
  started-IsCoalesced key idle h = move-IsCoalesced (getting key) (sym (ap leads h))
  started-IsCoalesced key _ h = inv

  accessed-IsCoalesced : (p : Phase V) → s.phase r ≡ p → IsCoalesced (accessed s r p)
  accessed-IsCoalesced (getting key) h =
      move-IsCoalesced (got key (s.cached key)) (sym (ap leads h))
  accessed-IsCoalesced (rechecking key) h =
      move-IsCoalesced (rechecked key (s.cached key)) (sym (ap leads h))
  accessed-IsCoalesced (storing key v) h = store-IsCoalesced key v h
  accessed-IsCoalesced _ h = inv

  failed-IsCoalesced : (p : Phase V) → s.phase r ≡ p → IsCoalesced (failed s r p)
  failed-IsCoalesced (getting key) h = move-IsCoalesced (settled key rejected) (sym (ap leads h))
  failed-IsCoalesced (rechecking key) h = settle-IsCoalesced key rejected (ap leads h)
  failed-IsCoalesced (storing key v) h = settle-IsCoalesced key rejected (ap leads h)
  failed-IsCoalesced _ h = inv

  resumed-IsCoalesced : (p : Phase V) → s.phase r ≡ p → IsCoalesced (resumed s r p)
  resumed-IsCoalesced (got key (some v)) h =
      move-IsCoalesced (settled key (resolved v)) (sym (ap leads h))
  resumed-IsCoalesced (got key none) h =
      join_or_lead-IsCoalesced key (s.in_flight key) (ap leads h) refl
  resumed-IsCoalesced (waiting key leader) h = follow-IsCoalesced key leader (s.phase leader) h
  resumed-IsCoalesced (rechecked key (some v)) h = settle-IsCoalesced key (resolved v) (ap leads h)
  resumed-IsCoalesced (rechecked key none) h = move-IsCoalesced (computing key) (sym (ap leads h))
  resumed-IsCoalesced (stored key v) h = settle-IsCoalesced key (resolved v) (ap leads h)
  resumed-IsCoalesced _ h = inv

  computed-IsCoalesced :
      (o : Outcome V) (p : Phase V) → s.phase r ≡ p → IsCoalesced (computed s r o p)
  computed-IsCoalesced (resolved v) (computing key) h =
      move-IsCoalesced (storing key v) (sym (ap leads h))
  computed-IsCoalesced rejected (computing key) h = settle-IsCoalesced key rejected (ap leads h)
  computed-IsCoalesced _ _ h = inv

module _ {V : Type 0} where
  pub step-IsCoalesced : (e : Event V) (s : Service V) → IsCoalesced s → IsCoalesced (step e s)
  unfolding step
  step-IsCoalesced (call r key) s inv = started-IsCoalesced s r inv key (s.phase r) refl
  step-IsCoalesced (access r) s inv = accessed-IsCoalesced s r inv (s.phase r) refl
  step-IsCoalesced (access_fails r) s inv = failed-IsCoalesced s r inv (s.phase r) refl
  step-IsCoalesced (resume r) s inv = resumed-IsCoalesced s r inv (s.phase r) refl
  step-IsCoalesced (factory_returns r o) s inv = computed-IsCoalesced s r inv o (s.phase r) refl
  step-IsCoalesced (write key v) s inv = record { known = inv.known; leading = inv.leading }

  pub run-IsCoalesced :
      (events : List (Event V)) (s : Service V) → IsCoalesced s → IsCoalesced (run events s)
  unfolding run
  run-IsCoalesced [] s inv = inv
  run-IsCoalesced (e ∷ events) s inv = run-IsCoalesced events (step e s) (step-IsCoalesced e s inv)

  pub new_service-IsCoalesced : IsCoalesced (new_service {V = V})
  new_service-IsCoalesced = record { known = λ r key h. cc; leading = λ r key h. cc }

  -- In whatever order the events come, of all calls only one runs a promise of its own for a key, and
  -- with it the factory; the map of promises names this call, and no call that has settled.
  pub one_factory :
      (events : List (Event V)) (r : ℕ) (key : Text)
      → leads ((run events new_service).phase r) ≡ some key
      → ((r' : ℕ) → leads ((run events new_service).phase r') ≡ some key → r' ≡ r)
        × ((r' : ℕ) → (run events new_service).in_flight key ≡ some r' → r' ≡ r)
  one_factory events r key h =
      let inv = run-IsCoalesced events new_service new_service-IsCoalesced in
      (
        λ r' h'. ground (arith, inv.known r key, inv.known r' key),
        λ r' h'. ground (arith, inv.known r key),
      )
