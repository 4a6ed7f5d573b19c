-- ===== src/Gateway/RateLimit.antt =====
-- apps/mcp-gateway/app/core/rate_limit.py: the sliding window of one process. The lock makes each
-- check one step. The monotonic clock counts microseconds here, where the source has a float.
pub mod Window
pub mod Deques
pub mod Refines
pub mod Bounds
use datagenie.Prelude.{
  ℕ, List, String, ◌∷◌, ◌+◌, if◌then◌else◌, ◌==◌, leb, ◌-◌, length, [], [], [], ◌/◌, ◌++◌,
}
use datagenie.Catalog.Models.{Instant, seconds}
use datagenie.Prelude.Exec.{Exec, raised, ok}

-- What a check raises: the refusal with its `retry_after_seconds`, or the `IndexError` of
-- `events[0]` where the limit is 0 and there is no event.
pub data Refusal : Type 0 where
  rate_limit_exceeded : ℕ → Refusal
  index_error : Refusal

-- `SlidingWindowRateLimiter` without its state.
pub record Limiter : Type 0 where
  pub limit : ℕ
  pub window_seconds : ℕ

-- `self._events`
abbrev pub Events : Type 0
Events = List (String × List Instant)

abbrev pub events_of : String → Events → List Instant
events_of k [] = []
events_of k ((j, es) ∷ rows) = if j == k then es else events_of k rows

-- The deque of a key is set in place, or added by `setdefault`.
abbrev pub set_events : String → List Instant → Events → Events
set_events k es [] = (k, es) ∷ []
set_events k es ((j, old) ∷ rows) =
    if j == k then (k, es) ∷ rows else (j, old) ∷ set_events k es rows

-- `while events and events[0] <= now - self.window_seconds: events.popleft()`
unfoldable pub pop_old : Limiter → Instant → List Instant → List Instant
pop_old l now [] = []
pop_old l now (e ∷ es) =
    let rest = pop_old l now es in if leb (e + seconds l.window_seconds) now then rest else e ∷ es

-- `max(1, int(self.window_seconds - (now - events[0])) + 1)`
abbrev pub retry_after : Limiter → Instant → List Instant → Refusal
retry_after l now [] = index_error
retry_after l now (e ∷ es) =
    rate_limit_exceeded ((e + seconds l.window_seconds - now) / seconds 1 + 1)

unfoldable pub check : Limiter → String → Instant → Exec Events Refusal (Unit {0})
unfolding pop_old
check l key now state =
    let events = pop_old l now (events_of key state) in
    if leb l.limit (length events)
    then (raised (retry_after l now events), set_events key events state)
    else (ok tt, set_events key (events ++ now ∷ []) state)
