-- ===== src/Gateway/RateLimit/Window.antt =====
-- The limiter by its whole history: what a request has to meet, and what the limit bounds.
-- An admitted request: its key and its time.
use datagenie.Prelude.{
  List, String, ℕ, Bool, ◌++◌, ◌<◌, ◌≤◌, Bool-cases, ◌∷◌, ◌+◌, ltb, [], inr, ◌≡◌, arith, inl, ◌==◌,
  eq_iff, subst, ltb→lt, if◌then◌else◌, ◌&&◌, true, false, leb,
}
use datagenie.Gateway.RateLimit.{Limiter}
use datagenie.Catalog.Models.{Instant, seconds}

abbrev pub History : Type 0
History = List (String × Instant)

-- How many requests of a key the history has in the window that ends at `now`.
abbrev pub recent : Limiter → String → Instant → History → ℕ
recent l k now [] = 0
recent l k now ((j, t) ∷ h) =
    if j == k && ltb now (t + seconds l.window_seconds)
    then recent l k now h + 1
    else recent l k now h

-- A request is admitted where fewer than the limit are in the window, and is then remembered.
unfoldable pub admit : Limiter → String → Instant → History → Bool × History
admit l k now h = if ltb (recent l k now h) l.limit then (true, h ++ (k, now) ∷ []) else (false, h)

-- The requests of a key from `start` on and within one window of it.
abbrev pub within : Limiter → String → Instant → History → ℕ
within l k start [] = 0
within l k start ((j, t) ∷ h) =
    if j == k && (leb start t && ltb t (start + seconds l.window_seconds))
    then within l k start h + 1
    else within l k start h

within-append :
    (l : Limiter) (k : String) (start : Instant) (h : History) (j : String) (t : Instant)
    → within l k start (h ++ (j, t) ∷ []) ≡ within l k start h + within l k start ((j, t) ∷ [])
within-append l k start [] j t = omega arith
within-append l k start ((i, s) ∷ h) j t = ground (arith, within-append l k start h j t)

-- What is in a window that has begun by `now` is recent at `now`.
within-le-recent :
    (l : Limiter) (k : String) (start now : Instant) (h : History)
    → now < start + seconds l.window_seconds
    → within l k start h ≤ recent l k now h
within-le-recent l k start now [] w = omega arith
within-le-recent l k start now ((j, t) ∷ h) w = ground (arith, within-le-recent l k start now h w)

-- In every window.
abbrev pub IsBounded : Limiter → History → Type 0
IsBounded l h = (k : String) (start : Instant) → within l k start h ≤ l.limit

pub admit-IsBounded :
    (l : Limiter) (key : String) (now : Instant) (h : History)
    → IsBounded l h
    → IsBounded l (admit l key now h).1
unfolding admit
admit-IsBounded l key now h b k start = elim (Bool-cases (ltb (recent l key now h) l.limit)) [
  | inr e ↦ rw e (b k start)
  | inl e ↦
      rw (e, within-append l k start h key now)
        (elim (Bool-cases (key == k)) [
          | inr f ↦ ground (arith, b k start)
          | inl f ↦
              let same : key ≡ k = (eq_iff key k).0 f in
              let few : recent l k now h < l.limit =
                subst (λ x. recent l x now h < l.limit) same (ltb→lt _ _ e) in
              ground (arith, b k start, within-le-recent l k start now h)
        ])
]
