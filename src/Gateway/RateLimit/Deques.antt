-- ===== src/Gateway/RateLimit/Deques.antt =====
-- What a deque has dropped, and what the history keeps of it.
use datagenie.Prelude.{
  String, List, ◌≤◌, ◌∷◌, ◌++◌, ◌≡◌, ◌<◌, if◌then◌else◌, [], arith, Bool-cases, sym, ◌+◌, length,
  [], [], ◌==◌, ◌∙◌, refl, eq_iff, ap, inl, inr,
}
use datagenie.Catalog.Models.{Instant, seconds}
use datagenie.Gateway.RateLimit.{Limiter, pop_old, Events, events_of, set_events}
use datagenie.Gateway.RateLimit.Window.{History, recent}

abbrev pub times : String → History → List Instant
times k [] = []
times k ((j, t) ∷ h) = if j == k then t ∷ times k h else times k h

-- The times of the history ascend from `a` to at most `t`.
abbrev pub Ascends : Instant → History → Instant → Type 0
Ascends a [] t = a ≤ t
Ascends a ((j, x) ∷ h) t = (a ≤ x) × Ascends x h t

abbrev pub AscendsFrom : Instant → List Instant → Type 0
AscendsFrom a [] = Unit
AscendsFrom a (x ∷ xs) = (a ≤ x) × AscendsFrom x xs

pub Ascends-append :
    (a t now : Instant) (h : History) (k : String)
    → Ascends a h t
    → t ≤ now
    → Ascends a (h ++ (k, now) ∷ []) now
Ascends-append a t now [] k c le = ground arith
Ascends-append a t now ((j, x) ∷ h) k (ax, c) le = (ax, Ascends-append x t now h k c le)

pub Ascends-mono : (a t now : Instant) (h : History) → Ascends a h t → t ≤ now → Ascends a h now
Ascends-mono a t now [] c le = omega arith
Ascends-mono a t now ((j, x) ∷ h) (ax, c) le = (ax, Ascends-mono x t now h c le)

AscendsFrom-mono : (a b : Instant) (xs : List Instant) → a ≤ b → AscendsFrom b xs → AscendsFrom a xs
AscendsFrom-mono a b [] le c = c
AscendsFrom-mono a b (x ∷ xs) le (bx, c) = (omega arith, c)

pub times-AscendsFrom :
    (k : String) (a t : Instant) (h : History) → Ascends a h t → AscendsFrom a (times k h)
times-AscendsFrom k a t [] c = tt
times-AscendsFrom k a t ((j, x) ∷ h) (ax, c) = elim (Bool-cases (j == k)) [
  | inl e ↦ rw e (ax, times-AscendsFrom k x t h c)
  | inr e ↦ rw e (AscendsFrom-mono a x (times k h) ax (times-AscendsFrom k x t h c))
]

pub times-append :
    (k j : String) (t : Instant) (h : History)
    → times k (h ++ (j, t) ∷ []) ≡ (if j == k then times k h ++ t ∷ [] else times k h)
times-append k j t [] = ground arith
times-append k j t ((i, s) ∷ h) = ground (arith, times-append k j t h)

pub events_of-set_events :
    (k key : String) (es : List Instant) (state : Events)
    → events_of k (set_events key es state) ≡ (if key == k then es else events_of k state)
events_of-set_events k key es [] = refl
events_of-set_events k key es ((j, old) ∷ state) =
    ground (arith, eq_iff j key, eq_iff j k, eq_iff key k, events_of-set_events k key es state)

module _ (l : Limiter) where
  pub pop_old-pop_old :
      (m n : Instant) (xs ys : List Instant)
      → m ≤ n
      → pop_old l n (pop_old l m xs ++ ys) ≡ pop_old l n (xs ++ ys)
  unfolding pop_old
  pop_old-pop_old m n [] ys le = refl
  pop_old-pop_old m n (x ∷ xs) ys le = ground (arith, pop_old-pop_old m n xs ys le)

  pub pop_old-append :
      (n : Instant) (xs xs' ys : List Instant)
      → pop_old l n xs ≡ pop_old l n xs'
      → pop_old l n (xs ++ ys) ≡ pop_old l n (xs' ++ ys)
  pop_old-append n xs xs' ys e =
      sym (pop_old-pop_old n n xs ys (omega arith))
      ∙ ap (λ zs. pop_old l n (zs ++ ys)) e
      ∙ pop_old-pop_old n n xs' ys (omega arith)

  -- Past the first event that is in the window all are.
  recent-all :
      (k : String) (a now : Instant) (h : History)
      → AscendsFrom a (times k h)
      → now < a + seconds l.window_seconds
      → recent l k now h ≡ length (times k h)
  recent-all k a now [] c live = refl
  recent-all k a now ((j, t) ∷ h) c live = elim (Bool-cases (j == k)) [
    | inr e ↦ rw e (recent-all k a now h (rw e at c) live)
    | inl e ↦
        let (at, rest) : (a ≤ t) × AscendsFrom t (times k h) = rw e at c in
        rw e (ground (arith, recent-all k t now h rest))
  ]

  pub recent-pop_old :
      (k : String) (a now : Instant) (h : History)
      → AscendsFrom a (times k h)
      → recent l k now h ≡ length (pop_old l now (times k h))
  unfolding pop_old
  recent-pop_old k a now [] c = refl
  recent-pop_old k a now ((j, t) ∷ h) c = elim (Bool-cases (j == k)) [
    | inr e ↦ rw e (recent-pop_old k a now h (rw e at c))
    | inl e ↦
        let (at, rest) : (a ≤ t) × AscendsFrom t (times k h) = rw e at c in
        rw e (ground (arith, recent-all k t now h rest, recent-pop_old k t now h rest))
  ]
