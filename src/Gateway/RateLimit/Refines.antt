-- ===== src/Gateway/RateLimit/Refines.antt =====
-- The deques and the history come to the same verdicts.
use mathlib.Core.List.{append-nil}
-- A request: its key and its time.
use datagenie.Prelude.{
  String, Bool, List, [], true, ◌≤◌, ◌≡◌, length, arith, false, ap, Bool-cases, ◌∙◌, ◌++◌, ltb,
  refl, sym, ◌==◌, ◌∷◌, inl, leb, inr, eq_iff, subst,
}
use datagenie.Prelude.Exec.{Result, ok, raised}
use datagenie.Gateway.RateLimit.{Limiter, Events, pop_old, check, events_of, set_events}
use datagenie.Catalog.Models.{Instant}
use datagenie.Gateway.RateLimit.Window.{History, recent, admit}
use datagenie.Gateway.RateLimit.Deques.{
  Ascends, times, events_of-set_events, recent-pop_old, times-append, times-AscendsFrom,
  Ascends-append, pop_old-pop_old, Ascends-mono, pop_old-append,
}

abbrev pub Call : Type 0
Call = String × Instant

abbrev pub is_ok : {E A : Type 0} → Result E A → Bool
is_ok (ok _) = true
is_ok (raised _) = false

-- The verdicts on a sequence of requests, by the deques and by the history.
abbrev pub check_all : Limiter → List Call → Events → List Bool
check_all l [] state = []
check_all l ((k, now) ∷ calls) state =
    is_ok (check l k now state).0 ∷ check_all l calls (check l k now state).1

abbrev pub admit_all : Limiter → List Call → History → List Bool
admit_all l [] h = []
admit_all l ((k, now) ∷ calls) h = (admit l k now h).0 ∷ admit_all l calls (admit l k now h).1

-- The clock does not run backwards.
abbrev pub InOrder : Instant → List Call → Type 0
InOrder t [] = Unit
InOrder t ((k, now) ∷ calls) = (t ≤ now) × InOrder now calls

-- Up to what is out of the window, each deque is the times of its key.
record Matches (l : Limiter) (t : Instant) (state : Events) (h : History) : Type 0 where
  ascends : Ascends 0 h t
  same :
      (k : String) (n : Instant) → t ≤ n → pop_old l n (events_of k state) ≡ pop_old l n (times k h)

module _ (l : Limiter) (t : Instant) (state : Events) (h : History) (m : Matches l t state h)
    (key : String) (now : Instant) (le : t ≤ now) where
  abbrev live : List Instant
  live = pop_old l now (events_of key state)

  length-live : length live ≡ recent l key now h
  length-live =
      ap length (m.same key now le)
      ∙ sym (recent-pop_old l key 0 now h (times-AscendsFrom key 0 t h m.ascends))

  check-admit : is_ok (check l key now state).0 ≡ (admit l key now h).0
  unfolding check admit
  check-admit = ground (arith, length-live)

  -- A deque whose old events are dropped.
  popped :
      (k : String) (n : Instant)
      → now ≤ n
      → pop_old l n (events_of k (set_events key live state)) ≡ pop_old l n (times k h)
  popped k n le' = rw (events_of-set_events k key live state) (elim (Bool-cases (key == k)) [
    | inr e ↦ rw e (m.same k n (omega arith))
    | inl e ↦
        let same : key ≡ k = (eq_iff key k).0 e in
        rw e (
          ap (pop_old l n) (sym (append-nil live))
          ∙ pop_old-pop_old l now n (events_of key state) [] le'
          ∙ ap (pop_old l n) (append-nil (events_of key state))
          ∙ subst (λ x. pop_old l n (events_of key state) ≡ pop_old l n (times x h)) same
              (m.same key n (omega arith)))
  ])

  pushed :
      (k : String) (n : Instant)
      → now ≤ n
      → pop_old l n (events_of k (set_events key (live ++ now ∷ []) state))
        ≡ pop_old l n (times k (h ++ (key, now) ∷ []))
  pushed k n le' =
      rw (events_of-set_events k key (live ++ now ∷ []) state, times-append k key now h)
        (elim (Bool-cases (key == k)) [
          | inr e ↦ rw e (m.same k n (omega arith))
          | inl e ↦
              let same : key ≡ k = (eq_iff key k).0 e in
              rw e (
                pop_old-pop_old l now n (events_of key state) (now ∷ []) le'
                ∙ pop_old-append l n (events_of key state) (times k h) (now ∷ []) (
                    subst (λ x. pop_old l n (events_of key state) ≡ pop_old l n (times x h)) same
                      (m.same key n (omega arith))))
        ])

  check-Matches : Matches l now (check l key now state).1 (admit l key now h).1
  unfolding check admit
  check-Matches = elim (Bool-cases (ltb (recent l key now h) l.limit)) [
    | inl e ↦
        let few : leb l.limit (length live) ≡ false = ground (arith, length-live) in
        rw (e, few) (record { ascends = Ascends-append 0 t now h key m.ascends le; same = pushed })
    | inr e ↦
        let many : leb l.limit (length live) ≡ true = ground (arith, length-live) in
        rw (e, many) (record { ascends = Ascends-mono 0 t now h m.ascends le; same = popped })
  ]

check_all-Matches :
    (l : Limiter) (t : Instant) (calls : List Call) (state : Events) (h : History)
    → Matches l t state h
    → InOrder t calls
    → check_all l calls state ≡ admit_all l calls h
check_all-Matches l t [] state h m o = refl
check_all-Matches l t ((k, now) ∷ calls) state h m (le, o) = cc (
  check-admit l t state h m k now le,
  check_all-Matches l now calls _ _ (check-Matches l t state h m k now le) o,
)

-- Over every sequence of requests of any keys at times that do not fall, the limiter, which only
-- keeps the deques, gives each request the verdict of the whole history of what it admitted: it is
-- refused exactly if the limit is reached by the requests of its key in the window that ends with
-- it.
pub check_all-eq-admit_all :
    (l : Limiter) (calls : List Call)
    → InOrder 0 calls
    → check_all l calls [] ≡ admit_all l calls []
check_all-eq-admit_all l calls o =
    check_all-Matches l 0 calls [] [] (record { ascends = omega arith; same = λ k n le. refl }) o
