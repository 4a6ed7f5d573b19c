-- ===== src/Gateway/RateLimit/Bounds.antt =====
-- What the limit is a limit of.
use mathlib.Core.List.{append_assoc}
use mathlib.Core.List.{append-nil}
use datagenie.Prelude.{
  List, Bool, ◌∷◌, ◌≡◌, if◌then◌else◌, ◌++◌, [], sym, subst, Bool-cases, arith, ltb, inl, ◌∙◌, inr,
}
use datagenie.Gateway.RateLimit.{Limiter}
use datagenie.Gateway.RateLimit.Window.{admit, History, IsBounded, admit-IsBounded, recent}
use datagenie.Gateway.RateLimit.Refines.{
  Call, InOrder, check_all, admit_all, check_all-eq-admit_all,
}

-- The requests with a positive verdict.
abbrev pub admitted : List Bool → List Call → History
admitted [] calls = []
admitted (b ∷ bs) [] = []
admitted (b ∷ bs) (c ∷ calls) = if b then c ∷ admitted bs calls else admitted bs calls

abbrev history_after : Limiter → List Call → History → History
history_after l [] h = h
history_after l ((k, now) ∷ calls) h = history_after l calls (admit l k now h).1

history_after-admitted :
    (l : Limiter) (calls : List Call) (h : History)
    → history_after l calls h ≡ h ++ admitted (admit_all l calls h) calls
unfolding admit
history_after-admitted l [] h = sym (append-nil h)
history_after-admitted l ((k, now) ∷ calls) h = elim (Bool-cases (ltb (recent l k now h) l.limit)) [
  | inl e ↦ rw e (
      history_after-admitted l calls (h ++ (k, now) ∷ [])
      ∙ append_assoc h ((k, now) ∷ []) (admitted (admit_all l calls (h ++ (k, now) ∷ [])) calls))
  | inr e ↦ rw e (history_after-admitted l calls h)
]

history_after-IsBounded :
    (l : Limiter) (calls : List Call) (h : History)
    → IsBounded l h
    → IsBounded l (history_after l calls h)
history_after-IsBounded l [] h b = b
history_after-IsBounded l ((k, now) ∷ calls) h b =
    history_after-IsBounded l calls (admit l k now h).1 (admit-IsBounded l k now h b)

-- Over every sequence of requests at times that do not fall, and for every key, no stretch of time
-- of the window's length holds more requests that the limiter let through than the limit.
pub admitted-IsBounded :
    (l : Limiter) (calls : List Call)
    → InOrder 0 calls
    → IsBounded l (admitted (check_all l calls []) calls)
admitted-IsBounded l calls o = rw (check_all-eq-admit_all l calls o) (
    subst (IsBounded l) (history_after-admitted l calls [])
      (history_after-IsBounded l calls [] (λ k start. omega arith)))
