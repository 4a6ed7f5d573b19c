-- ===== src/Prelude/Tables.antt =====
-- A table as the list of its rows, each read by its key.
use Prim.Native.String.{String}
use mathlib.Core.Path.{◌≡◌, refl, ap, subst}
use mathlib.Core.Logic.{◌≢◌, inl, inr}
use mathlib.Core.Option.{Option, none, some}
use mathlib.Core.List.{List, [], ◌∷◌, ◌++◌}
use native.Mathlib.Omega.{arith}
use text.Mathlib.TextEquality.{eq_iff}
use text.Mathlib.TextPositions.{eq_refl}
use datagenie.Prelude.Tests.{◌==◌, if◌then◌else◌, Bool-cases}

module _ {ℓ} {A : Type ℓ} (key : A → String) where
  -- The row that `session.get` or `select(...).where(id == k)` reads.
  unfoldable pub find_row : String → List A → Option A
  find_row k [] = none
  find_row k (x ∷ xs) = if key x == k then some x else find_row k xs

  -- The flush of a changed row: the row of that key is written over.
  unfoldable pub put_row : A → List A → List A
  put_row r [] = []
  put_row r (x ∷ xs) = if key x == key r then r ∷ xs else x ∷ put_row r xs

  pub find_row-key : (k : String) (xs : List A) (r : A) → find_row k xs ≡ some r → key r ≡ k
  unfolding find_row
  find_row-key k [] r h = cc
  find_row-key k (x ∷ xs) r h = ground (arith, eq_iff (key x) k, find_row-key k xs r)

  -- A write to a row that is there is read back.
  pub find_row-put_self :
      (r : A) (xs : List A) (old : A)
      → find_row (key r) xs ≡ some old
      → find_row (key r) (put_row r xs) ≡ some r
  unfolding find_row put_row
  find_row-put_self r [] old h = cc
  find_row-put_self r (x ∷ xs) old h = elim (Bool-cases (key x == key r)) [
    | inl e ↦ rw e (rw (eq_refl (key r)))
    | inr e ↦ rw e (rw e (find_row-put_self r xs old (rw e at h)))
  ]

  -- A write leaves the rows of other keys alone.
  pub find_row-put_ne :
      (k : String) (r : A) (xs : List A) → k ≢ key r → find_row k (put_row r xs) ≡ find_row k xs
  unfolding find_row put_row
  find_row-put_ne k r [] h = refl
  find_row-put_ne k r (x ∷ xs) h = elim (Bool-cases (key x == key r)) [
    | inl e ↦ ground (arith, eq_iff (key x) (key r), eq_iff (key x) k, eq_iff (key r) k)
    | inr e ↦ rw e (ap (λ o. if key x == k then some x else o) (find_row-put_ne k r xs h))
  ]

  -- The same with the key given by a text that it equals.
  pub find_row-put_at :
      (k : String) (r old : A) (xs : List A)
      → key r ≡ k
      → find_row k xs ≡ some old
      → find_row k (put_row r xs) ≡ some r
  find_row-put_at k r old xs e found =
      subst (λ i. find_row i (put_row r xs) ≡ some r) e (find_row-put_self r xs old (rw e found))

  -- Rows that are added at the end hide none.
  pub find_row-append :
      (k : String) (xs ys : List A) (r : A)
      → find_row k xs ≡ some r
      → find_row k (xs ++ ys) ≡ some r
  unfolding find_row
  find_row-append k [] ys r h = cc
  find_row-append k (x ∷ xs) ys r h = ground (arith, find_row-append k xs ys r)
