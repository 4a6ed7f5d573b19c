-- ===== src/Prelude/Store.antt =====
-- A database as its working and its committed tables. Whether the next flush or commit raises is
-- the database's choice: it is read off a list.
use datagenie.Prelude.Exec.{Exec, ok, raised}
use mathlib.Core.Bool.{Bool, true, false}
use mathlib.Core.List.{List, [], ◌∷◌}

pub record Store (T : Type 0) : Type 0 where
  pub work : T
  pub saved : T
  pub faults : List Bool

module _ {T E : Type 0} where
  abbrev pub update_work : (T → T) → Exec (Store T) E (Unit {0})
  update_work f db = (ok tt, record db { work = f db.work })

  -- `broken` is what a flush or commit raises.
  unfoldable pub flush_or : E → Exec (Store T) E (Unit {0})
  flush_or broken db = elim (db.faults) [
    | [] ↦ (ok tt, db)
    | true ∷ fs ↦ (raised broken, record db { faults = fs })
    | false ∷ fs ↦ (ok tt, record db { faults = fs })
  ]

  unfoldable pub commit_or : E → Exec (Store T) E (Unit {0})
  commit_or broken db = elim (db.faults) [
    | [] ↦ (ok tt, record db { saved = db.work })
    | true ∷ fs ↦ (raised broken, record db { faults = fs })
    | false ∷ fs ↦ (ok tt, record db { saved = db.work; faults = fs })
  ]
