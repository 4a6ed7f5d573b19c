-- ===== src/Ingestion/Worker/Calm.antt =====
-- A run keeps the session's tenant, and a database without faults stays without.
use datagenie.Catalog.Session.{Db, commit, Error}
use datagenie.Prelude.{
  ◌≡◌, ◌∙◌, [], arith, String, Option-cases, refl, Bool, if◌then◌else◌, inl, inr, true,
}
use datagenie.Ingestion.Synchronize.{Job, Worker, synchronize_discovery}
use datagenie.Ingestion.Apply.{
  create_sync_state, get_or_create_sync_state, record_success, apply_successful_discovery, inside,
  with_discovery,
}
use datagenie.Ingestion.Worker.{
  cancel_run, finish_attempt, take_over, attempt, asked_meanwhile, call_connector, meanwhile,
  put_job,
}
use datagenie.Prelude.Exec.{Result, continue, raised, Result-cases, ok, ◌>>=◌}
use datagenie.Catalog.Models.{Instant, DataSource, IngestionJob}
use datagenie.Catalog.SearchIndex.{Failure, or_failure}
use datagenie.Ingestion.Discovery.{DiscoveryResult}
use datagenie.Ingestion.Jobs.{get_sync_state, write_job}
use datagenie.Ingestion.Synchronize.Frame.{synchronize_discovery-Frame}
use datagenie.Ingestion.Worker.Failed.{take_over-saved}
use mathlib.Core.Bool.{false}

pub record Calm (db t : Db) : Type 0 where
  pub tenant : t.tenant ≡ db.tenant
  pub isolation : t.isolation ≡ db.isolation
  pub faults : db.faults ≡ [] → t.faults ≡ []

pub Calm-refl : (db : Db) → Calm db db
Calm-refl db = record { tenant = refl; isolation = refl; faults = λ h. h }

pub Calm-trans : (a b c : Db) → Calm a b → Calm b c → Calm a c
Calm-trans a b c f g = record {
  tenant = g.tenant ∙ f.tenant;
  isolation = g.isolation ∙ f.isolation;
  faults = λ h. g.faults (f.faults h);
}

Calm-continue :
    {A B : Type 0} (f : A → Job B) (db : Db) (r : Result Failure A) (t : Db)
    → ((a : A) (u : Db) → Calm u (f a u).1)
    → Calm db t
    → Calm db (continue f r t).1
Calm-continue f db (raised e) t each g = g
Calm-continue f db (ok a) t each g = Calm-trans db t (f a t).1 g (each a t)

Calm-inside :
    {A : Type 0} (w : Worker) (db : Db) (r : Result Error A) (t : Db)
    → Calm db t
    → Calm db (or_failure w.broken (r, t)).1
Calm-inside w db (ok a) t c = c
Calm-inside w db (raised e) t c = c

pub commit-Calm : (db : Db) → Calm db (commit db).1
unfolding commit
commit-Calm db = record {
  tenant = ground arith;
  isolation = ground arith;
  faults = λ h. ground arith;
}

create_sync_state-Calm : (id : String) (db : Db) → Calm db (create_sync_state id db).1
unfolding create_sync_state
create_sync_state-Calm id db = record {
  tenant = ground arith;
  isolation = ground arith;
  faults = λ h. ground arith;
}

pub get_or_create-Calm : (id : String) (db : Db) → Calm db (get_or_create_sync_state id db).1
unfolding get_or_create_sync_state
get_or_create-Calm id db = elim (Option-cases (get_sync_state id db)) [
  | inl e ↦ rw (e, get_or_create_sync_state) (create_sync_state-Calm id db)
  | inr (s, e) ↦ rw (e, get_or_create_sync_state) (Calm-refl db)
]

cancel_run-Calm : (now : Instant) (j : IngestionJob) (db : Db) → Calm db (cancel_run now j db).1
unfolding cancel_run
cancel_run-Calm now j db = record {
  tenant = ground arith;
  isolation = ground arith;
  faults = λ h. ground arith;
}

record_success-Calm :
    (w : Worker) (source : DataSource) (j : IngestionJob) (result : DiscoveryResult) (db : Db)
    → Calm db (record_success w source j result db).1
unfolding record_success
record_success-Calm w source j result db =
    let t : Db = (write_job j db).1 in
    let c = get_or_create-Calm source.id t in
    elim (Result-cases (get_or_create_sync_state source.id t).0) [
      | inl (s, e) ↦ record {
        tenant = ground (arith, c.tenant);
        isolation = ground (arith, c.isolation);
        faults = λ h. ground (arith, c.faults h);
      }
      | inr (x, e) ↦ record {
        tenant = ground (arith, c.tenant);
        isolation = ground (arith, c.isolation);
        faults = λ h. ground (arith, c.faults h);
      }
    ]

finish_attempt-Calm : (w : Worker) (j : IngestionJob) (db : Db) → Calm db (finish_attempt w j db).1
unfolding finish_attempt
finish_attempt-Calm w j db = record {
  tenant = ground arith;
  isolation = ground arith;
  faults = λ h. ground arith;
}

apply-Calm :
    (w : Worker) (source : DataSource) (j : IngestionJob) (result : DiscoveryResult) (db : Db)
    → Calm db (apply_successful_discovery w source j result db).1
unfolding apply_successful_discovery
apply-Calm w source j result db =
    let f = synchronize_discovery-Frame w source result.assets db in
    Calm-continue
      (λ stats. inside w (record_success w source (with_discovery result stats j) result)) db
      (synchronize_discovery w source result.assets db).0
      (synchronize_discovery w source result.assets db).1
      (λ stats u.
        Calm-inside w u (record_success w source (with_discovery result stats j) result u).0
          (record_success w source (with_discovery result stats j) result u).1
          (record_success-Calm w source (with_discovery result stats j) result u))
      (record { tenant = f.tenant; isolation = f.isolation; faults = f.faults })

take_over-Calm :
    (w : Worker) (source : DataSource) (j : IngestionJob) (result : DiscoveryResult) (db : Db)
    → Calm db (take_over w source j result db).1
unfolding take_over
take_over-Calm w source j result db = by_test j.cancel_requested w source j result db
  where
    by_test :
        (cancel : Bool) (w : Worker) (source : DataSource) (j : IngestionJob)
        (result : DiscoveryResult) (db : Db)
        → let run : Job IngestionJob =
            if cancel
            then inside w (cancel_run w.completed j)
            else apply_successful_discovery w source j result >>= finish_attempt w in
          Calm db (run db).1
    by_test true w source j result db =
        Calm-inside w db (cancel_run w.completed j db).0 (cancel_run w.completed j db).1
          (cancel_run-Calm w.completed j db)
    by_test false w source j result db =
        Calm-continue (finish_attempt w) db (apply_successful_discovery w source j result db).0
          (apply_successful_discovery w source j result db).1 (λ i u. finish_attempt-Calm w i u)
          (apply-Calm w source j result db)

pub attempt-Calm :
    (w : Worker) (source : DataSource) (j : IngestionJob) (db : Db)
    → Calm db (attempt w source j db).1
unfolding attempt
attempt-Calm w source j db =
    Calm-continue (take_over w source (asked_meanwhile w j)) db (call_connector w source j)
      (meanwhile w j db).1 (λ result u. take_over-Calm w source (asked_meanwhile w j) result u)
      (record { tenant = refl; isolation = refl; faults = λ h. h })

-- A failed attempt commits what another session asked for, and nothing else.
pub attempt-saved :
    (w : Worker) (source : DataSource) (j : IngestionJob) (e : Failure) (db : Db)
    → (attempt w source j db).0 ≡ raised e
    → (attempt w source j db).1.saved ≡ put_job (asked_meanwhile w j) db.saved
unfolding attempt
attempt-saved w source j e db h =
    after w source j e (call_connector w source j) (meanwhile w j db).1 h
  where
    after :
        (w : Worker) (source : DataSource) (j : IngestionJob) (e : Failure)
        (r : Result Failure DiscoveryResult) (t : Db)
        → (continue (take_over w source (asked_meanwhile w j)) r t).0 ≡ raised e
        → (continue (take_over w source (asked_meanwhile w j)) r t).1.saved ≡ t.saved
    after w source j e (raised x) t h = refl
    after w source j e (ok result) t h = take_over-saved w source (asked_meanwhile w j) result e t h
