-- ===== src/Ingestion/Retries/Ready.antt =====
-- A failed run leaves the job ready for the next one.
use datagenie.Catalog.Models.{error, JobStatus}
use datagenie.Catalog.Session.{Db, in_scope, Tables, Error}
use datagenie.Prelude.{
  String, ◌≡◌, some, [], find_row, put_row, Bool, Option-cases, if◌then◌else◌, find_row-put_at, inl,
  none, arith, ◌∙◌, ap, inr, refl, find_row-key, sym, subst,
}
use datagenie.Ingestion.Jobs.{get_source, get_job}
use datagenie.Catalog.Models.{IngestionJob, DataSource}
use datagenie.Ingestion.Transitions.{get_job-find}
use datagenie.Ingestion.Worker.Runs.{get_job-again, fail_attempt-ok}
use datagenie.Ingestion.Worker.{fail_attempt, failed_job, put_job, asked_meanwhile, caught}
use datagenie.Ingestion.Synchronize.{Worker}
use datagenie.Catalog.SearchIndex.{Failure}
use datagenie.Prelude.Exec.{Result, ok, raised}
use datagenie.Ingestion.Worker.Outcomes.{Ended}
use datagenie.Ingestion.Worker.Calm.{Calm}

-- The job, with the source that it names, is read, and the database has no faults.
abbrev pub Ready : String → IngestionJob → Db → Type 0
Ready id job db =
    (get_job id db ≡ some job)
    × ((s : DataSource) × (get_source job.source_id db ≡ some s))
    × (db.faults ≡ [])

get_source-again :
    (id : String) (db t : Db) (s s' : DataSource)
    → get_source id db ≡ some s
    → t.tenant ≡ db.tenant
    → t.isolation ≡ db.isolation
    → find_row (λ x. x.id) id t.work.sources ≡ some s'
    → s'.tenant_id ≡ s.tenant_id
    → get_source id t ≡ some s'
unfolding get_source
get_source-again id db t s s' h tenant isolation found same =
    elim (Option-cases (find_row (λ x. x.id) id db.work.sources)) [
      | inl e ↦ absurd (ground arith)
      | inr (q, e) ↦ rw (found, tenant, isolation) (seen q s s' (in_scope db) same (rw e at h))
    ]
  where
    seen :
        (q s s' : DataSource) (visible : String → Bool)
        → s'.tenant_id ≡ s.tenant_id
        → (if visible q.tenant_id then some q else none) ≡ some s
        → (if visible s'.tenant_id then some s' else none) ≡ some s'
    seen q s s' visible same h = ground (arith, ap visible same)

get_source-find :
    (id : String) (db : Db) (s : DataSource)
    → get_source id db ≡ some s
    → (find_row (λ q. q.id) id db.work.sources ≡ some s) × (s.id ≡ id)
unfolding get_source
get_source-find id db s h = elim (Option-cases (find_row (λ q. q.id) id db.work.sources)) [
  | inl e ↦ absurd (ground arith)
  | inr (q, e) ↦ (ground arith, ground (arith, find_row-key (λ r. r.id) id db.work.sources s))
]

-- The job is written, and the sources with it or without: a session of its own reads both.
pub rewritten-Ready :
    (id : String) (job k : IngestionJob) (db t : Db)
    → Ready id job db
    → k.id ≡ job.id
    → k.tenant_id ≡ job.tenant_id
    → k.source_id ≡ job.source_id
    → t.tenant ≡ db.tenant
    → t.isolation ≡ db.isolation
    → t.faults ≡ []
    → t.work.jobs ≡ put_row (λ x. x.id) k db.work.jobs
    → t.work.sources ≡ db.work.sources
    → Ready id k t
rewritten-Ready id job k db t (found, (s, from), calm) ids tenants sources tenant isolation quiet
      rows rest =
    let (row, same) = get_job-find id db found in
    let (source_row, _) = get_source-find job.source_id db s from in
    let there : find_row (λ x. x.id) id t.work.jobs ≡ some k =
      rw rows (find_row-put_at (λ x. x.id) id k job db.work.jobs (ids ∙ same) row) in
    (
      get_job-again id db t job k found tenant isolation there tenants,
      (
        s,
        rw sources (
            get_source-again job.source_id db t s s from tenant isolation (rw rest source_row)
              refl),
      ),
      quiet,
    )

marked-Ready :
    (id : String) (job : IngestionJob) (s s' : DataSource) (db t : Db)
    → Ready id job db
    → get_source job.source_id db ≡ some s
    → s'.id ≡ s.id
    → s'.tenant_id ≡ s.tenant_id
    → t.tenant ≡ db.tenant
    → t.isolation ≡ db.isolation
    → t.faults ≡ []
    → t.work.jobs ≡ db.work.jobs
    → t.work.sources ≡ put_row (λ x. x.id) s' db.work.sources
    → Ready id job t
marked-Ready id job s s' db t (found, _, calm) from ids tenants tenant isolation quiet rest rows =
    let (row, same) = get_source-find job.source_id db s from in
    let (job_row, _) = get_job-find id db found in
    (
      get_job-again id db t job job found tenant isolation (rw rest job_row) refl,
      (
        s',
        get_source-again job.source_id db t s s' from tenant isolation
            (rw rows
              (find_row-put_at (λ x. x.id) job.source_id s' s db.work.sources (ids ∙ same) row))
            tenants,
      ),
      quiet,
    )

fail_attempt-Ready :
    (w : Worker) (e : Failure) (id : String) (j : IngestionJob) (db : Db)
    → db.faults ≡ []
    → Ready id j (record db { work = db.saved })
    → Ready id (failed_job w.completed e j) (fail_attempt w e id j.source_id db).1
unfolding fail_attempt
fail_attempt-Ready w e id j db calm ready =
    let rolled : Db = record db { work = db.saved } in
    let (found, (s, from), _) = ready in
    let k : IngestionJob = failed_job w.completed e j in
    let put : Db = record db { work = put_job k db.saved } in
    let s' : DataSource = record s { status = error } in
    let last : Tables = record put.work { sources = put_row (λ x. x.id) s' db.saved.sources } in
    let t : Db = record db { work = last; saved = last } in
    let run : fail_attempt w e id j.source_id db ≡ (ok k, t) = ground arith in
    let written : Ready id k put =
      rewritten-Ready id j k rolled put ready refl refl refl refl refl calm refl refl in
    let (s'', from'') = written.1 in
    rw (ap (λ (x : Result Error IngestionJob × Db). x.1) run) (
      marked-Ready id k s s' put t written
        (get_source-again j.source_id rolled put s s from refl refl
          (get_source-find j.source_id rolled s from).0 refl)
        refl refl refl refl calm refl refl)

module _ (w : Worker) (job : IngestionJob) (source : DataSource) (db : Db)
    (ready : Ready job.id job db) (from : get_source job.source_id db ≡ some source) where
  pub caught-Ready :
      (j k : IngestionJob) (r : Result Failure IngestionJob) (u : Db)
      → j.id ≡ job.id
      → j.tenant_id ≡ job.tenant_id
      → j.source_id ≡ job.source_id
      → ((i : IngestionJob) → r ≡ ok i → Ended i)
      → ((e : Failure)
          → r ≡ raised e
          → (u.saved.jobs
              ≡ put_row (λ x. x.id) (asked_meanwhile w j) (put_row (λ x. x.id) j db.work.jobs))
            × (u.saved.sources ≡ db.work.sources))
      → Calm db u
      → (caught w job.id source.id (r, u)).0 ≡ ok k
      → k.status ≡ JobStatus.failed
      → Ready job.id k (caught w job.id source.id (r, u)).1
  caught-Ready j k (ok i) u same tenant sources ended rows c h failed =
      let (settled, _) = ended i refl in absurd (ground arith)
  caught-Ready j k (raised e) u same tenant sources ended rows c h failed =
      let asked : IngestionJob = asked_meanwhile w j in
      let asked_id : asked.id ≡ j.id = ground arith in
      let asked_tenant : asked.tenant_id ≡ j.tenant_id = ground arith in
      let asked_source : asked.source_id ≡ j.source_id = ground arith in
      let mid : Db = record db { work = put_job j db.work } in
      let rolled : Db = record u { work = u.saved } in
      let quiet = c.faults ready.2 in
      let leased : Ready job.id j mid =
        rewritten-Ready job.id job j db mid ready same tenant sources refl refl ready.2 refl refl in
      let again : Ready job.id asked rolled =
        rewritten-Ready job.id j asked mid rolled leased asked_id asked_tenant asked_source c.tenant
          c.isolation quiet (rows e refl).0 (rows e refl).1 in
      let (_, named) = get_source-find job.source_id db source from in
      let at : source.id ≡ asked.source_id = named ∙ sym (asked_source ∙ sources) in
      let last : k ≡ failed_job w.completed e asked = ground (
        arith,
        ap (λ i. (fail_attempt w e job.id i u).0) at,
        fail_attempt-ok w e job.id asked.source_id asked u quiet again.0,
      ) in
      subst (λ x. Ready job.id x (fail_attempt w e job.id source.id u).1) (sym last)
        (subst (λ i. Ready job.id (failed_job w.completed e asked) (fail_attempt w e job.id i u).1)
          (sym at) (fail_attempt-Ready w e job.id asked u quiet again))
