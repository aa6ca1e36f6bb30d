-- ===== src/Tests/Books.antt =====
-- The books of the cluster of the tests.
use mathlib.Core.Path.{subst}
use veloce_ce.Base.{
  ℕ, ◌+◌, String, ◌≡◌, refl, sym, ap, inl, inr, some, [], ◌∷◌, contains, count, get, get_or, nat_eq,
  string_eq, as_u32, arith, beq-cases, eq_iff, nat_beq_iff, Distinct,
}
use veloce_ce.Types.Job.{JobInfo}
use veloce_ce.Controller.State.{WorkerHandle}
use veloce_ce.Controller.Worker.Owned.{WorkerOk, owned_gres, below}
use veloce_ce.Controller.Worker.{gres_limit}
use veloce_ce.Controller.Finalize.Books.{StateOk}
use veloce_ce.Scheduler.Pass.Books.{PassOk}
use veloce_ce.Tests.Fixtures.{start, cluster, worker, first, second}

pub worker-WorkerOk : WorkerOk worker
unfolding as_u32
worker-WorkerOk = record {
  cores_exact = λ c. ground arith;
  gres_exact = λ name i. elim (beq-cases "gpu" name) [
    | inl e ↦
        subst
          (λ n.
            count i (get_or [] n worker.available_gres_ids)
              + owned_gres n i worker.job_gres_assignments
            ≡ below i (gres_limit worker.resources.gres n))
          e (ground arith)
    | inr e ↦ ground arith
  ];
  cores_tracked = λ j. ground arith;
  gres_tracked = λ j. ground arith;
  cores_distinct = (refl, tt);
  gres_distinct = (refl, tt);
  names_distinct = ((refl, tt), tt);
}

only_worker :
    (id : String) (w : WorkerHandle) → get id start.workers ≡ some w → ("n1" ≡ id) × (worker ≡ w)
only_worker id w e = elim (beq-cases "n1" id) [
  | inl q ↦ (q, ground (arith, eq_iff "n1" id))
  | inr q ↦ absurd (ground arith)
]

module _ (other : JobInfo) where
  pub cluster-StateOk : StateOk (cluster other)
  cluster-StateOk = record {
    workers_distinct = (refl, tt);
    exact = λ id w e. subst WorkerOk (only_worker id w e).1 worker-WorkerOk;
    held = λ id w e j c.
        let (i, v) = only_worker id w e in
        let one : 1 ≡ j =
          ground
            (arith, ap (λ (u : WorkerHandle). contains j u.assigned_jobs) v, nat_beq_iff 1 j) in
        record {
          job = first;
          stored = ap (λ k. get k (cluster other).jobs) (sym one);
          runs = refl;
          named = ap (λ k. contains k ("n1" ∷ [])) (sym i);
        };
  }

  -- What holds of both jobs holds of every stored job.
  pub both :
      (P : JobInfo → Type 0)
      → P first
      → P other
      → (j : ℕ) (job : JobInfo) → get j (cluster other).jobs ≡ some job
      → P job
  both P one two j job e = elim (beq-cases 1 j) [
    | inl q ↦ let r : first ≡ job = ground (arith, nat_beq_iff 1 j) in subst P r one
    | inr q ↦ elim (beq-cases 2 j) [
      | inl p ↦ let r : other ≡ job = ground (arith, nat_beq_iff 2 j) in subst P r two
      | inr p ↦ absurd (ground arith)
    ]
  ]

  pub cluster-PassOk : Distinct other.gres_req → PassOk (cluster other)
  cluster-PassOk d = record {
    books = cluster-StateOk;
    requests = both (λ job. Distinct job.gres_req) (refl, tt) d;
  }

pub start-StateOk : StateOk start
start-StateOk = cluster-StateOk second

pub start-PassOk : PassOk start
start-PassOk = cluster-PassOk second (refl, tt)
