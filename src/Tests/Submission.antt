-- ===== src/Tests/Submission.antt =====
-- The theorems on submissions at the cluster of the tests.
use veloce_ce.Base.{ℕ, List, [], ◌∷◌, ◌++◌, ◌≡◌, refl, none, arith}
use veloce_ce.Types.Job.{JobInfo, pending, production}
use veloce_ce.Controller.State.{GlobalState}
use veloce_ce.Controller.Submission.{process_batch, submission_processor}
use veloce_ce.Controller.Submission.Accepted.{
  Accepted, process_batch-Accepted, Batched, submission_processor-Batched,
}
use veloce_ce.Tests.Fixtures.{start, spec, job_of}
use veloce_ce.Tests.Books.{start-StateOk}

abbrev new_job : ℕ → JobInfo
new_job id = job_of id (spec 1 production) pending [] none

abbrev two_jobs : List JobInfo
two_jobs = new_job 3 ∷ new_job 4 ∷ []

process_batch-Accepted_example :
    (t : GlobalState) × (process_batch (λ s. s) 5 two_jobs start ≡ t) × Accepted two_jobs start t
process_batch-Accepted_example =
    process_batch-Accepted (λ s. s) 5 two_jobs start refl
      (refl, (λ id w e. ground (arith, e)), (refl, (λ id w e. ground (arith, e)), tt)) start-StateOk

-- One more job is there when the first is received; the pass empties the queue.
submission_processor-Batched_example :
    let pass : GlobalState → GlobalState = λ s. record s { queue = [] } in
    let rx = two_jobs ++ new_job 5 ∷ [] in
    let out = submission_processor pass ((1, 5) ∷ []) (rx, start) in
    Batched pass ((1, 5) ∷ []) rx out.0 start out.1
submission_processor-Batched_example =
    submission_processor-Batched (λ s. record s { queue = [] }) ((1, 5) ∷ [])
      (two_jobs ++ new_job 5 ∷ []) start
