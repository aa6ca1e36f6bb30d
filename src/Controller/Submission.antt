-- ===== src/Controller/Submission.antt =====
-- `submission_processor` of controller/src/submission.rs: jobs from the channel of submissions are
-- stored and queued in batches. What of the channel can be received without waiting, and the
-- scheduling pass behind a batch, are arguments.
pub mod Accepted
use veloce_ce.Base.{
  ℕ, ◌-◌, List, [], ◌∷◌, ◌++◌, Map, insert, nat_eq, take, drop, length, if◌then◌else◌,
}
use veloce_ce.Types.Job.{JobInfo}
use veloce_ce.Controller.State.{GlobalState, is_leader}

-- Into the batch go as many of those that are there as it has room for.
pub drain_channel : List JobInfo → List JobInfo → List JobInfo × List JobInfo
drain_channel batch rx = let room = 100 - length batch in (batch ++ take room rx, drop room rx)

pub insert_job : JobInfo → GlobalState → GlobalState
insert_job job s = record s { jobs = insert job.id job s.jobs; queue = s.queue ++ job.id ∷ [] }

pub insert_jobs : List JobInfo → GlobalState → GlobalState
unfolding insert_job
insert_jobs [] s = s
insert_jobs (job ∷ batch) s = insert_jobs batch (insert_job job s)

module _ (pass : GlobalState → GlobalState) where
  pub process_batch : ℕ → List JobInfo → GlobalState → GlobalState
  unfolding insert_jobs
  process_batch next_job_id batch s =
      if is_leader s.role
      then pass (insert_jobs batch (record s { next_job_id = next_job_id }))
      else s

  -- The rounds of the loop: the job that is waited for, how many others are there by then, and the
  -- counter of ids; and what is in the channel after them
  pub submission_processor : List (ℕ × ℕ) → List JobInfo × GlobalState → List JobInfo × GlobalState
  unfolding drain_channel process_batch
  submission_processor [] rs = rs
  submission_processor ((there, next_job_id) ∷ rounds) ([], s) = ([], s)
  submission_processor ((there, next_job_id) ∷ rounds) (job ∷ rx, s) =
      let (batch, rest) = drain_channel (job ∷ []) (take there rx) in
      submission_processor rounds (rest ++ drop there rx, process_batch next_job_id batch s)
