-- ===== src/Controller/Submission/Accepted.antt =====
-- What becomes of the submissions in the channel.
use mathlib.Core.List.{append-nil, append_assoc}
use veloce_ce.Base.{
  length-take, length-append, length, ◌≤◌, ◌-◌, take, drop, take-append-drop, ℕ, String, true,
  false, some, List, [], ◌∷◌, ◌++◌, Map, get, insert, get-insert, contains, nat_eq, string_eq,
  beq_refl, ◌≡◌, refl, sym, ap, ◌∙◌, arith,
}
use veloce_ce.Types.Job.{JobInfo}
use veloce_ce.Controller.State.{GlobalState, WorkerHandle, is_leader}
use veloce_ce.Controller.Finalize.Books.{StateOk, Unheld, BooksOk-other}
use veloce_ce.Controller.Submission.{
  drain_channel, insert_job, insert_jobs, process_batch, submission_processor,
}

abbrev pub ids : List JobInfo → List ℕ
ids [] = []
ids (job ∷ jobs) = job.id ∷ ids jobs

-- No id is there twice, and no worker holds one of the jobs.
abbrev pub AllFresh : Map String WorkerHandle → List JobInfo → Type 0
AllFresh ws [] = Unit
AllFresh ws (job ∷ jobs) =
    (contains job.id (ids jobs) ≡ false) × Unheld job.id ws × AllFresh ws jobs

-- Each job is stored under its id.
abbrev pub AllStored : GlobalState → List JobInfo → Type 0
AllStored s [] = Unit
AllStored s (job ∷ jobs) = (get job.id s.jobs ≡ some job) × AllStored s jobs

ids-append : (a b : List JobInfo) → ids (a ++ b) ≡ ids a ++ ids b
ids-append [] b = refl
ids-append (job ∷ a) b = ap (λ t. job.id ∷ t) (ids-append a b)

insert_jobs_frame :
    (batch : List JobInfo) (s : GlobalState)
    → ((insert_jobs batch s).queue ≡ s.queue ++ ids batch)
      × ((insert_jobs batch s).role ≡ s.role)
      × ((insert_jobs batch s).workers ≡ s.workers)
unfolding insert_jobs insert_job
insert_jobs_frame [] s = (sym (append-nil s.queue), refl, refl)
insert_jobs_frame (job ∷ batch) s =
    let rest = insert_jobs_frame batch (insert_job job s) in
    (rest.0 ∙ append_assoc s.queue (job.id ∷ []) (ids batch), rest.1, rest.2)

insert_jobs_other :
    (batch : List JobInfo) (s : GlobalState) (k : ℕ)
    → contains k (ids batch) ≡ false
    → get k (insert_jobs batch s).jobs ≡ get k s.jobs
unfolding insert_jobs insert_job
insert_jobs_other [] s k h = refl
insert_jobs_other (job ∷ batch) s k h =
    insert_jobs_other batch (insert_job job s) k (ground (arith, h))
    ∙ get-insert job.id k job s.jobs
    ∙ ground (arith, h)

insert_jobs-AllStored :
    (batch : List JobInfo) (s : GlobalState)
    → AllFresh s.workers batch
    → AllStored (insert_jobs batch s) batch
unfolding insert_jobs insert_job
insert_jobs-AllStored [] s h = tt
insert_jobs-AllStored (job ∷ batch) s (once, free, fresh) = (
  insert_jobs_other batch (insert_job job s) job.id once
      ∙ get-insert job.id job.id job s.jobs
      ∙ rw (beq_refl job.id) refl,
  insert_jobs-AllStored batch (insert_job job s) fresh,
)

insert_jobs-StateOk :
    (batch : List JobInfo) (s : GlobalState)
    → AllFresh s.workers batch
    → StateOk s
    → StateOk (insert_jobs batch s)
unfolding insert_jobs insert_job
insert_jobs-StateOk [] s h ok = ok
insert_jobs-StateOk (job ∷ batch) s (once, free, fresh) ok =
    insert_jobs-StateOk batch (insert_job job s) fresh (
      BooksOk-other s.workers s.jobs (insert job.id job s.jobs) job.id ok free
        (λ j ne. get-insert job.id j job s.jobs ∙ ground (arith, ne)))

-- What a batch leaves to the scheduling pass
pub record Accepted (batch : List JobInfo) (s t : GlobalState) : Type 0 where
  pub books : StateOk t
  pub stored : AllStored t batch
  pub queued : t.queue ≡ s.queue ++ ids batch
  pub others : (k : ℕ) → contains k (ids batch) ≡ false → get k t.jobs ≡ get k s.jobs

-- On the leader, if the books are exact, the ids of a batch are different and no worker holds them,
-- then the scheduling pass is given a state with exact books in which each job of the batch is stored,
-- and queued behind what was queued, in order, and the other jobs are as before.
pub process_batch-Accepted :
    (pass : GlobalState → GlobalState) (next_job_id : ℕ) (batch : List JobInfo) (s : GlobalState)
    → is_leader s.role ≡ true
    → AllFresh s.workers batch
    → StateOk s
    → (t : GlobalState) × (process_batch pass next_job_id batch s ≡ pass t) × Accepted batch s t
unfolding process_batch
process_batch-Accepted pass next_job_id batch s leads fresh ok =
    let u = record s { next_job_id = next_job_id } in
    (
      insert_jobs batch u,
      rw (leads, process_batch) refl,
      record {
        books = insert_jobs-StateOk batch u fresh ok;
        stored = insert_jobs-AllStored batch u fresh;
        queued = (insert_jobs_frame batch u).0;
        others = insert_jobs_other batch u;
      },
    )

-- A batch takes at least one job and at most a hundred.
abbrev pub AllSized : List (ℕ × List JobInfo) → Type 0
AllSized [] = Unit
AllSized ((next, batch) ∷ batches) = (1 ≤ length batch) × (length batch ≤ 100) × AllSized batches

abbrev pub all_jobs : List (ℕ × List JobInfo) → List JobInfo
all_jobs [] = []
all_jobs ((next, batch) ∷ batches) = batch ++ all_jobs batches

module _ (pass : GlobalState → GlobalState) where
  abbrev pub process_all : List (ℕ × List JobInfo) → GlobalState → GlobalState
  process_all [] s = s
  process_all ((next, batch) ∷ batches) s = process_all batches (process_batch pass next batch s)

  -- Over rounds, with the batches that they take
  pub record Batched (rounds : List (ℕ × ℕ)) (rx rest : List JobInfo) (s t : GlobalState)
      : Type 0 where
    pub batches : List (ℕ × List JobInfo)
    pub sized : AllSized batches
    pub together : all_jobs batches ++ rest ≡ rx
    pub made : t ≡ process_all batches s
    pub fewer : length rest ≤ length rx - length rounds

  -- Whatever the scheduling passes do, and however many submissions each round finds in the channel,
  -- the rounds process batches of one job at least and a hundred at most, which together, in order,
  -- with what is left in the channel, are the submissions: none is left out, taken twice or overtaken; and
  -- each round takes at least one, as long as there are any.
  pub submission_processor-Batched :
      (rounds : List (ℕ × ℕ)) (rx : List JobInfo) (s : GlobalState)
      → let out = submission_processor pass rounds (rx, s) in Batched rounds rx out.0 s out.1
  unfolding submission_processor drain_channel
  submission_processor-Batched [] rx s = record {
    batches = [];
    sized = tt;
    together = refl;
    made = refl;
    fewer = omega arith;
  }
  submission_processor-Batched ((there, next) ∷ rounds) [] s = record {
    batches = [];
    sized = tt;
    together = refl;
    made = refl;
    fewer = omega arith;
  }
  submission_processor-Batched ((there, next) ∷ rounds) (job ∷ rx) s =
      let here = take there rx in
      let batch = job ∷ take 99 here in
      let left = drop 99 here ++ drop there rx in
      let t = process_batch pass next batch s in
      let rest = submission_processor-Batched rounds left t in
      let all : take 99 here ++ left ≡ rx =
        sym (append_assoc (take 99 here) (drop 99 here) (drop there rx))
        ∙ ap (λ xs. xs ++ drop there rx) (take-append-drop 99 here)
        ∙ take-append-drop there rx in
      let size = length-take 99 here in
      let count = ap length all in
      let split = length-append (take 99 here) left in
      record {
        batches = (next, batch) ∷ rest.batches;
        sized = (omega arith, omega (arith, size), rest.sized);
        together =
            append_assoc batch (all_jobs rest.batches)
              (submission_processor pass rounds (left, t)).0
            ∙ ap (λ xs. batch ++ xs) rest.together
            ∙ ap (λ xs. job ∷ xs) all;
        made = rest.made;
        fewer = omega (arith, rest.fewer, count, split);
      }
