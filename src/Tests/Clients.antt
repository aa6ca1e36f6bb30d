-- ===== src/Tests/Clients.antt =====
-- What clients ask for: reservations, requests in a minute, time limits and dependencies.
use veloce_ce.Base.{
  add32, ◌*◌, ℕ, String, ◌≡◌, refl, arith, true, false, List, [], ◌∷◌, none, some, ok, err, min,
  ◌+◌, ◌≤◌, ◌<◌, string_eq, get, format, starts_with, has_text,
}
use veloce_ce.Types.Dependency.{after_not_ok, DependencySpec}
use veloce_ce.Common.RingBuffer
use veloce_ce.Common.RingBuffer.History.{Op, pushed, drained, asked_len, run, run_log, run-run_log}
use veloce_ce.Common.JobPolicy.{JobExecutionOptions, filter_host_env_for_job}
use veloce_ce.Common.JobPolicy.Filter.{granted, get-filter_host_env_for_job}
use veloce_ce.Controller.Auth.{AuthenticatedPrincipal, api_key, is_admin_or_operator}
use veloce_ce.Controller.Reservations.{CreateReservationRequest}
use veloce_ce.Controller.Reservations.Apart.{IsValid}
use veloce_ce.Controller.Reservations.Requests.{
  create, delete, Request, answer_all, answer_all-IsValid, Acceptable, wanted,
}
use veloce_ce.Controller.RateLimit
use veloce_ce.Controller.RateLimit.{
  ApiRateLimiter, classify, bucket_key, mutation, post, check, limit_for,
}
use veloce_ce.Controller.RateLimit.Clients.{Call, LimitsFit, answer, passed}
use veloce_ce.Controller.RateLimit.Clients.Bound.{entries, passed_bound, check_retry}
use veloce_ce.Slurm.Time.{u64_max, parse_slurm_time}
use veloce_ce.Slurm.Time.Limits.{days_hours, pieces, meaning, parse_slurm_time-pieces}
use veloce_ce.Tests.Fixtures.{start}

abbrev ops : List (Op ℕ)
ops = pushed 1 ∷ pushed 2 ∷ pushed 3 ∷ asked_len ∷ drained ∷ asked_len ∷ []

run-run_log_example : run (RingBuffer.new 2) ops ≡ run_log 2 [] ops
run-run_log_example = run-run_log 2 ops

abbrev options : JobExecutionOptions
options = record {
  inherit_host_env = false;
  env_allowlist = some ("PATH" ∷ "LD_PRELOAD" ∷ []);
  job_profile = none;
}

abbrev host : List (String × String)
host = ("PATH", "/bin") ∷ ("LD_PRELOAD", "/x.so") ∷ ("HOME", "/root") ∷ []

get-filter_host_env_for_job_example :
    get "HOME" (filter_host_env_for_job host true [] options true)
    ≡ granted host true [] options true "HOME"
get-filter_host_env_for_job_example = get-filter_host_env_for_job host true [] options true "HOME"

abbrev operator : AuthenticatedPrincipal
operator = record { user_id = "ops"; roles = "operator" ∷ []; auth_method = api_key }

abbrev request : CreateReservationRequest
request = record { nodes = "n1" ∷ []; start_time = 20; end_time = 30; owner = "" }

start-IsValid : IsValid start.reservations
start-IsValid = record {
  apart = λ i j a b node p q ne x y. absurd (ground arith);
  proper = λ i a p. absurd (ground arith);
}

abbrev requests : List Request
requests =
    create "r1" 10 operator request ∷ create "r2" 10 operator request ∷ delete operator "r1" ∷ []

answer_all-IsValid_example : IsValid (answer_all requests start).reservations
answer_all-IsValid_example = answer_all-IsValid requests start start-IsValid

operator_may : is_admin_or_operator operator ≡ true
unfolding is_admin_or_operator
operator_may = refl

request-Acceptable : Acceptable 10 operator request start (wanted "r1" operator request)
request-Acceptable = record {
  role = operator_may;
  ordered = omega arith;
  later = omega arith;
  some_node = refl;
  known = λ node there. ground arith;
  free = λ j b node there p q. absurd (ground arith);
}

-- The last two read the clock before the one at 120 held the bucket.
abbrev calls : List Call
calls = call 100 ∷ call 101 ∷ call 119 ∷ call 120 ∷ call 118 ∷ call 119 ∷ []
  where
    call : ℕ → Call
    call now = record {
      now = now;
      principal = "ops";
      method = post;
      path = "/api/v1/jobs";
      p = operator;
    }

small : LimitsFit (RateLimit.new 9 2 3)
unfolding RateLimit.new
small = omega arith

mutations : 0 < limit_for (RateLimit.new 9 2 3) mutation
unfolding RateLimit.new limit_for
mutations = omega arith

passed_bound_example :
    passed "ops" mutation 1 (RateLimit.new 9 2 3) calls
    ≤ limit_for (RateLimit.new 9 2 3) mutation
      * entries (bucket_key "ops" mutation) (RateLimit.new 9 2 3) 1 false calls
passed_bound_example = passed_bound 9 2 3 "ops" mutation 1 calls small mutations

-- Twice the limit
too_many : passed "ops" mutation 1 (RateLimit.new 9 2 3) calls ≡ 4
unfolding passed check classify limit_for bucket_key RateLimit.new format starts_with has_text
    is_admin_or_operator add32
too_many = refl

abbrev full : ApiRateLimiter
full = record {
  buckets = ("ops:1", record { window_start = 1; count = 2 }) ∷ [];
  read_limit = 9;
  mutation_limit = 2;
  admin_limit = 3;
}

abbrev late : Call
late = record { now = 100; principal = "ops"; method = post; path = "/api/v1/jobs"; p = operator }

refused : (answer late full).1 ≡ err 20
unfolding check classify limit_for bucket_key is_admin_or_operator starts_with has_text format
refused = refl

check_retry_example :
    (20 ≤ 60) × ((answer (record late { now = 100 + 20 }) (answer late full).0).1 ≡ ok tt)
check_retry_example = check_retry late full 20 refused

parse_slurm_time-pieces_example :
    parse_slurm_time (format (pieces (days_hours 1 2)))
    ≡ ok (min (meaning (days_hours 1 2)) u64_max)
parse_slurm_time-pieces_example =
    parse_slurm_time-pieces (days_hours 1 2) (omega arith) (omega arith)

abbrev dependency : DependencySpec
dependency = record { parent_id = 17; condition = after_not_ok }
