-- ===== src/Slurm/Facade/Kills.antt =====
-- Which jobs `scancel` kills, and what it answers.
use veloce_ce.Base.{
  arith, is_zero, String, true, false, List, [], ◌∷◌, ◌++◌, Result, ok, err, Result-cases,
  Bool-cases, format, ◌≡◌, refl, sym, ap, subst, ◌⊎◌, inl, inr,
}
use veloce_ce.Slurm.Values.{Numbers}
use veloce_ce.Slurm.Invoke.{jobs_kill}
use veloce_ce.Slurm.Format.{Json, format_scancel}
use veloce_ce.Slurm.Facade.{VeloceOutput, FacadeOutput, Machine, kill_each, Run, failed}

module _ (m : Numbers) (J : Json) (M : Machine) (bin : String) where
  -- The state after one kill, and after several
  abbrev pub killed : M.State → String → M.State
  killed w id = (M.run w bin (jobs_kill id)).0

  abbrev pub all_killed : M.State → List String → M.State
  all_killed w [] = w
  all_killed w (id ∷ ids) = all_killed (killed w id) ids

  abbrev answer : M.State → String → Result String VeloceOutput
  answer w id = (M.run w bin (jobs_kill id)).1

  -- The kill has the status 0, and its answer can be read.
  pub record Succeeds (w : M.State) (id : String) : Type 0 where
    pub out : VeloceOutput
    pub line : String
    pub answered : answer w id ≡ ok out
    pub zero_status : is_zero out.status ≡ true
    pub readable : format_scancel J out.stdout ≡ ok line

  abbrev pub AllSucceed : M.State → List String → Type 0
  AllSucceed w [] = Unit
  AllSucceed w (id ∷ ids) = Succeeds w id × AllSucceed (killed w id) ids

  -- An error, or an exit code that is not 0
  abbrev pub IsFailure : Result String FacadeOutput → Type 0
  IsFailure (err e) = Unit
  IsFailure (ok out) = is_zero out.exit_code ≡ false

  abbrev pub IsSuccess : Result String FacadeOutput → Type 0
  IsSuccess (err e) = ⊥
  IsSuccess (ok out) = is_zero out.exit_code ≡ true

  pub record Stopped (w : M.State) (ids : List String) (r : Run m J M) : Type 0 where
    pub before : List String
    pub id : String
    pub after : List String
    pub split : ids ≡ before ++ id ∷ after
    pub succeeded : AllSucceed w before
    pub unkilled : ¬ Succeeds (all_killed w before) id
    pub state : r.0 ≡ killed (all_killed w before) id
    pub failed : IsFailure r.1

  abbrev pub Ended : M.State → List String → Run m J M → Type 0
  Ended w ids r = (AllSucceed w ids × (r.0 ≡ all_killed w ids) × IsSuccess r.1) ⊎ Stopped w ids r

  stops_at :
      (w : M.State) (id : String) (ids : List String) (r : Run m J M)
      → ¬ Succeeds w id
      → r.0 ≡ killed w id
      → IsFailure r.1
      → Ended w (id ∷ ids) r
  stops_at w id ids r u s f = inr (record {
    before = [];
    id = id;
    after = ids;
    split = refl;
    succeeded = tt;
    unkilled = u;
    state = s;
    failed = f;
  })

  goes_on :
      (w : M.State) (id : String) (ids : List String) (r : Run m J M)
      → Succeeds w id
      → Ended (killed w id) ids r
      → Ended w (id ∷ ids) r
  goes_on w id ids r s (inl (all, state, success)) = inl ((s, all), state, success)
  goes_on w id ids r s (inr t) = inr (record {
    before = id ∷ t.before;
    id = t.id;
    after = t.after;
    split = ap (◌∷◌ id) t.split;
    succeeded = (s, t.succeeded);
    unkilled = t.unkilled;
    state = t.state;
    failed = t.failed;
  })

  -- Either every job is killed, in order, and the exit code is 0; or all before one are killed, the
  -- kill of this one does not succeed, none behind it is killed, and the answer is a failure.
  pub kill_each-Ended :
      (ids : List String) (stdout stderr : String) (w : M.State)
      → Ended w ids (kill_each m J M bin ids stdout stderr w)
  unfolding kill_each
  kill_each-Ended [] stdout stderr w = inl (tt, refl, refl)
  kill_each-Ended (id ∷ ids) stdout stderr w =
      let by =
        λ (r : Run m J M) (e : kill_each m J M bin (id ∷ ids) stdout stderr w ≡ r)
            (h : Ended w (id ∷ ids) r).
          subst (Ended w (id ∷ ids)) (sym e) h in
      let stops = λ (r : Result String FacadeOutput) (u : ¬ Succeeds w id) (f : IsFailure r).
        stops_at w id ids (killed w id, r) u refl f in
      elim (Result-cases (answer w id)) [
        | inr (e, a) ↦
            by (killed w id, err e) (rw (a, kill_each) refl)
              (stops (err e) (λ k. absurd (ground (arith, a, k.answered))) tt)
        | inl (out, a) ↦
            let all = format (stderr ∷ out.stderr ∷ []) in
            elim (Bool-cases (is_zero out.status)) [
              | inr z ↦
                  let r : Result String FacadeOutput = ok (failed out all) in
                  by (killed w id, r) (rw (a, z, kill_each) refl)
                    (stops r (λ k. absurd (ground (arith, a, z, k.answered, k.zero_status))) z)
              | inl z ↦ elim (Result-cases (format_scancel J out.stdout)) [
                | inr (e, b) ↦
                    by (killed w id, err e) (rw (a, z, b, kill_each) refl)
                      (stops (err e) (λ k. absurd (ground (arith, a, b, k.answered, k.readable)))
                        tt)
                | inl (line, b) ↦
                    let stdout' = format (stdout ∷ line ∷ "\n" ∷ []) in
                    by (kill_each m J M bin ids stdout' all (killed w id))
                      (rw (a, z, b, kill_each) refl)
                      (goes_on w id ids _
                        (record {
                          out = out;
                          line = line;
                          answered = a;
                          zero_status = z;
                          readable = b;
                        })
                        (kill_each-Ended ids stdout' all (killed w id)))
              ]
            ]
      ]
