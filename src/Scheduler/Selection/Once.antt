-- ===== src/Scheduler/Selection/Once.antt =====
-- How often a worker stands in a choice of `schedule_jobs` (controller/src/scheduler/mod.rs).
use veloce_ce.Base.{
  ℕ, ◌+◌, ◌≤◌, String, ◌≡◌, refl, ◌⊎◌, inl, inr, Bool, true, List, [], ◌∷◌, ◌++◌, none, some,
  Option-cases, Bool-cases, count, arith, if◌then◌else◌, map, Map, get, get_or, insert, keys,
  Distinct, pair_eq, string_eq, nat_eq, take, drop, take-append-drop, length, ltb, leb, ap,
  contains_key, eq_iff,
}
use veloce_ce.Types.Job.{JobInfo, is_interactive}
use veloce_ce.Types.Cluster.{Reservation}
use veloce_ce.Controller.State.{WorkerHandle}
use veloce_ce.Scheduler.Fits.{find_available, is_open, sift, worker_fail_reasons}
use veloce_ce.Scheduler.Selection.{
  sort_by, insert_by, group, first_large, select_nodes, preempt_candidates, Choice, choose,
  choose_preempting, sort_available, cores_at,
}
use veloce_ce.Scheduler.Selection.Sorting.{count-sort_by}

module _ {ℓ} {A : Type ℓ} (ws : Map String WorkerHandle) (id_of : A → String) (x : String) where
  -- How often the worker stands among candidates.
  abbrev times : List A → ℕ
  times xs = count x (map id_of xs)

  abbrev pub Below : ℕ → Map (String × String) (List A) → Type 0
  Below n [] = Unit
  Below n ((k, xs) ∷ groups) = (times xs ≤ n) × Below n groups

  times-append : (xs ys : List A) → times (xs ++ ys) ≡ times xs + times ys
  times-append [] ys = omega arith
  times-append (y ∷ xs) ys = omega (arith, times-append xs ys)

  times-insert_by :
      (gt : A → A → Bool) (y : A) (ys : List A) → times (insert_by gt y ys) ≡ times (y ∷ ys)
  times-insert_by gt y [] = refl
  times-insert_by gt y (z ∷ zs) = ground (arith, times-insert_by gt y zs)

  times-sort_by : (gt : A → A → Bool) (ys : List A) → times (sort_by gt ys) ≡ times ys
  unfolding sort_by
  times-sort_by gt [] = refl
  times-sort_by gt (y ∷ ys) =
      omega (arith, times-insert_by gt y (sort_by gt ys), times-sort_by gt ys)

  times-take : (n : ℕ) (xs : List A) → times (take n xs) ≤ times xs
  times-take n xs =
      omega (arith, times-append (take n xs) (drop n xs), ap times (take-append-drop n xs))

  Below-get :
      (n : ℕ) (k : String × String) (groups : Map (String × String) (List A))
      → Below n groups
      → times (get_or [] k groups) ≤ n
  Below-get n k [] b = omega arith
  Below-get n k ((j, xs) ∷ groups) b = ground (arith, Below-get n k groups b.1)

  Below-insert :
      (n : ℕ) (k : String × String) (xs : List A) (groups : Map (String × String) (List A))
      → Below n groups
      → times xs ≤ n
      → Below n (insert k xs groups)
  Below-insert n k xs [] b h = (h, tt)
  Below-insert n k xs ((j, ys) ∷ groups) b h = ground (arith, Below-insert n k xs groups b.1 h)

  first_large-times :
      (n limit : ℕ) (groups : Map (String × String) (List A)) (xs : List A)
      → Below n groups
      → first_large ws id_of limit groups ≡ some xs
      → times xs ≤ n
  unfolding first_large
  first_large-times n limit [] xs b h = absurd (ground arith)
  first_large-times n limit ((k, ys) ∷ groups) xs b h = elim (Bool-cases (leb limit (length ys))) [
    | inl e ↦
        let q : take limit ys ≡ xs = ground arith in
        omega (arith, times-take limit ys, ap times q, b.0)
    | inr e ↦ first_large-times n limit groups xs b.1 (ground arith)
  ]

  -- The groups hold no more than what was put in.
  Below-add :
      (n : ℕ) (groups : Map (String × String) (List A)) (m : ℕ)
      → Below n groups
      → n ≤ m
      → Below m groups
  Below-add n [] m b h = tt
  Below-add n ((k, xs) ∷ groups) m b h = (omega (arith, b.0), Below-add n groups m b.1 h)

  group-Below :
      (n : ℕ) (xs : List A) (groups : Map (String × String) (List A))
      → Below n groups
      → Below (n + times xs) (group ws id_of xs groups)
  unfolding group
  group-Below n [] groups b = Below-add n groups (n + 0) b (omega arith)
  group-Below n (y ∷ xs) groups b = elim (Option-cases (get (id_of y) ws)) [
    | inl e ↦
        rw (e, group)
          (Below-add (n + times xs) (group ws id_of xs groups) (n + times (y ∷ xs))
            (group-Below n xs groups b) (omega arith))
    | inr (w, e) ↦
        let key : String × String = (w.resources.cpu_model, w.resources.arch) in
        let grown = get_or [] key groups ++ y ∷ [] in
        let wider : Below (n + times (y ∷ [])) groups =
          Below-add n groups (n + times (y ∷ [])) b (omega arith) in
        let fits : times grown ≤ n + times (y ∷ []) =
          omega (arith, times-append (get_or [] key groups) (y ∷ []), Below-get n key groups b) in
        rw (e, group)
          (Below-add (n + times (y ∷ []) + times xs) (group ws id_of xs (insert key grown groups))
            (n + times (y ∷ xs))
            (group-Below (n + times (y ∷ [])) xs (insert key grown groups)
              (Below-insert (n + times (y ∷ [])) key grown groups wider fits))
            (omega arith))
  ]

  -- Those selected are among the candidates, each no more often.
  pub select_nodes-times :
      (n : ℕ) (xs ys : List A) → select_nodes ws id_of n xs ≡ some (some ys) → times ys ≤ times xs
  unfolding select_nodes
  select_nodes-times n xs ys h = elim (Bool-cases (ltb 1 n)) [
    | inl many ↦
        first_large-times (times xs) n (group ws id_of xs []) ys
          (Below-add (0 + times xs) (group ws id_of xs []) (times xs) (group-Below 0 xs [] tt)
            (omega arith))
          (ground arith)
    | inr one ↦ single xs (ground arith)
  ]
    where
      single :
          (zs : List A)
          → (elim zs [ [] ↦ none | z ∷ _ ↦ some (some (z ∷ [])) ]) ≡ some (some ys)
          → times ys ≤ times zs
      single [] q = absurd (ground arith)
      single (z ∷ zs) q = let e : z ∷ [] ≡ ys = ground arith in omega (arith, ap times e)

module _ (now : ℕ) (job : JobInfo) (reservations : Map String Reservation) (jobs : Map ℕ JobInfo)
    (ws : Map String WorkerHandle) where
  -- The candidates for preemption in the order in which they are taken
  abbrev pub candidates : List (String × List ℕ)
  candidates =
      sort_by (λ (a : String × List ℕ) b. ltb (length b.1) (length a.1))
        (preempt_candidates now job reservations jobs ws)

  choose_preempting_cases :
      (c : Choice)
      → choose_preempting now job reservations jobs ws ≡ some (some c)
      → (nodes : List (String × List ℕ)) × (select_nodes ws
            (λ (k : String × List ℕ). k.0)
            job.req_nodes
            candidates
          ≡ some (some nodes))
        × (c.selected_ids ≡ map (λ (k : String × List ℕ). k.0) nodes)
  unfolding choose_preempting
  choose_preempting_cases c h =
      elim (Option-cases
        (select_nodes ws (λ (k : String × List ℕ). k.0) job.req_nodes candidates)) [
          | inl e ↦ absurd (ground arith)
          | inr (none, e) ↦ absurd (ground arith)
          | inr (some nodes, e) ↦ (nodes, e, ground arith)
        ]

  -- A choice takes workers with room, and evicts nothing; or an interactive job preempts.
  pub choose_cases :
      (available : List String) (c : Choice)
      → choose now job reservations jobs ws available ≡ some (some c)
      → ((select_nodes ws (λ id. id) job.req_nodes available ≡ some (some c.selected_ids))
          × (c.jobs_to_preempt ≡ []))
        ⊎ ((is_interactive job.qos ≡ true)
            × (choose_preempting now job reservations jobs ws ≡ some (some c)))
  unfolding choose
  choose_cases available c h =
      elim (Option-cases (select_nodes ws (λ (id : String). id) job.req_nodes available)) [
        | inl e ↦ absurd (ground arith)
        | inr (none, e) ↦ inr (ground arith, ground arith)
        | inr (some ids, e) ↦ inl (ground arith, ground arith)
      ]

pub map-same : (ids : List String) → map (λ id. id) ids ≡ ids
map-same [] = refl
map-same (id ∷ ids) = ap (◌∷◌ id) (map-same ids)

module _ (x : String) where
  count-keys :
      (ws : Map String WorkerHandle)
      → Distinct ws
      → count x (keys ws) ≤ (if contains_key x ws then 1 else 0)
  count-keys [] d = omega arith
  count-keys ((id, w) ∷ ws) d = ground (arith, count-keys ws d.1, eq_iff id x)

  count-keys-once : (ws : Map String WorkerHandle) → Distinct ws → count x (keys ws) ≤ 1
  count-keys-once ws d = ground (arith, count-keys ws d)

  module _ (now : ℕ) (job : JobInfo) (reservations : Map String Reservation) where
    count-find_available :
        (ws : Map String WorkerHandle)
        → count x (find_available now job reservations ws).0 ≤ count x (keys ws)
    unfolding find_available
    count-find_available [] = omega arith
    count-find_available ((id, w) ∷ ws) =
        elim (worker_fail_reasons now job reservations id w)
          as (λ rs.
            count x
              (if is_open w
                then sift id rs (find_available now job reservations ws)
                else find_available now job reservations ws).0
            ≤ count x (id ∷ keys ws)) [
              | [] ↦ ground (arith, count-find_available ws)
              | r ∷ rs ↦ ground (arith, count-find_available ws)
            ]

    count-preempt_candidates :
        (jobs : Map ℕ JobInfo) (ws : Map String WorkerHandle)
        → times ws
            (λ (c : String × List ℕ). c.0)
            x
            (preempt_candidates now job reservations jobs ws)
          ≤ count x (keys ws)
    unfolding preempt_candidates
    count-preempt_candidates jobs [] = omega arith
    count-preempt_candidates jobs ((id, w) ∷ ws) = ground (arith, count-preempt_candidates jobs ws)

    -- If each worker is stored once, a choice of workers for a job among those available, or with
    -- preemption, names no worker twice.
    pub choose-once :
        (jobs : Map ℕ JobInfo) (ws : Map String WorkerHandle) (c : Choice)
        → Distinct ws
        → choose now job reservations jobs ws
            (sort_available ws (find_available now job reservations ws).0)
          ≡ some (some c)
        → count x c.selected_ids ≤ 1
    unfolding sort_available
    choose-once jobs ws c d h =
        let found = (find_available now job reservations ws).0 in
        elim (choose_cases now job reservations jobs ws (sort_available ws found) c h) [
          | inl (e, _) ↦ omega (
            arith,
            ap (count x) (map-same c.selected_ids),
            ap (count x) (map-same (sort_available ws found)),
            select_nodes-times ws (λ (id : String). id) x job.req_nodes (sort_available ws found)
                c.selected_ids e,
            count-sort_by x (λ a b. ltb (cores_at ws a) (cores_at ws b)) found,
            count-find_available ws,
            count-keys-once ws d,
          )
          | inr (_, e) ↦
              let (nodes, q, r) = choose_preempting_cases now job reservations jobs ws c e in
              omega (
                arith,
                ap (count x) r,
                select_nodes-times ws (λ (k : String × List ℕ). k.0) x job.req_nodes
                    (candidates now job reservations jobs ws) nodes q,
                count-preempt_candidates jobs ws,
                times-sort_by ws (λ (k : String × List ℕ). k.0) x
                    (λ a b. ltb (length b.1) (length a.1))
                    (preempt_candidates now job reservations jobs ws),
                count-keys-once ws d,
              )
        ]
