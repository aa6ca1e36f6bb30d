-- ===== src/Controller/Worker/Owned.antt =====
-- The books of a worker: every core, and every id of every resource, is available or has one owner.
use mathlib.Core.Path.{subst}
use mathlib.Core.Option.{some-injective}
use veloce_ce.Base.{
  ℕ, ◌+◌, String, ◌≡◌, inl, inr, Bool-cases, nat_beq, none, some, List, [], ◌∷◌, Map, get, get_or,
  insert, remove, contains, contains_key, count, Distinct, nat_eq, string_eq, if◌then◌else◌, ltb,
  arith, remove_absent,
}
use veloce_ce.Controller.State.{WorkerHandle}
use veloce_ce.Controller.Worker.{Gres, gres_limit}

-- How many jobs own the core.
abbrev pub owned : ℕ → Map ℕ (List ℕ) → ℕ
owned c [] = 0
owned c ((j, cores) ∷ m) = count c cores + owned c m

-- How many jobs own the id of that resource.
abbrev pub owned_gres : String → ℕ → Map ℕ Gres → ℕ
owned_gres name i [] = 0
owned_gres name i ((j, g) ∷ m) = count i (get_or [] name g) + owned_gres name i m

abbrev pub below : ℕ → ℕ → ℕ
below i n = if ltb i n then 1 else 0

-- Every map of ids that a job holds has distinct names.
abbrev pub AllDistinct : Map ℕ Gres → Type 0
AllDistinct [] = Unit
AllDistinct ((j, g) ∷ m) = Distinct g × AllDistinct m

pub record WorkerOk (w : WorkerHandle) : Type 0 where
  pub cores_exact :
      (c : ℕ)
      → count c w.available_core_ids + owned c w.job_core_assignments
        ≡ below c w.resources.cpu_cores
  pub gres_exact :
      (name : String) (i : ℕ)
      → count i (get_or [] name w.available_gres_ids) + owned_gres name i w.job_gres_assignments
        ≡ below i (gres_limit w.resources.gres name)
  pub cores_tracked : (j : ℕ) → contains_key j w.job_core_assignments ≡ contains j w.assigned_jobs
  pub gres_tracked : (j : ℕ) → contains_key j w.job_gres_assignments ≡ contains j w.assigned_jobs
  pub cores_distinct : Distinct w.job_core_assignments
  pub gres_distinct : Distinct w.job_gres_assignments
  pub names_distinct : AllDistinct w.job_gres_assignments

pub owned-remove :
    (c k : ℕ) (m : Map ℕ (List ℕ)) (cores : List ℕ)
    → Distinct m
    → get k m ≡ some cores
    → owned c m ≡ count c cores + owned c (remove k m)
owned-remove c k [] cores d h = cc
owned-remove c k ((j, cs) ∷ m) cores d h =
    ground (arith, remove_absent k m, owned-remove c k m cores)

pub owned-insert :
    (c k : ℕ) (m : Map ℕ (List ℕ)) (cores : List ℕ)
    → get k m ≡ none
    → owned c (insert k cores m) ≡ owned c m + count c cores
owned-insert c k [] cores h = omega arith
owned-insert c k ((j, cs) ∷ m) cores h = ground (arith, owned-insert c k m cores)

module _ (name : String) (i : ℕ) where
  pub owned_gres-remove :
      (k : ℕ) (m : Map ℕ Gres) (g : Gres)
      → Distinct m
      → get k m ≡ some g
      → owned_gres name i m ≡ count i (get_or [] name g) + owned_gres name i (remove k m)
  owned_gres-remove k [] g d h = cc
  owned_gres-remove k ((j, x) ∷ m) g d h =
      ground (arith, remove_absent k m, owned_gres-remove k m g)

  pub owned_gres-insert :
      (k : ℕ) (m : Map ℕ Gres) (g : Gres)
      → get k m ≡ none
      → owned_gres name i (insert k g m) ≡ owned_gres name i m + count i (get_or [] name g)
  owned_gres-insert k [] g h = omega arith
  owned_gres-insert k ((j, x) ∷ m) g h = ground (arith, owned_gres-insert k m g)

pub AllDistinct-get :
    (k : ℕ) (m : Map ℕ Gres) (g : Gres) → AllDistinct m → get k m ≡ some g → Distinct g
AllDistinct-get k [] g d h = cc
AllDistinct-get k ((j, x) ∷ m) g d h = elim (Bool-cases (nat_beq j k)) [
  | inl e ↦ subst (λ t. Distinct t) (some-injective x g (rw e at h)) d.0
  | inr e ↦ AllDistinct-get k m g d.1 (rw e at h)
]

pub AllDistinct-remove : (k : ℕ) (m : Map ℕ Gres) → AllDistinct m → AllDistinct (remove k m)
AllDistinct-remove k [] d = tt
AllDistinct-remove k ((j, x) ∷ m) d = ground (arith, AllDistinct-remove k m)

pub AllDistinct-insert :
    (k : ℕ) (m : Map ℕ Gres) (g : Gres) → AllDistinct m → Distinct g → AllDistinct (insert k g m)
AllDistinct-insert k [] g d h = (h, tt)
AllDistinct-insert k ((j, x) ∷ m) g d h = ground (arith, AllDistinct-insert k m g)
