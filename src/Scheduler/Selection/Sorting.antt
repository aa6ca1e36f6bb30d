-- ===== src/Scheduler/Selection/Sorting.antt =====
-- The sorts of `schedule_jobs` (controller/src/scheduler/mod.rs) and their elements.
use veloce_ce.Base.{◌≡◌, refl, Bool, List, [], ◌∷◌, Eq, contains, count, arith}
use veloce_ce.Scheduler.Selection.{sort_by, insert_by}

module _ {ℓ} {A : Type ℓ} ⦃e : Eq A⦄ (x : A) (gt : A → A → Bool) where
  count-insert_by : (y : A) (ys : List A) → count x (insert_by gt y ys) ≡ count x (y ∷ ys)
  count-insert_by y [] = refl
  count-insert_by y (z ∷ zs) = ground (arith, count-insert_by y zs)

  pub count-sort_by : (ys : List A) → count x (sort_by gt ys) ≡ count x ys
  unfolding sort_by
  count-sort_by [] = refl
  count-sort_by (y ∷ ys) = omega (arith, count-insert_by y (sort_by gt ys), count-sort_by ys)

  contains-insert_by : (y : A) (ys : List A) → contains x (insert_by gt y ys) ≡ contains x (y ∷ ys)
  contains-insert_by y [] = refl
  contains-insert_by y (z ∷ zs) = ground (arith, contains-insert_by y zs)

  pub contains-sort_by : (ys : List A) → contains x (sort_by gt ys) ≡ contains x ys
  unfolding sort_by
  contains-sort_by [] = refl
  contains-sort_by (y ∷ ys) =
      ground (arith, contains-insert_by y (sort_by gt ys), contains-sort_by ys)
