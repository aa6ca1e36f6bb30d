-- ===== src/Common/RingBuffer/History.antt =====
-- The ring buffer against a log of everything that was pushed since the last drain.
use veloce_ce.Base.{
  ℕ, zero, suc, ◌+◌, ◌-◌, ◌≤◌, ◌<◌, max, Bool-cases, inl, inr, ◌≡◌, refl, ap, sym, ◌∙◌, arith, Bool,
  List, [], ◌∷◌, ◌++◌, length, drop, is_empty as has_no_items, leb, if◌then◌else◌, length-append,
}
use veloce_ce.Common.RingBuffer.{RingBuffer, new, push, pop_all, is_empty, len}

pub data Op {ℓ} (A : Type ℓ) : Type ℓ where
  pushed : A → Op A
  drained asked_empty asked_len : Op A

pub data Reply {ℓ} (A : Type ℓ) : Type ℓ where
  done : Reply A
  items : List A → Reply A
  answer : Bool → Reply A
  size : ℕ → Reply A

module _ {ℓ} {A : Type ℓ} where
  pub run : RingBuffer A → List (Op A) → List (Reply A)
  run r [] = []
  run r (pushed x ∷ ops) = done ∷ run (push x r) ops
  run r (drained ∷ ops) = let (r', xs) = pop_all r in items xs ∷ run r' ops
  run r (asked_empty ∷ ops) = answer (is_empty r) ∷ run r ops
  run r (asked_len ∷ ops) = size (len r) ∷ run r ops

  -- The last `n` items of a list.
  abbrev pub last : ℕ → List A → List A
  last n xs = drop (length xs - n) xs

  -- The specification: the whole log is kept, and a reader sees its end.
  pub run_log : ℕ → List A → List (Op A) → List (Reply A)
  run_log n log [] = []
  run_log n log (pushed x ∷ ops) = done ∷ run_log n (log ++ x ∷ []) ops
  run_log n log (drained ∷ ops) = items (last n log) ∷ run_log n [] ops
  run_log n log (asked_empty ∷ ops) = answer (has_no_items (last n log)) ∷ run_log n log ops
  run_log n log (asked_len ∷ ops) = size (length (last n log)) ∷ run_log n log ops

  length-drop : (k : ℕ) (xs : List A) → length (drop k xs) ≡ length xs - k
  length-drop zero xs = omega arith
  length-drop (suc k) [] = omega arith
  length-drop (suc k) (x ∷ xs) = omega (arith, length-drop k xs)

  drop-drop : (k : ℕ) (xs : List A) → drop 1 (drop k xs) ≡ drop (suc k) xs
  drop-drop zero [] = refl
  drop-drop zero (x ∷ xs) = refl
  drop-drop (suc k) [] = refl
  drop-drop (suc k) (x ∷ xs) = drop-drop k xs

  drop-append : (k : ℕ) (xs ys : List A) → k ≤ length xs → drop k (xs ++ ys) ≡ drop k xs ++ ys
  drop-append zero xs ys h = refl
  drop-append (suc k) [] ys h = absurd (omega arith)
  drop-append (suc k) (x ∷ xs) ys h = drop-append k xs ys (omega arith)

  drop_empty : (k : ℕ) → drop {A = A} k [] ≡ []
  drop_empty zero = refl
  drop_empty (suc k) = refl

  drop_zero : (xs : List A) → length xs < 1 → drop 1 xs ≡ xs
  drop_zero [] h = refl
  drop_zero (x ∷ xs) h = absurd (omega arith)

  -- A log that is longer than the buffer loses its oldest visible item by a push.
  last-push_full :
      (c m k : ℕ) (log : List A) (x : A)
      → c ≤ m
      → 1 ≤ m
      → length log ≡ k + m
      → (if leb c (length (drop k log)) then drop 1 (drop k log) else drop k log) ++ x ∷ []
        ≡ drop (suc k) (log ++ x ∷ [])
  last-push_full c m k log x h p e =
      ground (arith, length-drop k log, drop-drop k log, drop-append (suc k) log (x ∷ []))

  last-push_short :
      (c : ℕ) (log : List A)
      → length log < max 1 c
      → (if leb c (length log) then drop 1 log else log) ≡ log
  last-push_short c log h = ground (arith, drop_zero log)

  -- What a push does to the end of the log.
  last-push :
      (c : ℕ) (log : List A) (x : A)
      → (let seen = last (max 1 c) log in
          (if leb c (length seen) then drop 1 seen else seen) ++ x ∷ [])
        ≡ last (max 1 c) (log ++ x ∷ [])
  last-push c log x = elim (Bool-cases (leb (max 1 c) (length log))) [
    | inl full ↦
        let more : length (log ++ x ∷ []) - max 1 c ≡ suc (length log - max 1 c) =
          ground (arith, length-append log (x ∷ [])) in
        rw more (
          last-push_full c (max 1 c) (length log - max 1 c) log x (omega arith) (omega arith)
            (ground arith))
    | inr short ↦
        let less : length log - max 1 c ≡ 0 = ground arith in
        let none_out : length (log ++ x ∷ []) - max 1 c ≡ 0 =
          ground (arith, length-append log (x ∷ [])) in
        rw less
          (rw none_out (ap (λ (b : List A). b ++ x ∷ []) (last-push_short c log (ground arith))))
  ]

  run-empty :
      (c k : ℕ) (ops : List (Op A))
      → run (record { buffer = []; capacity = c }) ops
        ≡ run (record { buffer = drop k []; capacity = c }) ops
  run-empty c k ops =
      ap (λ (b : List A). run (record { buffer = b; capacity = c }) ops) (sym (drop_empty k))

  run-log :
      (c : ℕ) (log : List A) (ops : List (Op A))
      → run (record { buffer = last (max 1 c) log; capacity = c }) ops ≡ run_log (max 1 c) log ops
  unfolding run run_log push pop_all is_empty len
  run-log c log [] = refl
  run-log c log (pushed x ∷ ops) = ap (◌∷◌ done) (
      ap (λ (b : List A). run (record { buffer = b; capacity = c }) ops) (last-push c log x)
      ∙ run-log c (log ++ x ∷ []) ops)
  run-log c log (drained ∷ ops) =
      ap (◌∷◌ (items (last (max 1 c) log))) (run-empty c (0 - max 1 c) ops ∙ run-log c [] ops)
  run-log c log (asked_empty ∷ ops) =
      ap (◌∷◌ (answer (has_no_items (last (max 1 c) log)))) (run-log c log ops)
  run-log c log (asked_len ∷ ops) =
      ap (◌∷◌ (size (length (last (max 1 c) log)))) (run-log c log ops)

  pub run-run_log : (c : ℕ) (ops : List (Op A)) → run (new c) ops ≡ run_log (max 1 c) [] ops
  unfolding new
  run-run_log c ops = run-empty c (0 - max 1 c) ops ∙ run-log c [] ops
