-- ===== src/Controller/Pmi/Barrier.antt =====
-- When the barrier of a step opens.
use veloce_ce.Base.{
  ℕ, String, false, List, [], ◌∷◌, get_or, insert, contains, adjoin, nat_eq, string_eq, pair_eq,
  ◌≡◌,
}
use veloce_ce.Controller.Pmi.{StepKey, Pmi, barrier_enter, handle_request}

-- Ranks that enter the barrier of a step, one after the other, from any workers
abbrev pub enter_all : StepKey → List (String × ℕ) → Pmi → Pmi
enter_all step [] p = p
enter_all step ((w, rank) ∷ ranks) p =
    enter_all step ranks (handle_request w (barrier_enter step rank) p)

-- The ranks that are there after these
abbrev pub there : List (String × ℕ) → List ℕ → List ℕ
there [] seen = seen
there ((w, rank) ∷ ranks) seen = there ranks (adjoin rank seen)

-- No rank enters twice, or is there already.
abbrev pub AllNew : List (String × ℕ) → List ℕ → Type 0
AllNew [] seen = Unit
AllNew ((w, rank) ∷ ranks) seen = (contains rank seen ≡ false) × AllNew ranks (adjoin rank seen)

-- The ranks that are at a barrier
abbrev pub at_barrier : StepKey → Pmi → List ℕ
at_barrier step p = get_or [] step p.pmi_barriers

abbrev with_ranks : StepKey → List ℕ → Pmi → Pmi
with_ranks step ranks p = record p { pmi_barriers = insert step ranks p.pmi_barriers }
