-- ===== src/Base/HashMap.antt =====
-- `HashMap`, `BTreeMap` and `DashMap` as association lists. The order of the list stands for the
-- order of iteration, which the theorems leave open.
use mathlib.Core.Path.{◌≡◌, refl, sym, ap, subst, ◌∙◌}
use mathlib.Core.Bool.{Bool, true, false}
use mathlib.Core.List.{List, [], ◌∷◌}
use mathlib.Core.Option
use mathlib.Core.Option.{Option, none, some}
use native.Mathlib.Omega.{arith}
use veloce_ce.Base.Tests.{if◌then◌else◌}
use mathlib.Core.Logic.{inl, inr}
use veloce_ce.Base.Equality.{Eq, ◌==◌, contains, beq-cases}

abbrev pub Map {ℓ κ} : Type ℓ → Type κ → Type (ℓ ⊔ κ)
Map K V = List (K × V)

module _ {ℓ κ} {K : Type ℓ} {V : Type κ} where
  -- `keys`
  abbrev pub keys : Map K V → List K
  keys [] = []
  keys ((j, v) ∷ m) = j ∷ keys m

  -- `values`
  abbrev pub values : Map K V → List V
  values [] = []
  values ((j, v) ∷ m) = v ∷ values m

module _ {ℓ κ} {K : Type ℓ} {V : Type κ} ⦃e : Eq K⦄ where
  abbrev pub get : K → Map K V → Option V
  get k [] = none
  get k ((j, v) ∷ m) = if j == k then some v else get k m

  -- `get(k).unwrap_or(d)`
  abbrev pub get_or : V → K → Map K V → V
  get_or d k m = elim (get k m) [ none ↦ d | some v ↦ v ]

  abbrev pub contains_key : K → Map K V → Bool
  contains_key k m = elim (get k m) [ none ↦ false | some _ ↦ true ]

  abbrev pub insert : K → V → Map K V → Map K V
  insert k v [] = (k, v) ∷ []
  insert k v ((j, w) ∷ m) = if j == k then (k, v) ∷ m else (j, w) ∷ insert k v m

  abbrev pub remove : K → Map K V → Map K V
  remove k [] = []
  remove k ((j, v) ∷ m) = let rest = remove k m in if j == k then rest else (j, v) ∷ rest

  -- `if let Some(v) = get_mut(k) { *v = f(*v) }`
  abbrev pub adjust : K → (V → V) → Map K V → Map K V
  adjust k f [] = []
  adjust k f ((j, v) ∷ m) = if j == k then (j, f v) ∷ m else (j, v) ∷ adjust k f m

  -- `retain` by the value
  abbrev pub retain : (V → Bool) → Map K V → Map K V
  retain p [] = []
  retain p ((j, v) ∷ m) = let rest = retain p m in if p v then (j, v) ∷ rest else rest

  -- Every key stands once, as in any map of the source.
  abbrev pub Distinct : Map K V → Type κ
  Distinct [] = Unit
  Distinct ((k, v) ∷ m) = (get k m ≡ none) × Distinct m

  pub get-insert :
      (k j : K) (v : V) (m : Map K V) → get j (insert k v m) ≡ (if k == j then some v else get j m)
  get-insert k j v [] = refl
  get-insert k j v ((i, w) ∷ m) =
      ground (arith, e.beq_correct k j, e.beq_correct i k, e.beq_correct i j, get-insert k j v m)

  pub get-remove : (k j : K) (m : Map K V) → get j (remove k m) ≡ (if k == j then none else get j m)
  get-remove k j [] = ground arith
  get-remove k j ((i, w) ∷ m) =
      ground (arith, e.beq_correct k j, e.beq_correct i k, e.beq_correct i j, get-remove k j m)

  pub get-adjust :
      (k j : K) (f : V → V) (m : Map K V)
      → get j (adjust k f m) ≡ (if k == j then Option.map f (get j m) else get j m)
  get-adjust k j f [] = ground arith
  get-adjust k j f ((i, w) ∷ m) =
      ground (arith, e.beq_correct k j, e.beq_correct i k, e.beq_correct i j, get-adjust k j f m)

  pub keys-adjust : (k : K) (f : V → V) (m : Map K V) → keys (adjust k f m) ≡ keys m
  keys-adjust k f [] = refl
  keys-adjust k f ((i, w) ∷ m) = ground (arith, keys-adjust k f m)

  pub contains-keys : (k : K) (m : Map K V) → contains k (keys m) ≡ contains_key k m
  contains-keys k [] = refl
  contains-keys k ((i, w) ∷ m) = ground (arith, contains-keys k m)

  -- A value that is there may not be overwritten by a key that is not.
  pub remove_absent : (k : K) (m : Map K V) → get k m ≡ none → remove k m ≡ m
  remove_absent k [] h = refl
  remove_absent k ((i, w) ∷ m) h = ground (arith, remove_absent k m)

  pub Distinct-insert : (k : K) (v : V) (m : Map K V) → Distinct m → Distinct (insert k v m)
  Distinct-insert k v [] h = (refl, tt)
  Distinct-insert k v ((i, w) ∷ m) h =
      ground
        (arith, e.beq_correct i k, get-insert k i v m, Distinct-insert k v m, e.beq_correct k i)

  pub Distinct-remove : (k : K) (m : Map K V) → Distinct m → Distinct (remove k m)
  Distinct-remove k [] h = tt
  Distinct-remove k ((i, w) ∷ m) h =
      ground (arith, get-remove k i m, e.beq_correct k i, Distinct-remove k m)

  pub Distinct-adjust : (k : K) (f : V → V) (m : Map K V) → Distinct m → Distinct (adjust k f m)
  Distinct-adjust k f [] h = tt
  Distinct-adjust k f ((i, w) ∷ m) h =
      ground
        (arith, get-adjust k i f m, e.beq_correct k i, e.beq_correct i k, Distinct-adjust k f m)

  -- What an adjusted value was.
  pub get-adjust-some :
      (k j : K) (f : V → V) (m : Map K V) {w : V}
      → get j (adjust k f m) ≡ some w
      → (v : V) × (get j m ≡ some v) × (w ≡ (if k == j then f v else v))
  get-adjust-some k j f m {w} h = go (get j m) refl
    where
      go :
          (o : Option V)
          → get j m ≡ o
          → (v : V) × (get j m ≡ some v) × (w ≡ (if k == j then f v else v))
      go none q = absurd (ground (arith, get-adjust k j f m))
      go (some v) q = (v, q, ground (arith, get-adjust k j f m))

  pub get-remove-some :
      (k j : K) (m : Map K V) {w : V}
      → get j (remove k m) ≡ some w
      → ((k == j) ≡ false) × (get j m ≡ some w)
  get-remove-some k j m h = ground (arith, get-remove k j m)

  -- What an adjustment keeps where it is made holds of every value after it.
  pub adjust_inv {μ} :
      (P : K → V → Type μ) (k : K) (f : V → V) (m : Map K V)
      → ((v : V) → get k m ≡ some v → P k v → P k (f v))
      → ((j : K) (v : V) → get j m ≡ some v → P j v)
      → (j : K) (w : V) → get j (adjust k f m) ≡ some w
      → P j w
  adjust_inv P k f m keep all j w h =
      let (v, stored, result) = get-adjust-some k j f m h in
      elim (beq-cases k j) [
        | inl same ↦
            let there : get k m ≡ some v = ap (λ i. get i m) same ∙ stored in
            let kept : P j (f v) = subst (λ i. P i (f v)) same (keep v there (all k v there)) in
            subst (P j) (sym (result ∙ ground (arith, e.beq_correct k j))) kept
        | inr other ↦ subst (P j) (sym (result ∙ rw other refl)) (all j v stored)
      ]
