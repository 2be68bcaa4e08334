-- ===== src/Dict.antt =====
-- Python's `dict`, as the list of its items in insertion order: an assignment to a key that is
-- there keeps its place, a new key goes to the end. No list of a program holds a key twice.
use openlinker_python.Prelude.{
  ◌≡◌, refl, Option, none, some, List, [], ◌∷◌, arith, Eq, ◌==◌, if◌then◌else◌,
}

abbrev pub Dict {ℓ} : Type ℓ → Type ℓ → Type ℓ
Dict K V = List (K × V)

-- `d.values()`
abbrev pub values {ℓ} : {K V : Type ℓ} → Dict K V → List V
values [] = []
values ((k, v) ∷ d) = v ∷ values d

module _ {ℓ} {K V : Type ℓ} ⦃e : Eq K⦄ where
  -- `d.get(k)`
  unfoldable pub get : Dict K V → K → Option V
  get [] k = none
  get ((j, v) ∷ d) k = if j == k then some v else get d k

  -- `d[k] = v`
  unfoldable pub set_item : Dict K V → K → V → Dict K V
  set_item [] k v = (k, v) ∷ []
  set_item ((j, w) ∷ d) k v =
      let rest = set_item d k v in if j == k then (j, v) ∷ d else (j, w) ∷ rest

  -- `d.pop(k, None)`
  unfoldable pub pop : Dict K V → K → Dict K V
  pop [] k = []
  pop ((j, w) ∷ d) k = let rest = pop d k in if j == k then rest else (j, w) ∷ rest

  pub get-set_item :
      (d : Dict K V) (k j : K) (v : V)
      → get (set_item d k v) j ≡ (if k == j then some v else get d j)
  unfolding get set_item
  get-set_item [] k j v = refl
  get-set_item ((i, w) ∷ d) k j v =
      ground (arith, e.same_iff i k, e.same_iff i j, e.same_iff k j, get-set_item d k j v)

  pub get-pop : (d : Dict K V) (k j : K) → get (pop d k) j ≡ (if k == j then none else get d j)
  unfolding get pop
  get-pop [] k j = ground arith
  get-pop ((i, w) ∷ d) k j =
      ground (arith, e.same_iff i k, e.same_iff i j, e.same_iff k j, get-pop d k j)

  -- An assignment of the value that is there changes nothing.
  pub set_item_self : (d : Dict K V) (k : K) (v : V) → get d k ≡ some v → set_item d k v ≡ d
  unfolding get set_item
  set_item_self [] k v h = cc
  set_item_self ((j, w) ∷ d) k v h = ground (arith, set_item_self d k v)
