-- ===== src/Store/Seqs.antt =====
-- A Python `set` of ints, as its ascending list, with the set operations of
-- src/openlinker/runtime/store.py and their laws.
use openlinker_python.Prelude.{
  ℕ, ◌+◌, ◌<◌, ◌≤◌, ◌≡◌, refl, true, false, ◌&&◌, ◌||◌, not, List, [], ◌∷◌, arith, ltb, ◌==◌,
  nat_eq, if◌then◌else◌, contains, length, All,
}

unfoldable pub add_seq : ℕ → List ℕ → List ℕ
add_seq n [] = n ∷ []
add_seq n (x ∷ xs) =
    let rest = add_seq n xs in if ltb n x then n ∷ x ∷ xs else if n == x then x ∷ xs else x ∷ rest

-- `sorted(set(xs))`
unfoldable pub sorted_set : List ℕ → List ℕ
sorted_set [] = []
sorted_set (x ∷ xs) = add_seq x (sorted_set xs)

-- `s.remove(n)`
unfoldable pub remove_seq : ℕ → List ℕ → List ℕ
remove_seq n [] = []
remove_seq n (x ∷ xs) = let rest = remove_seq n xs in if n == x then rest else x ∷ rest

-- Strictly ascending, and above a bound.
abbrev pub Above : ℕ → List ℕ → Type 0
Above b [] = Unit
Above b (x ∷ xs) = (b < x) × Above x xs

pub Above-mono : {a b : ℕ} (xs : List ℕ) → a ≤ b → Above b xs → Above a xs
Above-mono [] h u = tt
Above-mono (x ∷ xs) h u = (omega arith, u.1)

pub contains-add_seq :
    (n q : ℕ) (xs : List ℕ) → contains (add_seq n xs) q ≡ (q == n || contains xs q)
unfolding add_seq contains
contains-add_seq n q [] = refl
contains-add_seq n q (x ∷ xs) = ground (arith, contains-add_seq n q xs)

pub contains-sorted_set : (q : ℕ) (xs : List ℕ) → contains (sorted_set xs) q ≡ contains xs q
unfolding sorted_set contains
contains-sorted_set q [] = refl
contains-sorted_set q (x ∷ xs) =
    ground (arith, contains-add_seq x q (sorted_set xs), contains-sorted_set q xs)

pub contains-remove_seq :
    (n q : ℕ) (xs : List ℕ) → contains (remove_seq n xs) q ≡ (not (q == n) && contains xs q)
unfolding remove_seq contains
contains-remove_seq n q [] = ground arith
contains-remove_seq n q (x ∷ xs) = ground (arith, contains-remove_seq n q xs)

pub length-remove_seq-le : (n : ℕ) (xs : List ℕ) → length (remove_seq n xs) ≤ length xs
unfolding remove_seq
length-remove_seq-le n [] = omega arith
length-remove_seq-le n (x ∷ xs) = ground (arith, length-remove_seq-le n xs)

pub length-remove_seq-lt :
    (n : ℕ) (xs : List ℕ) → contains xs n ≡ true → length (remove_seq n xs) < length xs
unfolding remove_seq contains
length-remove_seq-lt n [] h = cc
length-remove_seq-lt n (x ∷ xs) h =
    ground (arith, length-remove_seq-lt n xs, length-remove_seq-le n xs)

pub add_seq-Above : (b n : ℕ) (xs : List ℕ) → b < n → Above b xs → Above b (add_seq n xs)
unfolding add_seq
add_seq-Above b n [] h u = (h, tt)
add_seq-Above b n (x ∷ xs) h u = ground (arith, add_seq-Above x n xs)

pub sorted_set-Above : (b : ℕ) (xs : List ℕ) → All (λ x. b < x) xs → Above b (sorted_set xs)
unfolding sorted_set
sorted_set-Above b [] h = tt
sorted_set-Above b (x ∷ xs) h = add_seq-Above b x (sorted_set xs) h.0 (sorted_set-Above b xs h.1)

pub remove_seq-Above : (b n : ℕ) (xs : List ℕ) → Above b xs → Above b (remove_seq n xs)
unfolding remove_seq
remove_seq-Above b n [] u = tt
remove_seq-Above b n (x ∷ xs) u =
    ground (arith, remove_seq-Above x n xs, Above-mono {a = b} {b = x} (remove_seq n xs))

-- What is above `b` and not `b + 1` is above `b + 1`.
pub Above-next : (b : ℕ) (xs : List ℕ) → Above b xs → contains xs (b + 1) ≡ false → Above (b + 1) xs
unfolding contains
Above-next b [] u h = tt
Above-next b (x ∷ xs) u h = ground arith

-- On an ascending list `sorted_set` changes nothing.
add_seq_below : (n : ℕ) (xs : List ℕ) → Above n xs → add_seq n xs ≡ n ∷ xs
unfolding add_seq
add_seq_below n [] u = refl
add_seq_below n (x ∷ xs) u = ground arith

pub sorted_set_of_Above : (b : ℕ) (xs : List ℕ) → Above b xs → sorted_set xs ≡ xs
unfolding sorted_set
sorted_set_of_Above b [] u = refl
sorted_set_of_Above b (x ∷ xs) u =
    ground (arith, sorted_set_of_Above x xs u.1, add_seq_below x xs u.1)

-- What stands above a bound is not at the bound or under it.
pub contains_below : (n b : ℕ) (xs : List ℕ) → n ≤ b → Above b xs → contains xs n ≡ false
unfolding contains
contains_below n b [] h u = refl
contains_below n b (x ∷ xs) h u = ground (arith, contains_below n x xs)
