-- ===== src/Sync/Barrier/Count.antt =====
-- sync.c: how many processors satisfy a test.
use smp_boot.Base.{ℕ, zero, suc, ◌+◌, ◌≤◌, ◌<◌, ◌≡◌, refl, ◌≢◌, Bool, true, false, arith}
use native.Mathlib.Decide.{ℕ_discrete}

abbrev one_if : Bool → ℕ
one_if true = 1
one_if false = 0

-- The number of indices below `n` at which `f` holds.
unfoldable pub count : (ℕ → Bool) → ℕ → ℕ
count f zero = 0
count f (suc n) = one_if (f n) + count f n

pub count-le : (f : ℕ → Bool) (n : ℕ) → count f n ≤ n
unfolding count
count-le f zero = ground arith
count-le f (suc n) = ground (arith, count-le f n)

pub count-ext : (f g : ℕ → Bool) (n : ℕ) → ((i : ℕ) → i < n → f i ≡ g i) → count f n ≡ count g n
unfolding count
count-ext f g zero same = refl
count-ext f g (suc n) same = ground (arith, same n, count-ext f g n (λ i i<n. same i (omega arith)))

pub count-none : (f : ℕ → Bool) (n : ℕ) → ((i : ℕ) → i < n → f i ≡ false) → count f n ≡ 0
unfolding count
count-none f zero none_of = refl
count-none f (suc n) none_of =
    ground (arith, none_of n, count-none f n (λ i i<n. none_of i (omega arith)))

pub count-full : (f : ℕ → Bool) (n i : ℕ) → count f n ≡ n → i < n → f i ≡ true
unfolding count
count-full f zero i full i<n = elim i<n [ ]
count-full f (suc n) i full i<n = ground (arith, count-le f n, count-full f n i)

pub count-all : (f : ℕ → Bool) (n : ℕ) → ((i : ℕ) → i < n → f i ≡ true) → count f n ≡ n
unfolding count
count-all f zero all_of = refl
count-all f (suc n) all_of =
    ground (arith, all_of n, count-all f n (λ i i<n. all_of i (omega arith)))

-- Setting the test at one index that it did not hold at.
pub count-set :
    (f g : ℕ → Bool) (n i : ℕ)
    → i < n
    → f i ≡ false
    → g i ≡ true
    → ((j : ℕ) → j ≢ i → g j ≡ f j)
    → count g n ≡ count f n + 1
unfolding count
count-set f g zero i i<n off on same = elim i<n [ ]
count-set f g (suc n) i i<n off on same = elim (ℕ_discrete n i) [
  | no n≢i ↦ ground (arith, same n n≢i, count-set f g n i (omega arith) off on same)
  | yes n≡i ↦ ground (arith, count-ext g f n (λ j j<n. same j (omega arith)))
]
