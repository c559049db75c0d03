-- ===== src/Resilience/Breaker/Window.antt =====
-- resilience.go, `pruneBefore`: the times of a window, oldest first.
use lynx_apollo.Base.{
  ℕ, ◌≤◌, ◌≡◌, refl, Bool, List, [], ◌∷◌, ◌++◌, leb, ltb, filter, arith, Bool-cases, inl, inr,
}
use lynx_apollo.Resilience.Breaker.{prune_before}

-- Ascending times from `lo` to `hi`.
abbrev pub Ascending : ℕ → ℕ → List ℕ → Type 0
Ascending lo hi [] = Unit {0}
Ascending lo hi (t ∷ ts) = (lo ≤ t) × (t ≤ hi) × Ascending t hi ts

-- A time at or after the cutoff.
abbrev pub since : ℕ → ℕ → Bool
since cutoff t = leb cutoff t

pub Ascending-mono :
    (lo lo' hi hi' : ℕ) (ts : List ℕ)
    → lo' ≤ lo
    → hi ≤ hi'
    → Ascending lo hi ts
    → Ascending lo' hi' ts
Ascending-mono lo lo' hi hi' [] p q a = tt
Ascending-mono lo lo' hi hi' (t ∷ ts) p q a =
    (omega arith, omega arith, Ascending-mono t t hi hi' ts (omega arith) q a.2)

pub Ascending-append :
    (lo hi : ℕ) (ts : List ℕ) → lo ≤ hi → Ascending lo hi ts → Ascending lo hi (ts ++ hi ∷ [])
Ascending-append lo hi [] h a = (h, omega arith, tt)
Ascending-append lo hi (t ∷ ts) h a = (a.0, a.1, Ascending-append t hi ts a.1 a.2)

-- The times that are left lie between the cutoff and `hi`.
pub prune_before-Ascending :
    (lo hi cutoff : ℕ) (ts : List ℕ)
    → Ascending lo hi ts
    → Ascending cutoff hi (prune_before ts cutoff)
unfolding prune_before
prune_before-Ascending lo hi cutoff [] a = tt
prune_before-Ascending lo hi cutoff (t ∷ ts) a =
    ground (arith, prune_before-Ascending t hi cutoff ts a.2)

filter-since_all :
    (cutoff lo hi : ℕ) (ts : List ℕ)
    → cutoff ≤ lo
    → Ascending lo hi ts
    → filter (since cutoff) ts ≡ ts
filter-since_all cutoff lo hi [] h a = refl
filter-since_all cutoff lo hi (t ∷ ts) h a =
    ground (arith, filter-since_all cutoff t hi ts (omega arith) a.2)

-- On ascending times the early stop of the loop loses nothing: what is left is what a pass over the
-- whole list would keep.
pub prune_before-eq-filter :
    (lo hi cutoff : ℕ) (ts : List ℕ)
    → Ascending lo hi ts
    → prune_before ts cutoff ≡ filter (since cutoff) ts
unfolding prune_before
prune_before-eq-filter lo hi cutoff [] a = refl
prune_before-eq-filter lo hi cutoff (t ∷ ts) a = elim (Bool-cases (ltb t cutoff)) [
  | inl old ↦ ground (arith, prune_before-eq-filter t hi cutoff ts a.2)
  | inr kept ↦ ground (arith, filter-since_all cutoff t hi ts (ground arith) a.2)
]

-- A later cutoff makes an earlier one redundant.
pub filter-since-filter :
    (c d : ℕ) (ts : List ℕ) → c ≤ d → filter (since d) (filter (since c) ts) ≡ filter (since d) ts
filter-since-filter c d [] h = refl
filter-since-filter c d (t ∷ ts) h = ground (arith, filter-since-filter c d ts h)

-- Without the order the early stop does lose: an old time behind a recent one stays.
pub prune_before_unsorted : prune_before (5 ∷ 1 ∷ []) 3 ≡ 5 ∷ 1 ∷ []
unfolding prune_before
prune_before_unsorted = refl
