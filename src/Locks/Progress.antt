-- ===== src/Locks/Progress.antt =====
-- Threads that wait for one another: who is further up in the order of locks.
use lynx_apollo.Base.{
  ℕ, zero, suc, ◌+◌, ◌/◌, ◌≡◌, refl, ap, ltb→lt, ◌||◌, ◌≤◌, ◌<◌, ◌⊎◌, inl, inr, Bool, true, false,
  not, List, [], ◌∷◌, arith, Bool-cases, ◌&&◌, ◌==◌,
}
use lynx_apollo.Locks.{
  Resource, same, kind, number, holds, Hold, Action, acquire, release, await, read, write, peek,
  poke, Thread, Threads, some_thread, held_by_some, watcher_mutex, plugin_mu, cache_mutex,
  client_mu, breaker_mu, close_once, config_mu, start_once, stop_once, dispatching, adapter_mu,
  launch_once, halt_once, looping,
}
use lynx_apollo.Locks.System.{Reach, no_threads}
use lynx_apollo.Locks.Order.{checks, below, rank}
use lynx_apollo.Locks.Invariant.{Reach-Checked}

-- The first action is possible whoever else waits, as nobody has the resource that it asks for.
unfoldable pub unhindered : Threads → List Action → Bool
unhindered s [] = false
unhindered s (acquire m r ∷ todo) = not (held_by_some r s)
unhindered s (release ∷ todo) = true
unhindered s (await r ∷ todo) = not (held_by_some r s)
unhindered s (read f ∷ todo) = true
unhindered s (peek f ∷ todo) = true
unhindered s (write f ∷ todo) = true
unhindered s (poke f ∷ todo) = true

-- Some thread is ready.
abbrev pub Moving : Threads → Type 0
Moving s = (i : ℕ) × (i < s.size) × (unhindered s (s.thread i).todo ≡ true)

-- How far up a thread has come: one more than the rank of what it asks for, or the top.
abbrev level : List Action → ℕ
level [] = 0
level (acquire m r ∷ todo) = suc (rank r)
level (release ∷ todo) = 6
level (await r ∷ todo) = suc (rank r)
level (read f ∷ todo) = 6
level (peek f ∷ todo) = 6
level (write f ∷ todo) = 6
level (poke f ∷ todo) = 6

abbrev pub is_cons : List Action → Bool
is_cons [] = false
is_cons (a ∷ todo) = true

rank-le : (r : Resource) → rank r ≤ 4
rank-le watcher_mutex = omega arith
rank-le plugin_mu = omega arith
rank-le cache_mutex = omega arith
rank-le client_mu = omega arith
rank-le breaker_mu = omega arith
rank-le close_once = omega arith
rank-le (config_mu n) = omega arith
rank-le (start_once n) = omega arith
rank-le (stop_once n) = omega arith
rank-le (dispatching n) = omega arith
rank-le (adapter_mu n) = omega arith
rank-le (launch_once n) = omega arith
rank-le (halt_once n) = omega arith
rank-le (looping n) = omega arith

and_eq : (a b : ℕ) (x : Bool) → ((a == b) && x) ≡ true → a ≡ b
and_eq a b x h = ground arith

and_left : (a b : Bool) → (a && b) ≡ true → a ≡ true
and_left a b h = ground arith

and_right : (a b : Bool) → (a && b) ≡ true → b ≡ true
and_right a b h = ground arith

or_right : (a b : Bool) → a ≡ false → (a || b) ≡ true → b ≡ true
or_right a b e h = ground arith

pub not_iff : (b : Bool) → b ≡ false → not b ≡ true
not_iff b e = ground arith

same-rank : (r s : Resource) → same r s ≡ true → rank r ≡ rank s
unfolding same
same-rank r s h = ap (λ k. k / 10) (and_eq (kind r) (kind s) (number r == number s) h)

below-lt :
    (r q : Resource) (hs : List Hold) → holds r hs ≡ true → below q hs ≡ true → rank r < rank q
unfolding holds below
below-lt r q [] has low = absurd (ground arith)
below-lt r q (h ∷ hs) has low = elim (Bool-cases (same h.resource r)) [
  | inl e ↦
      let lt = ltb→lt (rank h.resource) (rank q) (and_left _ _ low) in
      omega (arith, same-rank h.resource r e)
  | inr e ↦ below-lt r q hs (or_right _ _ e has) (and_right _ _ low)
]

-- Who has something is further up than who asks for that.
holder-level :
    (r : Resource) (hs : List Hold) (c : List Action)
    → checks hs c ≡ true
    → holds r hs ≡ true
    → suc (rank r) < level c
unfolding checks holds
holder-level r [] c ok has = absurd (ground arith)
holder-level r (h ∷ hs) [] ok has = absurd (ground arith)
holder-level r (h ∷ hs) (acquire m q ∷ todo) ok has =
    omega (arith, below-lt r q (h ∷ hs) has (and_left (below q (h ∷ hs)) _ ok))
holder-level r (h ∷ hs) (release ∷ todo) ok has = omega (arith, rank-le r)
holder-level r (h ∷ hs) (await q ∷ todo) ok has =
    omega (arith, below-lt r q (h ∷ hs) has (and_left (below q (h ∷ hs)) _ ok))
holder-level r (h ∷ hs) (read f ∷ todo) ok has = omega (arith, rank-le r)
holder-level r (h ∷ hs) (peek f ∷ todo) ok has = omega (arith, rank-le r)
holder-level r (h ∷ hs) (write f ∷ todo) ok has = omega (arith, rank-le r)
holder-level r (h ∷ hs) (poke f ∷ todo) ok has = omega (arith, rank-le r)

pub some_thread-finds :
    (p : Thread → Bool) (n : ℕ) (ts : ℕ → Thread)
    → some_thread p n ts ≡ true
    → (i : ℕ) × (i < n) × (p (ts i) ≡ true)
unfolding some_thread
some_thread-finds p zero ts h = absurd (ground arith)
some_thread-finds p (suc n) ts h = elim (Bool-cases (p (ts n))) [
  | inl e ↦ (n, omega arith, e)
  | inr e ↦ let (i, lt, q) = some_thread-finds p n ts (ground arith) in (i, omega arith, q)
]

-- From a thread that is not through, up to one that is ready.
module _ (s : Threads) (ok : (j : ℕ) → checks (s.thread j).held (s.thread j).todo ≡ true) where
  holder :
      (r : Resource)
      → held_by_some r s ≡ true
      → (j : ℕ) × (j < s.size) × (suc (rank r) < level (s.thread j).todo)
  unfolding held_by_some
  holder r h =
      let (j, lt, has) = some_thread-finds (λ t. holds r t.held) s.size s.thread h in
      (j, lt, holder-level r (s.thread j).held (s.thread j).todo (ok j) has)

  -- A thread that is not through is ready, or asks for a resource, and is ready where that is free.
  turn :
      (c : List Action)
      → 1 ≤ level c
      → (unhindered s c ≡ true)
        ⊎ ((r : Resource) × (level c ≡ suc (rank r))
            × (held_by_some r s ≡ false → unhindered s c ≡ true))
  unfolding unhindered
  turn [] left = absurd (omega arith)
  turn (acquire m r ∷ todo) left = inr (r, refl, not_iff (held_by_some r s))
  turn (release ∷ todo) left = inl refl
  turn (await r ∷ todo) left = inr (r, refl, not_iff (held_by_some r s))
  turn (read f ∷ todo) left = inl refl
  turn (peek f ∷ todo) left = inl refl
  turn (write f ∷ todo) left = inl refl
  turn (poke f ∷ todo) left = inl refl

  chase :
      (k i : ℕ)
      → i < s.size
      → 1 ≤ level (s.thread i).todo
      → 6 ≤ level (s.thread i).todo + k
      → Moving s
  chase zero i lt left high = elim (turn (s.thread i).todo left) [
    | inl go ↦ (i, lt, go)
    | inr (r, e, free) ↦ absurd (omega (arith, rank-le r))
  ]
  chase (suc k) i lt left high = elim (turn (s.thread i).todo left) [
    | inl go ↦ (i, lt, go)
    | inr (r, e, free) ↦ elim (Bool-cases (held_by_some r s)) [
      | inl taken ↦ let (j, lt', up) = holder r taken in chase k j lt' (omega arith) (omega arith)
      | inr not_taken ↦ (i, lt, free not_taken)
    ]
  ]

-- Whether all threads are through.
unfoldable pub finished : Threads → Bool
finished s = not (some_thread (λ t. is_cons t.todo) s.size s.thread)

pub level-is_cons : (c : List Action) → is_cons c ≡ true → 1 ≤ level c
level-is_cons [] h = absurd (ground arith)
level-is_cons (acquire m r ∷ todo) h = omega arith
level-is_cons (release ∷ todo) h = omega arith
level-is_cons (await r ∷ todo) h = omega arith
level-is_cons (read f ∷ todo) h = omega arith
level-is_cons (peek f ∷ todo) h = omega arith
level-is_cons (write f ∷ todo) h = omega arith
level-is_cons (poke f ∷ todo) h = omega arith

-- In every state that operations, in any number and order, can reach, all of them are through, or
-- one can go on at once, as nobody has what it asks for.
pub no_deadlock : (s : Threads) → Reach no_threads s → (finished s ≡ true) ⊎ Moving s
unfolding finished
no_deadlock s r = elim (Bool-cases (some_thread (λ t. is_cons t.todo) s.size s.thread)) [
  | inl some_left ↦
      let (i, lt, left) = some_thread-finds (λ t. is_cons t.todo) s.size s.thread some_left in
      inr (chase s (Reach-Checked r) 6 i lt (level-is_cons (s.thread i).todo left) (omega arith))
  | inr none_left ↦ inl (not_iff _ none_left)
]
