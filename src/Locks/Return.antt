-- ===== src/Locks/Return.antt =====
-- The steps that threads have left.
use lynx_apollo.Base.{
  ℕ, zero, suc, ◌+◌, ◌≤◌, ◌≡◌, refl, ◌<◌, ◌⊎◌, true, List, [], ◌∷◌, length, arith, dec_lt,
}
use lynx_apollo.Locks.{
  Hold, Action, acquire, release, await, read, write, peek, poke, Thread, Threads, can, advance,
  update, move,
}
use lynx_apollo.Locks.System.{Reach, moves, next, no_threads}
use lynx_apollo.Locks.Progress.{Moving, finished, no_deadlock}

-- So many steps of threads that are there.
pub data Moves (s : Threads) : ℕ → Threads → Type 0 where
  none_yet : Moves s 0 s
  one_more :
      {n : ℕ} {t : Threads} (i : ℕ)
      → Moves s n t
      → i < t.size
      → can t (t.thread i).todo ≡ true
      → Moves s (suc n) (move i t)

-- The actions that the first `n` threads have left.
unfoldable pub left : ℕ → (ℕ → Thread) → ℕ
left zero ts = 0
left (suc n) ts = left n ts + length (ts n).todo

left-update_above :
    (n : ℕ) (ts : ℕ → Thread) (i : ℕ) (t : Thread) → n ≤ i → left n (update ts i t) ≡ left n ts
unfolding left
left-update_above zero ts i t le = refl
left-update_above (suc n) ts i t le = ground (arith, left-update_above n ts i t)

left-update :
    (n : ℕ) (ts : ℕ → Thread) (i : ℕ) (t : Thread)
    → i < n
    → left n (update ts i t) + length (ts i).todo ≡ left n ts + length t.todo
unfolding left
left-update zero ts i t lt = absurd (omega arith)
left-update (suc n) ts i t lt = elim (dec_lt i n) [
  | yes earlier ↦ ground (arith, left-update n ts i t earlier)
  | no last ↦ ground (arith, left-update_above n ts i t)
]

advance-can :
    (s : Threads) (hs : List Hold) (c : List Action)
    → can s c ≡ true
    → suc (length (advance hs c).todo) ≡ length c
unfolding can advance
advance-can s hs [] go = absurd (ground arith)
advance-can s hs (acquire m r ∷ todo) go = refl
advance-can s [] (release ∷ todo) go = refl
advance-can s (h ∷ hs) (release ∷ todo) go = refl
advance-can s hs (await r ∷ todo) go = refl
advance-can s hs (read f ∷ todo) go = refl
advance-can s hs (peek f ∷ todo) go = refl
advance-can s hs (write f ∷ todo) go = refl
advance-can s hs (poke f ∷ todo) go = refl

Moves-Reach : {s t : Threads} {n : ℕ} → Reach no_threads s → Moves s n t → Reach no_threads t
Moves-Reach r none_yet = r
Moves-Reach r (one_more i m lt go) = next (Moves-Reach r m) (moves i lt go)

Moves-left : {s t : Threads} {n : ℕ} → Moves s n t → n + left t.size t.thread ≡ left s.size s.thread
Moves-left none_yet = omega arith
Moves-left (one_more {n} {t} i m lt go) = omega (
  arith,
  Moves-left m,
  left-update t.size t.thread i (advance (t.thread i).held (t.thread i).todo) lt,
  advance-can t (t.thread i).held (t.thread i).todo go,
)

-- Of operations that have begun in any number and order, each step that one of their threads takes is
-- one of the finitely many that are left, and while not all are through, a thread can go on at once:
-- nobody has what it asks for.
pub operations_return :
    (s t : Threads) (n : ℕ)
    → Reach no_threads s
    → Moves s n t
    → (n + left t.size t.thread ≡ left s.size s.thread) × ((finished t ≡ true) ⊎ Moving t)
operations_return s t n r m = (Moves-left m, no_deadlock t (Moves-Reach r m))
