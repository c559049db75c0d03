-- ===== src/Locks/Invariant.antt =====
-- Threads that check, and the steps.
use lynx_apollo.Base.{ℕ, ◌≡◌, refl, true, List, [], ◌∷◌, arith, ℕ_discrete}
use mathlib.Core.Logic.{ite}
use lynx_apollo.Locks.{
  Hold, Action, acquire, release, await, read, write, peek, poke, Thread, Threads, advance, update,
}
use lynx_apollo.Locks.Operations.{thread_of}
use lynx_apollo.Locks.System.{Step, moves, begins, Reach, here, next, no_threads}
use lynx_apollo.Locks.Order.{checks}
use lynx_apollo.Locks.Checks.{code-checks}

abbrev pub Checked : Thread → Type 0
Checked t = checks t.held t.todo ≡ true

pub advance-Checked :
    (hs : List Hold) (c : List Action) → checks hs c ≡ true → Checked (advance hs c)
unfolding checks advance
advance-Checked [] [] h = h
advance-Checked (x ∷ hs) [] h = h
advance-Checked hs (acquire m r ∷ todo) h = ground arith
advance-Checked [] (release ∷ todo) h = absurd (ground arith)
advance-Checked (x ∷ hs) (release ∷ todo) h = h
advance-Checked hs (await r ∷ todo) h = ground arith
advance-Checked hs (read f ∷ todo) h = ground arith
advance-Checked hs (peek f ∷ todo) h = ground arith
advance-Checked hs (write f ∷ todo) h = ground arith
advance-Checked hs (poke f ∷ todo) h = ground arith

ite-either {ℓ κ μ} :
    {A : Type ℓ} {D : Type κ} (P : A → Type μ) (d : Dec D) (a b : A) → P a → P b → P (ite d a b)
ite-either P (yes e) a b pa pb = pa
ite-either P (no e) a b pa pb = pb

pub update-Checked :
    (ts : ℕ → Thread) (i : ℕ) (t : Thread)
    → Checked t
    → ((j : ℕ) → Checked (ts j))
    → (j : ℕ) → Checked (update ts i t j)
update-Checked ts i t ht h j = ite-either Checked (ℕ_discrete i j) t (ts j) ht (h j)

pub Step-Checked :
    {s s' : Threads}
    → Step s s'
    → ((j : ℕ) → Checked (s.thread j))
    → (j : ℕ) → Checked (s'.thread j)
unfolding thread_of
Step-Checked {s} (moves i lt go) h =
    update-Checked s.thread i (advance (s.thread i).held (s.thread i).todo)
      (advance-Checked (s.thread i).held (s.thread i).todo (h i)) h
Step-Checked {s} (begins o) h = update-Checked s.thread s.size (thread_of o) (code-checks o) h

pub Reach-Checked : {s : Threads} → Reach no_threads s → (j : ℕ) → Checked (s.thread j)
unfolding checks
Reach-Checked here j = refl
Reach-Checked (next r st) j = Step-Checked st (Reach-Checked r) j
