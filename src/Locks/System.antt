-- ===== src/Locks/System.antt =====
-- Threads in any order: at each step one of them does its next action, or an operation begins.
use lynx_apollo.Base.{ℕ, ◌<◌, ◌≡◌, true, []}
use lynx_apollo.Locks.{Thread, Threads, can, move, begin}
use lynx_apollo.Locks.Operations.{Operation, thread_of}

pub data Step (s : Threads) : Threads → Type 0 where
  moves : (i : ℕ) → i < s.size → can s (s.thread i).todo ≡ true → Step s (move i s)
  begins : (o : Operation) → Step s (begin (thread_of o) s)

pub data Reach (s : Threads) : Threads → Type 0 where
  here : Reach s s
  next : {t u : Threads} → Reach s t → Step t u → Reach s u

abbrev pub idle : Thread
idle = record { held = []; todo = [] }

-- Before the first operation.
abbrev pub no_threads : Threads
no_threads = record { size = 0; thread = λ i. idle }

-- One thread, and no operation yet.
abbrev pub alone : Thread → Threads
alone t = begin t no_threads
