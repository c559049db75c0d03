-- ===== src/Locks/Races.antt =====
-- Reads and writes of guarded fields at the same time.
use lynx_apollo.Base.{ℕ, ◌≡◌, ◌≢◌, refl, subst, ◌⊎◌, inl, inr, true, List, ◌∷◌, arith}
use lynx_apollo.Locks.{
  holds, holds_exclusively, Hold, Action, read, write, peek, poke, Thread, Threads, Field, client,
  metrics, retry_manager, circuit_breaker, health_check_ch, watchers_variable, watchers_map,
  cache_variable, cache_map, config_server, breaker_state, on_change, on_error, backing,
  watch_context, notification, cancel_watch,
}
use lynx_apollo.Locks.System.{Reach, no_threads}
use lynx_apollo.Locks.Order.{guard, peeked, poked, checks}
use lynx_apollo.Locks.Invariant.{Checked, Reach-Checked}
use lynx_apollo.Locks.Exclusion.{Reach-Separate}
use lynx_apollo.Locks.Separate.{is_lock, holds_exclusively-holds}

is_lock-guard : (f : Field) → is_lock (guard f) ≡ true
unfolding is_lock
is_lock-guard client = refl
is_lock-guard metrics = refl
is_lock-guard retry_manager = refl
is_lock-guard circuit_breaker = refl
is_lock-guard health_check_ch = refl
is_lock-guard watchers_variable = refl
is_lock-guard watchers_map = refl
is_lock-guard cache_variable = refl
is_lock-guard cache_map = refl
is_lock-guard config_server = refl
is_lock-guard breaker_state = refl
is_lock-guard (on_change n) = refl
is_lock-guard (on_error n) = refl
is_lock-guard (backing n) = refl
is_lock-guard (watch_context n) = refl
is_lock-guard (notification n) = refl
is_lock-guard (cancel_watch n) = refl

-- What a thread that checks has, at an access of a field.
write-checks :
    (hs : List Hold) (f : Field) (c : List Action)
    → checks hs (write f ∷ c) ≡ true
    → holds_exclusively (guard f) hs ≡ true
unfolding checks
write-checks hs f c ok = ground arith

read-checks :
    (hs : List Hold) (f : Field) (c : List Action)
    → checks hs (read f ∷ c) ≡ true
    → holds (guard f) hs ≡ true
unfolding checks
read-checks hs f c ok = ground arith

peek-checks :
    (hs : List Hold) (f : Field) (c : List Action) → checks hs (peek f ∷ c) ≡ true → peeked f ≡ true
unfolding checks
peek-checks hs f c ok = ground arith

poke-checks :
    (hs : List Hold) (f : Field) (c : List Action) → checks hs (poke f ∷ c) ≡ true → poked f ≡ true
unfolding checks
poke-checks hs f c ok = ground arith

at : (t : Thread) (c : List Action) → Checked t → t.todo ≡ c → checks t.held c ≡ true
at t c ok e = subst (λ x. checks t.held x ≡ true) e ok

-- A thread that is at some access of a field.
abbrev pub Accesses : Field → Thread → List Action → Type 0
Accesses f t d =
    (t.todo ≡ read f ∷ d)
    ⊎ ((t.todo ≡ write f ∷ d) ⊎ ((t.todo ≡ peek f ∷ d) ⊎ (t.todo ≡ poke f ∷ d)))

-- It has the lock of the field, or the field is one that is accessed without.
Accesses-cases :
    (t : Thread) (f : Field) (d : List Action)
    → Checked t
    → Accesses f t d
    → (holds (guard f) t.held ≡ true)
      ⊎ (((t.todo ≡ peek f ∷ d) × (peeked f ≡ true)) ⊎ ((t.todo ≡ poke f ∷ d) × (poked f ≡ true)))
Accesses-cases t f d ok (inl e) = inl (read-checks t.held f d (at t (read f ∷ d) ok e))
Accesses-cases t f d ok (inr (inl e)) =
    inl
      (holds_exclusively-holds (guard f) t.held (write-checks t.held f d (at t (write f ∷ d) ok e)))
Accesses-cases t f d ok (inr (inr (inl e))) =
    inr (inl (e, peek-checks t.held f d (at t (peek f ∷ d) ok e)))
Accesses-cases t f d ok (inr (inr (inr e))) =
    inr (inr (e, poke-checks t.held f d (at t (poke f ∷ d) ok e)))

-- In every state that operations of the plugin, InitializeResources among them, can reach, in any
-- number and order: while a thread is at a write of a shared field that is not one of those that
-- InitializeResources makes without a lock, another is at an access of the same field only where that
-- is a read without the lock of the metrics, the channel of the health check, the variables of the two
-- maps or the cancel function of a watch, or a write by InitializeResources of the metrics, the retry
-- manager or the circuit breaker.
pub no_race :
    (s : Threads)
    → Reach no_threads s
    → (i j : ℕ) → i ≢ j
    → (f : Field) (c d : List Action) → (s.thread i).todo ≡ write f ∷ c
    → Accesses f (s.thread j) d
    → (((s.thread j).todo ≡ peek f ∷ d) × (peeked f ≡ true))
      ⊎ (((s.thread j).todo ≡ poke f ∷ d) × (poked f ≡ true))
no_race s reached i j ne f c d mine yours =
    elim (Accesses-cases (s.thread j) f d (Reach-Checked reached j) yours) [
      | inl has ↦ absurd (
          (Reach-Separate reached).0 i j ne (
            guard f,
            is_lock-guard f,
            write-checks (s.thread i).held f c
                (at (s.thread i) (write f ∷ c) (Reach-Checked reached i) mine),
            has,
          ))
      | inr bare ↦ bare
    ]
