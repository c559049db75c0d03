-- ===== src/Locks/Startup.antt =====
-- lifecycle_context.go: a startup during which the framework asks the plugin for something.
use lynx_apollo.Base.{
  ℕ, zero, suc, ◌≡◌, refl, sym, length, ◌||◌, subst, ◌<◌, inl, inr, Bool, true, false, List, [],
  ◌∷◌, ◌++◌, arith, Bool-cases, ℕ_discrete,
}
use lynx_apollo.Locks.{
  Mode, exclusive, shared, Resource, plugin_mu, same, holds, holds_exclusively, Hold, Action,
  acquire, release, await, read, write, peek, poke, Thread, Threads, client, metrics, some_thread,
  held_by_some, held_exclusively_by_some, can, advance,
}
use lynx_apollo.Locks.Code.{locked}
use lynx_apollo.Locks.Life.{after_setting, goes, startup_code}
use lynx_apollo.Locks.Operations.{thread_of}
use lynx_apollo.Locks.System.{Step, moves, begins, Reach, here, next, alone}
use lynx_apollo.Locks.Progress.{not_iff, is_cons}
use lynx_apollo.Locks.Separate.{absent, holds_exclusively-holds}
use lynx_apollo.Locks.Exclusion.{update_cases}

-- Whether the lock of the plugin is taken, shared or not, before more is given back than was taken but
-- for so many locks.
unfoldable pub asks : ℕ → List Action → Bool
asks d [] = false
asks d (acquire m r ∷ todo) = same plugin_mu r || asks (suc d) todo
asks zero (release ∷ todo) = false
asks (suc d) (release ∷ todo) = asks d todo
asks d (await r ∷ todo) = asks d todo
asks d (read f ∷ todo) = asks d todo
asks d (peek f ∷ todo) = asks d todo
asks d (write f ∷ todo) = asks d todo
asks d (poke f ∷ todo) = asks d todo

-- A startup during which the framework does `setting`, and then `loading`.
abbrev pub startup_calling : List Action → Bool → List Action → Bool → Thread
startup_calling setting published loading failed = record {
  held = [];
  todo = startup_code (goes setting published loading failed);
}

-- What such a startup does before it gives its lock back.
abbrev pub startup_body : List Action → Bool → List Action → Bool → List Action
startup_body setting published loading failed =
    read metrics ∷ read metrics ∷ write client ∷ setting ++ after_setting published loading failed

abbrev plugin_lock : List Hold
plugin_lock = record { mode = exclusive; resource = plugin_mu } ∷ []

-- The startup is before its lock, or has it below all others, and asks for it again.
data Caught : List Hold → List Action → Type 0 where
  outside : (c : List Action) → asks 0 c ≡ true → Caught [] (acquire exclusive plugin_mu ∷ c)
  inside :
      (ks : List Hold) (c : List Action) → asks (length ks) c ≡ true → Caught (ks ++ plugin_lock) c

present :
    (p : Thread → Bool) (n : ℕ) (ts : ℕ → Thread) (i : ℕ)
    → i < n
    → p (ts i) ≡ true
    → some_thread p n ts ≡ true
present p n ts i lt h = elim (Bool-cases (some_thread p n ts)) [
  | inl e ↦ e
  | inr e ↦ absurd (ground (arith, absent p n ts i (not_iff (some_thread p n ts) e) lt))
]

plugin_lock-holds :
    (ks : List Hold) (r : Resource)
    → same plugin_mu r ≡ true
    → holds_exclusively r (ks ++ plugin_lock) ≡ true
unfolding holds_exclusively
plugin_lock-holds [] r h = ground arith
plugin_lock-holds (k ∷ ks) r h = ground (arith, plugin_lock-holds ks r h)

-- The startup cannot take its lock again.
taking-can :
    (s : Threads) (i : ℕ) (ks : List Hold) (m : Mode) (r : Resource) (todo : List Action)
    → i < s.size
    → (s.thread i).held ≡ ks ++ plugin_lock
    → same plugin_mu r ≡ true
    → can s (acquire m r ∷ todo) ≡ false
unfolding can held_by_some held_exclusively_by_some
taking-can s i ks exclusive r todo lt e h =
    let has =
      subst (λ hs. holds r hs ≡ true) (sym e)
        (holds_exclusively-holds r (ks ++ plugin_lock) (plugin_lock-holds ks r h)) in
    ground (arith, present (λ t. holds r t.held) s.size s.thread i lt has)
taking-can s i ks shared r todo lt e h =
    let has = subst (λ hs. holds_exclusively r hs ≡ true) (sym e) (plugin_lock-holds ks r h) in
    ground (arith, present (λ t. holds_exclusively r t.held) s.size s.thread i lt has)

advance-Caught :
    {hs : List Hold} {c : List Action}
    → Caught hs c
    → ((ks : List Hold) (m : Mode) (r : Resource) (todo : List Action)
        → hs ≡ ks ++ plugin_lock
        → c ≡ acquire m r ∷ todo
        → same plugin_mu r ≡ false)
    → Caught (advance hs c).held (advance hs c).todo
unfolding advance asks
advance-Caught (outside c h) other = inside [] c h
advance-Caught (inside ks [] h) other = absurd (ground arith)
advance-Caught (inside ks (acquire m r ∷ c) h) other =
    inside (record { mode = m; resource = r } ∷ ks) c (ground (arith, other ks m r c refl refl))
advance-Caught (inside [] (release ∷ c) h) other = absurd (ground arith)
advance-Caught (inside (k ∷ ks) (release ∷ c) h) other = inside ks c h
advance-Caught (inside ks (await r ∷ c) h) other = inside ks c h
advance-Caught (inside ks (read f ∷ c) h) other = inside ks c h
advance-Caught (inside ks (peek f ∷ c) h) other = inside ks c h
advance-Caught (inside ks (write f ∷ c) h) other = inside ks c h
advance-Caught (inside ks (poke f ∷ c) h) other = inside ks c h

Caught-is_cons : {hs : List Hold} {c : List Action} → Caught hs c → is_cons c ≡ true
unfolding asks
Caught-is_cons (outside c h) = refl
Caught-is_cons (inside ks [] h) = h
Caught-is_cons (inside ks (a ∷ c) h) = refl

asks-append : (d : ℕ) (c more : List Action) → asks d c ≡ true → asks d (c ++ more) ≡ true
unfolding asks
asks-append d [] more h = absurd (ground arith)
asks-append d (acquire m r ∷ c) more h = ground (arith, asks-append (suc d) c more)
asks-append zero (release ∷ c) more h = absurd (ground arith)
asks-append (suc d) (release ∷ c) more h = asks-append d c more h
asks-append d (await r ∷ c) more h = asks-append d c more h
asks-append d (read f ∷ c) more h = asks-append d c more h
asks-append d (peek f ∷ c) more h = asks-append d c more h
asks-append d (write f ∷ c) more h = asks-append d c more h
asks-append d (poke f ∷ c) more h = asks-append d c more h

-- The first thread is caught.
abbrev First : Threads → Type 0
First s = (0 < s.size) × Caught (s.thread 0).held (s.thread 0).todo

own_step :
    (s : Threads) (i : ℕ)
    → i < s.size
    → can s (s.thread i).todo ≡ true
    → Caught (s.thread i).held (s.thread i).todo
    → Caught
        (advance (s.thread i).held (s.thread i).todo).held
        (advance (s.thread i).held (s.thread i).todo).todo
own_step s i lt go caught = advance-Caught caught (λ ks m r todo locked_in at_lock.
    elim (Bool-cases (same plugin_mu r)) [
      | inl e ↦
          let free = subst (λ c. can s c ≡ true) at_lock go in
          absurd (ground (arith, taking-can s i ks m r todo lt locked_in e))
      | inr e ↦ e
    ])

Step-First : {s s' : Threads} → Step s s' → First s → First s'
Step-First {s} (moves i lt go) (there, caught) = (
  there,
  elim (update_cases s.thread i 0 (advance (s.thread i).held (s.thread i).todo)) [
    | inl (e, e') ↦
        subst (λ t. Caught t.held t.todo) (sym e')
          (own_step s i lt go
            (subst (λ k. Caught (s.thread k).held (s.thread k).todo) (sym e) caught))
    | inr (d, e') ↦ subst (λ t. Caught t.held t.todo) (sym e') caught
  ],
)
Step-First {s} (begins o) (there, caught) = (
  omega arith,
  elim (update_cases s.thread s.size 0 (thread_of o)) [
    | inl (e, _) ↦ absurd (omega arith)
    | inr (d, e') ↦ subst (λ t. Caught t.held t.todo) (sym e') caught
  ],
)

Reach-First : {s t : Threads} → Reach s t → First s → First t
Reach-First here f = f
Reach-First (next r st) f = Step-First st (Reach-First r f)

-- A startup during which the framework asks the plugin for something that takes the lock of the plugin,
-- at any point before the startup gives that back, never returns, whatever other operations run
-- beside it, in any number and order.
pub startup_blocks_itself :
    (setting : List Action) (published : Bool) (loading : List Action) (failed : Bool) (s : Threads)
    → asks 0 (startup_body setting published loading failed) ≡ true
    → Reach (alone (startup_calling setting published loading failed)) s
    → is_cons (s.thread 0).todo ≡ true
unfolding startup_code locked ℕ_discrete
startup_blocks_itself setting published loading failed s h r =
    let body = startup_body setting published loading failed in
    Caught-is_cons
      (Reach-First r
        (omega arith, outside (body ++ release ∷ []) (asks-append 0 body (release ∷ []) h))).1
