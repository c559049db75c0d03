-- ===== src/Locks/Separate.antt =====
-- Exclusive holds, and the next action of one thread.
use lynx_apollo.Base.{
  ℕ, zero, suc, ◌≡◌, refl, subst, ◌<◌, ◌⊎◌, inl, inr, Bool, true, false, not, List, [], ◌∷◌, arith,
  Bool-cases, ℕ_discrete, ◌/◌, ◌==◌,
}
use lynx_apollo.Locks.{
  Mode, exclusive, shared, Resource, kind, same, holds, holds_exclusively, Hold, Action, acquire,
  release, await, read, write, peek, poke, Thread, Threads, some_thread, held_by_some,
  held_exclusively_by_some, can, advance,
}

-- All but a WaitGroup.
unfoldable pub is_lock : Resource → Bool
is_lock r = not (kind r / 10 == 2)

-- A lock that one thread holds exclusively, and another holds.
abbrev pub Clash : List Hold → List Hold → Type 0
Clash hs ks =
    (r : Resource) × (is_lock r ≡ true) × (holds_exclusively r hs ≡ true) × (holds r ks ≡ true)

same_congr : (r q s : Resource) → same q r ≡ true → same s r ≡ same s q
unfolding same
same_congr r q s h = ground arith

same-holds : (r q : Resource) (hs : List Hold) → same q r ≡ true → holds r hs ≡ holds q hs
unfolding holds
same-holds r q [] h = refl
same-holds r q (k ∷ ks) h = rw (same_congr r q k.resource h, same-holds r q ks h) refl

pub same-holds_exclusively :
    (r q : Resource) (hs : List Hold)
    → same q r ≡ true
    → holds_exclusively r hs ≡ holds_exclusively q hs
unfolding holds_exclusively
same-holds_exclusively r q [] h = refl
same-holds_exclusively r q (k ∷ ks) h =
    rw (same_congr r q k.resource h, same-holds_exclusively r q ks h) refl

pub holds_exclusively-holds :
    (r : Resource) (hs : List Hold) → holds_exclusively r hs ≡ true → holds r hs ≡ true
unfolding holds holds_exclusively
holds_exclusively-holds r [] h = h
holds_exclusively-holds r (k ∷ ks) h = ground (arith, holds_exclusively-holds r ks)

pub absent :
    (p : Thread → Bool) (n : ℕ) (ts : ℕ → Thread) (i : ℕ)
    → not (some_thread p n ts) ≡ true
    → i < n
    → p (ts i) ≡ false
unfolding some_thread
absent p zero ts i h lt = absurd (omega arith)
absent p (suc n) ts i h lt = elim (ℕ_discrete i n) [
  | yes e ↦ rw e (ground arith)
  | no d ↦ absent p n ts i (ground arith) (ground arith)
]

-- What a thread holds after an action it held before, or it has taken it now.
advance-holds :
    (hs : List Hold) (c : List Action) (r : Resource)
    → holds r (advance hs c).held ≡ true
    → (holds r hs ≡ true)
      ⊎ ((m : Mode) × (q : Resource) × (todo : List Action) × (c ≡ acquire m q ∷ todo)
          × (same q r ≡ true))
unfolding holds advance
advance-holds hs [] r h = inl h
advance-holds hs (acquire m q ∷ todo) r h = elim (Bool-cases (same q r)) [
  | inl e ↦ inr (m, q, todo, refl, e)
  | inr e ↦ inl (ground arith)
]
advance-holds [] (release ∷ todo) r h = inl h
advance-holds (k ∷ ks) (release ∷ todo) r h = inl (ground arith)
advance-holds hs (await q ∷ todo) r h = inl h
advance-holds hs (read f ∷ todo) r h = inl h
advance-holds hs (peek f ∷ todo) r h = inl h
advance-holds hs (write f ∷ todo) r h = inl h
advance-holds hs (poke f ∷ todo) r h = inl h

advance-holds_exclusively :
    (hs : List Hold) (c : List Action) (r : Resource)
    → holds_exclusively r (advance hs c).held ≡ true
    → (holds_exclusively r hs ≡ true)
      ⊎ ((q : Resource) × (todo : List Action) × (c ≡ acquire exclusive q ∷ todo)
          × (same q r ≡ true))
unfolding holds_exclusively advance
advance-holds_exclusively hs [] r h = inl h
advance-holds_exclusively hs (acquire exclusive q ∷ todo) r h = elim (Bool-cases (same q r)) [
  | inl e ↦ inr (q, todo, refl, e)
  | inr e ↦ inl (ground arith)
]
advance-holds_exclusively hs (acquire shared q ∷ todo) r h = inl h
advance-holds_exclusively [] (release ∷ todo) r h = inl h
advance-holds_exclusively (k ∷ ks) (release ∷ todo) r h = inl (ground arith)
advance-holds_exclusively hs (await q ∷ todo) r h = inl h
advance-holds_exclusively hs (read f ∷ todo) r h = inl h
advance-holds_exclusively hs (peek f ∷ todo) r h = inl h
advance-holds_exclusively hs (write f ∷ todo) r h = inl h
advance-holds_exclusively hs (poke f ∷ todo) r h = inl h

-- A thread that takes a lock clashes with nobody who did not clash with it before.
pub takes-Clash :
    (s : Threads) (i j : ℕ)
    → j < s.size
    → can s (s.thread i).todo ≡ true
    → ¬ Clash (s.thread i).held (s.thread j).held
    → ¬ Clash (advance (s.thread i).held (s.thread i).todo).held (s.thread j).held
unfolding can held_by_some
takes-Clash s i j lt go apart (r, lock, mine, yours) =
    elim (advance-holds_exclusively (s.thread i).held (s.thread i).todo r mine) [
      | inl old ↦ apart (r, lock, old, yours)
      | inr (q, todo, e, same_q) ↦
          let free =
            absent (λ t. holds q t.held) s.size s.thread j (subst (λ c. can s c ≡ true) e go) lt in
          absurd (ground (arith, same-holds r q (s.thread j).held same_q))
    ]

pub meets-Clash :
    (s : Threads) (i j : ℕ)
    → j < s.size
    → can s (s.thread i).todo ≡ true
    → ¬ Clash (s.thread j).held (s.thread i).held
    → ¬ Clash (s.thread j).held (advance (s.thread i).held (s.thread i).todo).held
unfolding can held_by_some held_exclusively_by_some
meets-Clash s i j lt go apart (r, lock, yours, mine) =
    elim (advance-holds (s.thread i).held (s.thread i).todo r mine) [
      | inl old ↦ apart (r, lock, yours, old)
      | inr (exclusive, q, todo, e, same_q) ↦
          let free =
            absent (λ t. holds q t.held) s.size s.thread j (subst (λ c. can s c ≡ true) e go) lt in
          absurd (
            ground (
              arith,
              same-holds r q (s.thread j).held same_q,
              holds_exclusively-holds r (s.thread j).held,
            ))
      | inr (shared, q, todo, e, same_q) ↦
          let free =
            absent (λ t. holds_exclusively q t.held) s.size s.thread j
              (subst (λ c. can s c ≡ true) e go) lt in
          absurd (ground (arith, same-holds_exclusively r q (s.thread j).held same_q))
    ]
