-- ===== src/Locks/Exclusion.antt =====
-- Exclusive holds in the states that are reached.
use lynx_apollo.Base.{
  ℕ, ◌≤◌, ◌≡◌, ◌≢◌, refl, ap, sym, subst, ◌∙◌, ◌⊎◌, inl, inr, true, false, not, ◌&&◌, ◌||◌, List,
  [], arith, ℕ_discrete, dec_lt, ◌/◌, ◌==◌,
}
use mathlib.Core.Logic.{ite}
use lynx_apollo.Locks.{
  Resource, kind, number, same, holds, Hold, Thread, Threads, dispatching, looping, advance, update,
}
use lynx_apollo.Locks.Operations.{Operation, joined, thread_of, dispatches, polls}
use lynx_apollo.Locks.System.{Step, moves, begins, Reach, here, next, no_threads}
use lynx_apollo.Locks.Separate.{is_lock, Clash, takes-Clash, meets-Clash, holds_exclusively-holds}

pub update_cases :
    (ts : ℕ → Thread) (i j : ℕ) (t : Thread)
    → ((i ≡ j) × (update ts i t j ≡ t)) ⊎ ((i ≢ j) × (update ts i t j ≡ ts j))
update_cases ts i j t =
    elim (ℕ_discrete i j)
      as (λ d. ((i ≡ j) × (ite d t (ts j) ≡ t)) ⊎ ((i ≢ j) × (ite d t (ts j) ≡ ts j))) [
        | yes e ↦ inl (e, refl)
        | no d ↦ inr (d, refl)
      ]

-- No two threads clash, and only those that have begun hold anything.
abbrev pub Separate : Threads → Type 0
Separate s =
    ((i j : ℕ) → i ≢ j → ¬ Clash (s.thread i).held (s.thread j).held)
    × ((j : ℕ) → s.size ≤ j → (s.thread j).held ≡ [])

-- A thread that holds no lock clashes with none.
Lockless : List Hold → Type 0
Lockless hs = (r : Resource) → is_lock r ≡ true → holds r hs ≡ false

nothing-Lockless : (hs : List Hold) → hs ≡ [] → Lockless hs
unfolding Lockless holds
nothing-Lockless hs e r lock = rw e refl

Lockless-Clash : (hs ks : List Hold) → Lockless hs → ¬ Clash ks hs
unfolding Lockless
Lockless-Clash hs ks free (r, lock, theirs, mine) = absurd (ground (arith, free r lock))

Clash-Lockless : (hs ks : List Hold) → Lockless hs → ¬ Clash hs ks
unfolding Lockless
Clash-Lockless hs ks free (r, lock, mine, theirs) =
    absurd (ground (arith, free r lock, holds_exclusively-holds r hs))

waited :
    (k n : ℕ)
    → k / 10 ≡ 2
    → (r : Resource) → not (kind r / 10 == 2) ≡ true
    → (((k == kind r) && (n == number r)) || false) ≡ false
waited k n two r lock = elim (ℕ_discrete k (kind r)) [
  | yes e ↦ absurd (ground (arith, ap (λ x. x / 10) e))
  | no d ↦ ground arith
]

joined-Lockless : (o : Operation) → Lockless (joined o)
unfolding Lockless joined holds is_lock same
joined-Lockless (dispatches n ks b) r lock = waited 20 (number (dispatching n)) refl r lock
joined-Lockless (polls n ps) r lock = waited 21 (number (looping n)) refl r lock
joined-Lockless o r lock = refl

carry : {t t' u u' : Thread} → t ≡ t' → u ≡ u' → Clash t.held u.held → Clash t'.held u'.held
carry {t'} {u} e e' c = subst (λ v. Clash t'.held v.held) e' (subst (λ v. Clash v.held u.held) e c)

thread_of-Lockless : (o : Operation) → Lockless (thread_of o).held
unfolding thread_of
thread_of-Lockless o = joined-Lockless o

-- The pairs of threads after one of them, the `i`th, has become `t`.
update-Clash :
    (ts : ℕ → Thread) (i : ℕ) (t : Thread)
    → ((a b : ℕ) → a ≢ b → ¬ Clash (ts a).held (ts b).held)
    → ((b : ℕ) → i ≢ b → (¬ Clash t.held (ts b).held) × (¬ Clash (ts b).held t.held))
    → (a b : ℕ) → a ≢ b
    → ¬ Clash (update ts i t a).held (update ts i t b).held
update-Clash ts i t apart new a b ne c = elim (update_cases ts i a t) [
  | inl (e, ea) ↦ elim (update_cases ts i b t) [
    | inl (e', eb) ↦ ne (sym e ∙ e')
    | inr (d', eb) ↦ (new b d').0 (carry ea eb c)
  ]
  | inr (d, ea) ↦ elim (update_cases ts i b t) [
    | inl (e', eb) ↦ (new a d).1 (carry ea eb c)
    | inr (d', eb) ↦ apart a b ne (carry ea eb c)
  ]
]

Step-Separate : {s s' : Threads} → Step s s' → Separate s → Separate s'
Step-Separate {s} (moves i lt go) (apart, gone) = (
  update-Clash s.thread i (advance (s.thread i).held (s.thread i).todo) apart (λ b d.
      elim (dec_lt b s.size) [
        | yes there ↦ (
          takes-Clash s i b there go (apart i b d),
          meets-Clash s i b there go (apart b i (λ e. d (sym e))),
        )
        | no out ↦
            let free = nothing-Lockless (s.thread b).held (gone b (omega arith)) in
            (Lockless-Clash (s.thread b).held _ free, Clash-Lockless (s.thread b).held _ free)
      ]),
  λ j le. elim (update_cases s.thread i j (advance (s.thread i).held (s.thread i).todo)) [
    | inl (e, _) ↦ absurd (omega arith)
    | inr (d, e) ↦ ap (λ t. t.held) e ∙ gone j le
  ],
)
Step-Separate {s} (begins o) (apart, gone) = (
  update-Clash s.thread s.size (thread_of o) apart (λ b d. (
    Clash-Lockless _ (s.thread b).held (thread_of-Lockless o),
    Lockless-Clash _ (s.thread b).held (thread_of-Lockless o),
  )),
  λ j le. elim (update_cases s.thread s.size j (thread_of o)) [
    | inl (e, _) ↦ absurd (omega arith)
    | inr (d, e) ↦ ap (λ t. t.held) e ∙ gone j (omega arith)
  ],
)

pub Reach-Separate : {s : Threads} → Reach no_threads s → Separate s
Reach-Separate here = (λ i j d. Clash-Lockless [] [] (nothing-Lockless [] refl), λ j le. refl)
Reach-Separate (next r st) = Step-Separate st (Reach-Separate r)
