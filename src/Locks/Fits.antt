-- ===== src/Locks/Fits.antt =====
-- Rules by which a piece of code checks, whatever comes after it.
use lynx_apollo.Base.{
  ℕ, zero, suc, ltb, leb, ◌&&◌, ◌≡◌, refl, Bool, true, false, List, [], ◌∷◌, ◌++◌, append_assoc,
  append-nil, Option, none, some, if◌then◌else◌, arith,
}
use lynx_apollo.Locks.{
  Resource, Mode, exclusive, Hold, Action, release, await, read, write, peek, poke, Field, holds,
  holds_exclusively, same, close_once,
}
use lynx_apollo.Locks.Order.{rank, guard, below, peeked, poked, checks}
use lynx_apollo.Locks.Code.{locked, each}

-- With these held, the actions check before whatever else does.
pub record Fits (hs : List Hold) (c : List Action) : Type 0 where
  pub fits : (todo : List Action) → checks hs todo ≡ true → checks hs (c ++ todo) ≡ true

same_refl : (r : Resource) → same r r ≡ true
unfolding same
same_refl r = ground arith

pub nil : {hs : List Hold} → Fits hs []
nil = record { fits = λ todo h. h }

pub append : {hs : List Hold} {c d : List Action} → Fits hs c → Fits hs d → Fits hs (c ++ d)
append {c} {d} fc fd = record {
  fits = λ todo h. rw (append_assoc c d todo) (fc.fits (d ++ todo) (fd.fits todo h));
}

module _ {hs : List Hold} where
  pub section :
      {m : Mode} {r : Resource} {body : List Action}
      → below r hs ≡ true
      → Fits (record { mode = m; resource = r } ∷ hs) body
      → Fits hs (locked m r body)
  unfolding checks locked
  section {body} low f = record {
    fits = λ todo h.
        ground (arith, low, append_assoc body (release ∷ []) todo, f.fits (release ∷ todo) h);
  }

  pub reads :
      {f : Field} {c : List Action} → holds (guard f) hs ≡ true → Fits hs c → Fits hs (read f ∷ c)
  unfolding checks
  reads ok fc = record { fits = λ todo h. ground (arith, ok, fc.fits todo h) }

  pub writes :
      {f : Field} {c : List Action}
      → holds_exclusively (guard f) hs ≡ true
      → Fits hs c
      → Fits hs (write f ∷ c)
  unfolding checks
  writes ok fc = record { fits = λ todo h. ground (arith, ok, fc.fits todo h) }

  pub peeks : {f : Field} {c : List Action} → peeked f ≡ true → Fits hs c → Fits hs (peek f ∷ c)
  unfolding checks
  peeks ok fc = record { fits = λ todo h. ground (arith, ok, fc.fits todo h) }

  pub pokes : {f : Field} {c : List Action} → poked f ≡ true → Fits hs c → Fits hs (poke f ∷ c)
  unfolding checks
  pokes ok fc = record { fits = λ todo h. ground (arith, ok, fc.fits todo h) }

  pub awaits :
      {r : Resource} {c : List Action} → below r hs ≡ true → Fits hs c → Fits hs (await r ∷ c)
  unfolding checks
  awaits ok fc = record { fits = λ todo h. ground (arith, ok, fc.fits todo h) }

  pub branch : {c d : List Action} (b : Bool) → Fits hs c → Fits hs d → Fits hs (if b then c else d)
  branch true fc fd = fc
  branch false fc fd = fd

  pub every :
      {A : Type 0} {code : A → List Action}
      → ((x : A) → Fits hs (code x))
      → (xs : List A) → Fits hs (each code xs)
  unfolding each
  every f [] = nil
  every f (x ∷ xs) = append (f x) (every f xs)

pub own_read :
    (r : Resource) (m : Mode) (hs : List Hold)
    → holds r (record { mode = m; resource = r } ∷ hs) ≡ true
unfolding holds
own_read r m hs = ground (arith, same_refl r)

pub own_write :
    (r : Resource) (hs : List Hold)
    → holds_exclusively r (record { mode = exclusive; resource = r } ∷ hs) ≡ true
unfolding holds_exclusively
own_write r hs = ground (arith, same_refl r)

pub ruleset fitting =
    (refl, nil, append, section, reads, writes, awaits, own_read, own_write, peeks, pokes, branch)

both :
    (a b c d : Bool)
    → (a ≡ true → c ≡ true)
    → (b ≡ true → d ≡ true)
    → (a && b) ≡ true
    → (c && d) ≡ true
both true true c d f g h = rw (f refl) (g refl)
both true false c d f g h = absurd (ground arith)
both false b c d f g h = absurd (ground arith)

ltb_trans : (a b c : ℕ) → leb b c ≡ true → ltb a b ≡ true → ltb a c ≡ true
ltb_trans a b c le lt = ground arith

-- What may be taken first of all but the lock of the map of watchers.
pub below_close_once :
    (r : Resource) (hs : List Hold)
    → leb 1 (rank r) ≡ true
    → below close_once hs ≡ true
    → below r hs ≡ true
unfolding below
below_close_once r [] le low = refl
below_close_once r (h ∷ hs) le low =
    both (ltb (rank h.resource) 1) (below close_once hs) (ltb (rank h.resource) (rank r))
      (below r hs) (ltb_trans (rank h.resource) 1 (rank r) le) (below_close_once r hs le) low

pub below-cons :
    (r : Resource) (h : Hold) (hs : List Hold)
    → ltb (rank h.resource) (rank r) ≡ true
    → below r hs ≡ true
    → below r (h ∷ hs) ≡ true
unfolding below
below-cons r h hs lt low = rw (lt, low) refl

pub ruleset rising = (fitting, below-cons, below_close_once)
