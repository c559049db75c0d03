-- ===== src/Base/Bytes.antt =====
-- Go strings as lists of bytes: equality, prefix, containment, splitting and trimming.
use Prim.Native.Nat.{ℕ, zero, suc, ◌+◌, ◌/◌, ◌%◌}
use Prim.Native.Char.{code}
use Prim.Native.String.{String}
use mathlib.Core.Path.{◌≡◌, refl, subst}
use mathlib.Core.Logic.{◌↔◌}
use mathlib.Core.Bool.{Bool, true, false, ◌&&◌, ◌||◌}
use mathlib.Core.List.{List, [], ◌∷◌, ◌++◌, append-nil, reverse}
use native.Mathlib.Omega.{arith}
use lynx_apollo.Base.Tests.{ltb, leb, ◌==◌, if◌then◌else◌}

abbrev pub Text : Type 0
Text = List ℕ

-- The bytes of an ASCII literal.
abbrev pub codes : String → Text
codes String.[] = []
codes (String.◌∷◌ c s) = code c ∷ codes s

unfoldable pub text_eq : Text → Text → Bool
text_eq [] [] = true
text_eq [] (y ∷ ys) = false
text_eq (x ∷ xs) [] = false
text_eq (x ∷ xs) (y ∷ ys) = x == y && text_eq xs ys

pub text_eq_refl : (s : Text) → text_eq s s ≡ true
unfolding text_eq
text_eq_refl [] = refl
text_eq_refl (x ∷ xs) = ground (arith, text_eq_refl xs)

pub text_eq-eq : (s t : Text) → text_eq s t ≡ true → s ≡ t
unfolding text_eq
text_eq-eq [] [] h = refl
text_eq-eq [] (y ∷ ys) h = cc
text_eq-eq (x ∷ xs) [] h = cc
text_eq-eq (x ∷ xs) (y ∷ ys) h = ground (arith, text_eq-eq xs ys)

pub text_eq_iff : (s t : Text) → (text_eq s t ≡ true) ↔ (s ≡ t)
text_eq_iff s t = (text_eq-eq s t, λ e. rw e (text_eq_refl t))

-- s == ""
abbrev pub is_empty : Text → Bool
is_empty [] = true
is_empty (x ∷ xs) = false

-- strings.HasPrefix
unfoldable pub has_prefix : Text → Text → Bool
has_prefix s [] = true
has_prefix [] (p ∷ ps) = false
has_prefix (x ∷ xs) (p ∷ ps) = x == p && has_prefix xs ps

pub has_prefix-append : (p s : Text) → has_prefix (p ++ s) p ≡ true
unfolding has_prefix
has_prefix-append [] [] = refl
has_prefix-append [] (x ∷ xs) = refl
has_prefix-append (x ∷ xs) s = ground (arith, has_prefix-append xs s)

-- strings.Contains
unfoldable pub contains : Text → Text → Bool
unfolding has_prefix
contains [] t = has_prefix [] t
contains (x ∷ xs) t = has_prefix (x ∷ xs) t || contains xs t

-- strings.Join
unfoldable pub join : Text → List Text → Text
join sep [] = []
join sep (s ∷ []) = s
join sep (s ∷ t ∷ ts) = s ++ (sep ++ join sep (t ∷ ts))

contains-has_prefix : (s t : Text) → has_prefix s t ≡ true → contains s t ≡ true
unfolding contains
contains-has_prefix [] t h = h
contains-has_prefix (x ∷ xs) t h = ground arith

-- A text contains each of its parts.
pub contains-middle : (s t u : Text) → contains (s ++ (t ++ u)) t ≡ true
unfolding contains
contains-middle [] t u = contains-has_prefix (t ++ u) t (has_prefix-append t u)
contains-middle (x ∷ xs) t u = ground (arith, contains-middle xs t u)

-- What a text contains, a longer text contains.
pub contains-append_left : (s t u : Text) → contains t u ≡ true → contains (s ++ t) u ≡ true
unfolding contains
contains-append_left [] t u h = h
contains-append_left (x ∷ xs) t u h = ground (arith, contains-append_left xs t u)

pub contains_refl : (s : Text) → contains s s ≡ true
contains_refl s =
    contains-has_prefix s s
      (subst (λ t. has_prefix t s ≡ true) (append-nil s) (has_prefix-append s []))

-- %d of a number: its decimal digits. The fuel is more than the digits.
unfoldable pub digits_of : ℕ → ℕ → Text
digits_of zero n = []
digits_of (suc f) n =
    let rest = digits_of f (n / 10) ++ (b'0' + n % 10) ∷ [] in
    if ltb n 10 then (b'0' + n) ∷ [] else rest

unfoldable pub decimal : ℕ → Text
unfolding digits_of
decimal n = digits_of (suc n) n

-- A literal that proofs need not look into.
unfoldable pub literal : String → Text
literal s = codes s

unfoldable pub member : Text → List Text → Bool
member t [] = false
member t (s ∷ ss) = text_eq t s || member t ss

-- The ASCII white space of strings.TrimSpace.
abbrev pub is_space : ℕ → Bool
is_space c = c == 32 || (leb 9 c && leb c 13)

unfoldable pub trim_left : Text → Text
trim_left [] = []
trim_left (c ∷ s) = let rest = trim_left s in if is_space c then rest else c ∷ s

-- strings.TrimSpace, on ASCII text
unfoldable pub trim_space : Text → Text
unfolding trim_left
trim_space s = reverse (trim_left (reverse (trim_left s)))

abbrev pub cons_first : ℕ → List Text → List Text
cons_first c [] = (c ∷ []) ∷ []
cons_first c (l ∷ ls) = (c ∷ l) ∷ ls

-- strings.Split at newlines: one line more than there are newlines.
unfoldable pub split_lines : Text → List Text
split_lines [] = [] ∷ []
split_lines (c ∷ s) = let rest = split_lines s in if c == 10 then [] ∷ rest else cons_first c rest
