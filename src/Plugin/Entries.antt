-- ===== src/Plugin/Entries.antt =====
-- config.go and watchers.go: the assignments and deletions of a map, and what a lookup finds after them.
use lynx_apollo.Base.{
  ◌≡◌, refl, sym, ◌⊎◌, inl, inr, Text, text_eq, text_eq-eq, text_eq_refl, false, List, [], ◌∷◌,
  none, some, arith, Bool-cases,
}
use lynx_apollo.Client.Requests.{lookup}
use lynx_apollo.Plugin.Values.{put}
use lynx_apollo.Plugin.Watching.{remove}

pub lookup-put :
    {A : Type 0} (k : Text) (v : A) (m : List (Text × A)) → lookup k (put k v m) ≡ some v
unfolding lookup put
lookup-put k v [] = ground (arith, text_eq_refl k)
lookup-put k v ((j, w) ∷ m) = ground (arith, text_eq_refl k, lookup-put k v m)

pub lookup-put_cases :
    {A : Type 0} (j k : Text) (u v : A) (m : List (Text × A))
    → lookup j (put k u m) ≡ some v
    → ((j ≡ k) × (v ≡ u)) ⊎ (lookup j m ≡ some v)
unfolding lookup put
lookup-put_cases j k u v [] h = elim (Bool-cases (text_eq k j)) [
  | inl same ↦ inl (sym (text_eq-eq k j same), ground arith)
  | inr differs ↦ absurd (ground arith)
]
lookup-put_cases j k u v ((i, w) ∷ m) h = elim (Bool-cases (text_eq i k)) [
  | inl there ↦ elim (Bool-cases (text_eq k j)) [
    | inl same ↦ inl (sym (text_eq-eq k j same), ground arith)
    | inr differs ↦ inr (ground (arith, text_eq-eq i k there))
  ]
  | inr other ↦ elim (Bool-cases (text_eq i j)) [
    | inl first ↦ inr (ground arith)
    | inr later ↦ elim (lookup-put_cases j k u v m (ground arith)) [
      | inl new ↦ inl new
      | inr old ↦ inr (ground arith)
    ]
  ]
]

pub lookup-remove : {A : Type 0} (k : Text) (m : List (Text × A)) → lookup k (remove k m) ≡ none
unfolding lookup remove
lookup-remove k [] = refl
lookup-remove k ((j, v) ∷ m) = ground (arith, lookup-remove k m)

pub lookup-remove_other :
    {A : Type 0} (k j : Text) (m : List (Text × A))
    → text_eq k j ≡ false
    → lookup j (remove k m) ≡ lookup j m
unfolding lookup remove
lookup-remove_other k j [] h = refl
lookup-remove_other k j ((i, v) ∷ m) h =
    ground (arith, lookup-remove_other k j m h, text_eq-eq i k, text_eq-eq i j)

pub lookup-remove_stays :
    {A : Type 0} (k j : Text) (m : List (Text × A))
    → lookup j m ≡ none
    → lookup j (remove k m) ≡ none
unfolding lookup remove
lookup-remove_stays k j [] h = refl
lookup-remove_stays k j ((i, v) ∷ m) h = ground (arith, lookup-remove_stays k j m)

pub lookup-remove-some :
    {A : Type 0} (j k : Text) (v : A) (m : List (Text × A))
    → lookup j (remove k m) ≡ some v
    → lookup j m ≡ some v
unfolding lookup remove
lookup-remove-some j k v [] h = h
lookup-remove-some j k v ((i, w) ∷ m) h =
    ground (arith, lookup-remove-some j k v m, text_eq-eq i k, text_eq-eq i j, lookup-remove k m)
