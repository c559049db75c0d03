-- ===== src/Plugin/Cache.antt =====
-- config.go: the cache of the values that were read.
use lynx_apollo.Base.{
  ◌++◌, append_assoc, codes, ap, ◌∙◌, ◌≡◌, ◌≢◌, inl, inr, Text, true, [], ◌∷◌, none, some, arith,
  Option-cases, All,
}
use lynx_apollo.Client.State.{Http, Result}
use lynx_apollo.Client.Requests.{lookup}
use lynx_apollo.Plugin.State.{PlugApollo}
use lynx_apollo.Plugin.Entries.{lookup-put}
use lynx_apollo.Plugin.Values.{cache_key, cache_enabled, get_config_value_from_apollo}

-- A namespace without a colon.
abbrev pub NoColon : Text → Type 0
NoColon t = All (λ c. c ≢ b':') t

-- Two entries of the cache share a key only if namespace and key agree, as long as neither namespace
-- has a colon in it.
pub cache_key_injective :
    (n m k j : Text) → NoColon n → NoColon m → cache_key n k ≡ cache_key m j → (n ≡ m) × (k ≡ j)
unfolding cache_key
cache_key_injective [] [] k j h g e = ground arith
cache_key_injective [] (c ∷ m) k j h g e = ground arith
cache_key_injective (c ∷ n) [] k j h g e = ground arith
cache_key_injective (c ∷ n) (d ∷ m) k j h g e = ground (arith, cache_key_injective n m k j h.1 g.1)

colliding_keys :
    (n m k : Text) → cache_key (n ++ (codes ":" ++ m)) k ≡ cache_key n (m ++ (codes ":" ++ k))
unfolding cache_key
colliding_keys n m k = simp append_assoc

-- A client is there, caching is on, and the cache has the value.
abbrev pub Holds : Text → Text → Text → PlugApollo → Type 0
Holds namespace key value p =
    (p.client ≢ none)
    × (cache_enabled p ≡ true)
    × (lookup (cache_key namespace key) p.config_cache ≡ some value)

module _ {W : Type 0} ⦃http : Http W⦄ where
  -- A read of a value in the cache returns it, and does not touch the world or the cache.
  pub read_cached_value :
      (namespace key value : Text) (p : PlugApollo) (w : W)
      → Holds namespace key value p
      → let out = get_config_value_from_apollo namespace key (p, w) in
        (out.1 ≡ Result.ok value) × (out.0.1 ≡ w) × (out.0.0.config_cache ≡ p.config_cache)
  unfolding get_config_value_from_apollo cache_enabled
  read_cached_value namespace key value p w h = ground arith

  -- A read that finds nothing in the cache fetches, and stores what it fetched.
  read_uncached-ok :
      (namespace key value : Text) (p p' : PlugApollo) (w w' : W)
      → cache_enabled p ≡ true
      → lookup (cache_key namespace key) p.config_cache ≡ none
      → get_config_value_from_apollo namespace key (p, w) ≡ ((p', w'), Result.ok value)
      → Holds namespace key value p'
  unfolding get_config_value_from_apollo cache_enabled
  read_uncached-ok namespace key value p p' w w' h missing e =
      ground (arith, lookup-put (cache_key namespace key) value p.config_cache)

  read-Holds :
      (namespace key value : Text) (p p' : PlugApollo) (w w' : W)
      → cache_enabled p ≡ true
      → get_config_value_from_apollo namespace key (p, w) ≡ ((p', w'), Result.ok value)
      → Holds namespace key value p'
  read-Holds namespace key value p p' w w' h e =
      elim (Option-cases (lookup (cache_key namespace key) p.config_cache)) [
        | inl missing ↦ read_uncached-ok namespace key value p p' w w' h missing e
        | inr (v, hit) ↦ unfold get_config_value_from_apollo cache_enabled in ground arith
      ]

  -- With the cache on, a value that was read is read again without a request: the world stays as it
  -- is, whatever it has become, and the answer is the same.
  pub read_again :
      (namespace key value : Text) (p p' : PlugApollo) (w w' v : W)
      → cache_enabled p ≡ true
      → get_config_value_from_apollo namespace key (p, w) ≡ ((p', w'), Result.ok value)
      → let again = get_config_value_from_apollo namespace key (p', v) in
        (again.1 ≡ Result.ok value) × (again.0.1 ≡ v) × (again.0.0.config_cache ≡ p'.config_cache)
  read_again namespace key value p p' w w' v h e =
      read_cached_value namespace key value p' v (read-Holds namespace key value p p' w w' h e)

  -- Namespaces and keys with colons share entries: with the cache on, the value of the key `m:k` of a
  -- namespace `n` is answered, without a request, for the key `k` of the namespace `n:m`.
  pub colliding_read :
      (n m k value : Text) (p : PlugApollo) (w : W)
      → Holds n (m ++ (codes ":" ++ k)) value p
      → let out = get_config_value_from_apollo (n ++ (codes ":" ++ m)) k (p, w) in
        (out.1 ≡ Result.ok value) × (out.0.1 ≡ w)
  colliding_read n m k value p w h =
      let held : Holds (n ++ (codes ":" ++ m)) k value p =
        (h.0, h.1, ap (λ t. lookup t p.config_cache) (colliding_keys n m k) ∙ h.2) in
      let read = read_cached_value (n ++ (codes ":" ++ m)) k value p w held in (read.0, read.1)
