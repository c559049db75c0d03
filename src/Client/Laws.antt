-- ===== src/Client/Laws.antt =====
-- client.go: what the client promises.
use lynx_apollo.Base.{
  ℕ, ◌≡◌, ◌≢◌, refl, ◌⊎◌, Text, is_empty, is_space, trim_left, trim_space, split_lines, has_prefix,
  has_prefix-append, true, false, List, [], ◌∷◌, ◌++◌, arith, All, ℤ,
}
use lynx_apollo.Client.Servers.{
  http_prefix, https_prefix, prefer_https, ensure_scheme, choose_server, parse_servers,
}
use lynx_apollo.Client.State.{Client, Http, ok, err}
use lynx_apollo.Client.Requests.{
  client_closed, get_config_server, get_config, get_config_value, watch_notifications,
}

abbrev pub HasUrlScheme : Text → Type 0
HasUrlScheme s = (has_prefix s http_prefix ≡ true) ⊎ (has_prefix s https_prefix ≡ true)

ensure_scheme-HasUrlScheme : (s : Text) → HasUrlScheme (ensure_scheme s)
unfolding ensure_scheme
ensure_scheme-HasUrlScheme s = ground (arith, has_prefix-append http_prefix s)

split_lines-ne-nil : (s : Text) → split_lines s ≢ []
unfolding split_lines
split_lines-ne-nil [] e = cc
split_lines-ne-nil (c ∷ s) e = ground arith

choose_server-HasUrlScheme : (ls : List Text) → ls ≢ [] → HasUrlScheme (choose_server ls)
unfolding choose_server
choose_server-HasUrlScheme [] h = absurd (h refl)
choose_server-HasUrlScheme (s ∷ ss) h = ensure_scheme-HasUrlScheme _

-- Whatever the meta server answers, the chosen address begins with http:// or https://.
pub parse_servers-HasUrlScheme : (body : Text) → HasUrlScheme (parse_servers body)
unfolding parse_servers
parse_servers-HasUrlScheme body =
    choose_server-HasUrlScheme (split_lines (trim_space body))
      (split_lines-ne-nil (trim_space body))

abbrev pub UsesHttps : Text → Type 0
UsesHttps s = has_prefix (trim_space s) https_prefix ≡ true

abbrev pub NoHttps : Text → Type 0
NoHttps s = has_prefix (trim_space s) https_prefix ≡ false

prefer_https-first :
    (default : Text) (xs : List Text) (y : Text) (ys : List Text)
    → All NoHttps xs
    → UsesHttps y
    → prefer_https default (xs ++ y ∷ ys) ≡ trim_space y
unfolding prefer_https
prefer_https-first default [] y ys h u = ground arith
prefer_https-first default (x ∷ xs) y ys h u =
    ground (arith, prefer_https-first default xs y ys h.1 u)

prefer_https-none :
    (default : Text) (xs : List Text) → All NoHttps xs → prefer_https default xs ≡ default
unfolding prefer_https
prefer_https-none default [] h = refl
prefer_https-none default (x ∷ xs) h = ground (arith, prefer_https-none default xs h.1)

choose-prefer :
    (xs : List Text) (y : Text) (ys : List Text)
    → (d : Text) × (choose_server (xs ++ y ∷ ys) ≡ ensure_scheme (prefer_https d (xs ++ y ∷ ys)))
unfolding choose_server
choose-prefer [] y ys = (trim_space y, refl)
choose-prefer (x ∷ xs) y ys = (trim_space x, refl)

-- The first address with HTTPS is taken as it stands, whatever comes before and after it.
pub choose_server_https :
    (xs : List Text) (y : Text) (ys : List Text)
    → All NoHttps xs
    → UsesHttps y
    → choose_server (xs ++ y ∷ ys) ≡ trim_space y
unfolding ensure_scheme
choose_server_https xs y ys h u =
    ground (arith, choose-prefer xs y ys, prefer_https-first (choose-prefer xs y ys).0 xs y ys h u)

-- Without an address with HTTPS the first address of all is taken, with http:// put before it if it has
-- no scheme.
pub choose_server_first :
    (x : Text) (xs : List Text)
    → All NoHttps (x ∷ xs)
    → choose_server (x ∷ xs) ≡ ensure_scheme (trim_space x)
unfolding choose_server
choose_server_first x xs h = ground (arith, prefer_https-none (trim_space x) (x ∷ xs) h)

trim_left_blank : (s : Text) → All (λ c. is_space c ≡ true) s → trim_left s ≡ []
unfolding trim_left
trim_left_blank [] h = refl
trim_left_blank (c ∷ s) h = ground (arith, trim_left_blank s h.1)

-- An answer of nothing but white space makes the bare "http://" the config server.
pub parse_servers_blank :
    (body : Text) → All (λ c. is_space c ≡ true) body → parse_servers body ≡ http_prefix
unfolding parse_servers trim_space trim_left ensure_scheme http_prefix https_prefix has_prefix
parse_servers_blank body h = rw (trim_left_blank body h)

HasUrlScheme-is_empty : (s : Text) → HasUrlScheme s → is_empty s ≡ false
unfolding has_prefix http_prefix https_prefix
HasUrlScheme-is_empty [] h = ground arith
HasUrlScheme-is_empty (c ∷ s) h = refl

parse_servers-set : (body : Text) → is_empty (parse_servers body) ≡ false
parse_servers-set body = HasUrlScheme-is_empty _ (parse_servers-HasUrlScheme body)

module _ {W : Type 0} ⦃http : Http W⦄ where
  -- A closed client answers every request with an error, and neither sends anything nor changes.
  pub closed_sends_nothing :
      (c : Client) (w : W) (namespace key : Text) (id : ℤ) (timeout : ℕ)
      → c.closed ≡ true
      → (get_config_server (c, w) ≡ ((c, w), err client_closed))
        × (get_config namespace (c, w) ≡ ((c, w), err client_closed))
        × (get_config_value namespace key (c, w) ≡ ((c, w), err client_closed))
        × (watch_notifications namespace id timeout (c, w) ≡ ((c, w), err client_closed))
  unfolding get_config_server get_config get_config_value watch_notifications
  closed_sends_nothing c w namespace key id timeout h = ground arith

  get_config_server-ok :
      (c c' : Client) (w w' : W) (server : Text)
      → get_config_server (c, w) ≡ ((c', w'), ok server)
      → (c'.closed ≡ false) × (c'.config_server ≡ server) × (is_empty server ≡ false)
  unfolding get_config_server
  get_config_server-ok c c' w w' server h = grind (arith, parse_servers-set)

  -- A config server that has been found is remembered: a later call returns the same address, sends
  -- no request, and leaves client and world as they are.
  pub get_config_server_twice :
      (c c' : Client) (w w' v : W) (server : Text)
      → get_config_server (c, w) ≡ ((c', w'), ok server)
      → get_config_server (c', v) ≡ ((c', v), ok server)
  unfolding get_config_server
  get_config_server_twice c c' w w' v server h =
      ground (arith, get_config_server-ok c c' w w' server h)
