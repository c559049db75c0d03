-- ===== src/Client/Servers.antt =====
-- client.go, `getConfigServer`: the choice of a config server from the answer of the meta server.
use lynx_apollo.Base.{
  Text, codes, has_prefix, trim_space, split_lines, not, ◌&&◌, List, [], ◌∷◌, ◌++◌, if◌then◌else◌,
}

unfoldable pub https_prefix : Text
https_prefix = codes "https://"

unfoldable pub http_prefix : Text
http_prefix = codes "http://"

-- The first address that uses HTTPS, or else the one given.
unfoldable pub prefer_https : Text → List Text → Text
unfolding trim_space has_prefix
prefer_https default [] = default
prefer_https default (s ∷ ss) =
    let rest = prefer_https default ss in
    if has_prefix (trim_space s) https_prefix then trim_space s else rest

unfoldable pub ensure_scheme : Text → Text
ensure_scheme s =
    if not (has_prefix s http_prefix) && not (has_prefix s https_prefix)
    then http_prefix ++ s
    else s

-- `strings.Split` returns at least one part, so the code's test for none never holds.
unfoldable pub choose_server : List Text → Text
unfolding prefer_https ensure_scheme
choose_server [] = []
choose_server (s ∷ ss) = ensure_scheme (prefer_https (trim_space s) (s ∷ ss))

unfoldable pub parse_servers : Text → Text
unfolding choose_server split_lines
parse_servers body = choose_server (split_lines (trim_space body))
