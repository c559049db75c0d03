-- ===== src/Tests/Client.antt =====
-- The client at concrete inputs. The world counts the requests.
use lynx_apollo.Base.{
  ℕ, suc, ◌≡◌, refl, Text, codes, false, [], ◌∷◌, none, some, arith, All, pos, has_prefix,
  trim_space,
}
use lynx_apollo.Client.Servers.{
  http_prefix, https_prefix, choose_server, parse_servers, ensure_scheme,
}
use lynx_apollo.Client.State.{Client, ConfigResponse, complete, reply, decoded, Http, ok, err}
use lynx_apollo.Client.Requests.{
  client_closed, lookup, get_config_server, get_config, fetch_config, get_config_value,
  watch_notifications, key_not_found, close,
}
use lynx_apollo.Client.Laws.{
  HasUrlScheme, UsesHttps, NoHttps, parse_servers-HasUrlScheme, choose_server_https,
  choose_server_first, parse_servers_blank, closed_sends_nothing, get_config_server_twice,
}
use lynx_apollo.Client.Values.{IsFetched, get_config_value-served, get_config_value-missing}

abbrev pub served : ConfigResponse
served = record {
  response_app_id = codes "demo";
  response_cluster = codes "default";
  namespace_name = codes "application";
  configurations = (codes "color", codes "blue") ∷ [];
  release_key = [];
}

instance abbrev pub demo_http : Http ℕ
demo_http = record {
  request_error = λ u. none;
  send = λ r n. (suc n, reply 200 (complete (codes "https://config")));
  decode_config = λ b. decoded served;
  decode_notifications = λ b. decoded [];
  query_escape = λ t. t;
}

abbrev pub demo_client : Client
demo_client = record {
  meta_server = codes "https://meta";
  app_id = codes "demo";
  cluster = codes "default";
  namespace = codes "application";
  token = [];
  request_timeout = pos 10;
  config_server = [];
  closed = false;
}

abbrev pub ready_client : Client
ready_client = record demo_client { config_server = codes "https://config" }

abbrev servers : Text
servers = codes "http://a\nhttps://b\n"

-- HTTPS wins over the first address.
parse_servers_test : parse_servers servers ≡ codes "https://b"
unfolding parse_servers trim_space http_prefix https_prefix
parse_servers_test = refl

no_scheme_test : parse_servers (codes "a:8080\nb") ≡ codes "http://a:8080"
unfolding parse_servers trim_space http_prefix https_prefix
no_scheme_test = refl

-- Two requests: one for the config server, one for the value.
value_test :
    get_config_value ⦃http = demo_http⦄ (codes "application") (codes "color") (demo_client, 0)
    ≡ ((ready_client, 2), ok (codes "blue"))
unfolding get_config_value get_config fetch_config get_config_server parse_servers http_prefix
    https_prefix trim_space lookup
value_test = refl

parse_servers-HasUrlScheme_test : HasUrlScheme (parse_servers servers)
parse_servers-HasUrlScheme_test = parse_servers-HasUrlScheme servers

plain_first : All NoHttps (codes "http://a" ∷ [])
unfolding has_prefix trim_space https_prefix
plain_first = ground arith

b_UsesHttps : UsesHttps (codes "https://b")
unfolding has_prefix trim_space https_prefix
b_UsesHttps = refl

choose_server_https_test :
    choose_server (codes "http://a" ∷ codes "https://b" ∷ []) ≡ trim_space (codes "https://b")
choose_server_https_test =
    choose_server_https (codes "http://a" ∷ []) (codes "https://b") [] plain_first b_UsesHttps

choose_server_first_test :
    choose_server (codes "http://a" ∷ []) ≡ ensure_scheme (trim_space (codes "http://a"))
choose_server_first_test = choose_server_first (codes "http://a") [] plain_first

parse_servers_blank_test : parse_servers (codes " \n") ≡ http_prefix
parse_servers_blank_test = parse_servers_blank (codes " \n") (ground arith)

closed_sends_nothing_test :
    (get_config_server ⦃http = demo_http⦄ (close demo_client, 0)
      ≡ ((close demo_client, 0), err client_closed))
    × (get_config ⦃http = demo_http⦄ (codes "a") (close demo_client, 0)
        ≡ ((close demo_client, 0), err client_closed))
    × (get_config_value ⦃http = demo_http⦄ (codes "a") (codes "k") (close demo_client, 0)
        ≡ ((close demo_client, 0), err client_closed))
    × (watch_notifications ⦃http = demo_http⦄ (codes "a") (pos 1) 60 (close demo_client, 0)
        ≡ ((close demo_client, 0), err client_closed))
unfolding close
closed_sends_nothing_test =
    closed_sends_nothing ⦃http = demo_http⦄ (close demo_client) 0 (codes "a") (codes "k") (pos 1) 60
      refl

get_config_server_twice_test :
    get_config_server ⦃http = demo_http⦄ (ready_client, 7)
    ≡ ((ready_client, 7), ok (codes "https://config"))
unfolding get_config_server parse_servers trim_space http_prefix https_prefix lookup
get_config_server_twice_test =
    get_config_server_twice ⦃http = demo_http⦄ demo_client ready_client 0 1 7
      (codes "https://config") refl

get_config_value-served_test :
    (r : ConfigResponse) × IsFetched demo_http (codes "application") r
    × (lookup (codes "color") r.configurations ≡ some (codes "blue"))
get_config_value-served_test =
    get_config_value-served ⦃http = demo_http⦄ (codes "application") (codes "color") (codes "blue")
      (demo_client, 0) (ready_client, 2) value_test

config_test :
    get_config ⦃http = demo_http⦄ (codes "application") (demo_client, 0)
    ≡ ((ready_client, 2), ok served)
unfolding get_config fetch_config get_config_server parse_servers http_prefix https_prefix
    trim_space lookup
config_test = refl

get_config_value-missing_test :
    get_config_value ⦃http = demo_http⦄ (codes "application") (codes "size") (demo_client, 0)
    ≡ ((ready_client, 2), err (key_not_found (codes "size") (codes "application")))
unfolding lookup
get_config_value-missing_test =
    get_config_value-missing ⦃http = demo_http⦄ (codes "application") (codes "size")
      (demo_client, 0) (ready_client, 2) served config_test refl
