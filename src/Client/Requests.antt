-- ===== src/Client/Requests.antt =====
-- client.go: the requests of the client.
use lynx_apollo.Base.{
  ℕ, suc, ◌==◌, Text, codes, literal, decimal, is_empty, text_eq, true, false, List, [], ◌∷◌, ◌++◌,
  Option, none, some, if◌then◌else◌, ℤ, pos, negsuc, not,
}
use lynx_apollo.Errors.{GoError, plain, wrapped}
use lynx_apollo.Client.Servers.{parse_servers}
use lynx_apollo.Client.State.{
  Client, ConfigResponse, Notification, Request, Body, complete, broken, Reply, no_reply, reply,
  decoded, undecodable, Http, ok, err, Exec, ◌>>=◌, pure, raise, annotate,
}

abbrev pub client_closed : GoError
client_closed = plain (literal "apollo HTTP client is closed")

-- getClientIP
unfoldable pub get_client_ip : Text
get_client_ip = []

abbrev int_text : ℤ → Text
int_text (pos n) = decimal n
int_text (negsuc n) = codes "-" ++ decimal (suc n)

-- The Authorization header.
abbrev pub auth : Client → Option Text
auth c = if is_empty c.token then none else some c.token

abbrev body_text : Body → Text
body_text (complete t) = t
body_text (broken t e) = t

unfoldable pub lookup : {A : Type 0} → Text → List (Text × A) → Option A
unfolding text_eq
lookup k [] = none
lookup k ((j, v) ∷ m) = if text_eq j k then some v else lookup k m

unfoldable pub meta_url : Client → Text
unfolding get_client_ip
meta_url c =
    c.meta_server
    ++ (literal "/services/config?appId=" ++ (c.app_id ++ (literal "&ip=" ++ get_client_ip)))

-- The URLs; `escape` is url.QueryEscape.
unfoldable pub config_url : (Text → Text) → Client → Text → Text → Text
config_url escape c server namespace =
    (server
      ++ (literal "/configs/"
          ++ (c.app_id ++ (literal "/" ++ (c.cluster ++ (literal "/" ++ namespace))))))
    ++ (if is_empty c.token then [] else literal "?token=" ++ escape c.token)

unfoldable pub notification_url : (Text → Text) → Client → Text → Text → ℤ → Text
notification_url escape c server namespace id =
    (server
      ++ (literal "/notifications/v2?appId="
          ++ (c.app_id
              ++ (literal "&cluster="
                  ++ (c.cluster
                      ++ (literal "&notifications="
                          ++ escape (
                              literal "{\"namespaceName\":\""
                              ++ (namespace
                                  ++ (literal "\",\"notificationId\":"
                                      ++ (int_text id ++ literal "}"))))))))))
    ++ (if is_empty c.token then [] else literal "&token=" ++ escape c.token)

-- The error for an absent key. Callers look for "not found" in its text.
unfoldable pub key_not_found : Text → Text → GoError
key_not_found key namespace =
    plain (codes "config key " ++ (key ++ (codes " not found in namespace " ++ namespace)))

module _ {W : Type 0} ⦃http : Http W⦄ where
  -- The body of the meta server's answer.
  unfoldable pub read_servers : Body → Exec W Text
  read_servers (broken t e) (c, w) = ((c, w), err (wrapped (literal "failed to read response: ") e))
  read_servers (complete t) (c, w) =
      let server = parse_servers t in ((record c { config_server = server }, w), ok server)

  unfoldable pub answer_meta : Reply → Exec W Text
  unfolding read_servers
  answer_meta (no_reply e timed_out) = raise (wrapped (literal "failed to query meta server: ") e)
  answer_meta (reply status body) =
      if status == 200
      then read_servers body
      else raise (plain (literal "meta server returned status " ++ decimal status))

  -- http.NewRequestWithContext and Do
  unfoldable pub perform : Request → {A : Type 0} → (Reply → Exec W A) → Exec W A
  perform request answer (c, w) = elim (http.request_error request.url) [
    | some e ↦ ((c, w), err (wrapped (literal "failed to create request: ") e))
    | none ↦ answer (http.send request w).1 (c, (http.send request w).0)
  ]

  -- getConfigServer
  unfoldable pub get_config_server : Exec W Text
  unfolding perform answer_meta meta_url
  get_config_server (c, w) =
      if c.closed
      then ((c, w), err client_closed)
      else if not (is_empty c.config_server)
      then ((c, w), ok c.config_server)
      else perform (record { url = meta_url c; authorization = auth c; deadline = none })
          answer_meta (c, w)

  -- The answer of the configs endpoint; 404 is an empty namespace.
  unfoldable pub answer_config : Text → Reply → Exec W ConfigResponse
  answer_config namespace (no_reply e timed_out) s =
      (s, err (wrapped (literal "failed to get config: ") e))
  answer_config namespace (reply status body) (c, w) =
      if status == 404
      then (
        (c, w),
        ok (record {
          response_app_id = c.app_id;
          response_cluster = c.cluster;
          namespace_name = namespace;
          configurations = [];
          release_key = [];
        }),
      )
      else if status == 200
      then (elim (http.decode_config body) [
        | decoded response ↦ ((c, w), ok response)
        | undecodable e ↦ ((c, w), err (wrapped (literal "failed to decode response: ") e))
      ])
      else (
        (c, w),
        err (
            plain (
              literal "config server returned status "
              ++ (decimal status ++ (literal ": " ++ body_text body)))),
      )

  unfoldable pub fetch_config : Text → Text → Exec W ConfigResponse
  unfolding perform answer_config config_url
  fetch_config namespace server (c, w) =
      perform
        (record {
          url = config_url http.query_escape c server namespace;
          authorization = auth c;
          deadline = none;
        })
        (answer_config namespace) (c, w)

  -- GetConfig
  unfoldable pub get_config : Text → Exec W ConfigResponse
  unfolding fetch_config
  get_config namespace (c, w) =
      if c.closed
      then ((c, w), err client_closed)
      else (annotate (literal "failed to get config server: ") get_config_server
            >>= fetch_config namespace)
          (c, w)

  find_key : Text → Text → ConfigResponse → Exec W Text
  unfolding lookup key_not_found
  find_key namespace key response = elim (lookup key response.configurations) [
    | some value ↦ pure value
    | none ↦ raise (key_not_found key namespace)
  ]

  -- GetConfigValue
  unfoldable pub get_config_value : Text → Text → Exec W Text
  unfolding find_key
  get_config_value namespace key = do
    response ← get_config namespace
    find_key namespace key response

  -- The answer of the long poll; running into its own deadline and 304 mean no changes.
  answer_notifications : Reply → Exec W (List Notification)
  answer_notifications (no_reply e true) = pure []
  answer_notifications (no_reply e false) =
      raise (wrapped (literal "failed to watch notifications: ") e)
  answer_notifications (reply status body) =
      if status == 304
      then pure []
      else if status == 200
      then (elim (http.decode_notifications body) [
        | decoded ns ↦ pure ns
        | undecodable e ↦ raise (wrapped (literal "failed to decode response: ") e)
      ])
      else raise (
          plain (
            literal "notification server returned status "
            ++ (decimal status ++ (literal ": " ++ body_text body))))

  poll : Text → ℤ → ℕ → Text → Exec W (List Notification)
  unfolding perform answer_notifications notification_url
  poll namespace id timeout server (c, w) =
      perform
        (record {
          url = notification_url http.query_escape c server namespace id;
          authorization = auth c;
          deadline = some timeout;
        })
        answer_notifications (c, w)

  -- WatchNotifications
  unfoldable pub watch_notifications : Text → ℤ → ℕ → Exec W (List Notification)
  unfolding poll
  watch_notifications namespace id timeout (c, w) =
      if c.closed
      then ((c, w), err client_closed)
      else (annotate (literal "failed to get config server: ") get_config_server
            >>= poll namespace id timeout)
          (c, w)

-- Close; closing idle connections leaves no trace here.
unfoldable pub close : Client → Client
close c = record c { closed = true; config_server = [] }
