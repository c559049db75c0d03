-- ===== src/Client/Values.antt =====
-- client.go, `GetConfigValue`: where a value comes from.
use lynx_apollo.Base.{
  ◌==◌, ◌≡◌, refl, ◌⊎◌, inl, inr, Text, [], none, some, arith, Bool-cases, Option-cases,
}
use lynx_apollo.Errors.{GoError}
use lynx_apollo.Client.State.{
  Client, ConfigResponse, Request, Body, Reply, no_reply, reply, decoded, Http, Result, ok, err,
}
use lynx_apollo.Client.Requests.{
  lookup, auth, config_url, perform, answer_config, fetch_config, get_config_server, get_config,
  get_config_value, key_not_found,
}

pub Result-cases :
    {A : Type 0} (r : Result A) → ((a : A) × (r ≡ ok a)) ⊎ ((e : GoError) × (r ≡ err e))
Result-cases (ok a) = inl (a, refl)
Result-cases (err e) = inr (e, refl)

-- The request of a namespace's values.
abbrev pub config_request : {W : Type 0} → Http W → Text → Client → Text → Request
config_request http namespace c server = record {
  url = config_url http.query_escape c server namespace;
  authorization = auth c;
  deadline = none;
}

-- A response that was decoded from the body of an answer, with the status 200, to a request of the
-- namespace's values.
abbrev pub IsFetched : {W : Type 0} → Http W → Text → ConfigResponse → Type 0
IsFetched {W} http namespace r =
    (c : Client) × (server : Text) × (w : W) × (body : Body) × ((http.send
        (config_request http namespace c server) w).1
      ≡ reply 200 body)
    × (http.decode_config body ≡ decoded r)

-- Such a response, or the empty one of a 404.
abbrev pub IsServed : {W : Type 0} → Http W → Text → ConfigResponse → Type 0
IsServed http namespace r = IsFetched http namespace r ⊎ (r.configurations ≡ [])

module _ {W : Type 0} ⦃http : Http W⦄ where
  answer_config-ok :
      (namespace : Text) (a : Reply) (s s' : Client × W) (r : ConfigResponse)
      → answer_config namespace a s ≡ (s', ok r)
      → ((body : Body) × (a ≡ reply 200 body) × (http.decode_config body ≡ decoded r))
        ⊎ (r.configurations ≡ [])
  unfolding answer_config
  answer_config-ok namespace (no_reply e t) s s' r h = cc
  answer_config-ok namespace (reply status body) s s' r h = elim (Bool-cases (status == 404)) [
    | inl missing ↦ inr (ground arith)
    | inr found ↦ inl (body, ground arith, ground arith)
  ]

  -- A request that comes to a result was sent, and its answer gave the result.
  perform-ok :
      {A : Type 0} (request : Request) (answer : Reply → Client × W → (Client × W) × Result A)
      (c : Client) (w : W) (s' : Client × W) (a : A)
      → perform request answer (c, w) ≡ (s', ok a)
      → (t : Client × W) × (answer (http.send request w).1 t ≡ (s', ok a))
  unfolding perform
  perform-ok request answer c w s' a h = elim (Option-cases (http.request_error request.url)) [
    | inl fine ↦ ((c, (http.send request w).0), ground arith)
    | inr (e, bad) ↦ absurd (ground arith)
  ]

  fetch_config-IsServed :
      (namespace server : Text) (s s' : Client × W) (r : ConfigResponse)
      → fetch_config namespace server s ≡ (s', ok r)
      → IsServed http namespace r
  unfolding fetch_config
  fetch_config-IsServed namespace server (c, w) s' r h =
      let request = config_request http namespace c server in
      let (t, e) = perform-ok request (answer_config namespace) c w s' r h in
      elim (answer_config-ok namespace (http.send request w).1 t s' r e) [
        | inl (body, same, d) ↦ inl (c, server, w, body, same, d)
        | inr empty ↦ inr empty
      ]

  pub get_config-IsServed :
      (namespace : Text) (s s' : Client × W) (r : ConfigResponse)
      → get_config namespace s ≡ (s', ok r)
      → IsServed http namespace r
  unfolding get_config
  get_config-IsServed namespace (c, w) s' r h = elim (Result-cases (get_config_server (c, w)).1) [
    | inl (server, e) ↦
        fetch_config-IsServed namespace server (get_config_server (c, w)).0 s' r (ground arith)
    | inr (e, bad) ↦ absurd (ground arith)
  ]

  -- A value that GetConfigValue returns stands under the key in a response that was decoded from the
  -- body of an answer to a request of the namespace's values; the empty response to a 404 never yields
  -- one.
  pub get_config_value-served :
      (namespace key value : Text) (s s' : Client × W)
      → get_config_value namespace key s ≡ (s', ok value)
      → (r : ConfigResponse) × IsFetched http namespace r
        × (lookup key r.configurations ≡ some value)
  unfolding get_config_value
  get_config_value-served namespace key value s s' h =
      elim (Result-cases (get_config namespace s).1) [
        | inl (r, e) ↦
            elim (get_config-IsServed namespace s (get_config namespace s).0 r (ground arith)) [
              | inl fetched ↦ (r, fetched, ground arith)
              | inr empty ↦ absurd (unfold lookup in ground arith)
            ]
        | inr (e, bad) ↦ absurd (ground arith)
      ]

  -- An error for an absent key leaves no doubt: the namespace was served, without the key.
  pub get_config_value-missing :
      (namespace key : Text) (s s' : Client × W) (r : ConfigResponse)
      → get_config namespace s ≡ (s', ok r)
      → lookup key r.configurations ≡ none
      → get_config_value namespace key s ≡ (s', err (key_not_found key namespace))
  unfolding get_config_value
  get_config_value-missing namespace key s s' r h e = ground arith
