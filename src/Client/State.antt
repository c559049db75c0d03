-- ===== src/Client/State.antt =====
-- client.go: the client's state, and the network that it uses.
use lynx_apollo.Base.{
  ℕ, ◌*◌, Text, Bool, false, List, [], Option, if◌then◌else◌, ℤ, pos, second, ltb_ℤ,
}
use lynx_apollo.Errors.{GoError, wrapped}

-- ApolloHTTPClient. `request_timeout` is that of the http.Client, in nanoseconds.
pub record Client : Type 0 where
  pub meta_server : Text
  pub app_id : Text
  pub cluster : Text
  pub namespace : Text
  pub token : Text
  pub request_timeout : ℤ
  pub config_server : Text
  pub closed : Bool

-- A map as the list of its entries in the order of a loop over it.
pub record ConfigResponse : Type 0 where
  pub response_app_id : Text
  pub response_cluster : Text
  pub namespace_name : Text
  pub configurations : List (Text × Text)
  pub release_key : Text

pub record Notification : Type 0 where
  pub notified_namespace : Text
  pub notification_id : ℤ

unfoldable pub new_client : Text → Text → Text → Text → Text → ℤ → Client
new_client meta_server app_id cluster namespace token timeout = record {
  meta_server = meta_server;
  app_id = app_id;
  cluster = cluster;
  namespace = namespace;
  token = token;
  request_timeout = if ltb_ℤ (pos 0) timeout then timeout else pos (10 * second);
  config_server = [];
  closed = false;
}

-- A GET request: its URL, the Authorization header if it is set, and the deadline of its context in
-- nanoseconds from now, if the code adds one.
pub record Request : Type 0 where
  pub url : Text
  pub authorization : Option Text
  pub deadline : Option ℕ

pub data Body : Type 0 where
  complete : Text → Body
  broken : Text → GoError → Body

-- `no_reply` has the error of the transport, and whether the request's own context ran out of time.
pub data Reply : Type 0 where
  no_reply : GoError → Bool → Reply
  reply : ℕ → Body → Reply

pub data Decoded (A : Type 0) : Type 0 where
  decoded : A → Decoded A
  undecodable : GoError → Decoded A

pub record Http (W : Type 0) : Type 0 where
  pub request_error : Text → Option GoError
  pub send : Request → W → W × Reply
  pub decode_config : Body → Decoded ConfigResponse
  pub decode_notifications : Body → Decoded (List Notification)
  pub query_escape : Text → Text

pub data Result (A : Type 0) : Type 0 where
  ok : A → Result A
  err : GoError → Result A

-- Code that uses the client and the world, and may fail.
abbrev pub Exec : Type 0 → Type 0 → Type 0
Exec W A = Client × W → (Client × W) × Result A

abbrev pub then_with :
    {W A B : Type 0} → (Client × W) × Result A → (A → Exec W B) → (Client × W) × Result B
then_with (s, ok a) f = f a s
then_with (s, err e) f = (s, err e)

infixl 5 ◌>>=◌
abbrev pub ◌>>=◌ : {W A B : Type 0} → Exec W A → (A → Exec W B) → Exec W B
◌>>=◌ m f s = then_with (m s) f

abbrev pub pure : {W A : Type 0} → A → Exec W A
pure a s = (s, ok a)

abbrev pub raise : {W A : Type 0} → GoError → Exec W A
raise e s = (s, err e)

-- if err != nil { return fmt.Errorf(pre + "%w", err) }
abbrev pub annotate : {W A : Type 0} → Text → Exec W A → Exec W A
annotate pre m s = elim (m s).1 [ ok a ↦ ((m s).0, ok a) | err e ↦ ((m s).0, err (wrapped pre e)) ]
