-- ===== src/Client/Sends.antt =====
-- client.go: how many requests the operations of the client send.
use lynx_apollo.Base.{ℕ, suc, ◌+◌, ◌≤◌, ◌≡◌, refl, none, Text, literal, arith}
use lynx_apollo.Client.State.{
  Client, complete, broken, Reply, no_reply, reply, Request, Http, Result, ok, err, Exec, then_with,
  annotate,
}
use lynx_apollo.Client.Requests.{
  perform, read_servers, answer_meta, meta_url, auth, get_config_server, fetch_config,
  answer_config, get_config, get_config_value as fetch_value,
}
use lynx_apollo.Plugin.Values.{call_machine, breaker_machine}
use lynx_apollo.Plugin.Health.{check_machine}

module _ {W : Type 0} ⦃http : Http W⦄ where
  answer_meta-world : (r : Reply) (s : Client × W) → (answer_meta r s).0.1 ≡ s.1
  unfolding answer_meta read_servers
  answer_meta-world (no_reply e late) s = refl
  answer_meta-world (reply status (complete t)) s = ground arith
  answer_meta-world (reply status (broken t e)) s = ground arith

  answer_config-world :
      (namespace : Text) (r : Reply) (s : Client × W) → (answer_config namespace r s).0.1 ≡ s.1
  unfolding answer_config
  answer_config-world namespace (no_reply e late) s = refl
  answer_config-world namespace (reply status body) s = ground arith

  annotate-state :
      {A : Type 0} (pre : Text) (m : Exec W A) (s : Client × W) → (annotate pre m s).0 ≡ (m s).0
  annotate-state pre m s = ground arith

  then_with-sends :
      (sent : W → ℕ) {A B : Type 0} (out : (Client × W) × Result A) (f : A → Exec W B) (n k : ℕ)
      → sent out.0.1 ≤ n
      → ((a : A) (s : Client × W) → sent (f a s).0.1 ≤ sent s.1 + k)
      → sent (then_with out f).0.1 ≤ n + k
  then_with-sends sent (s, ok a) f n k h each = omega (arith, each a s)
  then_with-sends sent (s, err e) f n k h each = omega arith

  module _ (sent : W → ℕ)
      (counts : (r : Request) (w : W) → sent (http.send r w).0 ≡ suc (sent w)) where
    perform-sends :
        (request : Request) {A : Type 0} (answer : Reply → Exec W A) (c : Client) (w : W)
        → ((r : Reply) (s : Client × W) → (answer r s).0.1 ≡ s.1)
        → sent (perform request answer (c, w)).0.1 ≤ suc (sent w)
    unfolding perform
    perform-sends request answer c w keeps =
        ground (arith, keeps (http.send request w).1 (c, (http.send request w).0), counts request w)

    pub get_config_server-sends :
        (c : Client) (w : W) → sent (get_config_server (c, w)).0.1 ≤ suc (sent w)
    unfolding get_config_server
    get_config_server-sends c w =
        let request : Request = record {
          url = meta_url c;
          authorization = auth c;
          deadline = none;
        } in
        ground (arith, perform-sends request answer_meta c w answer_meta-world)

    fetch_config-sends :
        (namespace server : Text) (c : Client) (w : W)
        → sent (fetch_config namespace server (c, w)).0.1 ≤ suc (sent w)
    unfolding fetch_config
    fetch_config-sends namespace server c w =
        perform-sends _ (answer_config namespace) c w (answer_config-world namespace)

    get_config-sends :
        (namespace : Text) (c : Client) (w : W)
        → sent (get_config namespace (c, w)).0.1 ≤ sent w + 2
    unfolding get_config
    get_config-sends namespace c w =
        let pre = literal "failed to get config server: " in
        let found = annotate pre get_config_server (c, w) in
        let first : sent found.0.1 ≤ suc (sent w) =
          rw (annotate-state pre get_config_server (c, w)) (get_config_server-sends c w) in
        let then_two : sent (then_with found (fetch_config namespace)).0.1 ≤ suc (sent w) + 1 =
          then_with-sends sent found (fetch_config namespace) (suc (sent w)) 1 first
            (λ server s. omega (arith, fetch_config-sends namespace server s.0 s.1)) in
        ground arith

    pub fetch_value-sends :
        (namespace key : Text) (c : Client) (w : W)
        → sent (fetch_value namespace key (c, w)).0.1 ≤ sent w + 2
    unfolding fetch_value
    fetch_value-sends namespace key c w = ground (arith, get_config-sends namespace c w)
