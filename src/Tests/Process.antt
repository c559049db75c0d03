-- ===== src/Tests/Process.antt =====
-- A world for the tests of the plugin: a clock, and the names that are registered.
use native.Mathlib.Nat.{le_refl}
use lynx_apollo.Base.{
  ℕ, suc, ◌+◌, ◌≡◌, refl, Text, codes, text_eq, member, not, ◌||◌, [], ◌∷◌, List, none, pos,
}
use lynx_apollo.Metrics.{Registry}
use lynx_apollo.Client.State.{Http, complete, reply, decoded}
use lynx_apollo.Resilience.Machine.{Machine}
use lynx_apollo.Plugin.Setup.{Framework}
use lynx_apollo.Tests.Client.{served}
use lynx_apollo.Tests.Validator.{sample}

pub record Process : Type 0 where
  pub clock : ℕ
  pub registered : List Text

abbrev pub blank : Process
blank = record { clock = 0; registered = [] }

instance abbrev pub process_http : Http Process
process_http = record {
  request_error = λ u. none;
  send = λ r w. (record w { clock = suc w.clock }, reply 200 (complete (codes "https://config")));
  decode_config = λ b. decoded served;
  decode_notifications = λ b. decoded [];
  query_escape = λ t. t;
}

instance abbrev pub process_machine : Machine Process
process_machine = record {
  time = λ w. w.clock;
  read = λ w. (w, w.clock);
  sleep = λ d w. record w { clock = w.clock + d };
  out_of_range = λ n. pos 0;
  time-le-read = λ w. le_refl w.clock;
  read-le-time = λ w. le_refl w.clock;
  time-sleep = λ d w. le_refl (w.clock + d);
}

pub cons_member : (t s : Text) (ss : List Text) → member t (s ∷ ss) ≡ (text_eq t s || member t ss)
unfolding member
cons_member t s ss = refl

instance abbrev pub process_registry : Registry Process
process_registry = record {
  taken = λ n w. member n w.registered;
  register = λ c w. (
    record w { registered = c.collector_name ∷ w.registered },
    not (member c.collector_name w.registered),
  );
  register-eq = λ c w. refl;
  taken-register = λ n c w. cons_member n c.collector_name w.registered;
}

instance abbrev pub process_framework : Framework Process
process_framework = record {
  base_initialize = λ w. (w, none);
  scan = λ w. ((w, sample), none);
  ctx_err = λ w. none;
  set_control_plane = λ w. (w, none);
  init_control_plane_config = λ w. (w, none);
  register_control_plane = λ w. (w, none);
  register_private = λ n w. w;
  load_plugins = λ w. (w, none);
}
