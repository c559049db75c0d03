-- ===== src/Locks.antt =====
-- The locks of apollo.go, client.go, resilience.go, watchers.go and watcher_adapter.go, and the threads
-- that take them. Of a thread there is left what it does with locks and with the fields that others
-- share; a wait on a channel, a request and a sleep end by themselves here.
pub mod Code
pub mod Life
pub mod Operations
pub mod System
pub mod Order
mod Fits
mod Checks
mod Invariant
pub mod Progress
pub mod Return
mod Separate
mod Exclusion
pub mod Races
pub mod Startup
use lynx_apollo.Base.{
  ℕ, zero, suc, Bool, true, false, not, ◌&&◌, ◌||◌, List, [], ◌∷◌, ◌==◌, ℕ_discrete,
}
use mathlib.Core.Logic.{ite}

-- A sync.Mutex and the channel of the breaker are taken exclusively, as is a sync.Once while its
-- function runs. The goroutines of a WaitGroup hold it until they end, shared, and Wait awaits it.
-- A number says which ConfigWatcher or ApolloConfigWatcher is meant.
pub data Resource : Type 0 where
  watcher_mutex plugin_mu cache_mutex client_mu breaker_mu close_once : Resource
  config_mu start_once stop_once dispatching : ℕ → Resource
  adapter_mu launch_once halt_once looping : ℕ → Resource

-- The fields that goroutines share. Of the two maps, the variable and the entries count apart.
pub data Field : Type 0 where
  client metrics retry_manager circuit_breaker health_check_ch : Field
  watchers_variable watchers_map cache_variable cache_map config_server breaker_state : Field
  on_change on_error backing watch_context notification cancel_watch : ℕ → Field

pub data Mode : Type 0 where
  exclusive shared : Mode

pub record Hold : Type 0 where
  pub mode : Mode
  pub resource : Resource

pub data Action : Type 0 where
  acquire : Mode → Resource → Action
  release : Action  -- of what the thread took last
  await : Resource → Action
  read write : Field → Action  -- under the lock that guards the field
  peek poke : Field → Action  -- a read and a write without it

-- What a thread holds, the last one first, and what it has yet to do.
pub record Thread : Type 0 where
  pub held : List Hold
  pub todo : List Action

pub record Threads : Type 0 where
  pub size : ℕ
  pub thread : ℕ → Thread

-- One number for each kind of resource. The tens are the order in which they are taken.
abbrev pub kind : Resource → ℕ
kind watcher_mutex = 0
kind close_once = 10
kind (start_once n) = 11
kind (stop_once n) = 12
kind (dispatching n) = 20
kind (looping n) = 21
kind plugin_mu = 30
kind (config_mu n) = 31
kind (halt_once n) = 32
kind (launch_once n) = 33
kind (adapter_mu n) = 34
kind cache_mutex = 40
kind client_mu = 41
kind breaker_mu = 42

abbrev pub number : Resource → ℕ
number (config_mu n) = n
number (start_once n) = n
number (stop_once n) = n
number (dispatching n) = n
number (adapter_mu n) = n
number (launch_once n) = n
number (halt_once n) = n
number (looping n) = n
number r = 0

unfoldable pub same : Resource → Resource → Bool
same r s = (kind r == kind s) && (number r == number s)

abbrev pub is_exclusive : Mode → Bool
is_exclusive exclusive = true
is_exclusive shared = false

unfoldable pub holds : Resource → List Hold → Bool
holds r [] = false
holds r (h ∷ hs) = same h.resource r || holds r hs

unfoldable pub holds_exclusively : Resource → List Hold → Bool
holds_exclusively r [] = false
holds_exclusively r (h ∷ hs) = (is_exclusive h.mode && same h.resource r) || holds_exclusively r hs

-- Whether one of the first `n` threads passes a test.
unfoldable pub some_thread : (Thread → Bool) → ℕ → (ℕ → Thread) → Bool
some_thread p zero ts = false
some_thread p (suc n) ts = p (ts n) || some_thread p n ts

unfoldable pub held_by_some : Resource → Threads → Bool
held_by_some r s = some_thread (λ t. holds r t.held) s.size s.thread

unfoldable pub held_exclusively_by_some : Resource → Threads → Bool
held_exclusively_by_some r s = some_thread (λ t. holds_exclusively r t.held) s.size s.thread

-- Whether the first action can happen. A writer that waits does not keep readers out here.
unfoldable pub can : Threads → List Action → Bool
can s [] = false
can s (acquire exclusive r ∷ rest) = not (held_by_some r s)
can s (acquire shared r ∷ rest) = not (held_exclusively_by_some r s)
can s (release ∷ rest) = true
can s (await r ∷ rest) = not (held_by_some r s)
can s (read f ∷ rest) = true
can s (peek f ∷ rest) = true
can s (write f ∷ rest) = true
can s (poke f ∷ rest) = true

unfoldable pub advance : List Hold → List Action → Thread
advance hs [] = record { held = hs; todo = [] }
advance hs (acquire m r ∷ rest) = record {
  held = record { mode = m; resource = r } ∷ hs;
  todo = rest;
}
advance [] (release ∷ rest) = record { held = []; todo = rest }
advance (h ∷ hs) (release ∷ rest) = record { held = hs; todo = rest }
advance hs (await r ∷ rest) = record { held = hs; todo = rest }
advance hs (read f ∷ rest) = record { held = hs; todo = rest }
advance hs (peek f ∷ rest) = record { held = hs; todo = rest }
advance hs (write f ∷ rest) = record { held = hs; todo = rest }
advance hs (poke f ∷ rest) = record { held = hs; todo = rest }

abbrev pub update : (ℕ → Thread) → ℕ → Thread → ℕ → Thread
update ts i t j = ite (ℕ_discrete i j) t (ts j)

-- Thread `i` does its first action.
abbrev pub move : ℕ → Threads → Threads
move i s = record s { thread = update s.thread i (advance (s.thread i).held (s.thread i).todo) }

-- One more thread.
abbrev pub begin : Thread → Threads → Threads
begin t s = record { size = suc s.size; thread = update s.thread s.size t }
