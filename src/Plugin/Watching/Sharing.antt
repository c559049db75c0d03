-- ===== src/Plugin/Watching/Sharing.antt =====
-- watchers.go: callers of WatchConfig for one namespace, and a call that a cleanup overtakes.
use lynx_apollo.Base.{
  ◌≡◌, refl, sym, ap, ◌∙◌, subst, inl, inr, Text, text_eq, text_eq_refl, text_eq-eq, true, false,
  List, [], ◌∷◌, none, some, arith, Bool-cases,
}
use lynx_apollo.Client.State.{Client}
use lynx_apollo.Client.Requests.{lookup}
use lynx_apollo.Plugin.State.{ConfigWatcher, PlugApollo}
use lynx_apollo.Plugin.Values.{put}
use lynx_apollo.Plugin.Entries.{lookup-put}
use lynx_apollo.Plugin.Setup.{Framework}
use lynx_apollo.Plugin.Cleanup.{cleanup}
use lynx_apollo.Plugin.Phases.{cleanup_releases}
use lynx_apollo.Plugin.Watching.{
  existing, fresh, plugin_watcher, new_config_watcher, set_on_error, set_on_config_changed,
  start_config_watcher, begin_watch, commit_watch, start_in, finish_watch, handle_changes,
  handle_config_changed, is_same, has_client,
}
use lynx_apollo.Watcher.State.{Pairs}

lookup-put_other :
    {A : Type 0} (k j : Text) (v : A) (m : List (Text × A))
    → text_eq k j ≡ false
    → lookup j (put k v m) ≡ lookup j m
unfolding lookup put
lookup-put_other k j v [] h = ground arith
lookup-put_other k j v ((i, u) ∷ m) h = ground (arith, lookup-put_other k j v m h, text_eq-eq i k)

-- What the callers of WatchConfig do, and the deliveries.
pub data Act : Type 0 where
  begins : Text → Act
  commits starts : ConfigWatcher → Act
  delivers : Text → Pairs → Act

abbrev pub act : Act → PlugApollo → PlugApollo
act (begins namespace) p = (begin_watch namespace p).0
act (commits w) p = (commit_watch w p).0
act (starts w) p = start_in w p
act (delivers namespace kvs) p = handle_changes namespace kvs p

abbrev pub run_acts : List Act → PlugApollo → PlugApollo
run_acts [] p = p
run_acts (a ∷ acts) p = run_acts acts (act a p)

-- The map has the watcher `w` for its namespace, started or not.
abbrev pub Has : ConfigWatcher → PlugApollo → Type 0
Has w p = (v : ConfigWatcher) × (lookup w.watched p.config_watchers ≡ some v) × (v.id ≡ w.id)

begins_watchers :
    (namespace : Text) (p : PlugApollo)
    → (begin_watch namespace p).0.config_watchers ≡ p.config_watchers
unfolding begin_watch
begins_watchers namespace p = ground arith

changes_watchers :
    (namespace : Text) (kvs : Pairs) (p : PlugApollo)
    → (handle_changes namespace kvs p).config_watchers ≡ p.config_watchers
unfolding handle_changes handle_config_changed
changes_watchers namespace [] p = refl
changes_watchers namespace ((k, v) ∷ kvs) p =
    changes_watchers namespace kvs (handle_config_changed namespace k p)

commit-Has : (w u : ConfigWatcher) (p : PlugApollo) → Has w p → Has w (commit_watch u p).0
unfolding commit_watch
commit-Has w u p (v, here, same) = elim (Bool-cases (text_eq u.watched w.watched)) [
  | inl agree ↦ (
    v,
    ground (arith, ap (λ n. lookup n p.config_watchers) (text_eq-eq u.watched w.watched agree)),
    same,
  )
  | inr differ ↦
      (v, ground (arith, lookup-put_other u.watched w.watched u p.config_watchers differ), same)
]

start_config_watcher-id : (w : ConfigWatcher) → (start_config_watcher w).id ≡ w.id
unfolding start_config_watcher
start_config_watcher-id w = ground arith

start-Has : (w u : ConfigWatcher) (p : PlugApollo) → Has w p → Has w (start_in u p)
unfolding start_in start_config_watcher is_same
start-Has w u p (v, here, same) =
    elim (Bool-cases (is_same u (lookup u.watched p.config_watchers))) [
      | inr other ↦ (v, ground arith, same)
      | inl mine ↦ elim (Bool-cases (text_eq u.watched w.watched)) [
        | inr differ ↦ (
          v,
          ground (
            arith,
            lookup-put_other u.watched w.watched (start_config_watcher u) p.config_watchers differ,
          ),
          same,
        )
        | inl agree ↦ (
          start_config_watcher u,
          ground (
            arith,
            lookup-put u.watched (start_config_watcher u) p.config_watchers,
            text_eq-eq u.watched w.watched agree,
          ),
          ground (arith, start_config_watcher-id u, text_eq-eq u.watched w.watched agree),
        )
      ]
    ]

act-Has : (a : Act) (w : ConfigWatcher) (p : PlugApollo) → Has w p → Has w (act a p)
act-Has (begins namespace) w p (v, here, same) =
    (v, ap (lookup w.watched) (begins_watchers namespace p) ∙ here, same)
act-Has (commits u) w p h = commit-Has w u p h
act-Has (starts u) w p h = start-Has w u p h
act-Has (delivers namespace kvs) w p (v, here, same) =
    (v, ap (lookup w.watched) (changes_watchers namespace kvs p) ∙ here, same)

acts-Has :
    (acts : List Act) (w : ConfigWatcher) (p : PlugApollo) → Has w p → Has w (run_acts acts p)
acts-Has [] w p h = h
acts-Has (a ∷ acts) w p h = acts-Has acts w (act a p) (act-Has a w p h)

committed_Has :
    (w : ConfigWatcher) (p : PlugApollo)
    → lookup w.watched p.config_watchers ≡ none
    → Has w (commit_watch w p).0
unfolding commit_watch
committed_Has w p h = (w, ground (arith, lookup-put w.watched w p.config_watchers), refl)

-- The first watcher that is registered for a namespace is the one that every later caller gets, until
-- a cleanup: one that finds it at once, and one that made a watcher of its own before and comes second
-- to the lock. Other callers of any namespace and deliveries may come in between, in any order.
pub callers_share :
    (w u : ConfigWatcher) (acts : List Act) (p : PlugApollo)
    → lookup w.watched p.config_watchers ≡ none
    → u.watched ≡ w.watched
    → let q = run_acts acts (commit_watch w p).0 in
      (v : ConfigWatcher) × (v.id ≡ w.id)
      × ((begin_watch w.watched q).1 ≡ existing v)
      × ((commit_watch u q).1 ≡ existing v)
unfolding begin_watch commit_watch
callers_share w u acts p free agree =
    let (v, here, same) = acts-Has acts w (commit_watch w p).0 (committed_Has w p free) in
    (
      v,
      same,
      ground arith,
      ground (arith, ap (λ n. lookup n (run_acts acts (commit_watch w p).0).config_watchers) agree),
    )

-- A watcher that comes into an empty map.
finish_watch_empty :
    (v : ConfigWatcher) (q : PlugApollo)
    → q.config_watchers ≡ []
    → finish_watch (q, fresh v) ≡ (
      record q { config_watchers = (v.watched, start_config_watcher v) ∷ [] },
      start_config_watcher v,
    )
unfolding finish_watch commit_watch start_in is_same lookup put start_config_watcher
finish_watch_empty v q h = ground (arith, text_eq_refl v.watched)

begin_watch-fresh :
    (namespace : Text) (p : PlugApollo)
    → lookup namespace p.config_watchers ≡ none
    → (begin_watch namespace p).1 ≡ fresh (plugin_watcher p.next_watcher namespace p.client)
unfolding begin_watch
begin_watch-fresh namespace p h = ground arith

module _ {W : Type 0} ⦃f : Framework W⦄ where
  cleanup_down : (q : PlugApollo) (w : W) → q.initialized ≡ false → cleanup (q, w) ≡ ((q, w), none)
  unfolding cleanup
  cleanup_down q w h = ground arith

  abbrev Survives : Text → W → PlugApollo × ConfigWatcher → Type 0
  Survives namespace w late =
      (late.1.backed ≡ true)
      × (late.1.stopped ≡ false)
      × (late.0.config_watchers ≡ (namespace, late.1) ∷ [])
      × ((cleanup (late.0, w)).0.0 ≡ late.0)

  -- Where a call of WatchConfig has found no watcher and seen the client, and a cleanup of the running
  -- plugin comes before it takes the lock, the call starts a watcher with that client and puts it into
  -- the map of the plugin that is down; a further cleanup leaves it there, running.
  pub late_watch_survives :
      (namespace : Text) (c : Client) (p : PlugApollo) (w : W)
      → p.initialized ≡ true
      → p.destroyed ≡ false
      → p.client ≡ some c
      → lookup namespace p.config_watchers ≡ none
      → let late = finish_watch ((cleanup (p, w)).0.0, (begin_watch namespace p).1) in
        (late.1.backed ≡ true)
        × (late.1.stopped ≡ false)
        × (late.0.config_watchers ≡ (namespace, late.1) ∷ [])
        × ((cleanup (late.0, w)).0.0 ≡ late.0)
  unfolding plugin_watcher new_config_watcher set_on_error set_on_config_changed
      start_config_watcher has_client
  late_watch_survives namespace c p w i d h free =
      let (down, destroyed, m, r, b, cache, watchers, halted, closed, silent, conf, world, error) =
        cleanup_releases p w i d in
      let q = (cleanup (p, w)).0.0 in
      let v = plugin_watcher p.next_watcher namespace p.client in
      let same : finish_watch (q, (begin_watch namespace p).1) ≡ (
        record q { config_watchers = (namespace, start_config_watcher v) ∷ [] },
        start_config_watcher v,
      ) =
        ap (λ found. finish_watch (q, found)) (begin_watch-fresh namespace p free)
        ∙ finish_watch_empty v q watchers in
      subst (Survives namespace w) (sym same) (
        ap has_client h,
        refl,
        refl,
        ap (λ out. out.0.0)
            (cleanup_down (record q { config_watchers = (namespace, start_config_watcher v) ∷ [] })
              w down.0),
      )
