-- ===== src/Watcher/Delivery.antt =====
-- watcher_adapter.go: what comes out of the channel.
use lynx_apollo.Base.{
  ℕ, ◌≡◌, refl, sym, ap, ◌∙◌, inl, inr, Text, Bool, true, false, List, [], ◌∷◌, ◌++◌, append-nil,
  ◌⊎◌, ◌&&◌, Option, none, some, All, All-append, if◌then◌else◌, arith,
}
use lynx_apollo.Client.State.{Client, ConfigResponse, Notification, Http, Result, ok, err}
use lynx_apollo.Client.Requests.{get_config}
use lynx_apollo.Watcher.State.{
  StopStage, running, marked, cancel_done, stopped, delivered, select_next, Pairs,
  ApolloConfigWatcher, Position, unstarted, top, backing_off, finished, polling, answered, visiting,
  reloading, sending, System, start_watcher, stop_step, is_stopped, new_apollo_config_watcher,
  launched,
}
use lynx_apollo.Watcher.Loop.{loop_step, step_at, with_reload, put, is_free, move_to}
use lynx_apollo.Watcher.System.{
  Step, loops, starts, stops, ends, receives, others, Reach, here, next, new_system,
}

abbrev pub waiting_in : Option Pairs → List Pairs
waiting_in none = []
waiting_in (some kvs) = kvs ∷ []

-- The pairs of a response that a GetConfig of the namespace answered without an error.
abbrev pub Reloaded : {W : Type 0} → Http W → Text → Pairs → Type 0
Reloaded {W} http namespace kvs =
    (at : Client × W) × (r : ConfigResponse) × ((get_config ⦃http = http⦄ namespace at).1 ≡ ok r)
    × (r.configurations ≡ kvs)

-- What the loop got has been sent, but for the reload that it is about to send, and for one that a
-- loop that ended may have had in hand when `stopCh` was closed.
abbrev pub Accounted : Position → StopStage → List Pairs → List Pairs → Type 0
Accounted (sending kvs g ns) stage reloads sent = reloads ≡ sent ++ kvs ∷ []
Accounted finished stage reloads sent =
    (reloads ≡ sent) ⊎ ((is_stopped stage ≡ true) × ((kvs : Pairs) × (reloads ≡ sent ++ kvs ∷ [])))
Accounted q stage reloads sent = reloads ≡ sent

abbrev Held : {W : Type 0} → Http W → Text → Position → Type 0
Held http namespace (sending kvs g ns) = Reloaded http namespace kvs
Held http namespace _ = Unit {0}

-- What was sent has been received, but for the one that waits, in the same order, and each was
-- reloaded; the watcher is for the namespace.
abbrev pub Orderly : {W : Type 0} → Http W → Text → System W → Type 0
Orderly http namespace s =
    (s.sent ≡ s.received ++ waiting_in s.watcher.notify)
    × All (Reloaded http namespace) s.sent
    × (s.watcher.namespace ≡ namespace)

free_queue : (o : Option Pairs) → is_free o ≡ true → waiting_in o ≡ []
free_queue none h = refl
free_queue (some kvs) h = absurd (ground arith)

-- What Next delivers was in the channel.
select_next-full :
    (choice : Bool) (st : StopStage) (o : Option Pairs) (kvs : Pairs)
    → select_next choice st o ≡ delivered kvs
    → o ≡ some kvs
unfolding select_next
select_next-full true stopped (some k) kvs h = absurd (ground arith)
select_next-full false stopped (some k) kvs h = ground arith
select_next-full choice stopped none kvs h = absurd (ground arith)
select_next-full choice running (some k) kvs h = ground arith
select_next-full choice running none kvs h = absurd (ground arith)
select_next-full choice marked (some k) kvs h = ground arith
select_next-full choice marked none kvs h = absurd (ground arith)
select_next-full choice cancel_done (some k) kvs h = ground arith
select_next-full choice cancel_done none kvs h = absurd (ground arith)

stop_step-notify : (w : ApolloConfigWatcher) → (stop_step w).notify ≡ w.notify
unfolding stop_step
stop_step-notify w = ground arith

stop_step-namespace : (w : ApolloConfigWatcher) → (stop_step w).namespace ≡ w.namespace
unfolding stop_step
stop_step-namespace w = ground arith

launched-Held :
    {W : Type 0} (http : Http W) (namespace : Text) (q : Position)
    → Held http namespace q
    → Held http namespace (launched q)
unfolding launched
launched-Held http namespace unstarted h = tt
launched-Held http namespace top h = h
launched-Held http namespace backing_off h = h
launched-Held http namespace finished h = h
launched-Held http namespace (polling g id) h = h
launched-Held http namespace (answered g r) h = h
launched-Held http namespace (visiting g ns) h = h
launched-Held http namespace (reloading g ns) h = h
launched-Held http namespace (sending kvs g ns) h = h

launched-Accounted :
    (q : Position) (stage : StopStage) (reloads sent : List Pairs)
    → Accounted q stage reloads sent
    → Accounted (launched q) stage reloads sent
unfolding launched
launched-Accounted unstarted stage rs ss h = h
launched-Accounted top stage rs ss h = h
launched-Accounted backing_off stage rs ss h = h
launched-Accounted finished stage rs ss h = h
launched-Accounted (polling g id) stage rs ss h = h
launched-Accounted (answered g r) stage rs ss h = h
launched-Accounted (visiting g ns) stage rs ss h = h
launched-Accounted (reloading g ns) stage rs ss h = h
launched-Accounted (sending kvs g ns) stage rs ss h = h

stays_stopped :
    (w : ApolloConfigWatcher) → is_stopped w.stage ≡ true → is_stopped (stop_step w).stage ≡ true
unfolding stop_step
stays_stopped w h = ground arith

stop-Accounted :
    (q : Position) (w : ApolloConfigWatcher) (reloads sent : List Pairs)
    → Accounted q w.stage reloads sent
    → Accounted q (stop_step w).stage reloads sent
stop-Accounted unstarted w rs ss h = h
stop-Accounted top w rs ss h = h
stop-Accounted backing_off w rs ss h = h
stop-Accounted finished w rs ss (inl e) = inl e
stop-Accounted finished w rs ss (inr (down, last)) = inr (stays_stopped w down, last)
stop-Accounted (polling g id) w rs ss h = h
stop-Accounted (answered g r) w rs ss h = h
stop-Accounted (visiting g ns) w rs ss h = h
stop-Accounted (reloading g ns) w rs ss h = h
stop-Accounted (sending kvs g ns) w rs ss h = h

stopped_in : (a b : Bool) → (a && b) ≡ true → a ≡ true
stopped_in a b h = ground arith

module _ {W : Type 0} ⦃http : Http W⦄ (namespace : Text) where
  abbrev Balanced : Position → System W → Type 0
  Balanced q s = Accounted q s.watcher.stage s.reloads s.sent

  abbrev Kept : System W → Type 0
  Kept s = Orderly http namespace s × Held http namespace s.position × Balanced s.position s

  Kept-if :
      (b : Bool) (s t : System W)
      → (b ≡ true → Kept s)
      → (b ≡ false → Kept t)
      → Kept (if b then s else t)
  Kept-if true s t hs ht = hs refl
  Kept-if false s t hs ht = ht refl

  with_reload-Kept :
      (g : ℕ) (ns : List Notification) (at : Client × W)
      (out : (Client × W) × Result ConfigResponse) (s : System W)
      → Orderly http namespace s
      → s.reloads ≡ s.sent
      → get_config namespace at ≡ out
      → Kept (with_reload g ns out s)
  unfolding with_reload
  with_reload-Kept g ns at ((c, w), ok r) s h all from =
      (h, (at, r, ap (λ o. o.1) from, refl), ap (λ rs. rs ++ r.configurations ∷ []) all)
  with_reload-Kept g ns at ((c, w), err e) s h all from =
      Kept-if _ _ _ (λ gone. (h, tt, inl all)) (λ live. (h, tt, all))

  put-Orderly :
      (kvs : Pairs) (g : ℕ) (ns : List Notification) (s : System W)
      → Orderly http namespace s
      → Reloaded http namespace kvs
      → is_free s.watcher.notify ≡ true
      → Orderly http namespace (put kvs g ns s)
  unfolding put
  put-Orderly kvs g ns s h k free = (
    ap (λ xs. xs ++ kvs ∷ [])
        (h.0
          ∙ ap (λ xs. s.received ++ xs) (free_queue s.watcher.notify free)
          ∙ append-nil s.received),
    All-append (Reloaded http namespace) s.sent (kvs ∷ []) h.1 (k, tt),
    h.2,
  )

  put-Kept :
      (kvs : Pairs) (g : ℕ) (ns : List Notification) (s : System W)
      → Kept s
      → Reloaded http namespace kvs
      → s.reloads ≡ s.sent ++ kvs ∷ []
      → Kept (if is_free s.watcher.notify then put kvs g ns s else s)
  put-Kept kvs g ns s h k all =
      Kept-if (is_free s.watcher.notify) (put kvs g ns s) s
        (λ free. (put-Orderly kvs g ns s h.0 k free, unfold put in tt, unfold put in all))
        (λ full. h)

  step_at-Kept :
      (q : Position) (choice : Bool) (s : System W)
      → Kept s
      → Held http namespace q
      → Balanced q s
      → Kept (step_at q choice s)
  unfolding step_at
  step_at-Kept unstarted choice s h k b = h
  step_at-Kept top choice s h k b = Kept-if _ _ _ (λ e. (h.0, tt, inl b)) (λ e. (h.0, tt, b))
  step_at-Kept (polling g id) choice s h k b = (h.0, tt, b)
  step_at-Kept (answered g (err e)) choice s h k b =
      Kept-if _ _ _ (λ e. (h.0, tt, inl b)) (λ e. (h.0, tt, b))
  step_at-Kept (answered g (ok ns)) choice s h k b = (h.0, tt, b)
  step_at-Kept (visiting g []) choice s h k b = (h.0, tt, b)
  step_at-Kept (visiting g (n ∷ ns)) choice s h k b =
      Kept-if _ _ _ (λ e. (h.0, tt, b)) (λ e. (h.0, tt, b))
  step_at-Kept (reloading g ns) choice s h k b =
      with_reload-Kept g ns (s.client, s.world) (get_config s.watcher.namespace (s.client, s.world))
        s h.0 b (ap (λ n. get_config n (s.client, s.world)) (sym h.0.2))
  step_at-Kept (sending kvs g ns) choice s h k b =
      Kept-if _ _ _ (λ e. (h.0, tt, inr (stopped_in (is_stopped s.watcher.stage) _ e, (kvs, b))))
        (λ e. put-Kept kvs g ns s h k b)
  step_at-Kept backing_off true s h k b = (h.0, tt, b)
  step_at-Kept backing_off false s h k b =
      Kept-if (is_stopped s.watcher.stage) (move_to finished s) s (λ e. (h.0, tt, inl b)) (λ e. h)
  step_at-Kept finished choice s h k b = h

  Step-Kept : {s t : System W} → Step s t → Kept s → Kept t
  Step-Kept {s} (loops choice) h = unfold loop_step in step_at-Kept s.position choice s h h.1 h.2
  Step-Kept {s} (starts parent) h =
      unfold start_watcher in
      (
        h.0,
        launched-Held http namespace s.position h.1,
        launched-Accounted s.position s.watcher.stage s.reloads s.sent h.2,
      )
  Step-Kept {s} stops h = (
    (
      h.0.0 ∙ ap (λ o. s.received ++ waiting_in o) (sym (stop_step-notify s.watcher)),
      h.0.1,
      stop_step-namespace s.watcher ∙ h.0.2,
    ),
    h.1,
    stop-Accounted s.position s.watcher s.reloads s.sent h.2,
  )
  Step-Kept (ends c live) h = h
  Step-Kept {s} (receives choice kvs took) h = (
    (
      h.0.0
          ∙ ap (λ o. s.received ++ waiting_in o)
              (select_next-full choice s.watcher.stage s.watcher.notify kvs took)
          ∙ sym (append-nil (s.received ++ kvs ∷ [])),
      h.0.1,
      h.0.2,
    ),
    h.1,
    h.2,
  )
  Step-Kept (others c w) h = h

  Reach-Kept : {s t : System W} → Reach s t → Kept s → Kept t
  Reach-Kept here h = h
  Reach-Kept (next r st) h = Step-Kept st (Reach-Kept r h)

module _ {W : Type 0} ⦃http : Http W⦄ where
  -- Whatever the loop, the callers of Start, Stop and Next and the rest of the program do, in any
  -- order: every reload that the loop got goes into the channel, in order and once, but for one that it
  -- is about to send, or had in hand when it ended with `stopCh` closed; what went in comes out in the
  -- same order, but for the one that still waits; and each is the configuration of a response that a
  -- GetConfig of the watcher's namespace answered without an error.
  pub delivery_in_order :
      (namespace : Text) (c : Client) (w : W) (s : System W)
      → Reach (new_system namespace c w) s
      → Accounted s.position s.watcher.stage s.reloads s.sent
        × (s.sent ≡ s.received ++ waiting_in s.watcher.notify)
        × All (Reloaded http namespace) s.sent
  delivery_in_order namespace c w s r =
      let (orderly, held, all) =
        Reach-Kept namespace r (unfold new_apollo_config_watcher in ((refl, tt, refl), tt, refl)) in
      (all, orderly.0, orderly.1)
