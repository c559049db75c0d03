-- ===== src/Resilience/Retry/Outcome.antt =====
-- resilience.go, `DoWithRetry` and `DoWithRetryContext`: how often the operation runs, and what
-- comes back.
use lynx_apollo.Base.{
  ℕ, zero, suc, ◌+◌, ◌<◌, ◌≡◌, refl, sym, subst, ◌⊎◌, inl, inr, Option, none, some, pos_part, arith,
  Option-cases,
}
use lynx_apollo.Errors.{GoError}
use lynx_apollo.Resilience.Machine.{Machine}
use lynx_apollo.Resilience.Retry.{
  RetryManager, rounds, exhausted, pause_before_next, retry_loop, do_with_retry, retry_loop_context,
  do_with_retry_context, cancelled, calculate_backoff,
}

lt_suc_cases : (j k : ℕ) → j < suc k → (j < k) ⊎ (j ≡ k)
lt_suc_cases j k h = grind arith

module _ {ℓ} {S : Type ℓ} ⦃m : Machine S⦄ (r : RetryManager)
    (operation : S → S × Option GoError) where
  -- The state in which attempt number `k` begins, after `k` attempts and the pauses between.
  abbrev pub before_attempt_no : ℕ → S → S
  before_attempt_no zero s = s
  before_attempt_no (suc k) s =
      pause_before_next r operation k (operation (before_attempt_no k s)).0

  -- What attempt number `k` returns.
  abbrev pub result_of : ℕ → S → Option GoError
  result_of k s = (operation (before_attempt_no k s)).1

  abbrev pub Fails : ℕ → S → Type 0
  Fails k s = (err : GoError) × (result_of k s ≡ some err)

  -- The error of the last of the attempts numbered below `k`.
  abbrev pub last_error : ℕ → S → Option GoError
  last_error zero s = none
  last_error (suc k) s = result_of k s

  -- A run of the loop that ends at attempt number `k`, the first to succeed.
  abbrev pub Succeeds : ℕ → S → S × Option GoError → Type ℓ
  Succeeds k s out =
      ((j : ℕ) → j < k → Fails j s)
      × (result_of k s ≡ none)
      × (out ≡ ((operation (before_attempt_no k s)).0, none))

  -- A run in which each of the attempts numbered below `n` fails.
  abbrev pub Exhausts : ℕ → S → S × Option GoError → Type ℓ
  Exhausts n s out =
      ((j : ℕ) → j < n → Fails j s)
      × (out ≡ (before_attempt_no n s, some (exhausted r.max_retries (last_error n s))))

  Fails-below :
      (k : ℕ) (s : S) → ((j : ℕ) → j < k → Fails j s) → Fails k s → (j : ℕ) → j < suc k → Fails j s
  Fails-below k s below here j h = elim (lt_suc_cases j k h) [
    | inl lt ↦ below j lt
    | inr e ↦ subst (λ i. Fails i s) (sym e) here
  ]

  retry_loop-failed :
      (n k : ℕ) (last : Option GoError) (u : S) (err : GoError)
      → (operation u).1 ≡ some err
      → retry_loop r operation (suc n) k last u
        ≡ retry_loop r operation n
            (suc k)
            (operation u).1
            (pause_before_next r operation k (operation u).0)
  unfolding retry_loop
  retry_loop-failed n k last u err e = rw (e, retry_loop)

  retry_loop-succeeded :
      (n k : ℕ) (last : Option GoError) (u : S)
      → (operation u).1 ≡ none
      → retry_loop r operation (suc n) k last u ≡ ((operation u).0, none)
  unfolding retry_loop
  retry_loop-succeeded n k last u e = rw (e, retry_loop)

  abbrev Ends : ℕ → S → S × Option GoError → Type ℓ
  Ends t s out = ((i : ℕ) × (i < t) × Succeeds i s out) ⊎ Exhausts t s out

  retry_loop-Ends :
      (n k t : ℕ) (s : S)
      → k + n ≡ t
      → ((j : ℕ) → j < k → Fails j s)
      → Ends t s (retry_loop r operation n k (last_error k s) (before_attempt_no k s))
  unfolding retry_loop
  retry_loop-Ends zero k t s e h =
      let k-eq : k ≡ t = omega arith in
      inr (
        subst
          (λ i.
            Exhausts i s (before_attempt_no k s, some (exhausted r.max_retries (last_error k s))))
          k-eq (h, refl))
  retry_loop-Ends (suc n) k t s e h = elim (Option-cases (result_of k s)) [
    | inl ok ↦ inl (
      k,
      omega arith,
      (h, ok, retry_loop-succeeded n k (last_error k s) (before_attempt_no k s) ok),
    )
    | inr (err, bad) ↦
        subst (Ends t s)
          (sym (retry_loop-failed n k (last_error k s) (before_attempt_no k s) err bad))
          (retry_loop-Ends n (suc k) t s (omega arith) (Fails-below k s h (err, bad)))
  ]

  -- DoWithRetry always ends, in one of two ways. Either some attempt succeeds, all before it having
  -- failed, and its state is returned without an error; the attempt is one of the max_retries + 1.
  -- Or all of those attempts fail, and the error wraps that of the last.
  pub do_with_retry_cases :
      (s : S)
      → let out = do_with_retry r operation s in
        ((k : ℕ) × (k < rounds r.max_retries) × Succeeds k s out)
        ⊎ Exhausts (rounds r.max_retries) s out
  unfolding do_with_retry
  do_with_retry_cases s =
      retry_loop-Ends (rounds r.max_retries) 0 _ s (omega arith) (λ j h. elim h [ ])

  context_stops :
      (ctx_err : S → Option GoError) (wait : ℕ → S → S × Option GoError) (n k : ℕ)
      (last : Option GoError) (s : S) (err : GoError)
      → 0 < n
      → ctx_err s ≡ some err
      → retry_loop_context r operation ctx_err wait n k last s ≡ (s, some (cancelled err))
  unfolding retry_loop_context
  context_stops ctx_err wait zero k last s err h e = absurd (omega arith)
  context_stops ctx_err wait (suc n) k last s err h e = rw (e, retry_loop_context)

  -- With a context that is cancelled already the operation never runs.
  pub do_with_retry_context-cancelled :
      (ctx_err : S → Option GoError) (wait : ℕ → S → S × Option GoError) (s : S) (err : GoError)
      → 0 < rounds r.max_retries
      → ctx_err s ≡ some err
      → do_with_retry_context r operation ctx_err wait s ≡ (s, some (cancelled err))
  unfolding do_with_retry_context
  do_with_retry_context-cancelled ctx_err wait s err h e =
      context_stops ctx_err wait (rounds r.max_retries) 0 none s err h e

  retry_loop_context-eq :
      (ctx_err : S → Option GoError) (wait : ℕ → S → S × Option GoError)
      → ((u : S) → ctx_err u ≡ none)
      → ((d : ℕ) (u : S) → wait d u ≡ (m.sleep d u, none))
      → (n k : ℕ) (last : Option GoError) (s : S)
      → retry_loop_context r operation ctx_err wait n k last s ≡ retry_loop r operation n k last s
  unfolding retry_loop_context retry_loop pause_before_next
  retry_loop_context-eq ctx_err wait quiet waits zero k last s = refl
  retry_loop_context-eq ctx_err wait quiet waits (suc n) k last s =
      elim (Option-cases (operation s).1) [
        | inl ok ↦ ground (arith, quiet s)
        | inr (err, bad) ↦ ground (
          arith,
          quiet s,
          waits (pos_part (calculate_backoff m.out_of_range r k)) (operation s).0,
          retry_loop_context-eq ctx_err wait quiet waits n (suc k) (some err)
              (pause_before_next r operation k (operation s).0),
        )
      ]

  -- A context that is never cancelled, and whose waits are sleeps, makes no difference.
  pub do_with_retry_context-eq :
      (ctx_err : S → Option GoError) (wait : ℕ → S → S × Option GoError)
      → ((u : S) → ctx_err u ≡ none)
      → ((d : ℕ) (u : S) → wait d u ≡ (m.sleep d u, none))
      → (s : S) → do_with_retry_context r operation ctx_err wait s ≡ do_with_retry r operation s
  unfolding do_with_retry_context do_with_retry
  do_with_retry_context-eq ctx_err wait quiet waits s =
      retry_loop_context-eq ctx_err wait quiet waits (rounds r.max_retries) 0 none s
