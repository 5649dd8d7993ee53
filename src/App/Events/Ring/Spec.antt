-- ===== src/App/Events/Ring/Spec.antt =====
-- What the ring of senders does, told without senders, and that the ring does it.
use clyman.Prelude.{
  ℕ, zero, suc, ◌<◌, Bool, true, false, ◌==◌, nat_eq, List, [], ◌∷◌, map, replicate, get_elem?, set,
  length, length-set, Option, Option-cases, inl, inr, none, some, subst, length-map, ◌≡◌, refl, ap,
  ◌∙◌, arith, if◌then◌else◌,
}
use native.Mathlib.Decide.{dec_lt}
use clyman.Outcome.{Outcome, ok, crash, ◌>>=◌}
use clyman.App.Events.Ring.{
  Phase, waiting, running, finished, Sender, Ring, new_ring, begun, deleted, dispatch, end_at,
  end_run, Happening, message, thread_ends, event_stream,
}

some_inj : {A : Type 0} {x y : A} → some x ≡ some y → x ≡ y
some_inj e = cc

module _ {E : Type 0} where
  -- Every event is processed when it comes, and processed once. But where twelve events in a row have
  -- found a thread each, the next one is the end of the program.
  abbrev pub promised : ℕ → List (Happening E) → Outcome (List E)
  promised k [] = ok []
  promised k (message available e ∷ hs) =
      let rest = promised (if available then suc k else 0) hs in
      if k == 12 then crash else (do es ← rest; ok (e ∷ es))
  promised k (thread_ends i ∷ hs) = promised k hs

  -- A sender whose `run` was called.
  abbrev Called : Option (Sender E) → Type 0
  Called none = ⊥
  Called (some s) = elim s.phase [ waiting ↦ ⊥ | running ↦ Unit | finished ↦ Unit ]

  -- No thread executes it.
  abbrev Idle : Option (Sender E) → Type 0
  Idle none = Unit
  Idle (some s) = elim s.phase [ waiting ↦ Unit | running ↦ ⊥ | finished ↦ Unit ]

  -- The first `k` senders were called since the pool was last waited for, and the others are idle.
  abbrev Divided : ℕ → List (Option (Sender E)) → Type 0
  Divided k [] = Unit
  Divided zero (x ∷ xs) = Idle x × Divided zero xs
  Divided (suc k) (x ∷ xs) = Called x × Divided k xs

  Idle-get_elem? :
      (k : ℕ) (xs : List (Option (Sender E)))
      → Divided k xs
      → k < length xs
      → (x : Option (Sender E)) × (get_elem? xs k ≡ some x) × Idle x
  Idle-get_elem? k [] d h = absurd (omega arith)
  Idle-get_elem? zero (x ∷ xs) (i, d) h = (x, refl, i)
  Idle-get_elem? (suc k) (x ∷ xs) (c, d) h = Idle-get_elem? k xs d (omega arith)

  get-set :
      (k : ℕ) (xs : List (Option (Sender E))) (y : Option (Sender E))
      → k < length xs
      → get_elem? (set xs k y) k ≡ some y
  get-set k [] y h = absurd (omega arith)
  get-set zero (x ∷ xs) y h = refl
  get-set (suc k) (x ∷ xs) y h = get-set k xs y (omega arith)

  set-Divided-Idle :
      (k : ℕ) (xs : List (Option (Sender E))) (y : Option (Sender E))
      → Divided k xs
      → Idle y
      → Divided k (set xs k y)
  set-Divided-Idle k [] y d i = tt
  set-Divided-Idle zero (x ∷ xs) y (_, d) i = (i, d)
  set-Divided-Idle (suc k) (x ∷ xs) y (c, d) i = (c, set-Divided-Idle k xs y d i)

  set-Divided-Called :
      (k : ℕ) (xs : List (Option (Sender E))) (y : Option (Sender E))
      → Divided k xs
      → Called y
      → Divided (suc k) (set xs k y)
  set-Divided-Called k [] y d c = tt
  set-Divided-Called zero (x ∷ xs) y (_, d) c = (c, d)
  set-Divided-Called (suc k) (x ∷ xs) y (b, d) c = (b, set-Divided-Called k xs y d c)

  end_run-Idle : (x : Option (Sender E)) → Idle (end_run x)
  unfolding end_run
  end_run-Idle none = tt
  end_run-Idle (some s) = idle s.phase
    where
      idle :
          (p : Phase)
          → Idle (
              some (record s {
                phase = elim p [ waiting ↦ waiting | running ↦ finished | finished ↦ finished ];
              }))
      idle waiting = tt
      idle running = tt
      idle finished = tt

  joined-Divided : (xs : List (Option (Sender E))) → Divided 0 (map end_run xs)
  joined-Divided [] = tt
  joined-Divided (x ∷ xs) = (end_run-Idle x, joined-Divided xs)

  end_run-Called : (x : Option (Sender E)) → Called x → Called (end_run x)
  unfolding end_run
  end_run-Called none c = c
  end_run-Called (some s) c = called s.phase c
    where
      called :
          (p : Phase)
          → Called (some (record s { phase = p }))
          → Called (
              some (record s {
                phase = elim p [ waiting ↦ waiting | running ↦ finished | finished ↦ finished ];
              }))
      called waiting h = h
      called running h = tt
      called finished h = tt

  -- The end of a thread leaves the division as it is.
  ended-Divided :
      (k i : ℕ) (xs : List (Option (Sender E))) (x : Option (Sender E))
      → Divided k xs
      → get_elem? xs i ≡ some x
      → Divided k (set xs i (end_run x))
  ended-Divided k i [] x d e = tt
  ended-Divided zero zero (y ∷ ys) x (_, d) e = (end_run-Idle x, d)
  ended-Divided (suc k) zero (y ∷ ys) x (c, d) e =
      (end_run-Called x (subst Called (some_inj e) c), d)
  ended-Divided zero (suc i) (y ∷ ys) x (c, d) e = (c, ended-Divided zero i ys x d e)
  ended-Divided (suc k) (suc i) (y ∷ ys) x (c, d) e = (c, ended-Divided k i ys x d e)

  deleted-Idle : (x : Option (Sender E)) → Idle x → deleted x ≡ ok tt
  unfolding deleted
  deleted-Idle none i = refl
  deleted-Idle (some s) i = by_phase s.phase i
    where
      by_phase :
          (p : Phase)
          → Idle (some (record s { phase = p }))
          → deleted (some (record s { phase = p })) ≡ ok tt
      by_phase waiting h = refl
      by_phase running h = absurd h
      by_phase finished h = refl

  abbrev ring : ℕ → List (Option (Sender E)) → Ring E
  ring k xs = record { sender_index = k; evt_senders = xs }

  -- What holds of the ring between two messages.
  record IsSound (k : ℕ) (xs : List (Option (Sender E))) : Type 0 where
    in_range : k < 13
    whole : length xs ≡ 13
    divided : Divided k xs

  end_at-IsSound :
      (k i : ℕ) (xs : List (Option (Sender E)))
      → IsSound k xs
      → (ys : List (Option (Sender E))) × (end_at i (ring k xs) ≡ ring k ys) × IsSound k ys
  unfolding end_at
  end_at-IsSound k i xs s = elim (Option-cases (get_elem? xs i)) [
    | inl e ↦ (xs, rw (e, end_at) refl, s)
    | inr (x, e) ↦ (
      set xs i (end_run x),
      rw (e, end_at) refl,
      record {
        in_range = s.in_range;
        whole = length-set xs i (end_run x) ∙ s.whole;
        divided = ended-Divided k i xs x s.divided e;
      },
    )
  ]

  abbrev built_at : ℕ → E → List (Option (Sender E)) → List (Option (Sender E))
  built_at k e xs = set xs k (some (record { event = e; phase = waiting }))

  -- Before the thirteenth place a message is processed, and the ring is sound again.
  dispatch-IsSound :
      (k : ℕ) (available : Bool) (e : E) (xs : List (Option (Sender E)))
      → IsSound k xs
      → k < 12
      → (ys : List (Option (Sender E))) × (dispatch available e (ring k xs)
          ≡ ok (e, ring (if available then suc k else 0) ys))
        × IsSound (if available then suc k else 0) ys
  unfolding dispatch
  dispatch-IsSound k true e xs s h =
      let (x, ex, ix) = Idle-get_elem? k xs s.divided (omega (arith, s.whole)) in
      let not_last : (k == 12) ≡ false = ground arith in
      (
        set (built_at k e xs) k (some (record { event = e; phase = running })),
        simp (
          ex,
          deleted-Idle x ix,
          not_last,
          get-set k xs (some (record { event = e; phase = waiting })) (omega (arith, s.whole)),
        ),
        record {
          in_range = omega arith;
          whole = length-set (built_at k e xs) k _ ∙ (length-set xs k _ ∙ s.whole);
          divided =
              set-Divided-Called k (built_at k e xs) _ (set-Divided-Idle k xs _ s.divided tt) tt;
        },
      )
  dispatch-IsSound k false e xs s h =
      let (x, ex, ix) = Idle-get_elem? k xs s.divided (omega (arith, s.whole)) in
      let not_last : (k == 12) ≡ false = ground arith in
      (
        map end_run (set (built_at k e xs) k (some (record { event = e; phase = finished }))),
        simp (
          ex,
          deleted-Idle x ix,
          not_last,
          get-set k xs (some (record { event = e; phase = waiting })) (omega (arith, s.whole)),
        ),
        record {
          in_range = omega arith;
          whole =
              length-map end_run (set (built_at k e xs) k _)
              ∙ (length-set (built_at k e xs) k _ ∙ (length-set xs k _ ∙ s.whole));
          divided = joined-Divided (set (built_at k e xs) k _);
        },
      )

  begun-Called : (p : Phase) (x : Option (Sender E)) → Called x → begun p (end_run x) ≡ crash
  unfolding begun end_run
  begun-Called p none c = absurd c
  begun-Called p (some s) c = by_phase s.phase c
    where
      by_phase :
          (q : Phase)
          → Called (some (record s { phase = q }))
          → begun p (end_run (some (record s { phase = q }))) ≡ crash
      by_phase waiting h = absurd h
      by_phase running h = refl
      by_phase finished h = refl

  -- At the thirteenth place the first sender is run once more.
  dispatch_last :
      (available : Bool) (e : E) (xs : List (Option (Sender E)))
      → IsSound 12 xs
      → dispatch available e (ring 12 xs) ≡ crash
  unfolding dispatch
  dispatch_last available e [] s = absurd (omega (arith, s.whole))
  dispatch_last true e (x ∷ xs) s =
      let (y, ey, iy) = Idle-get_elem? 12 (x ∷ xs) s.divided (omega (arith, s.whole)) in
      simp (ey, deleted-Idle y iy, begun-Called running x s.divided.0)
  dispatch_last false e (x ∷ xs) s =
      let (y, ey, iy) = Idle-get_elem? 12 (x ∷ xs) s.divided (omega (arith, s.whole)) in
      simp (ey, deleted-Idle y iy, begun-Called finished x s.divided.0)

  event_stream_from :
      (hs : List (Happening E)) (k : ℕ) (xs : List (Option (Sender E)))
      → IsSound k xs
      → event_stream hs (ring k xs) ≡ promised k hs
  unfolding event_stream
  event_stream_from [] k xs s = refl
  event_stream_from (thread_ends i ∷ hs) k xs s =
      let (ys, e, s') = end_at-IsSound k i xs s in simp (e) (event_stream_from hs k ys s')
  event_stream_from (message available e ∷ hs) k xs s = elim (dec_lt k 12) [
    | yes h ↦
        let (ys, eq, s') = dispatch-IsSound k available e xs s h in
        let not_last : (k == 12) ≡ false = ground arith in
        simp (eq, not_last)
          (ap (λ r. r >>= λ es. ok (e ∷ es))
            (event_stream_from hs (if available then suc k else 0) ys s'))
    | no h ↦
        let is_last : (k == 12) ≡ true = ground (arith, s.in_range) in
        let ends : dispatch available e (ring k xs) ≡ crash =
          subst (λ n. IsSound n xs → dispatch available e (ring n xs) ≡ crash)
            (omega (arith, s.in_range)) (dispatch_last available e xs) s in
        simp (ends, is_last)
  ]

  -- However the messages and the ends of threads follow one another, and whether or not the pool has a
  -- thread for a message: each event is processed when it comes, exactly once and in order, and no
  -- sender is deleted that a thread executes, until twelve messages in a row have found a thread each.
  -- The message after those runs the first sender a second time, on the memory that its first run
  -- freed, in place of its own event.
  pub event_stream-promised : (hs : List (Happening E)) → event_stream hs new_ring ≡ promised 0 hs
  event_stream-promised hs =
      event_stream_from hs 0 (replicate 13 none)
        (record { in_range = omega arith; whole = refl; divided = omega arith })
