-- ===== src/Scheduler/Queue.antt =====
-- What the scan of the queue takes: the first task that is for this thread and does not run already.
use server_framework.Base.{
  ℕ, ◌≡◌, refl, ap, Bool, true, false, Bool-cases, none, some, List, [], ◌∷◌, ◌++◌, ◌⊎◌, inl, inr,
  All, ok,
}
use server_framework.Fibers.{Fiber}
use server_framework.Scheduler.{
  FiberAndThread, Scan, has_work, other_thread, is_running, scan, passed,
}

module _ (me : ℕ) (fibers : List Fiber) where
  -- The scan leaves the task: it is for another thread, or its fiber runs.
  abbrev pub Skipped : FiberAndThread → Type 0
  Skipped ft = (other_thread me ft.thread ≡ true) ⊎ (is_running fibers ft.fiber ≡ true)

  abbrev pub Fits : FiberAndThread → Type 0
  Fits ft =
      (other_thread me ft.thread ≡ false)
      × (is_running fibers ft.fiber ≡ false)
      × (has_work ft ≡ true)

  abbrev pub HasWork : FiberAndThread → Type 0
  HasWork ft = has_work ft ≡ true

  -- What the scan of a queue comes to.
  pub record Picked (q : List FiberAndThread) (r : Scan) : Type 0 where
    pub before : List FiberAndThread
    pub after : List FiberAndThread
    pub skipped : All Skipped before
    pub choice :
        ((r.taken ≡ none) × (q ≡ before) × (r.left ≡ before) × (after ≡ []))
        ⊎ ((ft : FiberAndThread) × (r.taken ≡ some ft)
            × Fits ft
            × (q ≡ before ++ ft ∷ after)
            × (r.left ≡ before ++ after))

  scan-foreign :
      (ft : FiberAndThread) (fts : List FiberAndThread) (r : Scan)
      → other_thread me ft.thread ≡ true
      → scan me fibers fts ≡ ok r
      → scan me fibers (ft ∷ fts) ≡ ok (passed true ft r)
  unfolding scan
  scan-foreign ft fts r e run = simp (e, run)

  scan-busy :
      (ft : FiberAndThread) (fts : List FiberAndThread) (r : Scan)
      → other_thread me ft.thread ≡ false
      → has_work ft ≡ true
      → is_running fibers ft.fiber ≡ true
      → scan me fibers fts ≡ ok r
      → scan me fibers (ft ∷ fts) ≡ ok (passed false ft r)
  unfolding scan
  scan-busy ft fts r e has busy run = simp (e, has, busy, run)

  pub scan-here :
      (ft : FiberAndThread) (fts : List FiberAndThread)
      → Fits ft
      → scan me fibers (ft ∷ fts) ≡ ok (record { tickle_me = false; taken = some ft; left = fts })
  unfolding scan
  scan-here ft fts f = simp (f.0, f.1, f.2)

  -- A task in front that is passed over.
  pass :
      (foreign : Bool) (ft : FiberAndThread) (fts : List FiberAndThread) (r : Scan)
      → Skipped ft
      → Picked fts r
      → Picked (ft ∷ fts) (passed foreign ft r)
  pass foreign ft fts r s p = record {
    before = ft ∷ p.before;
    after = p.after;
    skipped = (s, p.skipped);
    choice = elim p.choice [
      | inl (e, q, l, a) ↦ inl (e, ap (◌∷◌ ft) q, ap (◌∷◌ ft) l, a)
      | inr (x, e, f, q, l) ↦ inr (x, e, f, ap (◌∷◌ ft) q, ap (◌∷◌ ft) l)
    ];
  }

  -- On a queue of tasks that can be run, the scan succeeds and takes the first task that is for
  -- this thread or any thread and whose fiber does not run already, out of the queue and
  -- leaving the order of the others; it takes none exactly when every task is for another
  -- thread or runs.
  pub scan-Picked :
      (q : List FiberAndThread)
      → All HasWork q
      → (r : Scan) × (scan me fibers q ≡ ok r) × Picked q r
  unfolding scan
  scan-Picked [] h = (
    record { tickle_me = false; taken = none; left = [] },
    refl,
    record { before = []; after = []; skipped = tt; choice = inl (refl, refl, refl, refl) },
  )
  scan-Picked (ft ∷ fts) h =
      let (r, run, p) = scan-Picked fts h.1 in
      elim (Bool-cases (other_thread me ft.thread)) [
        | inl e ↦ (passed true ft r, scan-foreign ft fts r e run, pass true ft fts r (inl e) p)
        | inr e ↦ elim (Bool-cases (is_running fibers ft.fiber)) [
          | inl busy ↦ (
            passed false ft r,
            scan-busy ft fts r e h.0 busy run,
            pass false ft fts r (inr busy) p,
          )
          | inr free ↦ (
            record { tickle_me = false; taken = some ft; left = fts },
            scan-here ft fts (e, free, h.0),
            record {
              before = [];
              after = fts;
              skipped = tt;
              choice = inr (ft, refl, (e, free, h.0), refl, refl);
            },
          )
        ]
      ]
