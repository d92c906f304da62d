-- ===== src/Timer/Expiry.antt =====
-- `listExpiredCb`: the callbacks of the due timers, and what it leaves.
use server_framework.Base.{
  ℕ, ◌≡◌, ◌≢◌, refl, sym, ap, ◌∙◌, subst, true, false, Bool-cases, Option, none, List, [], ◌∷◌, map,
  inl, inr,
}
use server_framework.Timer.{Timer, TimerManager, assign, insert, fired, fire}
use server_framework.Timer.Order.{In, assign-same, assign-other}
use server_framework.Timer.Invariant.{Pending, IsValid, insert-Pending, drop-Pending}
use server_framework.Timer.Cuts.{IsDistinct}

-- What `listExpiredCb` gives and leaves, where the timers `due` expire at the time `now`.
pub record Fired (now : ℕ) (due : List ℕ) (m : TimerManager) (cbs : List (Option ℕ))
    (m' : TimerManager) : Type 0 where
  pub calls : cbs ≡ map (λ p. (m.heap p).cb) due
  pub valid : IsValid m'
  pub changed : (q : ℕ) → In q due → m'.heap q ≡ fired now (m.heap q)
  pub others : (q : ℕ) → (In q due → ⊥) → m'.heap q ≡ m.heap q

fired-again : (now : ℕ) (t : Timer) → t.recurring ≡ true → (fired now t).cb ≡ t.cb
unfolding fired
fired-again now t e = simp e

fired-once : (now : ℕ) (t : Timer) → t.recurring ≡ false → (fired now t).cb ≡ none
unfolding fired
fired-once now t e = simp e

abbrev again : ℕ → ℕ → TimerManager → TimerManager
again now p m =
    let heap = assign m.heap p (fired now (m.heap p)) in
    record m { heap = heap; timers = insert heap p m.timers }

abbrev once : ℕ → ℕ → TimerManager → TimerManager
once now p m = record m { heap = assign m.heap p (fired now (m.heap p)) }

fire-again :
    (now p : ℕ) (ps : List ℕ) (m : TimerManager)
    → (m.heap p).recurring ≡ true
    → fire now (p ∷ ps) m
      ≡ ((m.heap p).cb ∷ (fire now ps (again now p m)).0, (fire now ps (again now p m)).1)
unfolding fire
fire-again now p ps m e = simp e

fire-once :
    (now p : ℕ) (ps : List ℕ) (m : TimerManager)
    → (m.heap p).recurring ≡ false
    → fire now (p ∷ ps) m
      ≡ ((m.heap p).cb ∷ (fire now ps (once now p m)).0, (fire now ps (once now p m)).1)
unfolding fire
fire-once now p ps m e = simp e

map_same :
    (f g : ℕ → Option ℕ) (ps : List ℕ) → ((q : ℕ) → In q ps → f q ≡ g q) → map f ps ≡ map g ps
map_same f g [] same = refl
map_same f g (p ∷ ps) same = rw (same p (inl refl), map_same f g ps (λ q i. same q (inr i)))

-- One timer of the loop and those behind it.
fire_more :
    (now p : ℕ) (ps : List ℕ) (m m' : TimerManager)
    → (In p ps → ⊥)
    → m'.heap ≡ assign m.heap p (fired now (m.heap p))
    → Fired now ps m' (fire now ps m').0 (fire now ps m').1
    → Fired now (p ∷ ps) m ((m.heap p).cb ∷ (fire now ps m').0) (fire now ps m').1
fire_more now p ps m m' away set rest =
    let t = fired now (m.heap p) in
    let same : (q : ℕ) → q ≢ p → m'.heap q ≡ m.heap q =
      λ q other. ap (λ (h : ℕ → Timer). h q) set ∙ assign-other m.heap p t q other in
    let apart : (q : ℕ) → In q ps → q ≢ p = λ q i e. away (subst (λ r. In r ps) e i) in
    record {
      calls = ap (◌∷◌ (m.heap p).cb) (
          rest.calls
          ∙ map_same (λ q. (m'.heap q).cb) (λ q. (m.heap q).cb) ps
              (λ q i. ap (λ (u : Timer). u.cb) (same q (apart q i))));
      valid = rest.valid;
      changed = λ q i. elim i [
        | inl e ↦
            subst (λ r. (fire now ps m').1.heap r ≡ fired now (m.heap r)) (sym e)
              (rest.others p away ∙ ap (λ (h : ℕ → Timer). h p) set ∙ assign-same m.heap p t)
        | inr j ↦ rest.changed q j ∙ ap (fired now) (same q (apart q j))
      ];
      others = λ q i. rest.others q (λ j. i (inr j)) ∙ same q (λ e. i (inl e));
    }

pub fire-Fired :
    (now : ℕ) (ps : List ℕ) (m : TimerManager)
    → Pending m.heap ps m.timers
    → IsDistinct ps
    → ((p : ℕ) → In p ps → (m.heap p).cb ≢ none)
    → Fired now ps m (fire now ps m).0 (fire now ps m).1
unfolding fire
fire-Fired now [] m h distinct armed = record {
  calls = refl;
  valid = h;
  changed = λ q i. absurd i;
  others = λ q i. refl;
}
fire-Fired now (p ∷ ps) m h distinct armed =
    let t = fired now (m.heap p) in
    let still : (q : ℕ) → In q ps → (assign m.heap p t q).cb ≢ none = λ q i dead. armed q (inr i) (
      sym (
        ap (λ (u : Timer). u.cb)
          (assign-other m.heap p t q (λ e. distinct.0 (subst (λ r. In r ps) e i))))
      ∙ dead) in
    elim (Bool-cases (m.heap p).recurring) [
      | inl e ↦
          let live : t.cb ≢ none =
            λ dead. armed p (inl refl) (sym (fired-again now (m.heap p) e) ∙ dead) in
          subst (λ r. Fired now (p ∷ ps) m r.0 r.1) (sym (fire-again now p ps m e))
            (fire_more now p ps m (again now p m) distinct.0 refl (
              fire-Fired now ps (again now p m)
                (insert-Pending m.heap p t ps m.timers h distinct.0 live) distinct.1 still))
      | inr e ↦
          subst (λ r. Fired now (p ∷ ps) m r.0 r.1) (sym (fire-once now p ps m e))
            (fire_more now p ps m (once now p m) distinct.0 refl (
              fire-Fired now ps (once now p m)
                (drop-Pending m.heap p t ps m.timers h (fired-once now (m.heap p) e)) distinct.1
                still))
    ]
