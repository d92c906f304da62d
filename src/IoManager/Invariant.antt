-- ===== src/IoManager/Invariant.antt =====
-- When the table of events is well formed: a registered event has a scheduler and one piece of work,
-- another event has an empty context, and the count of pending events is that of the registered ones.
use server_framework.Base.{
  ℕ, zero, suc, ◌+◌, ◌≤◌, ◌≡◌, refl, Bool, true, false, if◌then◌else◌, none, some, List, [], ◌∷◌,
  ◌⊎◌, inl, inr, All, get_elem?, set, arith,
}
use server_framework.IoManager.{
  EventContext, FdContext, IoManager, no_context, registered, without_event, event_read,
  event_write,
}

abbrev pub IsSlot : Bool → EventContext → Type 0
IsSlot false ctx = ctx ≡ no_context
IsSlot true ctx =
    (s : ℕ) × (f : ℕ) × ((ctx ≡ record { scheduler = some s; fiber = none; cb = some f })
      ⊎ (ctx ≡ record { scheduler = some s; fiber = some f; cb = none }))

-- A set of the two events.
abbrev pub IsEvents : ℕ → Type 0
IsEvents e = (e ≡ 0) ⊎ (e ≡ 1) ⊎ (e ≡ 4) ⊎ (e ≡ 5)

pub record IsContext (c : FdContext) : Type 0 where
  pub known : IsEvents c.events
  pub reads : IsSlot (registered c.events event_read) c.read
  pub writes : IsSlot (registered c.events event_write) c.write

abbrev pub one_if : Bool → ℕ
one_if b = if b then 1 else 0

abbrev pub count_of : FdContext → ℕ
count_of c = one_if (registered c.events event_read) + one_if (registered c.events event_write)

abbrev pub total : List FdContext → ℕ
total [] = 0
total (c ∷ cs) = count_of c + total cs

pub record IsValid (m : IoManager) : Type 0 where
  pub contexts : All IsContext m.fd_contexts
  pub counted : m.pending_event_count ≡ total m.fd_contexts

pub total-set :
    (cs : List FdContext) (i : ℕ) (c c' : FdContext)
    → get_elem? cs i ≡ some c
    → total (set cs i c') + count_of c ≡ total cs + count_of c'
total-set [] i c c' e = cc
total-set (d ∷ ds) zero c c' e = let same : d ≡ c = cc e in rw same (omega arith)
total-set (d ∷ ds) (suc i) c c' e = omega (arith, total-set ds i c c' e)

pub count-le-total :
    (cs : List FdContext) (i : ℕ) (c : FdContext) → get_elem? cs i ≡ some c → count_of c ≤ total cs
count-le-total [] i c e = cc
count-le-total (d ∷ ds) zero c e = let same : d ≡ c = cc e in rw same (omega arith)
count-le-total (d ∷ ds) (suc i) c e = omega (arith, count-le-total ds i c e)

pub clear_read :
    (e : ℕ)
    → IsEvents e
    → IsEvents (without_event e event_read)
      × (registered (without_event e event_read) event_read ≡ false)
      × (registered (without_event e event_read) event_write ≡ registered e event_write)
clear_read e (inl h) = rw h (inl refl, refl, refl)
clear_read e (inr (inl h)) = rw h (inl refl, refl, refl)
clear_read e (inr (inr (inl h))) = rw h (inr (inr (inl refl)), refl, refl)
clear_read e (inr (inr (inr h))) = rw h (inr (inr (inl refl)), refl, refl)

pub clear_write :
    (e : ℕ)
    → IsEvents e
    → IsEvents (without_event e event_write)
      × (registered (without_event e event_write) event_write ≡ false)
      × (registered (without_event e event_write) event_read ≡ registered e event_read)
clear_write e (inl h) = rw h (inl refl, refl, refl)
clear_write e (inr (inl h)) = rw h (inr (inl refl), refl, refl)
clear_write e (inr (inr (inl h))) = rw h (inl refl, refl, refl)
clear_write e (inr (inr (inr h))) = rw h (inr (inl refl), refl, refl)
