-- ===== src/IoManager/Growth.antt =====
-- `contextResize` on a table that is too small: what is new is empty.
use server_framework.Base.{
  ℕ, zero, suc, ◌+◌, ◌-◌, ◌≤◌, ◌<◌, ◌≡◌, refl, sym, ap, ◌∙◌, subst, some, List, [], ◌∷◌, ◌++◌, inl,
  All-append, length, get_elem?, arith, All,
}
use server_framework.Base.Slices.{take_all}
use server_framework.IoManager.{FdContext, IoManager, no_context, new_contexts, context_resize}
use server_framework.IoManager.Invariant.{IsContext, IsValid, total}

abbrev pub empty_context : ℕ → FdContext
empty_context i = record { read = no_context; write = no_context; fd = i; events = 0 }

new_contexts-All : (i n : ℕ) → All IsContext (new_contexts i n)
unfolding new_contexts
new_contexts-All i zero = tt
new_contexts-All i (suc n) =
    (record { known = inl refl; reads = refl; writes = refl }, new_contexts-All (i + 1) n)

total-new_contexts : (i n : ℕ) → total (new_contexts i n) ≡ 0
unfolding new_contexts
total-new_contexts i zero = refl
total-new_contexts i (suc n) = omega (arith, total-new_contexts (i + 1) n)

total-append : (xs ys : List FdContext) → total (xs ++ ys) ≡ total xs + total ys
total-append [] ys = omega arith
total-append (x ∷ xs) ys = omega (arith, total-append xs ys)

get-new_contexts :
    (i n k : ℕ) → k < n → get_elem? (new_contexts i n) k ≡ some (empty_context (i + k))
unfolding new_contexts
get-new_contexts i zero k h = absurd (omega arith)
get-new_contexts i (suc n) zero h = ap (λ j. some (empty_context j)) (omega arith)
get-new_contexts i (suc n) (suc k) h =
    get-new_contexts (i + 1) n k (omega arith) ∙ ap (λ j. some (empty_context j)) (omega arith)

get-append_right :
    (xs ys : List FdContext) (k : ℕ) → get_elem? (xs ++ ys) (length xs + k) ≡ get_elem? ys k
get-append_right [] ys k = ap (get_elem? ys) (omega arith)
get-append_right (x ∷ xs) ys k =
    ap (get_elem? (x ∷ (xs ++ ys))) {y = suc (length xs + k)} (omega arith)
    ∙ get-append_right xs ys k

resized :
    (cs : List FdContext) (size : ℕ)
    → length cs ≤ size
    → context_resize cs size ≡ cs ++ new_contexts (length cs) (size - length cs)
unfolding context_resize
resized cs size h =
    ap (λ xs. xs ++ new_contexts (length cs) (size - length cs)) (take_all size cs h)

pub resized-IsValid :
    (m : IoManager) (size : ℕ)
    → length m.fd_contexts ≤ size
    → IsValid m
    → IsValid (record m { fd_contexts = context_resize m.fd_contexts size })
resized-IsValid m size h v =
    let cs = m.fd_contexts in
    let more = new_contexts (length cs) (size - length cs) in
    record {
      contexts = subst (All IsContext) (sym (resized cs size h)) (
          All-append IsContext cs more v.contexts
            (new_contexts-All (length cs) (size - length cs)));
      counted =
          v.counted
          ∙ omega (arith, total-append cs more, total-new_contexts (length cs) (size - length cs))
          ∙ ap total (sym (resized cs size h));
    }

pub resized-here :
    (cs : List FdContext) (size fd : ℕ)
    → length cs ≤ fd
    → fd < size
    → get_elem? (context_resize cs size) fd ≡ some (empty_context fd)
resized-here cs size fd h k = rw (resized cs size (omega arith)) (
    ap (get_elem? (cs ++ new_contexts (length cs) (size - length cs)))
      {y = length cs + (fd - length cs)} (omega arith)
    ∙ get-append_right cs (new_contexts (length cs) (size - length cs)) (fd - length cs)
    ∙ get-new_contexts (length cs) (size - length cs) (fd - length cs) (omega arith)
    ∙ ap (λ j. some (empty_context j)) (omega arith))
