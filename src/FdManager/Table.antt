-- ===== src/FdManager/Table.antt =====
-- `FdManager::get` and `del` on every branch.
use server_framework.Base.{
  ℕ, zero, suc, ◌≤◌, ◌<◌, ◌≡◌, ◌⊎◌, inl, inr, refl, Bool, true, false, Option, none, some, List, [],
  ◌∷◌, length, get_elem?, get_elem?-lt, set, length-set, leb, leb-false, le→leb, ok, fail,
  bad_access, arith,
}
use server_framework.FdManager.{FdCtx, new_ctx, get, del}

get_elem?-set {ℓ} :
    {A : Type ℓ} (xs : List A) (i : ℕ) (v : A) → i < length xs → get_elem? (set xs i v) i ≡ some v
get_elem?-set [] i v h = absurd (omega arith)
get_elem?-set (x ∷ xs) zero v h = refl
get_elem?-set (x ∷ xs) (suc i) v h = get_elem?-set xs i v (omega arith)

module _ (fstat : ℕ → Option Bool) (nonblocking : ℕ → Bool) where
  found_steps :
      (datas : List (Option FdCtx)) (fd : ℕ) (auto_create : Bool) (c : FdCtx)
      → leb (length datas) fd ≡ false
      → get_elem? datas fd ≡ some (some c)
      → get fstat nonblocking datas fd auto_create ≡ ok (some c, datas)
  unfolding get
  found_steps datas fd auto_create c inside here = simp (inside, here)

  create_steps :
      (datas : List (Option FdCtx)) (fd : ℕ)
      → leb (length datas) fd ≡ false
      → get_elem? datas fd ≡ some none
      → get fstat nonblocking datas fd true
        ≡ ok (
          some (new_ctx fstat nonblocking fd),
          set datas fd (some (new_ctx fstat nonblocking fd)),
        )
  unfolding get
  create_steps datas fd inside here = simp (inside, here)

  del_steps :
      (datas : List (Option FdCtx)) (fd : ℕ)
      → leb (length datas) fd ≡ false
      → del fstat nonblocking datas fd ≡ ok (set datas fd none)
  unfolding del
  del_steps datas fd inside = simp inside

  -- The context that was there, and the table as it was; or a new one, and it is stored.
  abbrev pub Found : List (Option FdCtx) → ℕ → FdCtx → List (Option FdCtx) → Type 0
  Found datas fd c datas' =
      ((get_elem? datas fd ≡ some (some c)) × (datas' ≡ datas))
      ⊎ ((get_elem? datas fd ≡ some none)
          × (c ≡ new_ctx fstat nonblocking fd)
          × (datas' ≡ set datas fd (some (new_ctx fstat nonblocking fd))))

  -- For a descriptor within the table, `get` with `auto_create` returns the context that is
  -- there and changes nothing, or, where there is none, a new one, which it stores. Every later
  -- `get`, with `auto_create` or not, returns the same one and changes nothing. Behind `del` of
  -- the descriptor, `get` with `auto_create` creates a new context and stores it.
  pub get-del :
      (datas : List (Option FdCtx)) (fd : ℕ)
      → fd < length datas
      → (c : FdCtx) × (datas' : List (Option FdCtx)) × (datas'' : List (Option FdCtx)) × (get fstat
            nonblocking datas fd true
          ≡ ok (some c, datas'))
        × Found datas fd c datas'
        × ((again : Bool) → get fstat nonblocking datas' fd again ≡ ok (some c, datas'))
        × (del fstat nonblocking datas' fd ≡ ok datas'')
        × (get fstat nonblocking datas'' fd true
            ≡ ok (
              some (new_ctx fstat nonblocking fd),
              set datas'' fd (some (new_ctx fstat nonblocking fd)),
            ))
  get-del datas fd h = go (get_elem?-lt datas fd h).0 (get_elem?-lt datas fd h).1
    where
      inside : (es : List (Option FdCtx)) → fd < length es → leb (length es) fd ≡ false
      inside es h = leb-false (length es) fd h

      go :
          (o : Option FdCtx)
          → get_elem? datas fd ≡ some o
          → (c : FdCtx) × (datas' : List (Option FdCtx)) × (datas'' : List (Option FdCtx)) × (get
                fstat nonblocking datas fd true
              ≡ ok (some c, datas'))
            × Found datas fd c datas'
            × ((again : Bool) → get fstat nonblocking datas' fd again ≡ ok (some c, datas'))
            × (del fstat nonblocking datas' fd ≡ ok datas'')
            × (get fstat nonblocking datas'' fd true
                ≡ ok (
                  some (new_ctx fstat nonblocking fd),
                  set datas'' fd (some (new_ctx fstat nonblocking fd)),
                ))
      go (some c) here =
          let after = set datas fd none in
          let in_after : fd < length after = omega (arith, length-set datas fd none) in
          (
            c,
            datas,
            after,
            found_steps datas fd true c (inside datas h) here,
            inl (here, refl),
            λ again. found_steps datas fd again c (inside datas h) here,
            del_steps datas fd (inside datas h),
            create_steps after fd (inside after in_after) (get_elem?-set datas fd none h),
          )
      go none here =
          let c = new_ctx fstat nonblocking fd in
          let kept = set datas fd (some c) in
          let in_kept : fd < length kept = omega (arith, length-set datas fd (some c)) in
          let after = set kept fd none in
          let in_after : fd < length after = omega (arith, length-set kept fd none) in
          (
            c,
            kept,
            after,
            create_steps datas fd (inside datas h) here,
            inr (here, refl, refl),
            λ again.
                found_steps kept fd again c (inside kept in_kept)
                  (get_elem?-set datas fd (some c) h),
            del_steps kept fd (inside kept in_kept),
            create_steps after fd (inside after in_after) (get_elem?-set kept fd none in_kept),
          )

  pub get_beyond :
      (datas : List (Option FdCtx)) (fd : ℕ)
      → length datas ≤ fd
      → (get fstat nonblocking datas fd false ≡ ok (none, datas))
        × (get fstat nonblocking datas fd true ≡ fail bad_access)
        × (del fstat nonblocking datas fd ≡ ok datas)
  unfolding get del
  get_beyond datas fd h = let out = le→leb (length datas) fd h in (simp out, simp out, simp out)
