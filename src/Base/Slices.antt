-- ===== src/Base/Slices.antt =====
-- Pieces of flat memory: `slice` reads, `overwrite` is a copy into memory that is there,
-- `write_at` a write into a file, which may grow it.
use server_framework.Base.Lists.{length, take, drop, length-append}
use Prim.Native.Nat.{ℕ, zero, suc, ◌+◌, ◌≤◌, max}
use mathlib.Core.Path.{◌≡◌, refl, ap, ap₂, ◌∙◌}
use mathlib.Core.List.{List, [], ◌∷◌, ◌++◌}
use native.Mathlib.Omega.{arith}
use native.Mathlib.Decide.{dec_le}

module _ {ℓ} {A : Type ℓ} where
  -- `n` elements from `k` on.
  abbrev pub slice : List A → ℕ → ℕ → List A
  slice xs k n = take n (drop k xs)

  -- `ys` copied over what stands from `k` on; what would lie past the end is not copied.
  abbrev pub overwrite : List A → ℕ → List A → List A
  overwrite [] k ys = []
  overwrite (x ∷ xs) (suc k) ys = x ∷ overwrite xs k ys
  overwrite (x ∷ xs) zero [] = x ∷ xs
  overwrite (x ∷ xs) zero (y ∷ ys) = y ∷ overwrite xs zero ys

  -- `ys` written into a file at `k`, which grows where `ys` reaches past its end.
  abbrev pub write_at : List A → ℕ → List A → List A
  write_at xs zero ys = ys ++ drop (length ys) xs
  write_at [] (suc k) ys = ys
  write_at (x ∷ xs) (suc k) ys = x ∷ write_at xs k ys

  pub length-overwrite :
      (xs : List A) (k : ℕ) (ys : List A) → length (overwrite xs k ys) ≡ length xs
  length-overwrite [] k ys = refl
  length-overwrite (x ∷ xs) (suc k) ys = ap suc (length-overwrite xs k ys)
  length-overwrite (x ∷ xs) zero [] = refl
  length-overwrite (x ∷ xs) zero (y ∷ ys) = ap suc (length-overwrite xs zero ys)

  pub overwrite-nil : (xs : List A) (k : ℕ) → overwrite xs k [] ≡ xs
  overwrite-nil [] k = refl
  overwrite-nil (x ∷ xs) zero = refl
  overwrite-nil (x ∷ xs) (suc k) = ap (◌∷◌ x) (overwrite-nil xs k)

  -- A copy that fits the front part leaves the back part alone.
  pub overwrite-append_left :
      (xs zs : List A) (k : ℕ) (ys : List A)
      → k + length ys ≤ length xs
      → overwrite (xs ++ zs) k ys ≡ overwrite xs k ys ++ zs
  overwrite-append_left [] zs zero [] h = overwrite-nil zs zero
  overwrite-append_left [] zs zero (y ∷ ys) h = absurd (omega arith)
  overwrite-append_left [] zs (suc k) ys h = absurd (omega arith)
  overwrite-append_left (x ∷ xs) zs (suc k) ys h =
      ap (◌∷◌ x) (overwrite-append_left xs zs k ys (omega arith))
  overwrite-append_left (x ∷ xs) zs zero [] h = refl
  overwrite-append_left (x ∷ xs) zs zero (y ∷ ys) h =
      ap (◌∷◌ y) (overwrite-append_left xs zs zero ys (omega arith))

  pub overwrite-append_right :
      (xs zs : List A) (n k : ℕ) (ys : List A)
      → n ≡ length xs + k
      → overwrite (xs ++ zs) n ys ≡ xs ++ overwrite zs k ys
  overwrite-append_right [] zs n k ys e = ap (λ m. overwrite zs m ys) (omega arith)
  overwrite-append_right (x ∷ xs) zs zero k ys e = absurd (omega arith)
  overwrite-append_right (x ∷ xs) zs (suc n) k ys e =
      ap (◌∷◌ x) (overwrite-append_right xs zs n k ys (omega arith))

  -- A copy in two steps.
  pub overwrite-split :
      (xs : List A) (k j n : ℕ) (ys : List A)
      → j ≡ k + n
      → n ≤ length ys
      → overwrite (overwrite xs k (take n ys)) j (drop n ys) ≡ overwrite xs k ys
  overwrite-split [] k j n ys e h = refl
  overwrite-split (x ∷ xs) zero j zero ys e h =
      ap (λ m. overwrite (x ∷ xs) m ys) {y = 0} (omega arith)
  overwrite-split (x ∷ xs) zero j (suc n) [] e h = absurd (omega arith)
  overwrite-split (x ∷ xs) zero zero (suc n) (y ∷ ys) e h = absurd (omega arith)
  overwrite-split (x ∷ xs) zero (suc j) (suc n) (y ∷ ys) e h =
      ap (◌∷◌ y) (overwrite-split xs zero j n ys (omega arith) (omega arith))
  overwrite-split (x ∷ xs) (suc k) zero n ys e h = absurd (omega arith)
  overwrite-split (x ∷ xs) (suc k) (suc j) n ys e h =
      ap (◌∷◌ x) (overwrite-split xs k j n ys (omega arith) h)

  pub length-take : (n : ℕ) (xs : List A) → n ≤ length xs → length (take n xs) ≡ n
  length-take zero xs h = refl
  length-take (suc n) [] h = absurd (omega arith)
  length-take (suc n) (x ∷ xs) h = ap suc (length-take n xs (omega arith))

  pub length-drop : (n : ℕ) (xs : List A) → n ≤ length xs → length (drop n xs) + n ≡ length xs
  length-drop zero xs h = omega arith
  length-drop (suc n) [] h = absurd (omega arith)
  length-drop (suc n) (x ∷ xs) h = omega (arith, length-drop n xs (omega arith))

  pub take-nil : (n : ℕ) → take {A = A} n [] ≡ []
  take-nil zero = refl
  take-nil (suc n) = refl

  pub drop-nil : (n : ℕ) → drop {A = A} n [] ≡ []
  drop-nil zero = refl
  drop-nil (suc n) = refl

  -- A slice in two steps.
  pub slice-split :
      (xs : List A) (k j m n t : ℕ)
      → j ≡ k + m
      → t ≡ m + n
      → slice xs k t ≡ slice xs k m ++ slice xs j n
  slice-split [] k j m n t e f =
      rw (drop-nil k, drop-nil j, take-nil t, take-nil m, take-nil n) refl
  slice-split (x ∷ xs) zero j zero n t e f =
      let e' : 0 ≡ j = omega arith in
      let f' : t ≡ n = omega arith in ap₂ (λ a b. slice (x ∷ xs) a b) e' f'
  slice-split (x ∷ xs) zero zero (suc m) n t e f = absurd (omega arith)
  slice-split (x ∷ xs) zero (suc j) (suc m) n zero e f = absurd (omega arith)
  slice-split (x ∷ xs) zero (suc j) (suc m) n (suc t) e f =
      ap (◌∷◌ x) (slice-split xs zero j m n t (omega arith) (omega arith))
  slice-split (x ∷ xs) (suc k) zero m n t e f = absurd (omega arith)
  slice-split (x ∷ xs) (suc k) (suc j) m n t e f = slice-split xs k j m n t (omega arith) f

  pub slice-append_left :
      (xs zs : List A) (k n : ℕ) → k + n ≤ length xs → slice (xs ++ zs) k n ≡ slice xs k n
  slice-append_left [] zs k zero h = refl
  slice-append_left [] zs k (suc n) h = absurd (omega arith)
  slice-append_left (x ∷ xs) zs (suc k) n h = slice-append_left xs zs k n (omega arith)
  slice-append_left (x ∷ xs) zs zero zero h = refl
  slice-append_left (x ∷ xs) zs zero (suc n) h =
      ap (◌∷◌ x) (slice-append_left xs zs zero n (omega arith))

  pub slice-append_right :
      (xs zs : List A) (j k n : ℕ) → j ≡ length xs + k → slice (xs ++ zs) j n ≡ slice zs k n
  slice-append_right [] zs j k n e = ap (λ m. slice zs m n) (omega arith)
  slice-append_right (x ∷ xs) zs zero k n e = absurd (omega arith)
  slice-append_right (x ∷ xs) zs (suc j) k n e = slice-append_right xs zs j k n (omega arith)

  pub take_all : (n : ℕ) (xs : List A) → length xs ≤ n → take n xs ≡ xs
  take_all n [] h = take-nil n
  take_all zero (x ∷ xs) h = absurd (omega arith)
  take_all (suc n) (x ∷ xs) h = ap (◌∷◌ x) (take_all n xs (omega arith))

  pub take-append_left : (n : ℕ) (xs zs : List A) → n ≤ length xs → take n (xs ++ zs) ≡ take n xs
  take-append_left n xs zs h = slice-append_left xs zs zero n (omega arith)

  pub take-length_append : (xs zs : List A) → take (length xs) (xs ++ zs) ≡ xs
  take-length_append [] zs = refl
  take-length_append (x ∷ xs) zs = ap (◌∷◌ x) (take-length_append xs zs)

  pub drop-length_append : (xs zs : List A) → drop (length xs) (xs ++ zs) ≡ zs
  drop-length_append [] zs = refl
  drop-length_append (x ∷ xs) zs = drop-length_append xs zs

  pub take-drop_split : (n : ℕ) (xs : List A) → take n xs ++ drop n xs ≡ xs
  take-drop_split zero xs = refl
  take-drop_split (suc n) [] = refl
  take-drop_split (suc n) (x ∷ xs) = ap (◌∷◌ x) (take-drop_split n xs)

  -- Below `z` a file shows the memory that it stands in.
  pub slice-take : (xs : List A) (z k n : ℕ) → k + n ≤ z → slice (take z xs) k n ≡ slice xs k n
  slice-take [] z k n h = rw (take-nil z)
  slice-take (x ∷ xs) zero k zero h = refl
  slice-take (x ∷ xs) zero k (suc n) h = absurd (omega arith)
  slice-take (x ∷ xs) (suc z) zero zero h = refl
  slice-take (x ∷ xs) (suc z) zero (suc n) h = ap (◌∷◌ x) (slice-take xs z zero n (omega arith))
  slice-take (x ∷ xs) (suc z) (suc k) n h = slice-take xs z k n (omega arith)

  overwrite_front :
      (xs : List A) (z t : ℕ) (ys : List A)
      → z ≤ length xs
      → length ys ≤ length xs
      → t ≡ max z (length ys)
      → take t (overwrite xs zero ys) ≡ ys ++ drop (length ys) (take z xs)
  overwrite_front xs z t [] h p e = rw (overwrite-nil xs zero) (ap (λ m. take m xs) (omega arith))
  overwrite_front [] z t (y ∷ ys) h p e = absurd (omega arith)
  overwrite_front (x ∷ xs) z zero (y ∷ ys) h p e = absurd (omega arith)
  overwrite_front (x ∷ xs) zero (suc t) (y ∷ ys) h p e = ap (◌∷◌ y) (
      overwrite_front xs zero t ys (omega arith) (omega arith) (omega arith)
      ∙ ap (◌++◌ ys) (drop-nil (length ys)))
  overwrite_front (x ∷ xs) (suc z) (suc t) (y ∷ ys) h p e =
      ap (◌∷◌ y) (overwrite_front xs z t ys (omega arith) (omega arith) (omega arith))

  -- What memory shows up to its file's end after a copy is the file with the copy written into it.
  pub take-overwrite :
      (xs : List A) (z k t : ℕ) (ys : List A)
      → k ≤ z
      → z ≤ length xs
      → k + length ys ≤ length xs
      → t ≡ max z (k + length ys)
      → take t (overwrite xs k ys) ≡ write_at (take z xs) k ys
  take-overwrite xs z zero t ys h p q e = overwrite_front xs z t ys p (omega arith) (omega arith)
  take-overwrite [] z (suc k) t ys h p q e = absurd (omega arith)
  take-overwrite (x ∷ xs) zero (suc k) t ys h p q e = absurd (omega arith)
  take-overwrite (x ∷ xs) (suc z) (suc k) zero ys h p q e = absurd (omega arith)
  take-overwrite (x ∷ xs) (suc z) (suc k) (suc t) ys h p q e =
      ap (◌∷◌ x)
        (take-overwrite xs z k t ys (omega arith) (omega arith) (omega arith) (omega arith))

  -- What was written is read back at the same place.
  pub slice-write_at :
      (xs : List A) (k : ℕ) (ys : List A)
      → k ≤ length xs
      → slice (write_at xs k ys) k (length ys) ≡ ys
  slice-write_at xs zero ys h = take-length_append ys (drop (length ys) xs)
  slice-write_at [] (suc k) ys h = absurd (omega arith)
  slice-write_at (x ∷ xs) (suc k) ys h = slice-write_at xs k ys (omega arith)

  drop_past : (n : ℕ) (zs : List A) → length zs ≤ n → drop n zs ≡ []
  drop_past n [] p = drop-nil n
  drop_past zero (z ∷ zs) p = absurd (omega arith)
  drop_past (suc n) (z ∷ zs) p = drop_past n zs (omega arith)

  pub length-write_at :
      (xs : List A) (k : ℕ) (ys : List A)
      → k ≤ length xs
      → length (write_at xs k ys) ≡ max (length xs) (k + length ys)
  length-write_at xs zero ys h = elim (dec_le (length ys) (length xs)) [
    | yes le ↦ omega (arith, length-append ys (drop (length ys) xs), length-drop (length ys) xs le)
    | no gt ↦
        rw (length-append ys (drop (length ys) xs), drop_past (length ys) xs (omega arith))
          (omega arith)
  ]
  length-write_at [] (suc k) ys h = absurd (omega arith)
  length-write_at (x ∷ xs) (suc k) ys h = omega (arith, length-write_at xs k ys (omega arith))
