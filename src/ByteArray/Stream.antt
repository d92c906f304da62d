-- ===== src/ByteArray/Stream.antt =====
-- Reading forward: what is unread is a list of bytes, from which `read` takes a prefix.
use server_framework.Base.{
  append_assoc, ℕ, zero, suc, ◌+◌, ◌≤◌, ◌<◌, ◌≡◌, refl, sym, ap, ◌∙◌, List, [], ◌∷◌, ◌++◌, length,
  length-append, take, drop, concat, Outcome, ok, ◌>>=◌, arith,
}
use server_framework.Base.Slices.{write_at, take-length_append, drop-length_append, length-drop}
use mathlib.Core.Path.{ap₂}
use server_framework.ByteArray.{ByteArray, read, write, set_position}
use server_framework.ByteArray.Invariant.{IsValid, contents}
use server_framework.ByteArray.ReadFile.{read-slice}
use server_framework.ByteArray.WriteFile.{HasRoom, WroteFile, write-write_at, length-contents}
use server_framework.ByteArray.Seek.{set_position-IsValid}

abbrev pub unread : ByteArray → List ℕ
unread s = drop s.position (contents s)

drop-add {ℓ} : {A : Type ℓ} (m n k : ℕ) (xs : List A) → k ≡ m + n → drop k xs ≡ drop n (drop m xs)
drop-add zero n k xs e = ap (λ j. drop j xs) (omega arith)
drop-add (suc m) n zero xs e = absurd (omega arith)
drop-add (suc m) zero (suc k) [] e = refl
drop-add (suc m) (suc n) (suc k) [] e = refl
drop-add (suc m) n (suc k) (x ∷ xs) e = drop-add m n k xs (omega arith)

pub length-unread : (s : ByteArray) → IsValid s → length (unread s) + s.position ≡ s.size
length-unread s v =
    length-drop s.position (contents s) (omega (arith, length-contents s v, v.ordered))
    ∙ length-contents s v

drop-write_at :
    (xs : List ℕ) (k : ℕ) (ys : List ℕ)
    → k ≤ length xs
    → drop k (write_at xs k ys) ≡ ys ++ drop (length ys) (drop k xs)
drop-write_at xs zero ys h = refl
drop-write_at [] (suc k) ys h = absurd (omega arith)
drop-write_at (x ∷ xs) (suc k) ys h = drop-write_at xs k ys (omega arith)

-- Reading as many bytes as `xs` has, where the unread bytes begin with `xs`, gives `xs` and leaves
-- what stands behind it.
pub read-prefix :
    (s : ByteArray) (xs ys : List ℕ)
    → IsValid s
    → unread s ≡ xs ++ ys
    → 0 < length xs
    → (t : ByteArray) × (read s (length xs) ≡ ok (xs, t))
      × IsValid t
      × (unread t ≡ ys)
      × (contents t ≡ contents s)
      × (t.position ≡ s.position + length xs)
read-prefix s xs ys v e some_bytes =
    let total = length-unread s v in
    let parts = ap length e ∙ length-append xs ys in
    let (t, run, t-valid, t-position, t-contents) =
      read-slice s (length xs) v (omega (arith, v.ordered)) (omega (arith, v.bounded)) in
    (
      t,
      run ∙ ap (λ zs. ok (zs, t)) (ap (take (length xs)) e ∙ take-length_append xs ys),
      t-valid,
      ap (drop t.position) t-contents
          ∙ drop-add s.position (length xs) t.position (contents s) t-position
          ∙ ap (drop (length xs)) e
          ∙ drop-length_append xs ys,
      t-contents,
      t-position,
    )

-- What a call has written is what is unread once the position is set back, and then what stood
-- behind it.
pub rewind :
    (s : ByteArray) (buf : List ℕ) (r : Outcome ByteArray)
    → IsValid s
    → WroteFile s buf r
    → (u : ByteArray) × ((r >>= λ t. set_position t s.position) ≡ ok u)
      × IsValid u
      × (u.position ≡ s.position)
      × (unread u ≡ buf ++ drop (length buf) (unread s))
      × (u.endian ≡ s.endian)
rewind s buf r v (t, run, t-valid, t-position, t-contents, t-order) =
    let (u, back, u-valid, u-position, u-size, same, u-order) =
      set_position-IsValid t s.position t-valid (omega (arith, t-valid.ordered, t-valid.bounded)) in
    let whole : u.size ≡ t.size = omega (arith, t-valid.ordered) in
    (
      u,
      ap (λ r. r >>= λ t. set_position t s.position) run ∙ back,
      u-valid,
      u-position,
      ap₂ drop u-position (ap₂ (λ n nodes. take n (concat nodes)) whole same ∙ t-contents)
          ∙ drop-write_at (contents s) s.position buf
              (omega (arith, length-contents s v, v.ordered)),
      u-order ∙ t-order,
    )

pub write-unread :
    (s : ByteArray) (buf : List ℕ)
    → IsValid s
    → HasRoom s (length buf)
    → (u : ByteArray) × ((write s buf >>= λ t. set_position t s.position) ≡ ok u)
      × IsValid u
      × (u.position ≡ s.position)
      × (unread u ≡ buf ++ drop (length buf) (unread s))
      × (u.endian ≡ s.endian)
write-unread s buf v room = rewind s buf (write s buf) v (write-write_at s buf v room)

write_at-append :
    (ys rest : List ℕ) (j : ℕ) (zs : List ℕ)
    → j ≡ length ys
    → write_at (ys ++ rest) j zs ≡ ys ++ (zs ++ drop (length zs) rest)
write_at-append [] rest j zs e = ap (λ m. write_at rest m zs) {y = 0} e
write_at-append (y ∷ ys) rest zero zs e = absurd (omega arith)
write_at-append (y ∷ ys) rest (suc j) zs e = ap (◌∷◌ y) (write_at-append ys rest j zs (omega arith))

write_at-then :
    (xs : List ℕ) (k j : ℕ) (ys zs : List ℕ)
    → k ≤ length xs
    → j ≡ k + length ys
    → write_at (write_at xs k ys) j zs ≡ write_at xs k (ys ++ zs)
write_at-then xs zero j ys zs h e =
    write_at-append ys (drop (length ys) xs) j zs (omega arith)
    ∙ sym (append_assoc ys zs (drop (length zs) (drop (length ys) xs)))
    ∙ ap (◌++◌ (ys ++ zs))
        (sym (drop-add (length ys) (length zs) (length (ys ++ zs)) xs (length-append ys zs)))
write_at-then [] (suc k) j ys zs h e = absurd (omega arith)
write_at-then (x ∷ xs) (suc k) zero ys zs h e = absurd (omega arith)
write_at-then (x ∷ xs) (suc k) (suc j) ys zs h e =
    ap (◌∷◌ x) (write_at-then xs k j ys zs (omega arith) (omega arith))

-- Two writes, the second where the first ended, are one.
pub write_twice :
    (s : ByteArray) (xs ys : List ℕ) (r : Outcome ByteArray)
    → IsValid s
    → WroteFile s xs r
    → ((t : ByteArray) → r ≡ ok t → HasRoom t (length ys))
    → WroteFile s (xs ++ ys) (r >>= λ t. write t ys)
write_twice s xs ys r v (t, run, t-valid, t-position, t-contents, t-order) room =
    let (u, run', u-valid, u-position, u-contents, u-order) =
      write-write_at t ys t-valid (room t run) in
    (
      u,
      ap (λ r. r >>= λ t. write t ys) run ∙ run',
      u-valid,
      omega (arith, length-append xs ys),
      u-contents
          ∙ ap₂ (λ m k. write_at m k ys) t-contents t-position
          ∙ write_at-then (contents s) s.position (s.position + length xs) xs ys
              (omega (arith, length-contents s v, v.ordered)) refl,
      u-order ∙ t-order,
    )
