-- ===== src/ByteArray/ReadFile.antt =====
-- `read` takes the bytes of the file at the position, or throws and leaves all as it was.
use server_framework.Base.{
  ℕ, ◌+◌, ◌-◌, ◌*◌, ◌%◌, ◌≤◌, ◌<◌, ◌≡◌, refl, sym, ap, ◌∙◌, Option, some, List, length, concat,
  get_elem?, get_elem?-lt, All-get_elem?, ok, fail, arith, out_of_range, null_pointer, leb-false,
  le→leb,
}
use server_framework.Base.Slices.{slice, slice-take}
use server_framework.ByteArray.{
  ByteArray, Node, size_sub, read, read_at, get_read_size, read_loop, taken,
}
use server_framework.ByteArray.Flat.{mod-block}
use server_framework.ByteArray.Invariant.{
  IsValid, contents, node_under, null_at_end, size_sub_exact,
}
use server_framework.ByteArray.Reading.{read_loop-slice}

-- The calls around the loop, on a pointer that is not null.
read_steps :
    (s : ByteArray) (n i npos space q : ℕ) (node : Node) (xs : List ℕ) (p : Option ℕ)
    → n ≤ get_read_size s
    → s.cur ≡ some i
    → get_elem? s.root i ≡ some node
    → s.position % s.base_size ≡ npos
    → size_sub (length node) npos ≡ space
    → read_loop n s.root (some i) s.position npos space n ≡ ok (taken xs p q)
    → read s n ≡ ok (xs, record s { position = q; cur = p })
unfolding read
read_steps s n i npos space q node xs p fits at_i here off room run =
    rw (le→leb n (get_read_size s) fits, at_i, here, off, room, run)

read_at_steps :
    (s : ByteArray) (n position i npos space q : ℕ) (node : Node) (xs : List ℕ) (p : Option ℕ)
    → n ≤ get_read_size s
    → s.cur ≡ some i
    → get_elem? s.root i ≡ some node
    → position % s.base_size ≡ npos
    → size_sub (length node) npos ≡ space
    → read_loop n s.root (some i) position npos space n ≡ ok (taken xs p q)
    → read_at s n position ≡ ok xs
unfolding read_at
read_at_steps s n position i npos space q node xs p fits at_i here off room run =
    rw (le→leb n (get_read_size s) fits, at_i, here, off, room, run)

module _ (s : ByteArray) (n : ℕ) (v : IsValid s) where
  fits_size_sub : n ≤ s.size - s.position → n ≤ get_read_size s
  fits_size_sub h = rw (size_sub_exact s.size s.position v.ordered) h

  -- On a well-formed array with `n` unread bytes, where the position is not the very end of the
  -- chain, `read` returns exactly the next `n` bytes of the file, moves the position behind
  -- them, and leaves the file as it is and the array well formed.
  pub read-slice :
      n ≤ s.size - s.position
      → s.position < s.capacity
      → (t : ByteArray) × (read s n ≡ ok (slice (contents s) s.position n, t))
        × IsValid t
        × (t.position ≡ s.position + n)
        × (contents t ≡ contents s)
  read-slice fits before =
      let (i, at_i, inside, low, high) = node_under s v before in
      let (node, here) = get_elem?-lt s.root i inside in
      let size = All-get_elem? (λ m. length m ≡ s.base_size) s.root i v.uniform here in
      let npos = s.position - i * s.base_size in
      let off = mod-block i s.base_size s.position low high in
      let (p, run, seat) =
        read_loop-slice s.root s.base_size v.uniform n i s.position npos (s.base_size - npos) n
          s.position inside (omega arith) (omega arith) (omega arith)
          (omega (arith, v.chained, v.bounded, v.ordered)) (omega arith) in
      (
        record s { position = s.position + n; cur = p },
        read_steps s n i npos (s.base_size - npos) (s.position + n) node
              (slice (concat s.root) s.position n) p (fits_size_sub fits) at_i here off
              (rw size (size_sub_exact s.base_size npos (omega arith))) run
            ∙ ap (λ xs. ok (xs, record s { position = s.position + n; cur = p }))
                (sym (slice-take (concat s.root) s.size s.position n (omega (arith, v.ordered)))),
        record {
          positive = v.positive;
          rooted = v.rooted;
          uniform = v.uniform;
          chained = v.chained;
          ordered = omega (arith, v.ordered);
          bounded = v.bounded;
          seated = seat;
        },
        refl,
        refl,
      )

  -- On a well-formed array, a `read` of more than the unread bytes throws `out_of_range`.
  pub read_out_of_range : s.size - s.position < n → read s n ≡ fail out_of_range
  unfolding read
  read_out_of_range beyond =
      rw (size_sub_exact s.size s.position v.ordered, leb-false n (s.size - s.position) beyond)

  -- On a well-formed array whose position is the very end of the file and of the chain, a
  -- `read` of no bytes follows a null pointer.
  pub read_null : s.position ≡ s.capacity → n ≡ 0 → read s n ≡ fail null_pointer
  unfolding read
  read_null at_end none_wanted =
      rw (le→leb n (get_read_size s) (omega arith), null_at_end s v at_end)
