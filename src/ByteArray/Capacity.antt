-- ===== src/ByteArray/Capacity.antt =====
-- `addCapacity`: what it keeps, and when the nodes that it adds are enough.
use server_framework.Base.{
  append_assoc, ℕ, zero, suc, ◌+◌, ◌-◌, ◌*◌, ◌%◌, ◌≤◌, ◌<◌, ◌≡◌, refl, sym, ap, subst, List, [],
  ◌∷◌, ◌++◌, ◌⊎◌, inl, inr, ◌↔◌, length, concat, All-append, length-append, length-replicate, ltb,
  Bool-cases, ltb→lt, le→leb, leb-false, lt→ltb, eq→==, ne→==, arith,
}
use server_framework.Base.Slices.{take-append_left}
use server_framework.ByteArray.{ByteArray, add_nodes, node_count, grow, add_capacity, get_capacity}
use server_framework.ByteArray.Flat.{IsUniform, IsAt, length-concat}
use server_framework.ByteArray.Invariant.{IsValid, contents, node_under, size_sub_exact}
use native.Mathlib.Decide.{dec_le}
use native.Mathlib.Nat.{div-add-mod', mod-lt}

length-add_nodes : (g b n : ℕ) → length (add_nodes g b n) ≡ n
unfolding add_nodes
length-add_nodes g b zero = refl
length-add_nodes g b (suc n) = ap suc (length-add_nodes g b n)

add_nodes-IsUniform : (g b n : ℕ) → IsUniform b (add_nodes g b n)
unfolding add_nodes
add_nodes-IsUniform g b zero = tt
add_nodes-IsUniform g b (suc n) = (length-replicate b g, add_nodes-IsUniform g b n)

concat-append {ℓ} :
    {A : Type ℓ} (xs ys : List (List A)) → concat (xs ++ ys) ≡ concat xs ++ concat ys
concat-append [] ys = refl
concat-append (x ∷ xs) ys = rw (concat-append xs ys) (sym (append_assoc x (concat xs) (concat ys)))

-- What `addCapacity` leaves alone.
pub record Grown (s t : ByteArray) : Type 0 where
  pub valid : IsValid t
  pub wider : s.capacity ≤ t.capacity
  pub same_base : t.base_size ≡ s.base_size
  pub same_position : t.position ≡ s.position
  pub same_order : t.endian ≡ s.endian
  pub same_size : t.size ≡ s.size
  pub same_contents : contents t ≡ contents s

-- `lacking` bytes more than `old`: are the nodes that `addCapacity` counts enough for them?
node_count_suffices :
    (b old lacking : ℕ)
    → 0 < b
    → (lacking ≤ node_count b old lacking * b) ↔ ((lacking % b ≡ 0) ⊎ (old < lacking % b))
unfolding node_count
node_count_suffices b old lacking h =
    let whole = div-add-mod' lacking b in
    let rest = mod-lt lacking h in
    elim (Bool-cases (ltb old (lacking % b))) [
      | inl longer ↦ rw longer ((λ _. inr (ltb→lt old (lacking % b) longer)), (λ _. omega arith))
      | inr shorter ↦ rw shorter (
        (λ fits. inl (omega arith)),
        (λ why. elim why [
          | inl even ↦ omega arith
          | inr more ↦ cc (shorter, lt→ltb old (lacking % b) more)
        ]),
      )
    ]

module _ (s : ByteArray) (v : IsValid s) where
  pub left_exact : get_capacity s ≡ s.capacity - s.position
  left_exact = size_sub_exact s.capacity s.position (omega (arith, v.ordered, v.bounded))

  grow-seated :
      (count : ℕ)
      → IsAt
          (length s.root + count)
          s.base_size
          s.position
          (grow s (s.capacity - s.position) count).cur
  unfolding grow
  grow-seated count = elim (dec_le (s.capacity - s.position) 0) [
    | yes full ↦ rw (eq→== (s.capacity - s.position) 0 (omega arith)) (elim (dec_le count 0) [
      | yes none_added ↦ rw (eq→== count 0 (omega arith)) (
          let nothing : count ≡ 0 = omega arith in
          omega (
            arith,
            v.chained,
            v.ordered,
            v.bounded,
            ap (λ (c : ℕ). (length s.root + c) * s.base_size) nothing,
          ))
      | no some_added ↦ rw (ne→== count 0 (λ e. omega arith)) (
        omega arith,
        omega (arith, v.chained, v.ordered, v.bounded),
        omega (arith, v.chained, v.ordered, v.bounded, v.positive),
      )
    ])
    | no free ↦
        let (i, at_i, inside, low, high) = node_under s v (omega arith) in
        rw (ne→== (s.capacity - s.position) 0 (λ e. omega arith)) (
          subst (IsAt (length s.root + count) s.base_size s.position) (sym at_i)
            (omega arith, low, high))
  ]

  grow-Grown : (count : ℕ) → Grown s (grow s (s.capacity - s.position) count)
  unfolding grow
  grow-Grown count =
      let more = add_nodes s.garbage s.base_size count in
      let longer = length-append s.root more in
      let added = length-add_nodes s.garbage s.base_size count in
      record {
        valid = record {
          positive = v.positive;
          rooted = omega (arith, v.rooted);
          uniform =
              All-append (λ m. length m ≡ s.base_size) s.root more v.uniform
                (add_nodes-IsUniform s.garbage s.base_size count);
          chained = omega (
            arith,
            v.chained,
            ap (λ (c : ℕ). c * s.base_size) longer,
            ap (λ (c : ℕ). c * s.base_size) added,
          );
          ordered = v.ordered;
          bounded = omega (arith, v.bounded);
          seated =
              subst
                (λ n. IsAt n s.base_size s.position (grow s (s.capacity - s.position) count).cur)
                (omega arith) (grow-seated count);
        };
        wider = omega arith;
        same_base = refl;
        same_position = refl;
        same_order = refl;
        same_size = refl;
        same_contents = rw (concat-append s.root more) (
            take-append_left s.size (concat s.root) (concat more)
              (omega (arith, length-concat s.base_size s.root v.uniform, v.chained, v.bounded)));
      }

  add_capacity-room : (n : ℕ) → n ≤ s.capacity - s.position → add_capacity s n ≡ s
  unfolding add_capacity
  add_capacity-room n h = rw left_exact (elim (dec_le n 0) [
    | yes nothing ↦ rw (eq→== n 0 (omega arith))
    | no some_bytes ↦ rw (ne→== n 0 (λ e. omega arith), le→leb n (s.capacity - s.position) h)
  ])

  add_capacity-grow :
      (n : ℕ)
      → s.capacity - s.position < n
      → add_capacity s n
        ≡ grow s
            (s.capacity - s.position)
            (node_count s.base_size (s.capacity - s.position) (n - (s.capacity - s.position)))
  unfolding add_capacity
  add_capacity-grow n h = rw (
    left_exact,
    ne→== n 0 (λ e. omega arith),
    leb-false n (s.capacity - s.position) h,
    size_sub_exact n (s.capacity - s.position) (omega arith),
  )

  -- Whatever `addCapacity` adds, the array stays well formed and the file the same.
  pub add_capacity-Grown : (n : ℕ) → Grown s (add_capacity s n)
  add_capacity-Grown n = elim (dec_le n (s.capacity - s.position)) [
    | yes room ↦ subst (Grown s) (sym (add_capacity-room n room)) (record {
      valid = v;
      wider = omega arith;
      same_base = refl;
      same_position = refl;
      same_order = refl;
      same_size = refl;
      same_contents = refl;
    })
    | no lacks ↦ subst (Grown s) (sym (add_capacity-grow n (omega arith))) (
        grow-Grown
          (node_count s.base_size (s.capacity - s.position) (n - (s.capacity - s.position))))
  ]

  grow-capacity : (old count : ℕ) → (grow s old count).capacity ≡ s.capacity + count * s.base_size
  unfolding grow
  grow-capacity old count = refl

  -- On a well-formed array, `addCapacity` makes room for `size` bytes behind the position
  -- exactly if they fit already, or what does not fit is a multiple of the node size, or its
  -- rest by the node size is more than the bytes that fit already.
  pub add_capacity_suffices :
      (n : ℕ)
      → (s.position + n ≤ (add_capacity s n).capacity) ↔ (
          (n ≤ s.capacity - s.position)
          ⊎ ((n - (s.capacity - s.position)) % s.base_size ≡ 0)
          ⊎ (s.capacity - s.position < (n - (s.capacity - s.position)) % s.base_size))
  add_capacity_suffices n = elim (dec_le n (s.capacity - s.position)) [
    | yes room ↦ (
      (λ _. inl room),
      (λ _. rw (add_capacity-room n room) (omega (arith, v.ordered, v.bounded, left_exact))),
    )
    | no lacks ↦
        let old = s.capacity - s.position in
        let count = node_count s.base_size old (n - old) in
        let enough = node_count_suffices s.base_size old (n - old) v.positive in
        let after = grow-capacity old count in
        rw (add_capacity-grow n (omega arith)) (
          (λ fits. inr (enough.0 (omega (arith, v.ordered, v.bounded)))),
          (λ why. elim why [
            | inl room ↦ absurd (lacks room)
            | inr more ↦ let fits = enough.1 more in omega (arith, v.ordered, v.bounded)
          ]),
        )
  ]
