-- ===== src/Http/Fields.antt =====
-- The maps of header fields, parameters and cookies, whose keys ignore case.
use server_framework.Base.{
  ℕ, ◌≡◌, ◌≢◌, refl, ap, ◌∙◌, subst, true, Bool-cases, if◌then◌else◌, none, some, List, [], ◌∷◌,
  All, inl, inr,
}
use server_framework.Http.{less, folded, case_less, Field, find_field, put_field, erase_field}
use server_framework.Http.Order.{
  less_irrefl, IsBefore, IsOrdered, case_less_trans, case_less-same, case_less-asym, All-map,
}

module _ (key val : List ℕ) where
  abbrev new_field : Field
  new_field = record { key = key; val = val }

  put_field-All :
      (k : List ℕ) (es : List Field)
      → IsBefore k key
      → All (λ (x : Field). IsBefore k x.key) es
      → All (λ (x : Field). IsBefore k x.key) (put_field key val es)
  unfolding put_field
  put_field-All k [] b h = (b, tt)
  put_field-All k (e ∷ es) b h = elim (Bool-cases (case_less e.key key)) [
    | inl l ↦ rw l (h.0, put_field-All k es b h.1)
    | inr l ↦ elim (Bool-cases (case_less key e.key)) [
      | inl g ↦ rw (l, g) (b, (h.0, h.1))
      | inr g ↦ rw (l, g) (h.0, h.1)
    ]
  ]

  put_field-IsOrdered : (es : List Field) → IsOrdered es → IsOrdered (put_field key val es)
  unfolding put_field
  put_field-IsOrdered [] h = (tt, tt)
  put_field-IsOrdered (e ∷ es) h = elim (Bool-cases (case_less e.key key)) [
    | inl l ↦ rw l (put_field-All e.key es l h.0, put_field-IsOrdered es h.1)
    | inr l ↦ elim (Bool-cases (case_less key e.key)) [
      | inl g ↦
          rw (l, g)
            (
              (
                g,
                All-map (λ (x : Field). IsBefore e.key x.key) (λ (x : Field). IsBefore key x.key) es
                    (λ x b. case_less_trans key e.key x.key g b) h.0,
              ),
              (h.0, h.1),
            )
      | inr g ↦ rw (l, g) (h.0, h.1)
    ]
  ]

  -- A key that differs in case at most finds the value.
  find-put_field :
      (k : List ℕ) (es : List Field)
      → folded k ≡ folded key
      → find_field k (put_field key val es) ≡ some val
  unfolding find_field put_field
  find-put_field k [] same = rw (same, less_irrefl (folded key)) refl
  find-put_field k (e ∷ es) same = elim (Bool-cases (case_less e.key key)) [
    | inl l ↦ rw (l, same, l) (find-put_field k es same)
    | inr l ↦ elim (Bool-cases (case_less key e.key)) [
      | inl g ↦ rw (l, g, same, less_irrefl (folded key)) refl
      | inr g ↦ rw (l, g, same, l, g) refl
    ]
  ]

  find_other :
      (k : List ℕ) (es : List Field)
      → folded k ≢ folded key
      → find_field k (put_field key val es) ≡ find_field k es
  unfolding find_field put_field
  find_other k [] other = elim (Bool-cases (case_less key k)) [
    | inl l ↦ rw l refl
    | inr l ↦ elim (Bool-cases (case_less k key)) [
      | inl g ↦ rw (l, g) refl
      | inr g ↦ absurd (other (case_less-same k key g l))
    ]
  ]
  find_other k (e ∷ es) other = elim (Bool-cases (case_less e.key key)) [
    | inl l ↦ rw l (
        ap (λ r. if case_less e.key k then r else (if case_less k e.key then none else some e.val))
          (find_other k es other))
    | inr l ↦ elim (Bool-cases (case_less key e.key)) [
      | inl g ↦ elim (Bool-cases (case_less key k)) [
        | inl m ↦ rw (l, g, m) refl
        | inr m ↦ elim (Bool-cases (case_less k key)) [
          | inl n ↦
              let in_front : case_less k e.key ≡ true = case_less_trans k key e.key n g in
              rw (l, g, m, n, case_less-asym k e.key in_front, in_front) refl
          | inr n ↦ absurd (other (case_less-same k key n m))
        ]
      ]
      | inr g ↦ elim (Bool-cases (case_less e.key k)) [
        | inl m ↦ rw (l, g, m) refl
        | inr m ↦ elim (Bool-cases (case_less k e.key)) [
          | inl n ↦ rw (l, g, m, n) refl
          | inr n ↦ absurd (other (case_less-same k e.key n m ∙ case_less-same e.key key l g))
        ]
      ]
    ]
  ]

  -- Setting a field keeps the map in order without keys that differ in case only; a key that is
  -- the same but for case finds the new value, and every other key what it found before.
  pub put_field-Set :
      (k : List ℕ) (es : List Field)
      → IsOrdered es
      → IsOrdered (put_field key val es)
        × (folded k ≡ folded key → find_field k (put_field key val es) ≡ some val)
        × (folded k ≢ folded key → find_field k (put_field key val es) ≡ find_field k es)
  put_field-Set k es h = (put_field-IsOrdered es h, find-put_field k es, find_other k es)

module _ (key : List ℕ) where
  erase_field-All :
      (k : List ℕ) (es : List Field)
      → All (λ (x : Field). IsBefore k x.key) es
      → All (λ (x : Field). IsBefore k x.key) (erase_field key es)
  unfolding erase_field
  erase_field-All k [] h = tt
  erase_field-All k (e ∷ es) h = elim (Bool-cases (case_less e.key key)) [
    | inl l ↦ rw l (h.0, erase_field-All k es h.1)
    | inr l ↦ elim (Bool-cases (case_less key e.key)) [
      | inl g ↦ rw (l, g) h
      | inr g ↦ rw (l, g) h.1
    ]
  ]

  erase_field-IsOrdered : (es : List Field) → IsOrdered es → IsOrdered (erase_field key es)
  unfolding erase_field
  erase_field-IsOrdered [] h = tt
  erase_field-IsOrdered (e ∷ es) h = elim (Bool-cases (case_less e.key key)) [
    | inl l ↦ rw l (erase_field-All e.key es h.0, erase_field-IsOrdered es h.1)
    | inr l ↦ elim (Bool-cases (case_less key e.key)) [
      | inl g ↦ rw (l, g) h
      | inr g ↦ rw (l, g) h.1
    ]
  ]

  -- Nothing behind the key is the key.
  find_behind :
      (es : List Field) → All (λ (x : Field). IsBefore key x.key) es → find_field key es ≡ none
  unfolding find_field
  find_behind [] h = refl
  find_behind (e ∷ es) h = rw (case_less-asym key e.key h.0, h.0) refl

  find-erase_field : (es : List Field) → IsOrdered es → find_field key (erase_field key es) ≡ none
  unfolding find_field erase_field
  find-erase_field [] h = refl
  find-erase_field (e ∷ es) h = elim (Bool-cases (case_less e.key key)) [
    | inl l ↦ rw (l, l) (find-erase_field es h.1)
    | inr l ↦ elim (Bool-cases (case_less key e.key)) [
      | inl g ↦ rw (l, g, l, g) refl
      | inr g ↦
          rw (l, g)
            (find_behind es (
              subst (λ a. All (λ (x : Field). less a (folded x.key) ≡ true) es)
                (case_less-same e.key key l g) h.0))
    ]
  ]

  pub erase_field-Gone :
      (es : List Field)
      → IsOrdered es
      → IsOrdered (erase_field key es) × (find_field key (erase_field key es) ≡ none)
  erase_field-Gone es h = (erase_field-IsOrdered es h, find-erase_field es h)
