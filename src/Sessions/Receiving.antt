-- ===== src/Sessions/Receiving.antt =====
-- The loop of `recvRequest`: how it comes to an end, and what was parsed by then.
use server_framework.Base.{
  append_assoc, ℕ, zero, suc, ◌+◌, ◌-◌, ◌≤◌, ◌<◌, ◌≡◌, refl, sym, ap, ◌∙◌, Bool, true, false,
  Bool-cases, ◌==◌, ◌⊎◌, inl, inr, Option, none, some, List, [], ◌∷◌, ◌++◌, length, take, drop,
  length-append, Outcome, ok, arith,
}
use server_framework.Sessions.{
  Round, closed, done, again, if_again, judge, parse, if_read, round, recv_loop,
}

pub take-drop_whole : (n : ℕ) (xs : List ℕ) → take n xs ++ drop n xs ≡ xs
take-drop_whole zero xs = refl
take-drop_whole (suc n) [] = refl
take-drop_whole (suc n) (x ∷ xs) = ap (◌∷◌ x) (take-drop_whole n xs)

module _ {S P : Type 0} (read : S → ℕ → Option (List ℕ) × S) (execute : P → List ℕ → ℕ × P)
    (has_error is_finished : P → Bool) (content_length : P → ℕ) (pending : S → List ℕ) where
  -- `read` gives from one to `n` of the bytes that are still to come, or none.
  abbrev pub Reads : Type 0
  Reads =
      (s : S) (n : ℕ)
      → ((s' : S) × (read s n ≡ (none, s')))
        ⊎ ((bs : List ℕ) × (s' : S) × (read s n ≡ (some bs, s'))
            × (pending s ≡ bs ++ pending s')
            × (1 ≤ length bs)
            × (length bs ≤ n))

  -- The parser has come from `p` to `q`, by one call of `execute` after another, and has parsed `head`.
  pub data Fed (p : P) : P → List ℕ → Type 0 where
    start : Fed p p []
    feed :
        (r : P) (front buffer : List ℕ)
        → Fed p r front
        → Fed p (execute r buffer).1 (front ++ take (execute r buffer).0 buffer)

  -- Before the first call of `execute`, or behind one that found no error and not the end.
  abbrev pub IsOpen : P → P → List ℕ → Type 0
  IsOpen p q head = ((q ≡ p) × (head ≡ [])) ⊎ ((has_error q ≡ false) × (is_finished q ≡ false))

  -- Why the loop closes the session: a `read` gave nothing before the parser was at its end, the parser
  -- found an error, or what it did not parse fills the buffer.
  pub data Cause (size : ℕ) (p : P) : Type 0 where
    unread :
        (q : P) (head : List ℕ) (s t : S) (n : ℕ)
        → Fed p q head
        → IsOpen p q head
        → read s n ≡ (none, t)
        → Cause size p
    wrong : (q : P) (head : List ℕ) → Fed p q head → has_error q ≡ true → Cause size p
    full :
        (q : P) (head left : List ℕ)
        → Fed p q head
        → has_error q ≡ false
        → (length left == size) ≡ true
        → Cause size p

  -- The session closed, or a head was parsed to its end, and `left` is in the buffer behind it.
  abbrev pub Received : ℕ → P → List ℕ → Option (P × List ℕ) × S → Type 0
  Received size p whole r =
      ((r.0 ≡ none) × Cause size p)
      ⊎ ((q : P) × (left head : List ℕ) × (r.0 ≡ some (q, left))
          × Fed p q head
          × (has_error q ≡ false)
          × (is_finished q ≡ true)
          × (whole ≡ head ++ (left ++ pending r.1)))

  judge_cases :
      (size : ℕ) (p : P) (left : List ℕ)
      → ((judge read execute has_error is_finished content_length size p left ≡ closed)
          × ((has_error p ≡ true) ⊎ ((has_error p ≡ false) × ((length left == size) ≡ true))))
        ⊎ (((judge read execute has_error is_finished content_length size p left ≡ done p left)
              × (has_error p ≡ false)
              × (is_finished p ≡ true))
            ⊎ ((judge read execute has_error is_finished content_length size p left ≡ again p left)
                × (has_error p ≡ false)
                × (is_finished p ≡ false)))
  judge_cases size p left = elim (Bool-cases (has_error p)) [
    | inl e ↦ inl (rw e refl, inl e)
    | inr e ↦ elim (Bool-cases (length left == size)) [
      | inl f ↦ inl (rw (e, f) refl, inr (e, f))
      | inr f ↦ elim (Bool-cases (is_finished p)) [
        | inl g ↦ inr (inl (rw (e, f, g) refl, e, g))
        | inr g ↦ inr (inr (rw (e, f, g) refl, e, g))
      ]
    ]
  ]

  whole_split :
      (n : ℕ) (front buffer bs rest : List ℕ)
      → front ++ (buffer ++ (bs ++ rest))
        ≡ (front ++ take n (buffer ++ bs)) ++ (drop n (buffer ++ bs) ++ rest)
  whole_split n front buffer bs rest =
      ap (λ z. front ++ z)
        (sym (append_assoc buffer bs rest)
          ∙ ap (λ z. z ++ rest) (sym (take-drop_whole n (buffer ++ bs)))
          ∙ append_assoc (take n (buffer ++ bs)) (drop n (buffer ++ bs)) rest)
      ∙ sym (append_assoc front (take n (buffer ++ bs)) (drop n (buffer ++ bs) ++ rest))

  -- The next round, as the test after `execute` decides.
  abbrev decided : ℕ → ℕ → Round P → S → Outcome (Option (P × List ℕ) × S)
  decided fuel size o s =
      if_again (o, s)
        (λ q left t. recv_loop read execute has_error is_finished content_length fuel size q left t)

  round_closed :
      (fuel size : ℕ) (p : P) (buffer : List ℕ) (s s' : S)
      → read s (size - length buffer) ≡ (none, s')
      → recv_loop read execute has_error is_finished content_length (suc fuel) size p buffer s
        ≡ ok (none, s')
  unfolding recv_loop round
  round_closed fuel size p buffer s s' e =
      ap
        (λ r.
          if_again (if_read read execute has_error is_finished content_length size p buffer r)
            (λ q left t.
              recv_loop read execute has_error is_finished content_length fuel size q left t))
        e

  round_read :
      (fuel size : ℕ) (p : P) (buffer bs : List ℕ) (s s' : S)
      → read s (size - length buffer) ≡ (some bs, s')
      → recv_loop read execute has_error is_finished content_length (suc fuel) size p buffer s
        ≡ decided fuel size
            (parse read execute has_error is_finished content_length size p (buffer ++ bs))
            s'
  unfolding recv_loop round
  round_read fuel size p buffer bs s s' e =
      ap
        (λ r.
          if_again (if_read read execute has_error is_finished content_length size p buffer r)
            (λ q left t.
              recv_loop read execute has_error is_finished content_length fuel size q left t))
        e

  pub loop-Received :
      Reads
      → (fuel size : ℕ) (p0 p : P) (buffer whole front : List ℕ) (s : S) → Fed p0 p front
      → IsOpen p0 p front
      → whole ≡ front ++ (buffer ++ pending s)
      → length (pending s) < fuel
      → (r : Option (P × List ℕ) × S) × (recv_loop read execute has_error is_finished content_length
            fuel size p buffer s
          ≡ ok r)
        × Received size p0 whole r
  loop-Received reads zero size p0 p buffer whole front s fed going all enough =
      absurd (omega arith)
  loop-Received reads (suc fuel) size p0 p buffer whole front s fed going all enough =
      elim (reads s (size - length buffer)) [
        | inl (s', e) ↦ (
          (none, s'),
          round_closed fuel size p buffer s s' e,
          inl (refl, unread p front s s' (size - length buffer) fed going e),
        )
        | inr (bs, s', e, came, low, high) ↦
            let x = execute p (buffer ++ bs) in
            let left = drop x.0 (buffer ++ bs) in
            let head = front ++ take x.0 (buffer ++ bs) in
            let fed' : Fed p0 x.1 head = feed p front (buffer ++ bs) fed in
            let all' : whole ≡ head ++ (left ++ pending s') =
              all
              ∙ ap (λ z. front ++ (buffer ++ z)) came
              ∙ whole_split x.0 front buffer bs (pending s') in
            let ran = round_read fuel size p buffer bs s s' e in
            let shorter : length (pending s) ≡ length bs + length (pending s') =
              ap length came ∙ length-append bs (pending s') in
            elim (judge_cases size x.1 left) [
              | inl (j, why) ↦ (
                (none, s'),
                ran ∙ ap (λ o. decided fuel size o s') j,
                inl (
                  refl,
                  elim why [
                    | inl w ↦ wrong x.1 head fed' w
                    | inr f ↦ full x.1 head left fed' f.0 f.1
                  ],
                ),
              )
              | inr (inl (j, fine, over)) ↦ (
                (some (x.1, left), s'),
                ran ∙ ap (λ o. decided fuel size o s') j,
                inr (x.1, left, head, refl, fed', fine, over, all'),
              )
              | inr (inr (j, fine, over)) ↦
                  let (r, went, received) =
                    loop-Received reads fuel size p0 x.1 left whole head s' fed' (inr (fine, over))
                      all' (omega (arith, shorter)) in
                  (r, ran ∙ ap (λ o. decided fuel size o s') j ∙ went, received)
            ]
      ]
