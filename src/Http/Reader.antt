-- ===== src/Http/Reader.antt =====
-- Text as lines: a reader of lines, independent of what writes them.
use server_framework.Base.{
  append-nil, append_assoc, ℕ, ◌≡◌, refl, sym, ap, ◌∙◌, Bool, true, false, not, ◌==◌, ◌&&◌,
  if◌then◌else◌, List, [], ◌∷◌, ◌++◌, All,
}
use server_framework.Http.{crlf}

-- The lines up to an empty one, and what stands behind it. A line ends at a carriage return and the
-- byte behind that.
abbrev pub read_lines : Bool → List ℕ → List ℕ → List (List ℕ) × List ℕ
read_lines ended cur [] = ([], [])
read_lines true [] (c ∷ cs) = ([], cs)
read_lines true (x ∷ xs) (c ∷ cs) = let r = read_lines false [] cs in ((x ∷ xs) ∷ r.0, r.1)
read_lines false cur (c ∷ cs) =
    let end = read_lines true cur cs in
    let further = read_lines false (cur ++ c ∷ []) cs in if c == 13 then end else further

abbrev pub no_return : List ℕ → Bool
no_return [] = true
no_return (c ∷ cs) = not (c == 13) && no_return cs

abbrev pub IsLine : List ℕ → Type 0
IsLine s = no_return s ≡ true

abbrev pub unlines : List (List ℕ) → List ℕ
unlines [] = crlf
unlines (l ∷ ls) = l ++ (crlf ++ unlines ls)

append_cons : (xs : List ℕ) (y : ℕ) (ys : List ℕ) → (xs ++ y ∷ []) ++ ys ≡ xs ++ y ∷ ys
append_cons [] y ys = refl
append_cons (x ∷ xs) y ys = ap (◌∷◌ x) (append_cons xs y ys)

&&-both : (a b : Bool) → (a && b) ≡ true → (a ≡ true) × (b ≡ true)
&&-both true b h = (refl, h)
&&-both false b h = cc

not-true : (b : Bool) → not b ≡ true → b ≡ false
not-true true h = cc
not-true false h = refl

pub no_return-append : (xs ys : List ℕ) → IsLine xs → IsLine ys → IsLine (xs ++ ys)
no_return-append [] ys h k = k
no_return-append (x ∷ xs) ys h k =
    let both = &&-both (not (x == 13)) (no_return xs) h in
    rw both.0 (no_return-append xs ys both.1 k)

-- One line is read.
read_line :
    (cur s rest : List ℕ) (x : ℕ) (xs : List ℕ)
    → cur ++ s ≡ x ∷ xs
    → IsLine s
    → ◌≡◌ {A = List (List ℕ) × List ℕ}
        (read_lines false cur (s ++ (crlf ++ rest)))
        ((x ∷ xs) ∷ (read_lines false [] rest).0, (read_lines false [] rest).1)
read_line cur [] rest x xs e h = let same : cur ≡ x ∷ xs = sym (append-nil cur) ∙ e in rw same refl
read_line cur (c ∷ s) rest x xs e h =
    let both = &&-both (not (c == 13)) (no_return s) h in
    rw (not-true (c == 13) both.0)
      (read_line (cur ++ c ∷ []) s rest x xs (append_cons cur c s ∙ e) both.1)

-- Lines that can be read: none of them is empty.
abbrev pub IsFullLine : List ℕ → Type 0
IsFullLine [] = ⊥
IsFullLine (c ∷ cs) = IsLine (c ∷ cs)

abbrev with_line : List ℕ → List (List ℕ) × List ℕ → List (List ℕ) × List ℕ
with_line l r = (l ∷ r.0, r.1)

pub read_unlines :
    (ls : List (List ℕ)) (rest : List ℕ)
    → All IsFullLine ls
    → ◌≡◌ {A = List (List ℕ) × List ℕ} (read_lines false [] (unlines ls ++ rest)) (ls, rest)
read_unlines [] rest h = refl
read_unlines ([] ∷ ls) rest h = absurd h.0
read_unlines ((c ∷ cs) ∷ ls) rest h =
    ap (read_lines false []) (append_assoc (c ∷ cs) (crlf ++ unlines ls) rest)
    ∙ (read_line [] (c ∷ cs) (unlines ls ++ rest) c cs refl h.0
        ∙ ap (with_line (c ∷ cs)) (read_unlines ls rest h.1))
