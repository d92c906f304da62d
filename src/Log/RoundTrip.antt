-- ===== src/Log/RoundTrip.antt =====
-- A pattern that is written out from texts and directives is read as these texts and directives.
use server_framework.Base.{
  append-nil, ℕ, ◌≡◌, refl, ap, ◌∙◌, subst, true, false, List, [], ◌∷◌, ◌++◌, length, All, ok,
  arith,
}
use server_framework.Log.{
  open_brace, close_brace, percent, scan_name, char, found, next_token, Parsed, parse_loop, init,
  items_of, any_error, text_piece, Piece, text, directive, letter, item_of, find_kind, plain,
  error_format,
}
use server_framework.Log.Pieces.{
  IsPlain, Segment, print_directive, print, text_item, expected, IsPrintable, Parses, next-Parses,
  plain-Parses, find_kind-letter, next_token-directive, length-rest,
}

-- The pieces of a printed pattern.
abbrev pieces : List Segment → List ℕ → List Piece
pieces [] last = text_piece last
pieces (s ∷ segments) last =
    text_piece s.before ++ directive (letter s.kind ∷ []) s.fmt ∷ pieces segments last

append_cons : (xs : List Piece) (y : Piece) (ys : List Piece) → (xs ++ y ∷ []) ++ ys ≡ xs ++ y ∷ ys
append_cons [] y ys = refl
append_cons (x ∷ xs) y ys = ap (◌∷◌ x) (append_cons xs y ys)

print-Parses :
    (segments : List Segment) (last : List ℕ)
    → All IsPrintable segments
    → IsPlain last
    → Parses [] (print segments last) (record { pieces = pieces segments last; error = false })
unfolding parse_loop
print-Parses [] last h l =
    subst (λ cs. Parses [] cs (record { pieces = text_piece last; error = false }))
      (append-nil last)
      (plain-Parses [] last [] (record { pieces = text_piece last; error = false }) l
        (λ fuel le. refl))
print-Parses (s ∷ segments) last h l =
    let rest = print segments last in
    let r : Parsed = record { pieces = pieces segments last; error = false } in
    plain-Parses [] s.before (print_directive s rest)
      (record { pieces = pieces (s ∷ segments) last; error = false }) h.0.0
      (subst
        (λ ps. Parses s.before (print_directive s rest) (record { pieces = ps; error = false }))
        (append_cons (text_piece s.before) (directive (letter s.kind ∷ []) s.fmt)
          (pieces segments last))
        (next-Parses s.before percent (letter s.kind ∷ open_brace ∷ s.fmt ++ close_brace ∷ rest)
          (found (letter s.kind ∷ []) s.fmt) rest r (next_token-directive s rest h.0.1)
          (omega (arith, length-rest s.fmt rest)) (print-Parses segments last h.1 l)))

items_of-append : (ps qs : List Piece) → items_of (ps ++ qs) ≡ items_of ps ++ items_of qs
items_of-append [] qs = refl
items_of-append (p ∷ ps) qs = ap (◌∷◌ (item_of p).0) (items_of-append ps qs)

items_of-text : (cs : List ℕ) → items_of (text_piece cs) ≡ text_item cs
items_of-text [] = refl
items_of-text (c ∷ cs) = refl

items_of-pieces :
    (segments : List Segment) (last : List ℕ)
    → items_of (pieces segments last) ≡ expected segments last
items_of-pieces [] last = items_of-text last
items_of-pieces (s ∷ segments) last =
    items_of-append (text_piece s.before)
      (directive (letter s.kind ∷ []) s.fmt ∷ pieces segments last)
    ∙ rw (items_of-text s.before, find_kind-letter s.kind, items_of-pieces segments last) refl

any_error-text : (t : List ℕ) (ps : List Piece) → any_error (text_piece t ++ ps) ≡ any_error ps
any_error-text [] ps = refl
any_error-text (c ∷ cs) ps = refl

any_error-pieces :
    (segments : List Segment) (last : List ℕ) → any_error (pieces segments last) ≡ false
any_error-pieces [] [] = refl
any_error-pieces [] (c ∷ cs) = refl
any_error-pieces (s ∷ segments) last =
    any_error-text s.before (directive (letter s.kind ∷ []) s.fmt ∷ pieces segments last)
    ∙ rw (find_kind-letter s.kind) (any_error-pieces segments last)

-- A pattern that is written out from texts without a percent sign and directives of the twelve
-- letters, each with a format in braces that holds no closing brace, is read without error as
-- just these texts and directives, in order; a date without a format gets the default one.
pub init-print :
    (segments : List Segment) (last : List ℕ)
    → All IsPrintable segments
    → IsPlain last
    → init (print segments last)
      ≡ ok (record { pattern = print segments last; items = expected segments last; error = false })
unfolding init
init-print segments last h l =
    rw
      (
        print-Parses segments last h l (length (print segments last)) (omega arith),
        items_of-pieces segments last,
        any_error-pieces segments last,
      )
      refl

text_piece-last : (s : List ℕ) (c : ℕ) → text_piece (s ++ c ∷ []) ≡ text (s ++ c ∷ []) ∷ []
text_piece-last [] c = refl
text_piece-last (d ∷ s) c = refl

doubled-Parses :
    (s : List ℕ)
    → IsPlain s
    → Parses [] (s ++ percent ∷ percent ∷ []) (record {
      pieces = (text_piece (s ++ percent ∷ []) ++ directive [] [] ∷ []) ++ [];
      error = false;
    })
unfolding parse_loop next_token scan_name
doubled-Parses s h = plain-Parses [] s (percent ∷ percent ∷ []) _ h (
    next-Parses s percent (percent ∷ []) (char percent) (percent ∷ []) _ refl (omega arith) (
      next-Parses (s ++ percent ∷ []) percent [] (found [] []) [] _ refl (omega arith)
        (λ fuel le. refl)))

-- A text without a percent sign, followed by two of them, is an invalid pattern: it is read as
-- the text with one percent sign and an unknown directive without a name.
pub init-percent :
    (s : List ℕ)
    → IsPlain s
    → init (s ++ percent ∷ percent ∷ [])
      ≡ ok (record {
        pattern = s ++ percent ∷ percent ∷ [];
        items = plain (s ++ percent ∷ []) ∷ plain (error_format []) ∷ [];
        error = true;
      })
unfolding init find_kind
init-percent s h =
    rw
      (
        doubled-Parses s h (length (s ++ percent ∷ percent ∷ [])) (omega arith),
        text_piece-last s percent,
      )
      refl
