-- ===== src/Log/Parsing.antt =====
-- The parser of a pattern comes to an end, whatever the pattern is.
use server_framework.Base.{
  ℕ, zero, suc, ◌≤◌, ◌≡◌, refl, false, Bool-cases, ◌==◌, ◌||◌, List, [], ◌∷◌, ◌++◌, length, ok,
  arith, inl, inr,
}
use server_framework.Log.{
  Directive, is_alpha, open_brace, close_brace, percent, scan_format, scan_name, next_token, kept,
  behind, Parsed, parse_loop, Formatter, init, items_of, any_error, text_piece, starts_percent,
  directive_token,
}

length-scan_format : (str fmt cs : List ℕ) → length (scan_format str fmt cs).rest ≤ length cs
unfolding scan_format
length-scan_format str fmt [] = omega arith
length-scan_format str fmt (c ∷ cs) = elim (Bool-cases (c == close_brace)) [
  | inl e ↦ rw e (omega arith)
  | inr e ↦ rw e (omega (arith, length-scan_format str (fmt ++ c ∷ []) cs))
]

length-scan_name : (name cs : List ℕ) → length (scan_name name cs).rest ≤ length cs
unfolding scan_name
length-scan_name name [] = omega arith
length-scan_name name (c ∷ cs) =
    let opened = length-scan_format name [] cs in
    let further = length-scan_name (name ++ c ∷ []) cs in
    elim (Bool-cases (c == open_brace)) [
      | inl e ↦ rw e (omega (arith, opened))
      | inr e ↦ elim (Bool-cases (is_alpha c || (c == close_brace))) [
        | inl a ↦ rw (e, a) (omega (arith, further))
        | inr a ↦ rw (e, a) (omega arith)
      ]
    ]

length-directive :
    (d : Directive) (cs : List ℕ)
    → length d.rest ≤ length cs
    → length (directive_token d cs).1 ≤ length cs
length-directive d cs h = elim (Bool-cases d.is_open) [
  | inl e ↦ rw e (omega arith)
  | inr e ↦ rw e h
]

length-next_token : (c : ℕ) (cs : List ℕ) → length (next_token c cs).1 ≤ length cs
unfolding next_token
length-next_token c cs = elim (Bool-cases (c == percent)) [
  | inl e ↦ elim (Bool-cases (starts_percent cs)) [
    | inl p ↦ rw (e, p) (omega arith)
    | inr p ↦ rw (e, p) (length-directive (scan_name [] cs) cs (length-scan_name [] cs))
  ]
  | inr e ↦ rw e (omega arith)
]

pub parse_loop_ends :
    (fuel : ℕ) (nstr cs : List ℕ)
    → length cs ≤ fuel
    → (r : Parsed) × (parse_loop fuel nstr cs ≡ ok r)
unfolding parse_loop
parse_loop_ends fuel nstr [] h = (record { pieces = text_piece nstr; error = false }, refl)
parse_loop_ends zero nstr (c ∷ cs) h = absurd (omega arith)
parse_loop_ends (suc fuel) nstr (c ∷ cs) h =
    let next = next_token c cs in
    let (r, e) =
      parse_loop_ends fuel (kept next.0 nstr) next.1 (omega (arith, length-next_token c cs)) in
    (behind next.0 nstr r, rw e refl)

pub init_ends : (pattern : List ℕ) → (f : Formatter) × (init pattern ≡ ok f) × (f.pattern ≡ pattern)
unfolding init
init_ends pattern =
    let (r, e) = parse_loop_ends (length pattern) [] pattern (omega arith) in
    (
      record {
        pattern = pattern;
        items = items_of r.pieces;
        error = r.error || any_error r.pieces;
      },
      rw e refl,
      refl,
    )
