-- ===== src/Log/Pieces.antt =====
-- What a pattern that is written out looks like, and how its parts are parsed.
use server_framework.Base.{
  append-nil, append_assoc, ℕ, zero, suc, ◌≤◌, ◌≡◌, refl, sym, ap, ◌∙◌, subst, false, ◌==◌, some,
  List, [], ◌∷◌, ◌++◌, length, All, ok, ◌>>=◌, arith,
}
use server_framework.Log.{
  is_alpha, open_brace, close_brace, percent, scan_format, scan_name, Token, char, found,
  next_token, kept, behind, Parsed, parse_loop, Kind, letter, find_kind, message, level, elapse,
  name, thread_id, new_line, date_time, file_name, line, tab, fiber_id, thread_name, FormatItem,
  plain, new_item,
}

abbrev pub IsPlain : List ℕ → Type 0
IsPlain = All (λ c. (c == percent) ≡ false)

abbrev pub IsFormat : List ℕ → Type 0
IsFormat = All (λ c. (c == close_brace) ≡ false)

-- A text, and a directive behind it.
pub record Segment : Type 0 where
  pub before : List ℕ
  pub kind : Kind
  pub fmt : List ℕ

-- `%x{…}`
abbrev pub print_directive : Segment → List ℕ → List ℕ
print_directive s rest = percent ∷ letter s.kind ∷ open_brace ∷ s.fmt ++ close_brace ∷ rest

abbrev pub print : List Segment → List ℕ → List ℕ
print [] last = last
print (s ∷ segments) last = s.before ++ print_directive s (print segments last)

abbrev pub text_item : List ℕ → List FormatItem
text_item [] = []
text_item (c ∷ cs) = plain (c ∷ cs) ∷ []

abbrev pub expected : List Segment → List ℕ → List FormatItem
expected [] last = text_item last
expected (s ∷ segments) last = text_item s.before ++ new_item s.kind s.fmt ∷ expected segments last

abbrev pub IsPrintable : Segment → Type 0
IsPrintable s = IsPlain s.before × IsFormat s.fmt

-- Enough rounds parse `cs` behind `nstr` to `r`.
abbrev pub Parses : List ℕ → List ℕ → Parsed → Type 0
Parses nstr cs r = (fuel : ℕ) → length cs ≤ fuel → parse_loop fuel nstr cs ≡ ok r

pub next-Parses :
    (nstr : List ℕ) (c : ℕ) (cs : List ℕ) (token : Token) (rest : List ℕ) (r : Parsed)
    → ◌≡◌ {A = Token × List ℕ} (next_token c cs) (token, rest)
    → length rest ≤ length cs
    → Parses (kept token nstr) rest r
    → Parses nstr (c ∷ cs) (behind token nstr r)
unfolding parse_loop
next-Parses nstr c cs token rest r e h p zero le = absurd (omega arith)
next-Parses nstr c cs token rest r e h p (suc fuel) le =
    ap
      (λ (next : Token × List ℕ).
        parse_loop fuel (kept next.0 nstr) next.1 >>= λ r. ok (behind next.0 nstr r))
      e
    ∙ ap (λ m. m >>= λ r. ok (behind token nstr r)) (p fuel (omega arith))

char-next_token :
    (c : ℕ) (cs : List ℕ)
    → (c == percent) ≡ false
    → ◌≡◌ {A = Token × List ℕ} (next_token c cs) (char c, cs)
unfolding next_token
char-next_token c cs e = rw e refl

pub plain-Parses :
    (nstr s rest : List ℕ) (r : Parsed)
    → IsPlain s
    → Parses (nstr ++ s) rest r
    → Parses nstr (s ++ rest) r
plain-Parses nstr [] rest r h p = subst (λ n. Parses n rest r) (append-nil nstr) p
plain-Parses nstr (c ∷ cs) rest r h p =
    next-Parses nstr c (cs ++ rest) (char c) (cs ++ rest) r (char-next_token c (cs ++ rest) h.0)
      (omega arith)
      (plain-Parses (nstr ++ c ∷ []) cs rest r h.1
        (subst (λ n. Parses n rest r) (sym (append_assoc nstr (c ∷ []) cs)) p))

scan_format-closed :
    (str fmt s rest : List ℕ)
    → IsFormat s
    → scan_format str fmt (s ++ close_brace ∷ rest)
      ≡ record { is_open = false; str = str; fmt = fmt ++ s; rest = rest }
unfolding scan_format
scan_format-closed str fmt [] rest h =
    ap (λ f. record { is_open = false; str = str; fmt = f; rest = rest }) (sym (append-nil fmt))
scan_format-closed str fmt (c ∷ cs) rest h = rw h.0 (
    scan_format-closed str (fmt ++ c ∷ []) cs rest h.1
    ∙ ap (λ f. record { is_open = false; str = str; fmt = f; rest = rest })
        (append_assoc fmt (c ∷ []) cs))

scan_name-letter :
    (k : Kind) (cs : List ℕ)
    → scan_name [] (letter k ∷ open_brace ∷ cs) ≡ scan_format (letter k ∷ []) [] cs
unfolding scan_name is_alpha
scan_name-letter message cs = refl
scan_name-letter level cs = refl
scan_name-letter elapse cs = refl
scan_name-letter name cs = refl
scan_name-letter thread_id cs = refl
scan_name-letter new_line cs = refl
scan_name-letter date_time cs = refl
scan_name-letter file_name cs = refl
scan_name-letter line cs = refl
scan_name-letter tab cs = refl
scan_name-letter fiber_id cs = refl
scan_name-letter thread_name cs = refl

pub find_kind-letter : (k : Kind) → find_kind (letter k ∷ []) ≡ some k
unfolding find_kind
find_kind-letter message = refl
find_kind-letter level = refl
find_kind-letter elapse = refl
find_kind-letter name = refl
find_kind-letter thread_id = refl
find_kind-letter new_line = refl
find_kind-letter date_time = refl
find_kind-letter file_name = refl
find_kind-letter line = refl
find_kind-letter tab = refl
find_kind-letter fiber_id = refl
find_kind-letter thread_name = refl

letter-starts : (k : Kind) → (letter k == percent) ≡ false
letter-starts message = refl
letter-starts level = refl
letter-starts elapse = refl
letter-starts name = refl
letter-starts thread_id = refl
letter-starts new_line = refl
letter-starts date_time = refl
letter-starts file_name = refl
letter-starts line = refl
letter-starts tab = refl
letter-starts fiber_id = refl
letter-starts thread_name = refl

pub next_token-directive :
    (s : Segment) (rest : List ℕ)
    → IsFormat s.fmt
    → ◌≡◌ {A = Token × List ℕ}
        (next_token percent (letter s.kind ∷ open_brace ∷ s.fmt ++ close_brace ∷ rest))
        (found (letter s.kind ∷ []) s.fmt, rest)
unfolding next_token
next_token-directive s rest h =
    let cs = s.fmt ++ close_brace ∷ rest in
    rw
      (
        letter-starts s.kind,
        scan_name-letter s.kind cs,
        scan_format-closed (letter s.kind ∷ []) [] s.fmt rest h,
      )
      refl

pub length-rest : (s rest : List ℕ) → length rest ≤ length (s ++ close_brace ∷ rest)
length-rest [] rest = omega arith
length-rest (c ∷ cs) rest = omega (arith, length-rest cs rest)
