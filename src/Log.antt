-- ===== src/Log.antt =====
-- captain/log.cpp, captain/include/log.h: the levels and the pattern of a formatter.
-- A string is the list of its bytes. The fields of an event are what the event holds; `strftime` of
-- the C library is a parameter of `format`.
pub mod Parsing
mod Pieces
mod RoundTrip
mod Format
mod Examples
use server_framework.Base.{
  ℕ, zero, suc, ◌+◌, ◌-◌, ◌*◌, ◌/◌, ◌%◌, Bool, true, false, leb, ◌==◌, ◌&&◌, ◌||◌, if◌then◌else◌,
  Option, none, some, List, [], ◌∷◌, ◌++◌, length, map, Outcome, ok, fail, out_of_fuel, ◌>>=◌,
}

abbrev pub percent : ℕ
percent = 37

abbrev pub open_brace : ℕ
open_brace = 123

abbrev pub close_brace : ℕ
close_brace = 125

-- `isalpha` in the C locale.
pub is_alpha : ℕ → Bool
is_alpha c = (leb 65 c && leb c 90) || (leb 97 c && leb c 122)

-- What `init` collects in `vec`: a text, or the name and the format of a directive.
pub data Piece : Type 0 where
  text : List ℕ → Piece
  directive : List ℕ → List ℕ → Piece

-- `if(!nstr.empty()) vec.push_back(…)`
abbrev pub text_piece : List ℕ → List Piece
text_piece [] = []
text_piece (c ∷ cs) = text (c ∷ cs) ∷ []

-- What the inner loop comes to: is the brace still open, the name, the format, and the rest of the
-- pattern.
pub record Directive : Type 0 where
  pub is_open : Bool
  pub str : List ℕ
  pub fmt : List ℕ
  pub rest : List ℕ

-- The inner loop with `fmt_status` 1.
pub scan_format : List ℕ → List ℕ → List ℕ → Directive
scan_format str fmt [] = record { is_open = true; str = str; fmt = []; rest = [] }
scan_format str fmt (c ∷ cs) =
    let further = scan_format str (fmt ++ c ∷ []) cs in
    if c == close_brace
    then record { is_open = false; str = str; fmt = fmt; rest = cs }
    else further

-- The inner loop with `fmt_status` 0; `name` is the pattern from `i + 1` up to `n`.
pub scan_name : List ℕ → List ℕ → Directive
scan_name name [] = record { is_open = false; str = name; fmt = []; rest = [] }
scan_name name (c ∷ cs) =
    let further = scan_name (name ++ c ∷ []) cs in
    let opened = scan_format name [] cs in
    let stopped : Directive = record { is_open = false; str = name; fmt = []; rest = c ∷ cs } in
    if c == open_brace
    then opened
    else (if is_alpha c || (c == close_brace) then further else stopped)

-- What a round of the outer loop finds at `i`.
pub data Token : Type 0 where
  char : ℕ → Token
  broken : Token
  found : List ℕ → List ℕ → Token

-- Is the next character a percent sign, too?
abbrev pub starts_percent : List ℕ → Bool
starts_percent [] = false
starts_percent (c ∷ cs) = c == percent

abbrev pub directive_token : Directive → List ℕ → Token × List ℕ
directive_token d cs = if d.is_open then (broken, cs) else (found d.str d.fmt, d.rest)

pub next_token : ℕ → List ℕ → Token × List ℕ
next_token c cs =
    let directive = directive_token (scan_name [] cs) cs in
    if c == percent
    then (if starts_percent cs then (char percent, cs) else directive)
    else (char c, cs)

-- `nstr` behind a round, and what the round pushes into `vec`.
abbrev pub kept : Token → List ℕ → List ℕ
kept (char c) nstr = nstr ++ c ∷ []
kept broken nstr = nstr
kept (found str fmt) nstr = []

-- "<<pattern_error>>"
abbrev pub pattern_error : List ℕ
pattern_error =
    60 ∷ 60 ∷ 112 ∷ 97 ∷ 116 ∷ 116 ∷ 101 ∷ 114 ∷ 110 ∷ 95 ∷ 101 ∷ 114 ∷ 114 ∷ 111 ∷ 114 ∷ 62 ∷ 62
    ∷ []

abbrev pub emitted : Token → List ℕ → List Piece
emitted (char c) nstr = []
emitted broken nstr = text pattern_error ∷ []
emitted (found str fmt) nstr = text_piece nstr ++ directive str fmt ∷ []

abbrev pub is_broken : Token → Bool
is_broken broken = true
is_broken _ = false

pub record Parsed : Type 0 where
  pub pieces : List Piece
  pub error : Bool

abbrev pub behind : Token → List ℕ → Parsed → Parsed
behind token nstr r = record {
  pieces = emitted token nstr ++ r.pieces;
  error = is_broken token || r.error;
}

-- The outer loop.
pub parse_loop : ℕ → List ℕ → List ℕ → Outcome Parsed
parse_loop fuel nstr [] = ok (record { pieces = text_piece nstr; error = false })
parse_loop zero nstr (c ∷ cs) = fail out_of_fuel
parse_loop (suc fuel) nstr (c ∷ cs) =
    let next = next_token c cs in
    parse_loop fuel (kept next.0 nstr) next.1 >>= λ r. ok (behind next.0 nstr r)

pub data Kind : Type 0 where
  message level elapse name thread_id new_line date_time file_name line tab fiber_id thread_name :
      Kind

-- The keys of `s_format_items`.
abbrev pub letter : Kind → ℕ
letter message = 109
letter level = 112
letter elapse = 114
letter name = 99
letter thread_id = 116
letter new_line = 110
letter date_time = 100
letter file_name = 102
letter line = 108
letter tab = 84
letter fiber_id = 70
letter thread_name = 78

abbrev pub kinds : List Kind
kinds =
    message ∷ level ∷ elapse ∷ name ∷ thread_id ∷ new_line ∷ date_time ∷ file_name ∷ line ∷ tab
    ∷ fiber_id ∷ thread_name ∷ []

abbrev pub find_letter : ℕ → List Kind → Option Kind
find_letter c [] = none
find_letter c (k ∷ ks) = let rest = find_letter c ks in if letter k == c then some k else rest

-- `s_format_items.find(str)`
pub find_kind : List ℕ → Option Kind
find_kind (c ∷ []) = find_letter c kinds
find_kind _ = none

pub data FormatItem : Type 0 where
  plain : List ℕ → FormatItem
  item : Kind → List ℕ → FormatItem

-- "%Y-%m-%d %H:%M:%S"
abbrev pub default_date : List ℕ
default_date =
    37 ∷ 89 ∷ 45 ∷ 37 ∷ 109 ∷ 45 ∷ 37 ∷ 100 ∷ 32 ∷ 37 ∷ 72 ∷ 58 ∷ 37 ∷ 77 ∷ 58 ∷ 37 ∷ 83 ∷ []

abbrev pub or_default : List ℕ → List ℕ
or_default [] = default_date
or_default (c ∷ cs) = c ∷ cs

-- The constructors of the items: only that of the date keeps its format.
pub new_item : Kind → List ℕ → FormatItem
new_item date_time fmt = item date_time (or_default fmt)
new_item k fmt = item k []

-- "<<error_format %" and ">>"
abbrev pub error_format : List ℕ → List ℕ
error_format str =
    60 ∷ 60 ∷ 101 ∷ 114 ∷ 114 ∷ 111 ∷ 114 ∷ 95 ∷ 102 ∷ 111 ∷ 114 ∷ 109 ∷ 97 ∷ 116 ∷ 32 ∷ 37 ∷ []
    ++ str
    ++ 62 ∷ 62 ∷ []

abbrev pub directive_item : Option Kind → List ℕ → List ℕ → FormatItem × Bool
directive_item none str fmt = (plain (error_format str), true)
directive_item (some k) str fmt = (new_item k fmt, false)

-- The item of a piece, and whether it is an error.
abbrev pub item_of : Piece → FormatItem × Bool
item_of (text s) = (plain s, false)
item_of (directive str fmt) = directive_item (find_kind str) str fmt

abbrev pub items_of : List Piece → List FormatItem
items_of [] = []
items_of (p ∷ ps) = (item_of p).0 ∷ items_of ps

abbrev pub any_error : List Piece → Bool
any_error [] = false
any_error (p ∷ ps) = (item_of p).1 || any_error ps

pub record Formatter : Type 0 where
  pub pattern : List ℕ
  pub items : List FormatItem
  pub error : Bool

-- `LogFormatter(pattern)`
pub init : List ℕ → Outcome Formatter
init pattern = parse_loop (length pattern) [] pattern >>= λ r.
    ok (record {
      pattern = pattern;
      items = items_of r.pieces;
      error = r.error || any_error r.pieces;
    })
