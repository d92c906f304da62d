-- ===== src/Http/Lines.antt =====
-- What a request or a response that is written out reads as, line by line.
use server_framework.Base.{
  append_assoc, ℕ, zero, suc, ◌+◌, ◌/◌, ◌%◌, ◌≡◌, refl, sym, ap, ◌∙◌, Bool, true, false, Bool-cases,
  ltb, ne→==, if◌then◌else◌, List, [], ◌∷◌, ◌++◌, length, All, arith, inl, inr,
}
use server_framework.Base.Decimals.{decimal, to_decimal}
use server_framework.Http.{
  Field, crlf, connection_line, content_length, is_connection, dump_fields, dump_body, HttpRequest,
  request_line, dump_request, HttpResponse, status_line, dump_response,
}
use server_framework.Http.Reader.{
  read_lines, IsLine, IsFullLine, unlines, no_return-append, read_unlines,
}

-- The lines of the fields that are written.
abbrev pub field_lines : List ℕ → List Field → List (List ℕ)
field_lines colon [] = []
field_lines colon (e ∷ es) =
    let rest = field_lines colon es in
    if is_connection e.key then rest else ((e.key ++ (colon ++ e.val)) ∷ rest)

abbrev pub length_lines : List ℕ → List (List ℕ)
length_lines [] = []
length_lines (c ∷ cs) = (content_length ++ to_decimal (length (c ∷ cs))) ∷ []

digit-IsLine : (n : ℕ) → IsLine ((48 + n) ∷ [])
digit-IsLine n = rw (ne→== (48 + n) 13 (λ e. omega arith)) refl

decimal-IsLine : (fuel n : ℕ) → IsLine (decimal fuel n)
unfolding decimal
decimal-IsLine zero n = refl
decimal-IsLine (suc fuel) n = elim (Bool-cases (ltb n 10)) [
  | inl e ↦ rw e (digit-IsLine n)
  | inr e ↦ rw e (
      no_return-append (decimal fuel (n / 10)) ((48 + n % 10) ∷ []) (decimal-IsLine fuel (n / 10))
        (digit-IsLine (n % 10)))
]

-- A field whose key and value hold no carriage return.
abbrev pub IsSafe : Field → Type 0
IsSafe e = IsLine e.key × IsLine e.val

IsFullLine-colon :
    (key val : List ℕ) (c : ℕ) (colon : List ℕ)
    → IsLine key
    → IsLine (c ∷ colon)
    → IsLine val
    → IsFullLine (key ++ ((c ∷ colon) ++ val))
IsFullLine-colon [] val c colon k d v = no_return-append (c ∷ colon) val d v
IsFullLine-colon (x ∷ xs) val c colon k d v =
    no_return-append (x ∷ xs) ((c ∷ colon) ++ val) k (no_return-append (c ∷ colon) val d v)

field_lines-IsFullLine :
    (c : ℕ) (colon : List ℕ) (es : List Field)
    → IsLine (c ∷ colon)
    → All IsSafe es
    → All IsFullLine (field_lines (c ∷ colon) es)
field_lines-IsFullLine c colon [] d h = tt
field_lines-IsFullLine c colon (e ∷ es) d h =
    let rest = field_lines-IsFullLine c colon es d h.1 in
    elim (Bool-cases (is_connection e.key)) [
      | inl y ↦ rw y rest
      | inr n ↦ rw n (IsFullLine-colon e.key e.val c colon h.0.0 d h.0.1, rest)
    ]

regroup :
    (k colon v x r : List ℕ) → (k ++ (colon ++ (v ++ x))) ++ r ≡ (k ++ (colon ++ v)) ++ (x ++ r)
regroup k colon v x r = simp (append_assoc)

-- The fields as they are written, in front of `rest`.
dump_fields-lines :
    (colon : List ℕ) (es : List Field) (ls : List (List ℕ)) (rest : List ℕ)
    → dump_fields colon es ++ (unlines ls ++ rest) ≡ unlines (field_lines colon es ++ ls) ++ rest
unfolding dump_fields
dump_fields-lines colon [] ls rest = refl
dump_fields-lines colon (e ∷ es) ls rest = elim (Bool-cases (is_connection e.key)) [
  | inl y ↦ rw y (dump_fields-lines colon es ls rest)
  | inr n ↦ rw n (
      regroup e.key colon e.val (crlf ++ dump_fields colon es) (unlines ls ++ rest)
      ∙ ap (λ z. (e.key ++ (colon ++ e.val)) ++ (crlf ++ z)) (dump_fields-lines colon es ls rest)
      ∙ sym (
          append_assoc (e.key ++ (colon ++ e.val)) (crlf ++ unlines (field_lines colon es ++ ls))
            rest))
]

line_front :
    (l : List ℕ) (ls : List (List ℕ)) (rest : List ℕ)
    → l ++ (crlf ++ (unlines ls ++ rest)) ≡ unlines (l ∷ ls) ++ rest
line_front l ls rest = sym (append_assoc l (crlf ++ unlines ls) rest)

-- The body as it is written: the line with its length, an empty line, and the body.
dump_body-lines : (body : List ℕ) → dump_body body ≡ unlines (length_lines body) ++ body
dump_body-lines [] = refl
dump_body-lines (c ∷ cs) = simp (append_assoc)

length_lines-IsFullLine : (body : List ℕ) → All IsFullLine (length_lines body)
unfolding decimal
length_lines-IsFullLine [] = tt
length_lines-IsFullLine (c ∷ cs) = (
  no_return-append content_length (to_decimal (length (c ∷ cs))) refl
      (decimal-IsLine 20 (length (c ∷ cs))),
  tt,
)

All-append-lines :
    (ls ms : List (List ℕ)) → All IsFullLine ls → All IsFullLine ms → All IsFullLine (ls ++ ms)
All-append-lines [] ms h k = k
All-append-lines (l ∷ ls) ms h k = (h.0, All-append-lines ls ms h.1 k)

connection_line-IsFullLine : (b : Bool) → IsFullLine (connection_line b)
connection_line-IsFullLine true = refl
connection_line-IsFullLine false = refl

pub read-dump_request :
    (r : HttpRequest)
    → IsFullLine (request_line r)
    → All IsSafe r.headers
    → ◌≡◌ {A = List (List ℕ) × List ℕ} (read_lines false [] (dump_request r)) (
      request_line r ∷ connection_line r.close ∷ field_lines (58 ∷ []) r.headers
          ++ length_lines r.body,
      r.body,
    )
unfolding dump_request
read-dump_request r line safe =
    let fields = field_lines (58 ∷ []) r.headers ++ length_lines r.body in
    let written : dump_request r
        ≡ unlines (request_line r ∷ connection_line r.close ∷ fields) ++ r.body =
      ap (λ z. request_line r ++ (crlf ++ (connection_line r.close ++ (crlf ++ z))))
        (ap (λ z. dump_fields (58 ∷ []) r.headers ++ z) (dump_body-lines r.body)
          ∙ dump_fields-lines (58 ∷ []) r.headers (length_lines r.body) r.body)
      ∙ ap (λ z. request_line r ++ (crlf ++ z)) (line_front (connection_line r.close) fields r.body)
      ∙ line_front (request_line r) (connection_line r.close ∷ fields) r.body in
    ap (read_lines false []) written
    ∙ read_unlines (request_line r ∷ connection_line r.close ∷ fields) r.body (
      line,
      (
        connection_line-IsFullLine r.close,
        All-append-lines (field_lines (58 ∷ []) r.headers) (length_lines r.body)
            (field_lines-IsFullLine 58 [] r.headers refl safe) (length_lines-IsFullLine r.body),
      ),
    )

-- A response whose status line and fields hold no carriage return reads back, line by line, as
-- the status line, its fields but for `connection`, one line for the connection, the length of
-- the body if there is one, an empty line, and the body.
pub read-dump_response :
    (r : HttpResponse)
    → IsFullLine (status_line r)
    → All IsSafe r.headers
    → ◌≡◌ {A = List (List ℕ) × List ℕ} (read_lines false [] (dump_response r)) (
      status_line r ∷ field_lines (58 ∷ 32 ∷ []) r.headers
          ++ connection_line r.close ∷ length_lines r.body,
      r.body,
    )
unfolding dump_response
read-dump_response r line safe =
    let last = connection_line r.close ∷ length_lines r.body in
    let fields = field_lines (58 ∷ 32 ∷ []) r.headers ++ last in
    let written : dump_response r ≡ unlines (status_line r ∷ fields) ++ r.body =
      ap (λ z. status_line r ++ (crlf ++ z))
        (ap (λ z. dump_fields (58 ∷ 32 ∷ []) r.headers ++ z)
            (ap (λ z. connection_line r.close ++ (crlf ++ z)) (dump_body-lines r.body)
              ∙ line_front (connection_line r.close) (length_lines r.body) r.body)
          ∙ dump_fields-lines (58 ∷ 32 ∷ []) r.headers last r.body)
      ∙ line_front (status_line r) fields r.body in
    ap (read_lines false []) written
    ∙ read_unlines (status_line r ∷ fields) r.body (
      line,
      All-append-lines (field_lines (58 ∷ 32 ∷ []) r.headers) last
          (field_lines-IsFullLine 58 (32 ∷ []) r.headers refl safe)
          (connection_line-IsFullLine r.close, length_lines-IsFullLine r.body),
    )
