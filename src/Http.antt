-- ===== src/Http.antt =====
-- captain/http/http.cpp, captain/http/http.h: requests and responses, their maps of header fields, and
-- how they are written out. A string is the list of its bytes.
mod Methods
pub mod Statuses
mod Order
mod Fields
mod Reader
mod Lines
mod Examples
use server_framework.Base.{
  ℕ, zero, suc, ◌+◌, ◌*◌, ◌/◌, ◌%◌, Bool, true, false, not, leb, ltb, ◌==◌, ◌&&◌, ◌||◌,
  if◌then◌else◌, Option, none, some, List, [], ◌∷◌, ◌++◌, length, map,
}
use server_framework.Base.Decimals.{to_decimal}
use server_framework.Http.Statuses.{status_to_string}

pub data HttpMethod : Type 0 where
  delete get head post put connect options trace copy lock mkcol move propfind proppatch search
        unlock bind rebind unbind acl report mkactivity checkout merge msearch notify subscribe
        unsubscribe patch purge mkcalendar link unlink source invalid_method :
      HttpMethod

-- `s_method_string`, and what lies beyond it.
pub method_to_string : HttpMethod → List ℕ
method_to_string delete = 68 ∷ 69 ∷ 76 ∷ 69 ∷ 84 ∷ 69 ∷ []
method_to_string get = 71 ∷ 69 ∷ 84 ∷ []
method_to_string head = 72 ∷ 69 ∷ 65 ∷ 68 ∷ []
method_to_string post = 80 ∷ 79 ∷ 83 ∷ 84 ∷ []
method_to_string put = 80 ∷ 85 ∷ 84 ∷ []
method_to_string connect = 67 ∷ 79 ∷ 78 ∷ 78 ∷ 69 ∷ 67 ∷ 84 ∷ []
method_to_string options = 79 ∷ 80 ∷ 84 ∷ 73 ∷ 79 ∷ 78 ∷ 83 ∷ []
method_to_string trace = 84 ∷ 82 ∷ 65 ∷ 67 ∷ 69 ∷ []
method_to_string copy = 67 ∷ 79 ∷ 80 ∷ 89 ∷ []
method_to_string lock = 76 ∷ 79 ∷ 67 ∷ 75 ∷ []
method_to_string mkcol = 77 ∷ 75 ∷ 67 ∷ 79 ∷ 76 ∷ []
method_to_string move = 77 ∷ 79 ∷ 86 ∷ 69 ∷ []
method_to_string propfind = 80 ∷ 82 ∷ 79 ∷ 80 ∷ 70 ∷ 73 ∷ 78 ∷ 68 ∷ []
method_to_string proppatch = 80 ∷ 82 ∷ 79 ∷ 80 ∷ 80 ∷ 65 ∷ 84 ∷ 67 ∷ 72 ∷ []
method_to_string search = 83 ∷ 69 ∷ 65 ∷ 82 ∷ 67 ∷ 72 ∷ []
method_to_string unlock = 85 ∷ 78 ∷ 76 ∷ 79 ∷ 67 ∷ 75 ∷ []
method_to_string bind = 66 ∷ 73 ∷ 78 ∷ 68 ∷ []
method_to_string rebind = 82 ∷ 69 ∷ 66 ∷ 73 ∷ 78 ∷ 68 ∷ []
method_to_string unbind = 85 ∷ 78 ∷ 66 ∷ 73 ∷ 78 ∷ 68 ∷ []
method_to_string acl = 65 ∷ 67 ∷ 76 ∷ []
method_to_string report = 82 ∷ 69 ∷ 80 ∷ 79 ∷ 82 ∷ 84 ∷ []
method_to_string mkactivity = 77 ∷ 75 ∷ 65 ∷ 67 ∷ 84 ∷ 73 ∷ 86 ∷ 73 ∷ 84 ∷ 89 ∷ []
method_to_string checkout = 67 ∷ 72 ∷ 69 ∷ 67 ∷ 75 ∷ 79 ∷ 85 ∷ 84 ∷ []
method_to_string merge = 77 ∷ 69 ∷ 82 ∷ 71 ∷ 69 ∷ []
method_to_string msearch = 77 ∷ 45 ∷ 83 ∷ 69 ∷ 65 ∷ 82 ∷ 67 ∷ 72 ∷ []
method_to_string notify = 78 ∷ 79 ∷ 84 ∷ 73 ∷ 70 ∷ 89 ∷ []
method_to_string subscribe = 83 ∷ 85 ∷ 66 ∷ 83 ∷ 67 ∷ 82 ∷ 73 ∷ 66 ∷ 69 ∷ []
method_to_string unsubscribe = 85 ∷ 78 ∷ 83 ∷ 85 ∷ 66 ∷ 83 ∷ 67 ∷ 82 ∷ 73 ∷ 66 ∷ 69 ∷ []
method_to_string patch = 80 ∷ 65 ∷ 84 ∷ 67 ∷ 72 ∷ []
method_to_string purge = 80 ∷ 85 ∷ 82 ∷ 71 ∷ 69 ∷ []
method_to_string mkcalendar = 77 ∷ 75 ∷ 67 ∷ 65 ∷ 76 ∷ 69 ∷ 78 ∷ 68 ∷ 65 ∷ 82 ∷ []
method_to_string link = 76 ∷ 73 ∷ 78 ∷ 75 ∷ []
method_to_string unlink = 85 ∷ 78 ∷ 76 ∷ 73 ∷ 78 ∷ 75 ∷ []
method_to_string source = 83 ∷ 79 ∷ 85 ∷ 82 ∷ 67 ∷ 69 ∷ []
method_to_string invalid_method = 60 ∷ 117 ∷ 110 ∷ 107 ∷ 110 ∷ 111 ∷ 119 ∷ 110 ∷ 62 ∷ []

abbrev pub methods : List HttpMethod
methods =
    delete ∷ get ∷ head ∷ post ∷ put ∷ connect ∷ options ∷ trace ∷ copy ∷ lock ∷ mkcol ∷ move
    ∷ propfind ∷ proppatch ∷ search ∷ unlock ∷ bind ∷ rebind ∷ unbind ∷ acl ∷ report ∷ mkactivity
    ∷ checkout ∷ merge ∷ msearch ∷ notify ∷ subscribe ∷ unsubscribe ∷ patch ∷ purge ∷ mkcalendar
    ∷ link ∷ unlink ∷ source ∷ []

-- `strcmp` of strings without a zero byte: are they the same?
pub same_bytes : List ℕ → List ℕ → Bool
same_bytes [] [] = true
same_bytes [] (y ∷ ys) = false
same_bytes (x ∷ xs) [] = false
same_bytes (x ∷ xs) (y ∷ ys) = (x == y) && same_bytes xs ys

-- `strncmp(s, m, strlen(s)) == 0`
pub is_prefix : List ℕ → List ℕ → Bool
is_prefix [] m = true
is_prefix (x ∷ xs) [] = false
is_prefix (x ∷ xs) (y ∷ ys) = (x == y) && is_prefix xs ys

abbrev pub first_method : (List ℕ → Bool) → List HttpMethod → HttpMethod
first_method matches [] = invalid_method
first_method matches (m ∷ ms) =
    let rest = first_method matches ms in if matches (method_to_string m) then m else rest

-- `StringToHttpMethod`
pub string_to_method : List ℕ → HttpMethod
string_to_method s = first_method (λ name. same_bytes name s) methods

-- `CharsToHttpMethod`: a prefix is enough.
pub chars_to_method : List ℕ → HttpMethod
chars_to_method s = first_method (λ name. is_prefix name s) methods

-- `tolower` in the C locale.
abbrev pub lower : ℕ → ℕ
lower c = if leb 65 c && leb c 90 then c + 32 else c

-- A string for a comparison that ignores case.
abbrev pub folded : List ℕ → List ℕ
folded = map lower

-- `strcmp(a, b) < 0`, for strings without a zero byte.
pub less : List ℕ → List ℕ → Bool
less a [] = false
less [] (y ∷ ys) = true
less (x ∷ xs) (y ∷ ys) =
    let rest = less xs ys in if ltb x y then true else (if ltb y x then false else rest)

-- `CaseInsensitiveLess`: `strcasecmp(a, b) < 0`
abbrev pub case_less : List ℕ → List ℕ → Bool
case_less a b = less (folded a) (folded b)

pub record Field : Type 0 where
  pub key : List ℕ
  pub val : List ℕ

-- `find` of a `MapType`, which is ordered by its keys: the first entry whose key is not less, if the
-- key that is looked up is not less either.
pub find_field : List ℕ → List Field → Option (List ℕ)
find_field key [] = none
find_field key (e ∷ es) =
    let rest = find_field key es in
    if case_less e.key key then rest else (if case_less key e.key then none else some e.val)

-- `m[key] = val`: a key that is there stays as it is spelled.
pub put_field : List ℕ → List ℕ → List Field → List Field
put_field key val [] = record { key = key; val = val } ∷ []
put_field key val (e ∷ es) =
    let rest = put_field key val es in
    if case_less e.key key
    then e ∷ rest
    else (if case_less key e.key
        then record { key = key; val = val } ∷ e ∷ es
        else record e { val = val } ∷ es)

-- `m.erase(key)`
pub erase_field : List ℕ → List Field → List Field
erase_field key [] = []
erase_field key (e ∷ es) =
    let rest = erase_field key es in
    if case_less e.key key then e ∷ rest else (if case_less key e.key then e ∷ es else es)

-- `getHeader`, `getParam` and `getCookie`
pub get_or : List ℕ → List ℕ → List Field → List ℕ
get_or key def m = elim (find_field key m) [ none ↦ def | some v ↦ v ]

abbrev pub crlf : List ℕ
crlf = 13 ∷ 10 ∷ []

-- "connection"
abbrev pub connection : List ℕ
connection = 99 ∷ 111 ∷ 110 ∷ 110 ∷ 101 ∷ 99 ∷ 116 ∷ 105 ∷ 111 ∷ 110 ∷ []

-- "connection: close" or "connection: keep-alive"
abbrev pub connection_line : Bool → List ℕ
connection_line true =
    99 ∷ 111 ∷ 110 ∷ 110 ∷ 101 ∷ 99 ∷ 116 ∷ 105 ∷ 111 ∷ 110 ∷ 58 ∷ 32 ∷ 99 ∷ 108 ∷ 111 ∷ 115 ∷ 101
    ∷ []
connection_line false =
    99 ∷ 111 ∷ 110 ∷ 110 ∷ 101 ∷ 99 ∷ 116 ∷ 105 ∷ 111 ∷ 110 ∷ 58 ∷ 32 ∷ 107 ∷ 101 ∷ 101 ∷ 112 ∷ 45
    ∷ 97 ∷ 108 ∷ 105 ∷ 118 ∷ 101 ∷ []

-- "content-length: "
abbrev pub content_length : List ℕ
content_length =
    99 ∷ 111 ∷ 110 ∷ 116 ∷ 101 ∷ 110 ∷ 116 ∷ 45 ∷ 108 ∷ 101 ∷ 110 ∷ 103 ∷ 116 ∷ 104 ∷ 58 ∷ 32 ∷ []

-- "HTTP/"
abbrev pub http_slash : List ℕ
http_slash = 72 ∷ 84 ∷ 84 ∷ 80 ∷ 47 ∷ []

-- `HTTP/1.1`
abbrev pub version_text : ℕ → List ℕ
version_text v = http_slash ++ to_decimal (v / 16) ++ 46 ∷ to_decimal (v % 16)

-- `strcasecmp(key, "connection") == 0`
abbrev pub is_connection : List ℕ → Bool
is_connection key = not (case_less key connection) && not (case_less connection key)

-- The loop over the header fields; `colon` is what stands between key and value.
pub dump_fields : List ℕ → List Field → List ℕ
dump_fields colon [] = []
dump_fields colon (e ∷ es) =
    let rest = dump_fields colon es in
    if is_connection e.key then rest else (e.key ++ (colon ++ (e.val ++ (crlf ++ rest))))

-- A part of the request line behind its mark, or nothing.
abbrev pub marked : ℕ → List ℕ → List ℕ
marked mark [] = []
marked mark (c ∷ cs) = mark ∷ c ∷ cs

abbrev pub dump_body : List ℕ → List ℕ
dump_body [] = crlf
dump_body (c ∷ cs) = content_length ++ (to_decimal (length (c ∷ cs)) ++ (crlf ++ (crlf ++ c ∷ cs)))

pub record HttpRequest : Type 0 where
  pub method : HttpMethod
  pub version : ℕ
  pub close : Bool
  pub path : List ℕ
  pub query : List ℕ
  pub fragment : List ℕ
  pub body : List ℕ
  pub headers : List Field
  pub params : List Field
  pub cookies : List Field

-- `HttpRequest(version, close)`
pub new_request : ℕ → Bool → HttpRequest
new_request version close = record {
  method = get;
  version = version;
  close = close;
  path = 47 ∷ [];
  query = [];
  fragment = [];
  body = [];
  headers = [];
  params = [];
  cookies = [];
}

abbrev pub request_line : HttpRequest → List ℕ
request_line r =
    method_to_string r.method
    ++ 32 ∷ r.path
    ++ marked 63 r.query
    ++ marked 35 r.fragment
    ++ 32 ∷ version_text r.version

-- `HttpRequest::dump`
pub dump_request : HttpRequest → List ℕ
dump_request r =
    request_line r
    ++ (crlf
        ++ (connection_line r.close
            ++ (crlf ++ (dump_fields (58 ∷ []) r.headers ++ dump_body r.body))))

pub record HttpResponse : Type 0 where
  pub status : ℕ
  pub version : ℕ
  pub close : Bool
  pub body : List ℕ
  pub reason : List ℕ
  pub headers : List Field

-- `HttpResponse(version, close)`
pub new_response : ℕ → Bool → HttpResponse
new_response version close = record {
  status = 200;
  version = version;
  close = close;
  body = [];
  reason = [];
  headers = [];
}

-- The reason that is set, or the phrase of the status.
abbrev pub reason_or : List ℕ → ℕ → List ℕ
reason_or [] status = status_to_string status
reason_or (c ∷ cs) status = c ∷ cs

abbrev pub status_line : HttpResponse → List ℕ
status_line r =
    version_text r.version ++ 32 ∷ to_decimal r.status ++ 32 ∷ reason_or r.reason r.status

-- `HttpResponse::dump`
pub dump_response : HttpResponse → List ℕ
dump_response r =
    status_line r
    ++ (crlf
        ++ (dump_fields (58 ∷ 32 ∷ []) r.headers
            ++ (connection_line r.close ++ (crlf ++ dump_body r.body))))
