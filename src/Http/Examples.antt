-- ===== src/Http/Examples.antt =====
-- Header fields set and erased, messages written out and read as lines.
use server_framework.Base.{ℕ, ◌≡◌, ◌≢◌, refl, true, false, some, List, [], ◌∷◌, ◌++◌}
use server_framework.Base.Decimals.{decimal}
use server_framework.Http.{
  get, method_to_string, chars_to_method, less, folded, Field, find_field, put_field, HttpRequest,
  HttpResponse, status_line, dump_response, connection_line,
}
use server_framework.Http.Methods.{chars_to_method-method_to_string}
use server_framework.Http.Order.{IsOrdered}
use server_framework.Http.Fields.{put_field-Set}
use server_framework.Http.Reader.{read_lines}
use server_framework.Http.Lines.{field_lines, length_lines, read-dump_response}

-- "GETX"
chars_to_method-method_to_string_example : chars_to_method (method_to_string get ++ 88 ∷ []) ≡ get
chars_to_method-method_to_string_example = chars_to_method-method_to_string get (88 ∷ []) tt

-- "Host: a" and "X: b"
abbrev fields : List Field
fields =
    record { key = 72 ∷ 111 ∷ 115 ∷ 116 ∷ []; val = 97 ∷ [] }
    ∷ record { key = 88 ∷ []; val = 98 ∷ [] }
    ∷ []

fields-IsOrdered : IsOrdered fields
unfolding less
fields-IsOrdered = ((refl, tt), (tt, tt))

-- "HOST" is "Host".
put_field-Set_example :
    IsOrdered (put_field (72 ∷ 79 ∷ 83 ∷ 84 ∷ []) (99 ∷ []) fields)
    × (folded (72 ∷ 111 ∷ 115 ∷ 116 ∷ []) ≡ folded (72 ∷ 79 ∷ 83 ∷ 84 ∷ [])
        → find_field
            (72 ∷ 111 ∷ 115 ∷ 116 ∷ [])
            (put_field (72 ∷ 79 ∷ 83 ∷ 84 ∷ []) (99 ∷ []) fields)
          ≡ some (99 ∷ []))
    × (folded (72 ∷ 111 ∷ 115 ∷ 116 ∷ []) ≢ folded (72 ∷ 79 ∷ 83 ∷ 84 ∷ [])
        → find_field
            (72 ∷ 111 ∷ 115 ∷ 116 ∷ [])
            (put_field (72 ∷ 79 ∷ 83 ∷ 84 ∷ []) (99 ∷ []) fields)
          ≡ find_field (72 ∷ 111 ∷ 115 ∷ 116 ∷ []) fields)
put_field-Set_example =
    put_field-Set (72 ∷ 79 ∷ 83 ∷ 84 ∷ []) (99 ∷ []) (72 ∷ 111 ∷ 115 ∷ 116 ∷ []) fields
      fields-IsOrdered

abbrev request : HttpRequest
request = record {
  method = get;
  version = 17;
  close = false;
  path = 47 ∷ [];
  query = 113 ∷ [];
  fragment = [];
  body = 104 ∷ 105 ∷ [];
  headers = fields;
  params = [];
  cookies = [];
}

abbrev response : HttpResponse
response = record {
  status = 404;
  version = 17;
  close = true;
  body = [];
  reason = 78 ∷ 111 ∷ [];
  headers = fields;
}

read-dump_response_example :
    ◌≡◌ {A = List (List ℕ) × List ℕ} (read_lines false [] (dump_response response)) (
      status_line response ∷ field_lines (58 ∷ 32 ∷ []) fields
          ++ connection_line true ∷ length_lines [],
      [],
    )
unfolding decimal
read-dump_response_example = read-dump_response response refl ((refl, refl), ((refl, refl), tt))
