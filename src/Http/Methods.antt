-- ===== src/Http/Methods.antt =====
-- The names of the methods, and how a method is read.
use server_framework.Base.{ℕ, ◌≡◌, refl, List, ◌++◌}
use server_framework.Http.{
  HttpMethod, delete, get, head, post, put, connect, options, trace, copy, lock, mkcol, move,
  propfind, proppatch, search, unlock, bind, rebind, unbind, acl, report, mkactivity, checkout,
  merge, msearch, notify, subscribe, unsubscribe, patch, purge, mkcalendar, link, unlink, source,
  invalid_method, method_to_string, same_bytes, is_prefix, string_to_method, chars_to_method,
}

string_to_method-method_to_string : (m : HttpMethod) → string_to_method (method_to_string m) ≡ m
unfolding string_to_method method_to_string same_bytes
string_to_method-method_to_string delete = refl
string_to_method-method_to_string get = refl
string_to_method-method_to_string head = refl
string_to_method-method_to_string post = refl
string_to_method-method_to_string put = refl
string_to_method-method_to_string connect = refl
string_to_method-method_to_string options = refl
string_to_method-method_to_string trace = refl
string_to_method-method_to_string copy = refl
string_to_method-method_to_string lock = refl
string_to_method-method_to_string mkcol = refl
string_to_method-method_to_string move = refl
string_to_method-method_to_string propfind = refl
string_to_method-method_to_string proppatch = refl
string_to_method-method_to_string search = refl
string_to_method-method_to_string unlock = refl
string_to_method-method_to_string bind = refl
string_to_method-method_to_string rebind = refl
string_to_method-method_to_string unbind = refl
string_to_method-method_to_string acl = refl
string_to_method-method_to_string report = refl
string_to_method-method_to_string mkactivity = refl
string_to_method-method_to_string checkout = refl
string_to_method-method_to_string merge = refl
string_to_method-method_to_string msearch = refl
string_to_method-method_to_string notify = refl
string_to_method-method_to_string subscribe = refl
string_to_method-method_to_string unsubscribe = refl
string_to_method-method_to_string patch = refl
string_to_method-method_to_string purge = refl
string_to_method-method_to_string mkcalendar = refl
string_to_method-method_to_string link = refl
string_to_method-method_to_string unlink = refl
string_to_method-method_to_string source = refl
string_to_method-method_to_string invalid_method = refl

abbrev pub IsNamed : HttpMethod → Type 0
IsNamed invalid_method = ⊥
IsNamed _ = Unit

-- `CharsToHttpMethod` of the name of a method, with anything behind it, is that method.
pub chars_to_method-method_to_string :
    (m : HttpMethod) (rest : List ℕ) → IsNamed m → chars_to_method (method_to_string m ++ rest) ≡ m
unfolding chars_to_method method_to_string is_prefix
chars_to_method-method_to_string delete rest h = refl
chars_to_method-method_to_string get rest h = refl
chars_to_method-method_to_string head rest h = refl
chars_to_method-method_to_string post rest h = refl
chars_to_method-method_to_string put rest h = refl
chars_to_method-method_to_string connect rest h = refl
chars_to_method-method_to_string options rest h = refl
chars_to_method-method_to_string trace rest h = refl
chars_to_method-method_to_string copy rest h = refl
chars_to_method-method_to_string lock rest h = refl
chars_to_method-method_to_string mkcol rest h = refl
chars_to_method-method_to_string move rest h = refl
chars_to_method-method_to_string propfind rest h = refl
chars_to_method-method_to_string proppatch rest h = refl
chars_to_method-method_to_string search rest h = refl
chars_to_method-method_to_string unlock rest h = refl
chars_to_method-method_to_string bind rest h = refl
chars_to_method-method_to_string rebind rest h = refl
chars_to_method-method_to_string unbind rest h = refl
chars_to_method-method_to_string acl rest h = refl
chars_to_method-method_to_string report rest h = refl
chars_to_method-method_to_string mkactivity rest h = refl
chars_to_method-method_to_string checkout rest h = refl
chars_to_method-method_to_string merge rest h = refl
chars_to_method-method_to_string msearch rest h = refl
chars_to_method-method_to_string notify rest h = refl
chars_to_method-method_to_string subscribe rest h = refl
chars_to_method-method_to_string unsubscribe rest h = refl
chars_to_method-method_to_string patch rest h = refl
chars_to_method-method_to_string purge rest h = refl
chars_to_method-method_to_string mkcalendar rest h = refl
chars_to_method-method_to_string link rest h = refl
chars_to_method-method_to_string unlink rest h = refl
chars_to_method-method_to_string source rest h = refl
chars_to_method-method_to_string invalid_method rest h = absurd h
