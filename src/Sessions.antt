-- ===== src/Sessions.antt =====
-- captain/http/http_session.cpp: how a session receives a request.
-- The socket's `read` and the generated parser behind `execute`, `hasError`, `isFinished` and
-- `getContentLength` are parameters, on a state `S` of the socket and a state `P` of the parser. A
-- `read` that returns 0 or an error is `none`. A session that closes gives no request.
mod Receiving
mod Body
mod Examples
use server_framework.Base.{
  ℕ, zero, suc, ◌+◌, ◌-◌, Bool, leb, ltb, ◌^◌, ◌==◌, if◌then◌else◌, Option, none, some, List, [],
  ◌∷◌, ◌++◌, length, take, drop, Outcome, ok, fail, out_of_fuel, ◌>>=◌,
}
use server_framework.Streams.{Count, bytes, error, read_fix_size}

-- What a round of the loop comes to, with the parser and the bytes that it left in the buffer.
pub data Round (P : Type 0) : Type 0 where
  closed : Round P
  done again : P → List ℕ → Round P

-- The next round, where there is one.
abbrev pub if_again :
    {S P : Type 0}
    → Round P × S
    → (P → List ℕ → S → Outcome (Option (P × List ℕ) × S))
    → Outcome (Option (P × List ℕ) × S)
if_again (closed, s) next = ok (none, s)
if_again (done p left, s) next = ok (some (p, left), s)
if_again (again p left, s) next = next p left s

module _ {S P : Type 0} (read : S → ℕ → Option (List ℕ) × S) (execute : P → List ℕ → ℕ × P)
    (has_error is_finished : P → Bool) (content_length : P → ℕ) where
  -- Behind `execute`, in the order of the tests.
  abbrev pub judge : ℕ → P → List ℕ → Round P
  judge size p left =
      if has_error p
      then closed
      else (if length left == size
          then closed
          else (if is_finished p then done p left else again p left))

  -- `execute` moves what it did not parse to the front of the buffer.
  abbrev pub parse : ℕ → P → List ℕ → Round P
  parse size p buffer = let r = execute p buffer in judge size r.1 (drop r.0 buffer)

  abbrev pub if_read : ℕ → P → List ℕ → Option (List ℕ) × S → Round P × S
  if_read size p buffer (none, s) = (closed, s)
  if_read size p buffer (some bs, s) = (parse size p (buffer ++ bs), s)

  -- A round of the loop of `recvRequest`, with `buffer` in the space of `size` bytes.
  pub round : ℕ → P → List ℕ → S → Round P × S
  round size p buffer s = if_read size p buffer (read s (size - length buffer))

  pub recv_loop : ℕ → ℕ → P → List ℕ → S → Outcome (Option (P × List ℕ) × S)
  recv_loop zero size p buffer s = fail out_of_fuel
  recv_loop (suc fuel) size p buffer s =
      if_again (round size p buffer s) (λ q left t. recv_loop fuel size q left t)

  abbrev pub counted : Option (List ℕ) × S → List ℕ → Count × (S × List ℕ)
  counted (none, s) body = (error 0, (s, body))
  counted (some bs, s) body = (bytes (length bs), (s, body ++ bs))

  -- `read` at the end of the body, for `readFixSize`.
  pub read_body : S × List ℕ → ℕ → ℕ → Count × (S × List ℕ)
  read_body (s, body) offset left = counted (read s left) body

  -- `readFixSize(&body[len], length) <= 0`
  abbrev pub if_whole : P → Count × (S × List ℕ) → Outcome (Option (P × List ℕ) × S)
  if_whole p (error e, (s, body)) = ok (none, s)
  if_whole p (bytes zero, (s, body)) = ok (none, s)
  if_whole p (bytes (suc k), (s, body)) = ok (some (p, body), s)

  -- The length as an `int64_t`, where only one above 0 matters.
  abbrev pub body_length : ℕ → ℕ
  body_length n = if ltb n (2 ^ 63) then n else 0

  -- Behind the loop: the body is what is in the buffer, and what is still to be read.
  pub take_body : P → List ℕ → S → Outcome (Option (P × List ℕ) × S)
  take_body p left s =
      let n = body_length (content_length p) in
      let more = read_fix_size read_body (s, left) (n - length left) >>= λ r. if_whole p r in
      if leb n (length left) then ok (some (p, take n left), s) else more

  abbrev pub if_done : Option (P × List ℕ) × S → Outcome (Option (P × List ℕ) × S)
  if_done (none, s) = ok (none, s)
  if_done (some (p, left), s) = take_body p left s

  -- `recvRequest`: the parser with its request, and the body.
  pub recv_request : ℕ → ℕ → P → S → Outcome (Option (P × List ℕ) × S)
  recv_request fuel size p s = recv_loop fuel size p [] s >>= λ r. if_done r
