-- ===== src/Sessions/Body.antt =====
-- The body of a request is the bytes that follow its head, however they arrive.
use server_framework.Base.{
  ℕ, ◌+◌, ◌≡◌, Bool, true, false, ◌≤◌, ◌^◌, ◌⊎◌, Option, none, some, List, ◌++◌, length, Outcome,
  ok,
}
use server_framework.Streams.{Count, read_fix_size}
use server_framework.Streams.FixSize.{Stopped}
use server_framework.Sessions.{read_body, body_length, take_body}
use server_framework.Sessions.Receiving.{Fed, Cause}

module _ {S P : Type 0} (read : S → ℕ → Option (List ℕ) × S) (execute : P → List ℕ → ℕ × P)
    (has_error is_finished : P → Bool) (content_length : P → ℕ) (pending : S → List ℕ) where
  abbrev take_it : P → List ℕ → S → Outcome (Option (P × List ℕ) × S)
  take_it = take_body read execute has_error is_finished content_length

  -- So much of the body is there, in front of what is still to come.
  abbrev Filled : ℕ → List ℕ → ℕ → S × List ℕ → Type 0
  Filled there whole offset (s, body) = (length body ≡ there + offset) × (whole ≡ body ++ pending s)

  -- `readFixSize` returned 0 or less: it came to its end before the body was whole, or what it read is
  -- more than an `int` holds.
  pub data IsShort (p : P) : Type 0 where
    short :
        (s t : S × List ℕ) (n : ℕ) (c : Count)
        → read_fix_size (read_body read execute has_error is_finished content_length) s n
          ≡ ok (c, t)
        → Stopped c
        → IsShort p
    cut : 2 ^ 31 ≤ content_length p → IsShort p

  -- The session closed, or the body has its length and `rest` follows it.
  abbrev pub Bodied : P → List ℕ → Option (P × List ℕ) × S → Type 0
  Bodied p whole r =
      ((r.0 ≡ none) × IsShort p)
      ⊎ ((body rest : List ℕ) × (r.0 ≡ some (p, body))
          × (whole ≡ body ++ rest)
          × (length body
              ≡ body_length read execute has_error is_finished content_length (content_length p)))

  -- What the bytes that come hold: a head that the parser has parsed to its end, the body, and a rest.
  abbrev pub Requested : ℕ → P → List ℕ → Option (P × List ℕ) × S → Type 0
  Requested size p whole r =
      ((r.0 ≡ none)
        × (Cause read execute has_error is_finished content_length pending size p
            ⊎ ((q : P) × IsShort q)))
      ⊎ ((q : P) × (head body rest : List ℕ) × (r.0 ≡ some (q, body))
          × Fed read execute has_error is_finished content_length pending p q head
          × (has_error q ≡ false)
          × (is_finished q ≡ true)
          × (whole ≡ head ++ (body ++ rest))
          × (length body
              ≡ body_length read execute has_error is_finished content_length (content_length q)))
