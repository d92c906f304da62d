-- ===== src/Log/Examples.antt =====
-- Patterns read.
use server_framework.Base.{ℕ, ◌≡◌, refl, true, List, [], ◌∷◌, ◌++◌, ok}
use server_framework.Log.{init, level, date_time, percent, plain, error_format}
use server_framework.Log.Pieces.{Segment}
use server_framework.Log.RoundTrip.{init-percent}
use server_framework.Log.Format.{LogEvent}

-- "[%p{}] " , "%m{}" and "!"
abbrev two_segments : List Segment
two_segments =
    record { before = 91 ∷ []; kind = level; fmt = [] }
    ∷ record { before = 93 ∷ 32 ∷ []; kind = date_time; fmt = 37 ∷ 89 ∷ [] }
    ∷ []

init-percent_example :
    init ((65 ∷ []) ++ percent ∷ percent ∷ [])
    ≡ ok (record {
      pattern = (65 ∷ []) ++ percent ∷ percent ∷ [];
      items = plain ((65 ∷ []) ++ percent ∷ []) ∷ plain (error_format []) ∷ [];
      error = true;
    })
init-percent_example = init-percent (65 ∷ []) (refl, tt)

abbrev event : LogEvent
event = record {
  content = 104 ∷ 105 ∷ [];
  level_name = 73 ∷ [];
  elapse_of = 0;
  logger_name = [];
  thread_id_of = 7;
  time = 3;
  file = [];
  line_of = 12;
  fiber_id_of = 0;
  thread_name_of = [];
}

abbrev year_only : List ℕ → ℕ → List ℕ
year_only fmt time = 49 ∷ 57 ∷ []
