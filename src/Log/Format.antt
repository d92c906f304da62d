-- ===== src/Log/Format.antt =====
-- captain/log.cpp: what the items of a formatter write of an event.
-- The text of a time in a format, which `localtime_r` and `strftime` make, is a parameter.
use server_framework.Base.{ℕ, List, [], ◌∷◌, ◌++◌}
use server_framework.Base.Decimals.{to_decimal}
use server_framework.Log.{
  Kind, message, level, elapse, name, thread_id, new_line, date_time, file_name, line, tab,
  fiber_id, thread_name, FormatItem, plain, item, or_default,
}
use server_framework.Log.Pieces.{Segment}

pub record LogEvent : Type 0 where
  pub content : List ℕ
  pub level_name : List ℕ
  pub elapse_of : ℕ
  pub logger_name : List ℕ
  pub thread_id_of : ℕ
  pub time : ℕ
  pub file : List ℕ
  pub line_of : ℕ
  pub fiber_id_of : ℕ
  pub thread_name_of : List ℕ

module _ (time_text : List ℕ → ℕ → List ℕ) (e : LogEvent) where
  -- `format` of an item of each class.
  pub write_kind : Kind → List ℕ → List ℕ
  write_kind message fmt = e.content
  write_kind level fmt = e.level_name
  write_kind elapse fmt = to_decimal e.elapse_of
  write_kind name fmt = e.logger_name
  write_kind thread_id fmt = to_decimal e.thread_id_of
  write_kind new_line fmt = 10 ∷ []
  write_kind date_time fmt = time_text fmt e.time
  write_kind file_name fmt = e.file
  write_kind line fmt = to_decimal e.line_of
  write_kind tab fmt = 9 ∷ []
  write_kind fiber_id fmt = to_decimal e.fiber_id_of
  write_kind thread_name fmt = e.thread_name_of

  abbrev pub write_item : FormatItem → List ℕ
  write_item (plain s) = s
  write_item (item k fmt) = write_kind k fmt

  -- The loop of `LogFormatter::format`.
  pub format : List FormatItem → List ℕ
  format [] = []
  format (i ∷ more) = write_item i ++ format more

  -- A text, then what the directive stands for, segment by segment.
  abbrev pub written : List Segment → List ℕ → List ℕ
  written [] last = last
  written (s ∷ segments) last =
      s.before ++ (write_kind s.kind (or_default s.fmt) ++ written segments last)
