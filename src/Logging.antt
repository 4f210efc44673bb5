-- ===== src/Logging.antt =====
-- src/logging.h, logging.cpp: the production log: a history of the latest records, which is written
-- to a file when a record of a certain level is met, with the records that follow, and the terminal.
pub mod Laws
pub mod Terminal
use Prim.Native.String.{String}
use mtb_daemon.Base.{
  ℕ, zero, suc, ◌-◌, Bool, true, false, not, ◌&&◌, Option, none, some, List, [], ◌∷◌, ◌++◌, ltb,
  leb, ◌==◌, if◌then◌else◌, length, drop,
}

-- LogRecord, without the time.
pub record LogRecord : Type 0 where
  pub message : String
  pub loglevel : ℕ

-- What is put into a stream: texts, the manipulators of termcolor, and std::endl.
pub data Part : Type 0 where
  text : String → Part
  bold : Part
  red : Part
  yellow : Part
  cyan : Part
  magenta : Part
  reset : Part
  end_line : Part

-- Logger with Logger::Prod and the history, the oldest record first. `file` holds what was written to the open
-- file, `closed` the files that were closed, the latest first; `terminal` what was put out; `undefined` tells that back() of an
-- empty history was read.
pub record Logger : Type 0 where
  pub loglevel : ℕ
  pub enabled : Bool
  pub terminal : List Part
  pub prod_level : ℕ
  pub history : ℕ
  pub future : ℕ
  pub detect_level : ℕ
  pub remaining : ℕ
  pub file : Option (List LogRecord)
  pub log_history : List LogRecord
  pub closed : List (List LogRecord)
  pub undefined : Bool

unfoldable pub back : List LogRecord → Option LogRecord
back [] = none
back (r ∷ []) = some r
back (r ∷ q ∷ rs) = back (q ∷ rs)

-- Assigning nullptr to the file closes it.
unfoldable pub close_written : Option (List LogRecord) → Logger → Logger
close_written none l = l
close_written (some written) l = record l { file = none; closed = written ∷ l.closed }

unfoldable pub close_file : Logger → Logger
close_file l = close_written l.file l

-- Whether the file opens is outside of the program.
unfoldable pub prod_init : Bool → Logger → Logger
prod_init opens l =
    if opens then record (close_file l) { file = some l.log_history } else close_file l

unfoldable pub remember : LogRecord → Logger → Logger
remember r l =
    let longer = l.log_history ++ r ∷ [] in
    record l { log_history = if ltb l.history (length longer) then drop 1 longer else longer }

-- The record at the back of the history, written to the open file.
unfoldable pub write_back : Option LogRecord → Option (List LogRecord) → Logger → Logger
write_back r none l = l
write_back none (some written) l = record l { undefined = true }
write_back (some r) (some written) l = record l { file = some (written ++ r ∷ []) }

unfoldable pub count_down : Logger → Logger
count_down l =
    let left = record l { remaining = l.remaining - 1 } in
    if l.remaining - 1 == 0 then close_file left else left

unfoldable pub follow : Logger → Logger
follow l = count_down (write_back (back l.log_history) l.file l)

unfoldable pub detect : Bool → Logger → Logger
detect opens l =
    let ready = if ltb 0 l.remaining then l else prod_init opens l in
    record ready { remaining = l.future }

-- The three parts of prodLog.
unfoldable pub keep_record : LogRecord → Logger → Logger
keep_record r l = if leb r.loglevel l.prod_level then remember r l else l

unfoldable pub follow_record : LogRecord → Logger → Logger
follow_record r l = if ltb 0 l.remaining && leb r.loglevel l.prod_level then follow l else l

unfoldable pub detect_record : Bool → LogRecord → Logger → Logger
detect_record opens r l = if leb r.loglevel l.detect_level then detect opens l else l

unfoldable pub prod_log : Bool → LogRecord → Logger → Logger
prod_log opens r l = detect_record opens r (follow_record r (keep_record r l))
