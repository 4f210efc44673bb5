-- ===== src/Logging/Terminal.antt =====
-- src/logging.cpp: a record on the terminal and as a line of a file (termLog, operator<<), and where
-- a message goes (log).
use Prim.Native.String.{String}
use mtb_daemon.Base.{ℕ, Bool, List, [], ◌∷◌, ◌++◌, ltb, ◌==◌, if◌then◌else◌}
use mtb_daemon.Logging.{
  Part, text, bold, red, yellow, cyan, magenta, reset, end_line, LogRecord, Logger, prod_log,
}

-- `switch` over the levels, with the same tags in termLog and operator<<.
unfoldable pub level_tag : ℕ → List Part
level_tag level =
    if level == 1
    then text "[ERROR] " ∷ []
    else if level == 2
    then text "[WARNING] " ∷ []
    else if level == 3
    then text "[info] " ∷ []
    else if level == 4
    then text "[command] " ∷ []
    else if level == 5
    then text "[raw-data] " ∷ []
    else if level == 6
    then text "[debug] " ∷ []
    else []

unfoldable pub level_style : ℕ → List Part
level_style level =
    if level == 1
    then bold ∷ red ∷ []
    else if level == 2
    then bold ∷ yellow ∷ []
    else if level == 3
    then bold ∷ []
    else if level == 5
    then cyan ∷ []
    else if level == 6
    then magenta ∷ []
    else []

-- operator<<, with the time of the record as a text.
unfoldable pub record_line : String → LogRecord → List Part
record_line time r =
    (text "[" ∷ text time ∷ text "] " ∷ level_tag r.loglevel) ++ text r.message ∷ end_line ∷ []

unfoldable pub term_line : String → LogRecord → List Part
term_line time r =
    let tagged = text "[" ∷ text time ∷ text "] " ∷ level_tag r.loglevel in
    level_style r.loglevel ++ tagged ++ text r.message ∷ reset ∷ end_line ∷ []

unfoldable pub term_log : String → LogRecord → Logger → Logger
term_log time r l =
    if ltb l.loglevel r.loglevel then l else record l { terminal = l.terminal ++ term_line time r }

-- Logger::log; `opens` tells whether a file that it begins can be opened.
unfoldable pub log : Bool → String → LogRecord → Logger → Logger
log opens time r l =
    let shown = term_log time r l in if l.enabled then prod_log opens r shown else shown
