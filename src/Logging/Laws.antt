-- ===== src/Logging/Laws.antt =====
-- What the file of the production log holds (src/logging.cpp).
use mtb_daemon.Base.{
  ◌-◌, ◌<◌, ◌≤◌, ◌≡◌, refl, sym, subst, ap, ◌∙◌, true, false, none, some, List, [], ◌∷◌, ◌++◌, ltb,
  leb, ◌==◌, if◌then◌else◌, if_rule, length, drop, All, length-append, arith,
}
use mtb_daemon.Logging.{
  LogRecord, Logger, back, close_file, close_written, count_down, remember, write_back, follow,
  detect, prod_init, keep_record, follow_record, detect_record, prod_log,
}

-- A record that is kept but is no reason to write a file.
abbrev pub Plain : Logger → LogRecord → Type 0
Plain l r = (r.loglevel ≤ l.prod_level) × (l.detect_level < r.loglevel)

unfoldable pub log_all : List LogRecord → Logger → Logger
log_all [] l = l
log_all (r ∷ rs) l = log_all rs (prod_log true r l)

back-append : (rs : List LogRecord) (r : LogRecord) → back (rs ++ r ∷ []) ≡ some r
unfolding back
back-append [] r = refl
back-append (q ∷ []) r = refl
back-append (q ∷ p ∷ rs) r = back-append (p ∷ rs) r

back-drop :
    (hs : List LogRecord) (r : LogRecord) → 0 < length hs → back (drop 1 (hs ++ r ∷ [])) ≡ some r
back-drop [] r h = absurd (omega arith)
back-drop (q ∷ hs) r h = back-append hs r

-- The latest record is at the back of a history that holds records.
back-remember :
    (r : LogRecord) (l : Logger) → 0 < l.history → back (remember r l).log_history ≡ some r
unfolding remember
back-remember r l h =
    let total = length-append l.log_history (r ∷ []) in
    if_rule (λ hs. back hs ≡ some r) (ltb l.history (length (l.log_history ++ r ∷ [])))
      (λ full. back-drop l.log_history r (ground (arith, total, full)))
      (λ room. back-append l.log_history r)

-- A file with one more record, and what is left to write.
abbrev written_on : LogRecord → List LogRecord → Logger → Logger
written_on r written l = record l { file = some (written ++ r ∷ []); remaining = l.remaining - 1 }

abbrev written_out : LogRecord → List LogRecord → Logger → Logger
written_out r written l = record l {
  file = none;
  remaining = l.remaining - 1;
  closed = (written ++ r ∷ []) ∷ l.closed;
}

follow-writes :
    (r : LogRecord) (written : List LogRecord) (l : Logger)
    → back l.log_history ≡ some r
    → l.file ≡ some written
    → follow l ≡ (if l.remaining - 1 == 0 then written_out r written l else written_on r written l)
unfolding follow count_down write_back close_file close_written
follow-writes r written l hb hf =
    ap (λ o. count_down (write_back o l.file l)) hb
    ∙ ap (λ f. count_down (write_back (some r) f l)) hf

-- A file that is being written, with the record at the back of the history.
pub record IsWriting (written : List LogRecord) (l : Logger) : Type 0 where
  pub opened : l.file ≡ some written
  pub more : 0 < l.remaining
  pub remembers : 0 < l.history

detect_level-follow :
    (r : LogRecord) (written : List LogRecord) (l : Logger)
    → (if l.remaining - 1 == 0
        then written_out r written l
        else written_on r written l).detect_level
      ≡ l.detect_level
detect_level-follow r written l =
    if_rule (λ (m : Logger). m.detect_level ≡ l.detect_level) (l.remaining - 1 == 0) (λ _. refl)
      (λ _. refl)

keep_record-remember :
    (r : LogRecord) (l : Logger) → r.loglevel ≤ l.prod_level → keep_record r l ≡ remember r l
unfolding keep_record
keep_record-remember r l h =
    let kept : leb r.loglevel l.prod_level ≡ true = ground arith in rw kept refl

follow_record-follow :
    (r : LogRecord) (l : Logger)
    → r.loglevel ≤ l.prod_level
    → 0 < l.remaining
    → follow_record r l ≡ follow l
unfolding follow_record
follow_record-follow r l h more =
    let kept : leb r.loglevel l.prod_level ≡ true = ground arith in
    let busy : ltb 0 l.remaining ≡ true = ground arith in rw (busy, kept) refl

detect_record_none :
    (r : LogRecord) (l : Logger) → l.detect_level < r.loglevel → detect_record true r l ≡ l
unfolding detect_record
detect_record_none r l h =
    let quiet : leb r.loglevel l.detect_level ≡ false = ground arith in rw quiet refl

-- The state after a plain record.
after_plain : LogRecord → List LogRecord → Logger → Logger
after_plain r written l =
    if l.remaining - 1 == 0
    then written_out r written (remember r l)
    else written_on r written (remember r l)

prod_log-writes :
    (r : LogRecord) (written : List LogRecord) (l : Logger)
    → Plain l r
    → IsWriting written l
    → prod_log true r l ≡ after_plain r written l
unfolding prod_log remember after_plain
prod_log-writes r written l plain w =
    let m = remember r l in
    let level = detect_level-follow r written m in
    ap (λ k. detect_record true r (follow_record r k)) (keep_record-remember r l plain.0)
    ∙ ap (detect_record true r) (
        follow_record-follow r m plain.0 w.more
        ∙ follow-writes r written m (back-remember r l w.remembers) w.opened)
    ∙ detect_record_none r _ (subst (λ n. n < r.loglevel) (sym level) plain.1)

-- The file that is closed, if it holds what was written to it and the records that follow.
abbrev pub Closes : List LogRecord → Logger → Logger → Type 0
Closes written l after =
    (after.closed ≡ written ∷ l.closed) × (after.file ≡ none) × (after.remaining ≡ 0)

append_one :
    (written : List LogRecord) (r : LogRecord) (rs : List LogRecord)
    → (written ++ r ∷ []) ++ rs ≡ written ++ r ∷ rs
append_one [] r rs = refl
append_one (w ∷ written) r rs = ap (◌∷◌ w) (append_one written r rs)

log_all-Closes :
    (rs written : List LogRecord) (l : Logger)
    → All (Plain l) rs
    → length rs ≡ l.remaining
    → IsWriting written l
    → Closes (written ++ rs) l (log_all rs l)
unfolding log_all after_plain remember
log_all-Closes [] written l plain n w = absurd (omega (arith, w.more))
log_all-Closes (r ∷ []) written l plain n w =
    let last : (l.remaining - 1 == 0) ≡ true = ground (arith, n) in
    let none_left : l.remaining - 1 ≡ 0 = omega (arith, n) in
    subst (Closes (written ++ r ∷ []) l) (sym (prod_log-writes r written l plain.0 w))
      (rw last (refl, refl, none_left))
log_all-Closes (r ∷ q ∷ rs) written l plain n w =
    let more : (l.remaining - 1 == 0) ≡ false = ground (arith, n) in
    let next : Logger = written_on r written (remember r l) in
    let step : prod_log true r l ≡ next = prod_log-writes r written l plain.0 w ∙ rw more refl in
    let rest =
      log_all-Closes (q ∷ rs) (written ++ r ∷ []) next plain.1 (omega (arith, n))
        (record { opened = refl; more = omega (arith, n); remembers = w.remembers }) in
    subst (λ m. Closes (written ++ r ∷ q ∷ rs) l (log_all (q ∷ rs) m)) (sym step)
      (subst (λ ws. Closes ws l (log_all (q ∷ rs) next)) (append_one written r (q ∷ rs)) rest)

-- A file that was just opened.
abbrev begun : Logger → Logger
begun l = record l { file = some l.log_history; remaining = l.future }

detect-begun : (l : Logger) → l.remaining ≡ 0 → l.file ≡ none → detect true l ≡ begun l
unfolding detect prod_init close_file close_written
detect-begun l idle closed =
    let inactive : ltb 0 l.remaining ≡ false = ground (arith, idle) in
    rw inactive (
      ap
        (λ f.
          let ready : Logger = record (close_written f l) { file = some l.log_history } in
          record ready { remaining = l.future })
        closed)

follow_record_none : (r : LogRecord) (l : Logger) → l.remaining ≡ 0 → follow_record r l ≡ l
unfolding follow_record
follow_record_none r l idle =
    let inactive : ltb 0 l.remaining ≡ false = ground (arith, idle) in rw inactive refl

detect_record-begun :
    (r : LogRecord) (l : Logger)
    → r.loglevel ≤ l.detect_level
    → l.remaining ≡ 0
    → l.file ≡ none
    → detect_record true r l ≡ begun l
unfolding detect_record
detect_record-begun r l h idle closed =
    let detected : leb r.loglevel l.detect_level ≡ true = ground arith in
    rw detected (detect-begun l idle closed)

-- When a record that is kept (its level is at most that of the production log) and calls for a file is
-- met while none is being written, and the file opens, and neither the history nor the number of
-- records that are to follow is 0, and as many records as are to follow come next, which are kept and
-- none of which calls for a file, then one file is closed: it holds the history with the record that
-- called for it at its end, then the records that followed, in order.
pub prod_log-Closes :
    (r : LogRecord) (rs : List LogRecord) (l : Logger)
    → r.loglevel ≤ l.prod_level
    → r.loglevel ≤ l.detect_level
    → l.remaining ≡ 0
    → l.file ≡ none
    → 0 < l.history
    → 0 < l.future
    → All (Plain l) rs
    → length rs ≡ l.future
    → Closes ((remember r l).log_history ++ rs) l (log_all rs (prod_log true r l))
unfolding prod_log remember
prod_log-Closes r rs l kept detected idle closed history future plain n =
    let m = remember r l in
    let start : prod_log true r l ≡ begun m =
      ap (λ k. detect_record true r (follow_record r k)) (keep_record-remember r l kept)
      ∙ ap (detect_record true r) (follow_record_none r m idle)
      ∙ detect_record-begun r m detected idle closed in
    subst (λ k. Closes (m.log_history ++ rs) l (log_all rs k)) (sym start)
      (log_all-Closes rs m.log_history (begun m) plain n
        (record { opened = refl; more = future; remembers = history }))
