-- ===== src/SessionLog/Tests.antt =====
-- Runs and witnesses for src/session_log.cpp.
use tombstack_native.SessionLog.{append, SessionLog, Disk, new_log, text_of, line_text, flush_now}
use tombstack_native.Prelude.{◌≡◌, refl, true, some, List, [], ◌∷◌, ◌++◌, arith, codes}
use tombstack_native.SessionLog.Bounds.{IsBounded, flush_now-IsBounded}
use tombstack_native.SessionLog.Lines.{Line, append_all, lines_text, flush_now-append_all}

abbrev works : Disk
works = record { removes = true; renames = true; appends = true; truncates = true; reads = true }

abbrev log : SessionLog
log = record new_log { configured = true; current = some (codes "old"); file_bytes = 3 }

abbrev two_lines : List Line
two_lines = (codes "T", codes "info", codes "a") ∷ (codes "T", codes "info", []) ∷ []

writes : (flush_now works (append_all two_lines log)).current ≡ some (codes "oldT [info] a\n")
unfolding flush_now append_all append line_text
writes = refl

flush_now-IsBounded_example : IsBounded (flush_now works log)
flush_now-IsBounded_example =
    flush_now-IsBounded works log refl refl (record { counted = refl; within = omega arith })

flush_now-append_all_example :
    text_of (flush_now works (append_all two_lines log)).current
    ≡ text_of log.current ++ lines_text two_lines
unfolding line_text
flush_now-append_all_example =
    flush_now-append_all works two_lines log refl refl refl refl (omega arith) (omega arith)
