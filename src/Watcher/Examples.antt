-- ===== src/Watcher/Examples.antt =====
-- A log with an error of two lines behind three lines without one.
use sentinai_project.Common.{◌≡◌, refl, arith, [], ◌∷◌, ◌++◌, codes, Text, starts_with}
use sentinai_project.Watcher.{
  WatcherConfig, LogWatcher, universal, read_lines, lines_of, read_new_lines, scan_once,
  build_incident,
}
use sentinai_project.Watcher.Lines.{read_new_lines-append}
use sentinai_project.Watcher.Blocks.{Scanned, scan_once-Scanned}

abbrev config : WatcherConfig
config = record {
  context_lines_before_error = 8;
  max_stacktrace_lines = 3;
  is_error_signal = λ line. starts_with (codes "ERROR") line;
  is_continuation = λ line. starts_with (codes " ") line;
  fingerprint = λ _. "f";
}

abbrev fresh : LogWatcher
fresh = record { context_buffer = []; file_position = 0 }

abbrev log : Text
log = codes "a\nb\nc\nERROR x\n at y\nd"

read : lines_of (codes "a\r\nb\rc") ≡ codes "a" ∷ codes "b" ∷ codes "c" ∷ []
unfolding lines_of universal read_lines
read = refl

found_once :
    (scan_once config 7 log fresh).1
    ≡ build_incident config 7
        (codes "a" ∷ codes "b" ∷ codes "c" ∷ codes "ERROR x" ∷ [])
        (codes "ERROR x")
        (codes " at y" ∷ [])
      ∷ []
unfolding scan_once
found_once = refl

scan_once-Scanned_example :
    Scanned config (read_new_lines log fresh).1 (scan_once config 7 log fresh).1
scan_once-Scanned_example = scan_once-Scanned config 7 log fresh

read_new_lines-append_example :
    (read_new_lines (codes "ab\ncd") fresh).1
    ≡ (read_new_lines (codes "ab\n") fresh).1
      ++ (read_new_lines (codes "ab\ncd") (read_new_lines (codes "ab\n") fresh).0).1
read_new_lines-append_example = read_new_lines-append (codes "ab") (codes "cd") fresh (omega arith)
