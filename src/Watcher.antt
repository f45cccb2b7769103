-- ===== src/Watcher.antt =====
-- LogWatcher of src/services/watcher.py. The regular expressions of the error signals and of the
-- continuation lines are arguments, as is the fingerprint, a hash. The file is its decoded text, and
-- a position counts its characters.
pub mod Lines
pub mod Blocks
mod Examples
use sentinai_project.Common.{
  ℕ, zero, suc, ◌+◌, ◌-◌, String, none, Bool, true, false, List, [], ◌∷◌, ◌++◌, ◌||◌, ◌&&◌, not,
  ltb, leb, ◌==◌, if◌then◌else◌, length, take, drop, map, Text, codes, join, is_blank, rstrip,
}
use sentinai_project.Events.{LogIncident, critical}

-- WatcherConfig, and the tests of a line.
pub record WatcherConfig : Type 0 where
  pub context_lines_before_error : ℕ
  pub max_stacktrace_lines : ℕ
  pub is_error_signal : Text → Bool
  pub is_continuation : Text → Bool
  pub fingerprint : Text → String

pub record LogWatcher : Type 0 where
  pub context_buffer : List Text
  pub file_position : ℕ

-- Universal newlines: `\r\n` and `\r` are read as `\n`. The flag tells of a `\r` just before.
universal : Bool → Text → Text
universal after_cr [] = []
universal after_cr (c ∷ s) =
    let rest = universal (c == 13) s in
    if after_cr && c == 10 then rest else if c == 13 then 10 ∷ rest else c ∷ rest

-- file.readlines(), behind `line`, the begun one: each line keeps its `\n`.
pub read_lines : Text → Text → List Text
read_lines [] [] = []
read_lines (c ∷ line) [] = (c ∷ line) ∷ []
read_lines line (c ∷ s) =
    let ends = c == 10 in
    let rest = read_lines (if ends then [] else line ++ c ∷ []) s in
    if ends then (line ++ c ∷ []) ∷ rest else rest

abbrev without_newline : Text → Text
without_newline line = rstrip 10 line

-- The lines of the text from a position on.
pub lines_of : Text → List Text
unfolding universal read_lines
lines_of s = map without_newline (read_lines [] (universal false s))

-- A position behind the end is set to the top.
pub start_position : ℕ → Text → ℕ
start_position position text = if ltb (length text) position then 0 else position

pub read_new_lines : Text → LogWatcher → LogWatcher × List Text
unfolding start_position lines_of
read_new_lines text w = (
  record w { file_position = length text },
  lines_of (drop (start_position w.file_position text) text),
)

-- initialize_position
pub initialize_position : Bool → Text → LogWatcher → LogWatcher
initialize_position start_from_end text w = record w {
  file_position = if start_from_end then length text else 0;
}

-- deque(maxlen=n).append
pub push_line : ℕ → Text → List Text → List Text
push_line n line buffer = drop (length buffer + 1 - n) (buffer ++ line ∷ [])

-- The lines that are collected behind a trigger, of which `count` are there: at most
-- max_stacktrace_lines, while they continue the trace or are blank.
pub collect : WatcherConfig → ℕ → List Text → List Text
collect k count [] = []
collect k count (line ∷ lines) =
    let more = collect k (count + 1) lines in
    if leb k.max_stacktrace_lines count
    then []
    else if k.is_continuation line || is_blank line
    then line ∷ more
    else []

-- context_lines[: -len(block_lines)] where there are more, else all of them.
pub context_of : List Text → List Text → List Text
context_of buffer block =
    if ltb (length block) (length buffer)
    then take (length buffer - length block) buffer
    else buffer

pub build_incident : WatcherConfig → ℕ → List Text → Text → List Text → LogIncident
unfolding context_of
build_incident k now buffer trigger extra = record {
  incident_id = k.fingerprint (join (codes "\n") (trigger ∷ extra));
  detected_at_utc = now;
  severity = critical;
  trigger_line = trigger;
  stacktrace = join (codes "\n") (trigger ∷ extra);
  context_before_error = join (codes "\n") (context_of buffer (trigger ∷ extra));
  source = none;
}

-- The loop of scan_once; `skip` lines are still to be taken from the iterator.
pub scan_lines : WatcherConfig → ℕ → ℕ → List Text → List Text → List LogIncident × List Text
unfolding collect build_incident push_line
scan_lines k now skip [] buffer = ([], buffer)
scan_lines k now (suc skip) (line ∷ lines) buffer = scan_lines k now skip lines buffer
scan_lines k now zero (line ∷ lines) buffer =
    let buffer' = push_line k.context_lines_before_error line buffer in
    let extra = collect k 1 lines in
    let error = k.is_error_signal line in
    let (incidents, last) = scan_lines k now (if error then length extra else 0) lines buffer' in
    (if error then build_incident k now buffer' line extra ∷ incidents else incidents, last)

pub scan_once : WatcherConfig → ℕ → Text → LogWatcher → LogWatcher × List LogIncident
unfolding read_new_lines scan_lines
scan_once k now text w =
    let (w', lines) = read_new_lines text w in
    let (incidents, buffer) = scan_lines k now 0 lines w'.context_buffer in
    (record w' { context_buffer = buffer }, incidents)
