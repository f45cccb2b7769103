-- ===== src/Watcher/Blocks.antt =====
-- How the incidents of a scan lie in its lines.
use sentinai_project.Common.{
  ℕ, zero, suc, ◌+◌, ◌≤◌, ◌≡◌, refl, ap, subst, arith, inl, inr, max, true, false, ◌||◌, leb, ◌<◌,
  List, [], ◌∷◌, ◌++◌, length, drop, Bool-cases, All, Text, codes, join, is_blank,
}
use sentinai_project.Events.{LogIncident}
use sentinai_project.Watcher.{
  WatcherConfig, push_line, collect, build_incident, scan_lines, LogWatcher, read_new_lines,
  scan_once,
}

-- Why a block ends: the lines do, the block is full, or the next line is no part of a trace.
pub data BlockEnds (k : WatcherConfig) (count : ℕ) (rest : List Text) : Type 0 where
  at_end : rest ≡ [] → BlockEnds k count rest
  full : k.max_stacktrace_lines ≤ count → BlockEnds k count rest
  at_other :
      (line : Text) (lines : List Text)
      → rest ≡ line ∷ lines
      → (k.is_continuation line || is_blank line) ≡ false
      → BlockEnds k count rest

-- The lines behind a trigger that belong to its block.
pub record IsBlock (k : WatcherConfig) (extra rest : List Text) : Type 0 where
  pub continues : All (λ l. (k.is_continuation l || is_blank l) ≡ true) extra
  pub bounded : length extra + 1 ≤ max 1 k.max_stacktrace_lines
  pub ends : BlockEnds k (length extra + 1) rest

-- The lines are parted into lines without a signal and blocks, each of which gives one incident.
pub data Scanned (k : WatcherConfig) : List Text → List LogIncident → Type 0 where
  done : Scanned k [] []
  plain :
      {lines : List Text} {incidents : List LogIncident} (line : Text)
      → k.is_error_signal line ≡ false
      → Scanned k lines incidents
      → Scanned k (line ∷ lines) incidents
  block :
      {lines rest : List Text} {incidents : List LogIncident} (line : Text) (extra : List Text)
      (incident : LogIncident)
      → k.is_error_signal line ≡ true
      → lines ≡ extra ++ rest
      → IsBlock k extra rest
      → incident.trigger_line ≡ line
      → incident.stacktrace ≡ join (codes "\n") (line ∷ extra)
      → incident.incident_id ≡ k.fingerprint (join (codes "\n") (line ∷ extra))
      → Scanned k rest incidents
      → Scanned k (line ∷ lines) (incident ∷ incidents)

-- What collect gives behind `count` lines.
record IsCollected (k : WatcherConfig) (count : ℕ) (lines extra : List Text) : Type 0 where
  continues : All (λ l. (k.is_continuation l || is_blank l) ≡ true) extra
  bounded : length extra + count ≤ max count k.max_stacktrace_lines
  parted : lines ≡ extra ++ drop (length extra) lines
  ends : BlockEnds k (length extra + count) (drop (length extra) lines)

module _ (k : WatcherConfig) where
  collect-IsCollected :
      (count : ℕ) (lines : List Text) → IsCollected k count lines (collect k count lines)
  unfolding collect
  collect-IsCollected count [] = record {
    continues = tt;
    bounded = omega arith;
    parted = refl;
    ends = at_end refl;
  }
  collect-IsCollected count (line ∷ lines) = elim (Bool-cases (leb k.max_stacktrace_lines count)) [
    | inl full_now ↦ rw full_now (record {
      continues = tt;
      bounded = omega arith;
      parted = refl;
      ends = full (ground (arith, full_now));
    })
    | inr more ↦ elim (Bool-cases (k.is_continuation line || is_blank line)) [
      | inl continued ↦
          rw (more, continued)
            (longer continued (ground (arith, more)) (collect-IsCollected (count + 1) lines))
      | inr other ↦
          rw (more, other)
            (record {
              continues = tt;
              bounded = omega arith;
              parted = refl;
              ends = at_other line lines refl other;
            })
    ]
  ]
    where
      longer :
          {extra : List Text}
          → (k.is_continuation line || is_blank line) ≡ true
          → count < k.max_stacktrace_lines
          → IsCollected k (count + 1) lines extra
          → IsCollected k count (line ∷ lines) (line ∷ extra)
      longer {extra} continued room c = record {
        continues = (continued, c.continues);
        bounded = omega (arith, c.bounded, room);
        parted = ap (λ ls. line ∷ ls) c.parted;
        ends = subst (λ n. BlockEnds k n (drop (length extra) lines)) (omega arith) c.ends;
      }

  collect-IsBlock :
      (lines : List Text) → IsBlock k (collect k 1 lines) (drop (length (collect k 1 lines)) lines)
  collect-IsBlock lines =
      let c = collect-IsCollected 1 lines in
      record { continues = c.continues; bounded = c.bounded; ends = c.ends }

  scan_lines-Scanned :
      (now skip : ℕ) (lines buffer : List Text)
      → Scanned k (drop skip lines) (scan_lines k now skip lines buffer).0
  unfolding scan_lines build_incident
  scan_lines-Scanned now zero [] buffer = done
  scan_lines-Scanned now (suc skip) [] buffer = done
  scan_lines-Scanned now (suc skip) (line ∷ lines) buffer = scan_lines-Scanned now skip lines buffer
  scan_lines-Scanned now zero (line ∷ lines) buffer =
      let buffer' = push_line k.context_lines_before_error line buffer in
      let extra = collect k 1 lines in
      elim (Bool-cases (k.is_error_signal line)) [
        | inl e ↦ rw e (
            block line extra _ e (collect-IsCollected 1 lines).parted (collect-IsBlock lines) refl
              refl refl (scan_lines-Scanned now (length extra) lines buffer'))
        | inr e ↦ rw e (plain line e (scan_lines-Scanned now 0 lines buffer'))
      ]

  -- The incidents of a scan part the lines that it has read: each line without an error signal
  -- stands alone, and each other one opens a block with the lines behind it that continue a trace
  -- or are blank, at most max_stacktrace_lines in all and ended by the last line, by that bound or
  -- by a line of another kind; the block gives one incident with its lines, in order, and the scan
  -- goes on behind it.
  pub scan_once-Scanned :
      (now : ℕ) (text : Text) (w : LogWatcher)
      → Scanned k (read_new_lines text w).1 (scan_once k now text w).1
  unfolding scan_once
  scan_once-Scanned now text w =
      scan_lines-Scanned now 0 (read_new_lines text w).1 (read_new_lines text w).0.context_buffer
