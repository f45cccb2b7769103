-- ===== src/Watcher/Lines.antt =====
-- The lines that successive polls of the log file read.
use sentinai_project.Common.{
  ℕ, zero, suc, ◌≤◌, ◌<◌, ◌≡◌, refl, sym, ap, ◌∙◌, arith, inl, inr, Bool, true, false, ◌&&◌, List,
  [], ◌∷◌, ◌++◌, ◌==◌, length, drop, length-append, append_assoc, lt→ltb, map, Text, Bool-cases,
}
use sentinai_project.Watcher.{
  universal, read_lines, lines_of, without_newline, start_position, LogWatcher, read_new_lines,
}

-- The reading of a text behind a begun line; a line break that is a `\r` leaves none begun.
read_lines-break :
    (line : Text) (after_cr : Bool) (a b : Text)
    → (after_cr ≡ true → line ≡ [])
    → read_lines line (universal after_cr (a ++ 10 ∷ b))
      ≡ read_lines line (universal after_cr (a ++ 10 ∷ [])) ++ read_lines [] (universal false b)
unfolding universal read_lines
read_lines-break line false [] b h = refl
read_lines-break line true [] b h = rw (h refl) refl
read_lines-break line after_cr (c ∷ a) b h = elim (Bool-cases (c == 13)) [
  | inl cr ↦
      rw (cr, no_newline cr, and_false after_cr)
        (ap (λ ls. (line ++ 10 ∷ []) ∷ ls) (read_lines-break [] true a b (λ _. refl)))
  | inr other ↦ elim (Bool-cases (c == 10)) [
    | inr inner ↦
        rw (other, inner, and_false after_cr)
          (rw inner (read_lines-break (line ++ c ∷ []) false a b (λ e. cc)))
    | inl newline ↦ elim (Bool-cases after_cr) [
      | inl crlf ↦ rw (other, newline, crlf) (read_lines-break line false a b (λ e. cc))
      | inr plain ↦
          rw (other, newline, plain)
            (rw newline
              (ap (λ ls. (line ++ c ∷ []) ∷ ls) (read_lines-break [] false a b (λ e. cc))))
    ]
  ]
]
  where
    and_false : (x : Bool) → (x && false) ≡ false
    and_false true = refl
    and_false false = refl

    no_newline : (c == 13) ≡ true → (c == 10) ≡ false
    no_newline e = ground arith

map-append : (f : Text → Text) (xs ys : List Text) → map f (xs ++ ys) ≡ map f xs ++ map f ys
map-append f [] ys = refl
map-append f (x ∷ xs) ys = ap (λ zs. f x ∷ zs) (map-append f xs ys)

lines_of-append : (a b : Text) → lines_of (a ++ 10 ∷ b) ≡ lines_of (a ++ 10 ∷ []) ++ lines_of b
unfolding lines_of
lines_of-append a b =
    ap (map without_newline) (read_lines-break [] false a b (λ e. refl))
    ∙ map-append without_newline _ _

drop-append : (n : ℕ) (a b : Text) → n ≤ length a → drop n (a ++ b) ≡ drop n a ++ b
drop-append zero a b h = refl
drop-append (suc n) [] b h = absurd (omega (arith, h))
drop-append (suc n) (c ∷ a) b h = drop-append n a b (omega (arith, h))

drop-all : (a : Text) → drop (length a) a ≡ []
drop-all [] = refl
drop-all (c ∷ a) = drop-all a

kept_position :
    (position : ℕ) (text : Text) → position ≤ length text → start_position position text ≡ position
unfolding start_position
kept_position position text h = ground arith

unread :
    (position : ℕ) (a b : Text)
    → position ≤ length a
    → drop (start_position position (a ++ b)) (a ++ b) ≡ drop position a ++ b
unread position a b h =
    ap (λ n. drop n (a ++ b))
      (kept_position position (a ++ b) (omega (arith, length-append a b, h)))
    ∙ drop-append position a b h

begun_anew :
    (a b : Text) → drop (start_position (length (a ++ 10 ∷ [])) (a ++ 10 ∷ b)) (a ++ 10 ∷ b) ≡ b
begun_anew a b =
    ap (λ t. drop (start_position (length (a ++ 10 ∷ [])) t) t) (sym (append_assoc a (10 ∷ []) b))
    ∙ unread (length (a ++ 10 ∷ [])) (a ++ 10 ∷ []) b (omega arith)
    ∙ ap (λ t. t ++ b) (drop-all (a ++ 10 ∷ []))

-- If the log ends in a line feed and the position is before that, the lines of a poll followed by
-- those of a second poll, when more text has been appended, are the lines that one poll of the
-- whole text reads.
pub read_new_lines-append :
    (a more : Text) (w : LogWatcher)
    → w.file_position ≤ length a
    → (read_new_lines (a ++ 10 ∷ more) w).1
      ≡ (read_new_lines (a ++ 10 ∷ []) w).1
        ++ (read_new_lines (a ++ 10 ∷ more) (read_new_lines (a ++ 10 ∷ []) w).0).1
unfolding read_new_lines
read_new_lines-append a more w h =
    rw
      (
        unread w.file_position a (10 ∷ more) h,
        unread w.file_position a (10 ∷ []) h,
        begun_anew a more,
      )
      (lines_of-append (drop w.file_position a) more)

-- A file that has become shorter than the position is read from the top.
pub read_new_lines-rotated :
    (text : Text) (w : LogWatcher)
    → length text < w.file_position
    → (read_new_lines text w).1 ≡ lines_of text
unfolding read_new_lines start_position
read_new_lines-rotated text w h = rw (lt→ltb _ _ h) refl
