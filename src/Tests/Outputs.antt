-- ===== src/Tests/Outputs.antt =====
-- Lines of child processes: the theorem at a concrete output.
use deai.Common.{ℕ, ◌++◌, false, ◌≡◌, refl, true, Bool, List, [], ◌∷◌, none, some, arith}
use deai.Output.{Stream, sigchld_handler, string_buf_lpush, string_buf_dump}
use deai.Output.Lines.{lines_emitted}
use deai.Output.Pieces.{lines_from, join_reads}

abbrev always : List (List ℕ) → Bool
always ls = true

abbrev read_one : List ℕ
read_one = b'a' ∷ b'\n' ∷ b'b' ∷ []

abbrev read_two : List ℕ
read_two = b'c' ∷ b'\n' ∷ []

lines_emitted_example :
    (t : Stream) × (before : List (List ℕ)) × (last : List ℕ) × (sigchld_handler always false
        (read_one ∷ read_two ∷ [])
        (record { output_buf = some []; emitted = [] })
      ≡ some t)
    × (lines_from [] (join_reads (read_one ∷ read_two ∷ [])) ≡ before ++ last ∷ [])
    × (t.emitted ≡ before ++ last ∷ [])
lines_emitted_example =
    lines_emitted always false read_one (read_two ∷ []) (λ ls. refl)
      ((omega arith, (omega arith, (omega arith, tt))), ((omega arith, (omega arith, tt)), tt))

-- The lines of "a\nbc\n": an empty one follows the last newline.
three_lines :
    lines_from [] (join_reads (read_one ∷ read_two ∷ []))
    ≡ (b'a' ∷ []) ∷ (b'b' ∷ b'c' ∷ []) ∷ [] ∷ []
unfolding lines_from
three_lines = refl

-- At the end of the file, the line "b" that no newline ends is lost.
last_line_lost :
    sigchld_handler always true (read_one ∷ []) (record { output_buf = some []; emitted = [] })
    ≡ some (record { output_buf = none; emitted = (b'a' ∷ []) ∷ [] })
unfolding sigchld_handler
last_line_lost = refl

-- A NUL in what is buffered: more is copied than was measured.
nul_overflows : string_buf_dump (string_buf_lpush [] (b'a' ∷ 0 ∷ b'b' ∷ []) 3) ≡ none
unfolding string_buf_dump string_buf_lpush
nul_overflows = refl
