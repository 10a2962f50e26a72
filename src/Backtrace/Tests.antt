-- ===== src/Backtrace/Tests.antt =====
-- Three frames, the first of them skipped.
use chord_server.Prelude.{◌≡◌, [], ◌∷◌, ◌++◌, map, List, some, Bytes, codes, pos, arith}
use chord_server.Backtrace.{backtrace_to_string}
use chord_server.Backtrace.Frames.{concat, frames_from, backtrace_to_string-lines}

abbrev three : List Bytes
three = codes "Backtrace" ∷ codes "run" ∷ codes "main" ∷ []

backtrace_to_string-lines_example :
    backtrace_to_string (some three) (pos 1) (codes "  ")
    ≡ concat (map (λ frame. codes "  " ++ (frame ++ codes "\n")) (frames_from (pos 1) three))
backtrace_to_string-lines_example =
    backtrace_to_string-lines three (pos 1) (codes "  ") (omega arith) (omega arith)
