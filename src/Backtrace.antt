-- ===== src/Backtrace.antt =====
-- Backtrace and BacktraceToString of chord/util.cpp. What backtrace and backtrace_symbols give is
-- an argument: the texts of the frames, or a null pointer. What is logged then is left out.
pub mod Frames
mod Tests
use chord_server.Prelude.{
  ℕ, zero, suc, ◌+◌, ◌-◌, ◌^◌, Bool, true, false, List, [], ◌∷◌, ◌++◌, Option, none, some, length,
  get_or, ltb, if◌then◌else◌, Bytes, codes, ℤ, pos, negsuc,
}

-- The conversion from `int` to `size_t`.
abbrev pub to_size : ℤ → ℕ
to_size (pos n) = n
to_size (negsuc n) = 2 ^ 64 - 1 - n

-- The loop from `i`, with fuel.
unfoldable pub push_frames : ℕ → ℕ → List Bytes → List Bytes → List Bytes
push_frames zero i strings bt = bt
push_frames (suc fuel) i strings bt =
    let more = push_frames fuel (i + 1) strings (bt ++ get_or strings i [] ∷ []) in
    if ltb i (length strings) then more else bt

-- `Backtrace`
unfoldable pub backtrace : List Bytes → Option (List Bytes) → ℤ → List Bytes
backtrace bt none skip = bt
backtrace bt (some strings) skip = push_frames (suc (length strings)) (to_size skip) strings bt

-- The loop over the frames.
unfoldable pub print_frames : Bytes → List Bytes → Bytes → Bytes
print_frames prefix [] out = out
print_frames prefix (frame ∷ bt) out =
    print_frames prefix bt (out ++ (prefix ++ (frame ++ codes "\n")))

-- `BacktraceToString`
unfoldable pub backtrace_to_string : Option (List Bytes) → ℤ → Bytes → Bytes
unfolding backtrace print_frames
backtrace_to_string strings skip prefix = print_frames prefix (backtrace [] strings skip) []
