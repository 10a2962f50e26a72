-- ===== src/Backtrace/Frames.antt =====
-- Which frames a backtrace has.
use chord_server.Prelude.{
  ℕ, zero, suc, ◌+◌, ◌≤◌, ◌<◌, ◌^◌, true, false, ◌≡◌, refl, sym, ap, ◌∙◌, List, [], ◌∷◌, ◌++◌,
  append-nil, append_assoc, map, some, length, drop, ltb, Bytes, codes, ℤ, pos, negsuc, get_or-drop,
  drop-add-one, length-drop, arith,
}
use chord_server.Backtrace.{to_size, push_frames, backtrace, print_frames, backtrace_to_string}

-- The texts one after another.
abbrev pub concat : List Bytes → Bytes
concat [] = []
concat (x ∷ xs) = x ++ concat xs

push_frames-drop :
    (fuel i : ℕ) (strings bt rest : List Bytes)
    → drop i strings ≡ rest
    → length rest < fuel
    → push_frames fuel i strings bt ≡ bt ++ rest
unfolding push_frames
push_frames-drop zero i strings bt rest e h = absurd (omega arith)
push_frames-drop (suc fuel) i strings bt [] e h =
    let past : ltb i (length strings) ≡ false =
      ground (arith, length-drop i strings, ap (λ r. length r) e) in
    rw past (sym (append-nil bt))
push_frames-drop (suc fuel) i strings bt (x ∷ rest) e h =
    let inside : ltb i (length strings) ≡ true =
      ground (arith, length-drop i strings, ap (λ r. length r) e) in
    rw inside (
      rw (get_or-drop i strings [] e) (
        push_frames-drop fuel (i + 1) strings (bt ++ x ∷ []) rest (drop-add-one i strings e)
          (omega (arith, h))
        ∙ append_assoc bt (x ∷ []) rest))

drop_past : (n : ℕ) (xs : List Bytes) → length xs ≤ n → drop n xs ≡ []
drop_past n [] h = of_nil n
  where
    of_nil : (n : ℕ) → drop {A = Bytes} n [] ≡ []
    of_nil zero = refl
    of_nil (suc n) = refl
drop_past zero (x ∷ xs) h = absurd (omega (arith, h))
drop_past (suc n) (x ∷ xs) h = drop_past n xs (omega (arith, h))

backtrace-drop :
    (bt strings : List Bytes) (skip : ℤ)
    → backtrace bt (some strings) skip ≡ bt ++ drop (to_size skip) strings
unfolding backtrace
backtrace-drop bt strings skip =
    push_frames-drop (suc (length strings)) (to_size skip) strings bt (drop (to_size skip) strings)
      refl (omega (arith, length-drop (to_size skip) strings))

print_frames-concat :
    (prefix : Bytes) (bt : List Bytes) (out : Bytes)
    → print_frames prefix bt out ≡ out ++ concat (map (λ frame. prefix ++ (frame ++ codes "\n")) bt)
unfolding print_frames
print_frames-concat prefix [] out = sym (append-nil out)
print_frames-concat prefix (x ∷ bt) out =
    print_frames-concat prefix bt (out ++ (prefix ++ (x ++ codes "\n")))
    ∙ append_assoc out (prefix ++ (x ++ codes "\n")) _

-- The frames behind the first `skip`, or none if `skip` is negative.
abbrev pub frames_from : ℤ → List Bytes → List Bytes
frames_from (pos n) strings = drop n strings
frames_from (negsuc n) strings = []

-- `int`
abbrev pub IsInt : ℤ → Type 0
IsInt (pos n) = n < 2 ^ 31
IsInt (negsuc n) = n < 2 ^ 31

drop-to_size :
    (strings : List Bytes) (skip : ℤ)
    → length strings < 2 ^ 31
    → IsInt skip
    → drop (to_size skip) strings ≡ frames_from skip strings
drop-to_size strings (pos n) l h = refl
drop-to_size strings (negsuc n) l h = drop_past (to_size (negsuc n)) strings (omega (arith, l, h))

-- The text of a backtrace of fewer than 2 ^ 31 frames is a line for each frame behind the first
-- `skip`, in order, with the prefix in front; it is empty if the `int` is negative.
pub backtrace_to_string-lines :
    (strings : List Bytes) (skip : ℤ) (prefix : Bytes)
    → length strings < 2 ^ 31
    → IsInt skip
    → backtrace_to_string (some strings) skip prefix
      ≡ concat (map (λ frame. prefix ++ (frame ++ codes "\n")) (frames_from skip strings))
unfolding backtrace_to_string
backtrace_to_string-lines strings skip prefix l h =
    print_frames-concat prefix (backtrace [] (some strings) skip) []
    ∙ ap (λ bt. concat (map (λ frame. prefix ++ (frame ++ codes "\n")) bt))
        (backtrace-drop [] strings skip ∙ drop-to_size strings skip l h)
