-- ===== src/Assert/Report.antt =====
-- What a failed assertion prints, and that it ends the program.
use chord_server.Prelude.{
  ℕ, ◌≤◌, false, ◌≡◌, refl, ap, List, ◌∷◌, ◌++◌, map, Option, some, length, drop, leb,
  if◌then◌else◌, Bytes, codes, pos, All, arith,
}
use chord_server.Log.Level.{error}
use chord_server.Log.Event.{LogEvent, new_event, stream}
use chord_server.Log.World.{World, System, ok, cout}
use chord_server.Log.Logger.Safety.{IsReady, log-Serves}
use chord_server.Log.Logger.Outputs.{Writes, texts, log-texts}
use chord_server.Log.Logger.Macros.{CallSite, event_at, text_at, macros-Levels}
use chord_server.Log.Logger.Levels
use chord_server.Log.Manager.{LoggerManager}
use chord_server.Backtrace.Frames.{concat, backtrace_to_string-lines}
use chord_server.Assert.{aborts, trace_text, report, chord_assert, chord_assert2}

-- A line for each frame behind the first two.
abbrev pub frame_lines : List Bytes → Bytes
frame_lines frames = concat (map (λ frame. codes "    " ++ (frame ++ codes "\n")) (drop 2 frames))

-- The event of an assertion that fails there, with this text.
abbrev pub failure : CallSite → ℕ → Bytes → LogEvent
failure s root text = record {
  file = s.file;
  line = s.line;
  elapsed = 0;
  thread_id = s.thread_id;
  fiber_id = s.fiber_id;
  time = s.time;
  content = text;
  logger = root;
  level = error;
}

-- The store behind a text that is logged at ERROR to the root logger, with the appenders `is`, if
-- its level lets it through.
abbrev pub reported : System → CallSite → LoggerManager → List ℕ → Bytes → World
reported sys s m is text =
    if leb (m.world.logger m.root).level error
    then cout m.world (texts sys m.world is error (failure s m.root text))
    else m.world

trace_text-lines :
    (frames : List Bytes)
    → length frames ≤ 20
    → trace_text (some frames) ≡ codes "\nbacktrace:\n" ++ frame_lines frames
unfolding trace_text
trace_text-lines frames h =
    ap (λ (t : Bytes). codes "\nbacktrace:\n" ++ t)
      (backtrace_to_string-lines frames (pos 2) (codes "    ") (omega (arith, h)) (omega arith))

report-reported :
    (sys : System) (s : CallSite) (m : LoggerManager) (text : Bytes) (i : ℕ) (is : List ℕ)
    → (m.world.logger m.root).appenders ≡ i ∷ is
    → All (Writes m.world) (i ∷ is)
    → report sys s m text ≡ ok (aborts (reported sys s m (i ∷ is) text))
unfolding report Levels.error text_at event_at new_event stream
report-reported sys s m text i is e h =
    rw
      (
        (macros-Levels sys m.world s m.root text).3,
        log-texts 1 sys m.world m.root i is error (text_at s m.root error text) e h,
      )
      refl

-- Where the root logger has only standard output appenders, each with a formatter, and
-- backtrace_symbols gives at most 20 frames, a failed CHORD_ASSERT ends the program. If the level
-- of the root logger is at most ERROR, each of its appenders whose level is at most ERROR has
-- printed before that one event with the place of the macro, whose text is the assertion and a line
-- for each frame but the first two; otherwise nothing is printed. CHORD_ASSERT2 does so with its
-- text in between.
pub chord_assert-reported :
    (sys : System) (s : CallSite) (m : LoggerManager) (x w : Bytes) (frames : List Bytes)
    → (i : ℕ) (is : List ℕ) → (m.world.logger m.root).appenders ≡ i ∷ is
    → All (Writes m.world) (i ∷ is)
    → length frames ≤ 20
    → (chord_assert sys s m false x (some frames)
        ≡ ok (
            aborts (
              reported sys s m
                (i ∷ is)
                (codes "ASSERTION: " ++ (x ++ (codes "\nbacktrace:\n" ++ frame_lines frames))))))
      × (chord_assert2 sys s m false x w (some frames)
          ≡ ok (
              aborts (
                reported sys s m (i ∷ is) (
                  codes "ASSERTION: "
                  ++ (x
                      ++ (codes "\n" ++ (w ++ (codes "\nbacktrace:\n" ++ frame_lines frames))))))))
unfolding chord_assert chord_assert2
chord_assert-reported sys s m x w frames i is e h n = (
  rw (trace_text-lines frames n) (report-reported sys s m _ i is e h),
  rw (trace_text-lines frames n) (report-reported sys s m _ i is e h),
)

-- Logging the failure follows no null pointer and ends, so the program reaches `assert`.
report-Aborts :
    (sys : System) (s : CallSite) (m : LoggerManager) (text : Bytes)
    → IsReady m.world
    → (w' : World) × (report sys s m text ≡ ok (aborts w')) × IsReady w'
unfolding report Levels.error
report-Aborts sys s m text r =
    let (w', e, q) = log-Serves sys m.world m.root error (text_at s m.root error text) r in
    (w', rw ((macros-Levels sys m.world s m.root text).3, e) refl, q)

-- On a ready store a failed assertion ends the program behind its report, whatever
-- backtrace_symbols answers, and whatever files the root logger writes to.
pub chord_assert-Aborts :
    (sys : System) (s : CallSite) (m : LoggerManager) (x : Bytes) (strings : Option (List Bytes))
    → IsReady m.world
    → (w' : World) × (chord_assert sys s m false x strings ≡ ok (aborts w')) × IsReady w'
unfolding chord_assert
chord_assert-Aborts sys s m x strings r = report-Aborts sys s m _ r
