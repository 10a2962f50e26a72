-- ===== src/Assert/Tests.antt =====
-- A failed assertion on a manager whose root prints the level and the text.
use chord_server.Prelude.{
  ◌≡◌, refl, true, false, List, [], ◌∷◌, ◌++◌, none, some, Bytes, codes, pos, arith,
}
use chord_server.Log.Level.{debug}
use chord_server.Log.Formatter.{LogFormatter}
use chord_server.Log.Formatter.Items.{FormatItem}
use chord_server.Log.World.{World, System, std_out, ok}
use chord_server.Log.Logger.Macros.{CallSite}
use chord_server.Log.Manager.{LoggerManager}
use chord_server.Assert.{goes_on, aborts, chord_assert, chord_assert2}
use chord_server.Assert.Report.{frame_lines, reported, chord_assert-reported}

abbrev sys : System
sys = record { now = 0; strftime = λ f t. f; can_open = λ p. false; fails_at = λ p t. none }

abbrev site : CallSite
site = record { file = codes "fiber.cpp"; line = pos 72; thread_id = 1; fiber_id = 0; time = 0 }

-- "%p %m"
abbrev level_and_text : LogFormatter
level_and_text = record {
  pattern = codes "%p %m";
  items = FormatItem.level ∷ FormatItem.string (codes " ") ∷ FormatItem.message ∷ [];
  is_error = false;
}

abbrev one_appender : World
one_appender = record {
  appender = λ i. record {
    target = std_out;
    formatter = some level_and_text;
    level = debug;
    has_formatter = false;
  };
  next_appender = 1;
  logger = λ l. record {
    name = codes "root";
    level = debug;
    formatter = some level_and_text;
    appenders = 0 ∷ [];
    root = none;
  };
  next_logger = 1;
  std_out = [];
  disk = λ p. [];
}

abbrev manager : LoggerManager
manager = record { world = one_appender; loggers = (codes "root", 0) ∷ []; root = 0 }

abbrev frames : List Bytes
frames = codes "Backtrace" ∷ codes "BacktraceToString" ∷ codes "~Fiber" ∷ codes "main" ∷ []

text_of_frames : frame_lines frames ≡ codes "    ~Fiber\n    main\n"
text_of_frames = refl

passes : chord_assert sys site manager true (codes "m_cb") none ≡ ok (goes_on one_appender)
unfolding chord_assert
passes = refl

chord_assert-reported_example :
    (chord_assert sys site manager false (codes "!m_cb") (some frames)
      ≡ ok (
          aborts (
            reported sys site manager (0 ∷ []) (
              codes "ASSERTION: "
              ++ (codes "!m_cb" ++ (codes "\nbacktrace:\n" ++ frame_lines frames))))))
    × (chord_assert2 sys site manager false (codes "!m_cb") (codes "callback") (some frames)
        ≡ ok (
            aborts (
              reported sys site manager (0 ∷ []) (
                codes "ASSERTION: "
                ++ (codes "!m_cb"
                    ++ (codes "\n"
                        ++ (codes "callback"
                            ++ (codes "\nbacktrace:\n" ++ frame_lines frames))))))))
chord_assert-reported_example =
    chord_assert-reported sys site manager (codes "!m_cb") (codes "callback") frames 0 [] refl
      ((refl, (level_and_text, refl)), tt) (omega arith)
