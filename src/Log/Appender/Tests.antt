-- ===== src/Log/Appender/Tests.antt =====
-- A file appender that runs on an hour's clock.
use chord_server.Prelude.{none, ℕ, true, false, ◌≡◌, refl, [], if◌then◌else◌, Bytes, codes, equal}
use chord_server.Log.World.{System}
use chord_server.Log.Appender.{
  FileState, log_file, reopen, close, open_file, put_text, put, write, refresh,
}
use chord_server.Log.Appender.Files.{IsHealthy, Holds, kept, log_file-Holds, log_file_stuck}

abbrev at_time : ℕ → System
at_time now = record {
  now = now;
  strftime = λ f t. f;
  can_open = λ p. equal p (codes "a.log");
  fails_at = λ p t. none;
}

abbrev path : Bytes
path = codes "a.log"

-- The file holds one line, written at second 10.
abbrev one_line : FileState
one_line = record {
  file = record {
    filename = path;
    stream = record { is_open = true; failed = false; position = 2 };
    last_time = 10;
  };
  disk = λ p. if equal path p then codes "x\n" else [];
}

one_line-IsHealthy : IsHealthy one_line
one_line-IsHealthy = record { is_open = refl; sound = refl; at_end = refl }

log_file-Holds_example :
    Holds one_line
      (codes "y\n")
      path
      (kept (at_time 13) one_line)
      (log_file (at_time 13) one_line (codes "y\n"))
log_file-Holds_example =
    log_file-Holds (at_time 13) one_line (codes "y\n") path one_line-IsHealthy refl refl

-- Three seconds behind the first line, both are kept; any other second loses the first.
three_seconds_later : (log_file (at_time 13) one_line (codes "y\n")).disk path ≡ codes "x\ny\n"
unfolding log_file refresh reopen close open_file write put put_text
three_seconds_later = refl

same_second : (log_file (at_time 10) one_line (codes "y\n")).disk path ≡ codes "y\n"
unfolding log_file refresh reopen close open_file write put put_text
same_second = refl

abbrev stuck : FileState
stuck = record {
  file = record {
    filename = path;
    stream = record { is_open = true; failed = true; position = 2 };
    last_time = 10;
  };
  disk = one_line.disk;
}

log_file_stuck_example :
    let next = log_file (at_time 20) stuck (codes "z") in
    (next.disk ≡ stuck.disk) × (next.file.stream.is_open ≡ true) × (next.file.stream.failed ≡ true)
log_file_stuck_example = log_file_stuck (at_time 20) stuck (codes "z") refl refl
