-- ===== src/Log/Appender/Files.antt =====
-- What FileLogAppender::log leaves in its file.
use chord_server.Prelude.{
  ◌+◌, ◌%◌, ◌^◌, true, false, not, ◌&&◌, ◌≡◌, [], ◌++◌, none, length, take, drop, ◌==◌,
  if◌then◌else◌, Bytes, equal, equal_refl, equal_iff, arith, append-nil, take_all, length-append,
  drop_all,
}
use chord_server.Log.World.{System}
use chord_server.Log.Appender.{FileState, reopen_result, refresh, put_text, put, write, log_file}

-- The stream is open, has not failed, and stands at the end of what its file holds.
pub record IsHealthy (st : FileState) : Type 0 where
  pub is_open : st.file.stream.is_open ≡ true
  pub sound : st.file.stream.failed ≡ false
  pub at_end : st.file.stream.position ≡ length (st.disk st.file.filename)

-- The text is appended to the file at `path`, and the appender is healthy again.
pub record Holds (st : FileState) (text path : Bytes) (old : Bytes) (next : FileState)
    : Type 0 where
  pub content : next.disk path ≡ (if equal st.file.filename path then old ++ text else st.disk path)
  pub healthy : IsHealthy next
  pub filename : next.file.filename ≡ st.file.filename

write-Holds :
    (sys : System) (st : FileState) (text path : Bytes)
    → IsHealthy st
    → sys.fails_at st.file.filename text ≡ none
    → Holds st text path (st.disk st.file.filename) (write sys st text)
unfolding write put put_text
write-Holds sys st text path h full =
    let old = st.disk st.file.filename in
    let n = length text in
    let all_kept : take st.file.stream.position old ≡ old = rw h.at_end (take_all old) in
    let none_left : drop (st.file.stream.position + n) old ≡ [] = rw h.at_end (drop_all n old) in
    ground (
      arith,
      all_kept,
      none_left,
      h.at_end,
      full,
      append-nil text,
      length-append old text,
      equal_refl st.file.filename,
    )

-- What the file holds when the text is written: nothing, unless the clock stands three seconds
-- behind the last time.
abbrev pub kept : System → FileState → Bytes
kept sys st = if sys.now == (st.file.last_time + 3) % 2 ^ 64 then st.disk st.file.filename else []

refresh-Holds :
    (sys : System) (st : FileState) (path : Bytes)
    → IsHealthy st
    → sys.can_open st.file.filename ≡ true
    → IsHealthy (refresh sys st)
      × ((refresh sys st).file.filename ≡ st.file.filename)
      × ((refresh sys st).disk path
          ≡ (if equal st.file.filename path then kept sys st else st.disk path))
unfolding refresh
refresh-Holds sys st path h c =
    ground (arith, equal_refl st.file.filename, equal_iff st.file.filename path)

-- A healthy appender whose file can be opened, and to which the write does not fail: the write
-- leaves the text behind what is kept, so all that the file held is lost unless the clock stands
-- exactly three seconds after the last time; no other file changes, and the appender stays healthy.
pub log_file-Holds :
    (sys : System) (st : FileState) (text path : Bytes)
    → IsHealthy st
    → sys.can_open st.file.filename ≡ true
    → sys.fails_at st.file.filename text ≡ none
    → Holds st text path (kept sys st) (log_file sys st text)
unfolding log_file
log_file-Holds sys st text path h c full = ground (
  arith,
  refresh-Holds sys st path h c,
  refresh-Holds sys st st.file.filename h c,
  equal_refl st.file.filename,
  full,
  write-Holds sys (refresh sys st) text path,
)

-- A stream that has failed while its file is open stays so: no later call of the appender writes
-- anything, whatever the clock says, since `reopen` neither closes it nor can open it again.
pub log_file_stuck :
    (sys : System) (st : FileState) (text : Bytes)
    → st.file.stream.is_open ≡ true
    → st.file.stream.failed ≡ true
    → let next = log_file sys st text in
      (next.disk ≡ st.disk) × (next.file.stream.is_open ≡ true) × (next.file.stream.failed ≡ true)
unfolding log_file refresh write
log_file_stuck sys st text h k = ground arith

-- `reopen` answers the opposite of its comment in log.h: for a stream that is not stuck, it returns
-- true exactly if the file could not be opened.
reopen_result_lem :
    (sys : System) (st : FileState)
    → (st.file.stream.is_open && st.file.stream.failed) ≡ false
    → reopen_result sys st ≡ not (sys.can_open st.file.filename)
unfolding reopen_result
reopen_result_lem sys st h = ground arith
