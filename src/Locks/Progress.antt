-- ===== src/Locks/Progress.antt =====
-- Threads never wait for one another for ever.
use mathlib.Core.List.{Memᴰ}
use chord_server.Prelude.{true, ◌≡◌, List, []}
use chord_server.Locks.Threads.{LockThread, is_able}
use chord_server.Locks.Ordered.{Ordered}

abbrev IsOrdered : LockThread → Type 0
IsOrdered t = Ordered t.holds t.rest

-- Some thread can go on.
abbrev SomeAble : List LockThread → Type 0
SomeAble ts = (t : LockThread) × Memᴰ t ts × (is_able ts t.rest ≡ true)

-- Nothing is held, and nothing left to do.
abbrev pub HasEnded : LockThread → Type 0
HasEnded t = (t.rest ≡ []) × (t.holds ≡ [])
