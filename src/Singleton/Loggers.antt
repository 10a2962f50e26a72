-- ===== src/Singleton/Loggers.antt =====
-- The loggers that the macros give stay the same.
use chord_server.Prelude.{
  ℕ, false, ◌≡◌, refl, ◌∙◌, List, [], ◌∷◌, Option, none, some, Bytes, equal, equal_refl, equal_iff,
  Option-cases, arith, Bool-cases, inl, inr,
}
use chord_server.Log.Manager.{LoggerManager, get_logger, find}
use chord_server.Log.Manager.Names.{
  get_logger-Answers, find-insert, get_logger_found, get_logger_new,
}
use chord_server.Singleton.{LoggerMgr, the_manager, log_name, log_names}

-- The logger that a name has, if the manager has been made.
abbrev pub named : LoggerMgr → Bytes → Option ℕ
named none name = none
named (some m) name = find name m.loggers

-- A name keeps its logger whatever name is asked for.
get_logger-keeps :
    (m : LoggerManager) (asked name : Bytes) (l : ℕ)
    → find name m.loggers ≡ some l
    → find name (get_logger m asked).0.loggers ≡ some l
get_logger-keeps m asked name l h = elim (Option-cases (find asked m.loggers)) [
  | inr (k, e) ↦ rw (get_logger_found m asked k e) h
  | inl e ↦ rw (get_logger_new m asked e) (
      ground (
        arith,
        find-insert asked name m.world.next_logger m.loggers,
        equal_iff asked name,
        h,
        other-name m asked name l e h,
      ))
]
  where
    other-name :
        (n : LoggerManager) (a b : Bytes) (k : ℕ)
        → find a n.loggers ≡ none
        → find b n.loggers ≡ some k
        → equal a b ≡ false
    other-name n a b k e h = elim (Bool-cases (equal a b)) [
      | inr f ↦ f
      | inl t ↦ let same : a ≡ b = (equal_iff a b).0 t in absurd (ground (arith, rw same at e, h))
    ]

log_name-named :
    (s : LoggerMgr) (disk : Bytes → Bytes) (asked name : Bytes) (l : ℕ)
    → named s name ≡ some l
    → named (log_name s disk asked).0 name ≡ some l
unfolding log_name the_manager
log_name-named none disk asked name l h = absurd (ground arith)
log_name-named (some m) disk asked name l h = get_logger-keeps m asked name l h

log_names-named :
    (s : LoggerMgr) (disk : Bytes → Bytes) (asked : List Bytes) (name : Bytes) (l : ℕ)
    → named s name ≡ some l
    → named (log_names s disk asked).0 name ≡ some l
unfolding log_names
log_names-named s disk [] name l h = h
log_names-named s disk (a ∷ asked) name l h =
    log_names-named (log_name s disk a).0 disk asked name l (log_name-named s disk a name l h)

-- The logger that is answered is the one that the name has.
log_name-answers :
    (s : LoggerMgr) (disk : Bytes → Bytes) (name : Bytes)
    → named (log_name s disk name).0 name ≡ some (log_name s disk name).1
unfolding log_name the_manager
log_name-answers s disk name =
    let m = (the_manager s disk).1 in (get_logger-Answers m name name).1 ∙ rw (equal_refl name)

-- A name that has a logger gets it, and nothing changes.
named-log_name :
    (s : LoggerMgr) (disk : Bytes → Bytes) (name : Bytes) (l : ℕ)
    → named s name ≡ some l
    → log_name s disk name ≡ (s, l)
unfolding log_name the_manager
named-log_name none disk name l h = absurd (ground arith)
named-log_name (some m) disk name l h = rw (get_logger_found m name l h) refl

-- Asking for a name again, after whatever other names, gives the same logger and makes none, from
-- the first call of all that makes the manager on.
pub log_name-again :
    (s : LoggerMgr) (disk : Bytes → Bytes) (name : Bytes) (others : List Bytes)
    → let (first, l) = log_name s disk name in
      let (later, ls) = log_names first disk others in log_name later disk name ≡ (later, l)
log_name-again s disk name others =
    let first = (log_name s disk name).0 in
    named-log_name (log_names first disk others).0 disk name (log_name s disk name).1 (
      log_names-named first disk others name (log_name s disk name).1
        (log_name-answers s disk name))
