-- ===== src/Log/Manager/Names.antt =====
-- Names of loggers: LoggerManager::getLogger.
use chord_server.Prelude.{
  ℕ, true, ◌≡◌, refl, ◌∙◌, [], ◌∷◌, none, some, if◌then◌else◌, Bytes, equal, equal_iff, equal_refl,
  ◌==◌, ==_iff, subst, sym, Bool-cases, arith, Option-cases, inl, inr,
}
use chord_server.Log.Logger.{new_logger}
use chord_server.Log.Manager.{
  LoggerMap, LoggerManager, find, insert, get_found, get_logger, make_logger,
}

pub find-insert :
    (name key : Bytes) (l : ℕ) (m : LoggerMap)
    → find key (insert name l m) ≡ (if equal name key then some l else find key m)
unfolding find insert
find-insert name key l [] = refl
find-insert name key l ((k, x) ∷ m) =
    ground (arith, equal_iff name key, equal_iff k name, equal_iff k key, find-insert name key l m)

pub get_logger_found :
    (m : LoggerManager) (name : Bytes) (l : ℕ)
    → find name m.loggers ≡ some l
    → get_logger m name ≡ (m, l)
unfolding get_logger
get_logger_found m name l e = rw (e, get_found)

abbrev pub added : LoggerManager → Bytes → LoggerManager
added m name = record m {
  world = make_logger m.world (record (new_logger name) { root = some m.root });
  loggers = insert name m.world.next_logger m.loggers;
}

pub get_logger_new :
    (m : LoggerManager) (name : Bytes)
    → find name m.loggers ≡ none
    → get_logger m name ≡ (added m name, m.world.next_logger)
unfolding get_logger
get_logger_new m name e = rw (e, get_found)

-- The logger at `l`, new in `n`.
abbrev pub IsNew : LoggerManager → Bytes → LoggerManager → ℕ → Type 0
IsNew m name n l =
    (l ≡ m.world.next_logger)
    × ((n.world.logger l).name ≡ name)
    × ((n.world.logger l).root ≡ some m.root)
    × ((n.world.logger l).appenders ≡ [])

added-IsNew : (m : LoggerManager) (name : Bytes) → IsNew m name (added m name) m.world.next_logger
unfolding make_logger new_logger
added-IsNew m name =
    let here : (m.world.next_logger == m.world.next_logger) ≡ true = (==_iff _ _).1 refl in
    rw here (refl, refl, refl, refl)

-- What `r` must be for an answer to `name`.
abbrev pub Answers : LoggerManager → Bytes → Bytes → LoggerManager × ℕ → Type 0
Answers m name key r =
    (get_logger r.0 name ≡ r)
    × (find key r.0.loggers ≡ (if equal name key then some r.1 else find key m.loggers))
    × (find name m.loggers ≡ none → IsNew m name r.0 r.1)

find-equal :
    (name key : Bytes) (l : ℕ) (m : LoggerMap)
    → find name m ≡ some l
    → find key m ≡ (if equal name key then some l else find key m)
find-equal name key l m e = elim (Bool-cases (equal name key)) [
  | inl b ↦ rw b (subst (λ k. find k m ≡ some l) ((equal_iff name key).0 b) e)
  | inr b ↦ rw b
]

-- Asking for a logger by name: the answer is filed under the name, so that asking again gives the
-- same logger and changes nothing; every other name keeps its entry; and a new logger takes a new
-- place, bears the name, and has the manager's root and no appenders.
pub get_logger-Answers :
    (m : LoggerManager) (name key : Bytes) → Answers m name key (get_logger m name)
get_logger-Answers m name key = elim (Option-cases (find name m.loggers)) [
  | inl e ↦ rw (get_logger_new m name e) (
    get_logger_found (added m name) name m.world.next_logger
        (find-insert name name m.world.next_logger m.loggers ∙ rw (equal_refl name)),
    find-insert name key m.world.next_logger m.loggers,
    λ _. added-IsNew m name,
  )
  | inr (l, e) ↦
      rw (get_logger_found m name l e)
        (get_logger_found m name l e, find-equal name key l m.loggers e, λ h. cc (sym e ∙ h))
]
