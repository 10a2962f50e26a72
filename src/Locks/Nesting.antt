-- ===== src/Locks/Nesting.antt =====
-- The order in which the operations take locks.
pub mod Calls
pub mod Programs
use chord_server.Prelude.{
  ℕ, suc, ◌≤◌, ◌≡◌, refl, List, [], ◌∷◌, ◌++◌, append_assoc, ◌==◌, if◌then◌else◌, All, ap, ◌∙◌,
  arith,
}
use chord_server.Locks.{
  Mutex, registry, manager, variable, logger, appender, Hold, Act, lock, unlock, scope, each,
}

-- The registry before variables, these before the manager, that before loggers, the root logger
-- last of them, and appenders at the end.
abbrev pub rank : Mutex → ℕ
rank registry = 0
rank (variable v) = 1
rank manager = 2
rank (logger l) = if l == 0 then 4 else 3
rank (appender i) = 5

-- Blocks with guards, one behind the other or within another of smaller rank, none of a rank below
-- the number.
pub data Nested : ℕ → List Act → Type 0 where
  done : {k : ℕ} → Nested k []
  scoped :
      {k : ℕ} (h : Hold) (inner after : List Act) {acts : List Act}
      → k ≤ rank h.mutex
      → Nested (suc (rank h.mutex)) inner
      → Nested k after
      → acts ≡ lock h ∷ (inner ++ unlock h ∷ after)
      → Nested k acts

pub Nested-mono : {j k : ℕ} {acts : List Act} → j ≤ k → Nested k acts → Nested j acts
Nested-mono h done = done
Nested-mono h (scoped b inner after le i a e) =
    scoped b inner after (omega arith) i (Nested-mono h a) e

pub Nested-append : {k : ℕ} {xs ys : List Act} → Nested k xs → Nested k ys → Nested k (xs ++ ys)
Nested-append done n = n
Nested-append {ys = ys} (scoped h inner after le i a e) n =
    scoped h inner (after ++ ys) le i (Nested-append a n)
      (ap (λ zs. zs ++ ys) e ∙ ap (λ zs. lock h ∷ zs) (append_assoc inner (unlock h ∷ after) ys))

pub Nested-scope :
    {k : ℕ} (h : Hold) {inner : List Act}
    → k ≤ rank h.mutex
    → Nested (suc (rank h.mutex)) inner
    → Nested k (scope h inner)
Nested-scope h le i = scoped h _ [] le i done refl

pub Nested-each :
    {A : Type 0} {k : ℕ} (f : A → List Act) (xs : List A)
    → All (λ x. Nested k (f x)) xs
    → Nested k (each f xs)
Nested-each f [] h = done
Nested-each f (x ∷ xs) h = Nested-append h.0 (Nested-each f xs h.1)

pub Nested-each_any :
    {A : Type 0} {k : ℕ} (f : A → List Act) (xs : List A)
    → ((x : A) → Nested k (f x))
    → Nested k (each f xs)
Nested-each_any f [] h = done
Nested-each_any f (x ∷ xs) h = Nested-append (h x) (Nested-each_any f xs h)
