-- ===== src/Log/Listener/Keyed.antt =====
-- Names and loggers: no logger has two names.
use chord_server.Prelude.{
  ℕ, ◌≤◌, ◌<◌, false, ◌≡◌, refl, ◌∙◌, none, some, Bytes, equal, equal_iff, equal_refl, Option-cases,
  inl, inr, arith, ==_iff,
}
use chord_server.Log.World.{World}
use chord_server.Log.Manager.{LoggerManager, find, get_logger, make_logger}
use chord_server.Log.Manager.Names.{find-insert, added, get_logger_found, get_logger_new}
use chord_server.Log.Listener.Changes.{Changes, Same}

-- Every name is bound to a logger that was made, and no logger has two names.
pub record IsKeyed (m : LoggerManager) : Type 0 where
  pub below : (n : Bytes) (l : ℕ) → find n m.loggers ≡ some l → l < m.world.next_logger
  pub one : (n k : Bytes) (l : ℕ) → find n m.loggers ≡ some l → find k m.loggers ≡ some l → n ≡ k

-- What configuring the logger of one name leaves alone.
pub record Touches (name : Bytes) (m o : LoggerManager) : Type 0 where
  pub bound : (n : Bytes) (l : ℕ) → find n m.loggers ≡ some l → find n o.loggers ≡ some l
  pub apart :
      (n : Bytes) (l : ℕ)
      → equal name n ≡ false
      → find n m.loggers ≡ some l
      → o.world.logger l ≡ m.world.logger l
  pub grows : m.world.next_appender ≤ o.world.next_appender
  pub same : (i : ℕ) → i < m.world.next_appender → Same m.world o.world i

pub Touches-refl : (name : Bytes) (m : LoggerManager) → Touches name m m
Touches-refl name m = record {
  bound = λ n l e. e;
  apart = λ n l e f. refl;
  grows = omega arith;
  same = λ i n. (refl, λ e x. x, λ f x. x);
}

pub Touches-trans :
    {name : Bytes} {m o p : LoggerManager} → Touches name m o → Touches name o p → Touches name m p
Touches-trans h k = record {
  bound = λ n l e. k.bound n l (h.bound n l e);
  apart = λ n l e f. k.apart n l e (h.bound n l f) ∙ h.apart n l e f;
  grows = omega (arith, h.grows, k.grows);
  same = λ i n.
      let (a, b, p) = h.same i n in
      let (c, d, q) = k.same i (omega (arith, h.grows)) in
      (c ∙ a, λ e x. d e (b e x), λ f x. q f (p f x));
}

-- Asking for the name: it is bound then, and nothing else changes.
abbrev pub Names : LoggerManager → Bytes → LoggerManager × ℕ → Type 0
Names m name r = IsKeyed r.0 × (find name r.0.loggers ≡ some r.1) × Touches name m r.0

added-Names :
    (m : LoggerManager) (name : Bytes)
    → IsKeyed m
    → find name m.loggers ≡ none
    → Names m name (added m name, m.world.next_logger)
unfolding make_logger
added-Names m name k e =
    let next = m.world.next_logger in
    let bound = λ (n : Bytes). find-insert name n next m.loggers in
    (
      record {
        below = λ n l h. ground (arith, bound n, k.below n l);
        one = λ n j l h g. ground (
          arith,
          bound n,
          bound j,
          k.below n l,
          k.below j l,
          k.one n j l,
          equal_iff name n,
          equal_iff name j,
        );
      },
      bound name ∙ rw (equal_refl name),
      record {
        bound = λ n l h. ground (arith, bound n, equal_iff name n, e);
        apart = λ n l f h. ground (arith, k.below n l h);
        grows = omega arith;
        same = λ i n. (refl, λ e x. x, λ f x. x);
      },
    )

pub get_logger-Names :
    (m : LoggerManager) (name : Bytes) → IsKeyed m → Names m name (get_logger m name)
get_logger-Names m name k = elim (Option-cases (find name m.loggers)) [
  | inl e ↦ rw (get_logger_new m name e) (added-Names m name k e)
  | inr (l, e) ↦ rw (get_logger_found m name l e) (k, e, Touches-refl name m)
]

-- A change of the logger that the name is bound to.
pub Changes-Touches :
    (name : Bytes) (m : LoggerManager) (l : ℕ) (w : World)
    → IsKeyed m
    → find name m.loggers ≡ some l
    → Changes l m.world w
    → IsKeyed (record m { world = w }) × Touches name m (record m { world = w })
Changes-Touches name m l w k e c = (
  record { below = λ n j h. rw c.loggers (k.below n j h); one = k.one },
  record {
    bound = λ n j h. h;
    apart = λ n j f h.
        c.others j (ground (arith, ==_iff l j, k.one name n l e, equal_iff name n, h, f));
    grows = c.grows;
    same = c.same;
  },
)
