-- ===== src/Locks/Ordered.antt =====
-- What a thread holds, against what it has still to do.
use chord_server.Prelude.{
  ℕ, ◌≤◌, ◌<◌, ◌≡◌, refl, sym, subst, true, List, [], ◌∷◌, ◌++◌, append_assoc, ap, ◌∙◌, All, arith,
  ==_iff,
}
use chord_server.Locks.{
  Mutex, registry, manager, variable, logger, appender, same_mutex, Hold, Act, lock, unlock,
}
use chord_server.Locks.Nesting.{rank, Nested, done, scoped}
use chord_server.Locks.Threads.{release, act}

abbrev pub AllBelow : ℕ → List Hold → Type 0
AllBelow k = All (λ h. rank h.mutex < k)

-- A lock is taken above all that are held, the last one taken is released first, and nothing is
-- held at the end.
abbrev pub Ordered : List Hold → List Act → Type 0
Ordered holds [] = holds ≡ []
Ordered holds (lock h ∷ rest) = AllBelow (rank h.mutex) holds × Ordered (h ∷ holds) rest
Ordered holds (unlock h ∷ rest) = (ks : List Hold) × (holds ≡ h ∷ ks) × Ordered ks rest

AllBelow-mono : {j k : ℕ} (hs : List Hold) → j ≤ k → AllBelow j hs → AllBelow k hs
AllBelow-mono [] le b = tt
AllBelow-mono (h ∷ hs) le b = (omega arith, AllBelow-mono hs le b.1)

pub Nested-Ordered :
    {k : ℕ} {acts : List Act} (holds : List Hold) (after : List Act)
    → Nested k acts
    → AllBelow k holds
    → Ordered holds after
    → Ordered holds (acts ++ after)
Nested-Ordered holds after done b o = o
Nested-Ordered holds after (scoped h inner rest le i a e) b o =
    let low : AllBelow (rank h.mutex) holds = AllBelow-mono holds le b in
    let behind : Ordered holds (rest ++ after) = Nested-Ordered holds after a b o in
    let within : Ordered (h ∷ holds) (inner ++ (unlock h ∷ (rest ++ after))) =
      Nested-Ordered (h ∷ holds) (unlock h ∷ (rest ++ after)) i
        (omega arith, AllBelow-mono holds (omega arith) low) (holds, refl, behind) in
    subst (Ordered holds)
      (sym (
        ap (λ zs. zs ++ after) e
        ∙ ap (λ zs. lock h ∷ zs) (append_assoc inner (unlock h ∷ rest) after)))
      (low, within)

pub same_mutex_refl : (m : Mutex) → same_mutex m m ≡ true
same_mutex_refl registry = refl
same_mutex_refl manager = refl
same_mutex_refl (variable i) = ground arith
same_mutex_refl (logger i) = ground arith
same_mutex_refl (appender i) = ground arith

-- Locks that conflict have one rank.
pub same_mutex-rank : (m n : Mutex) → same_mutex m n ≡ true → rank m ≡ rank n
same_mutex-rank registry registry h = refl
same_mutex-rank manager manager h = refl
same_mutex-rank (variable i) (variable j) h = refl
same_mutex-rank (logger i) (logger j) h = rw ((==_iff i j).0 h)
same_mutex-rank (appender i) (appender j) h = refl
same_mutex-rank registry manager h = absurd (ground arith)
same_mutex-rank _ _ h = absurd (ground arith)

pub act-Ordered :
    (holds : List Hold) (rest : List Act)
    → Ordered holds rest
    → Ordered (act holds rest).holds (act holds rest).rest
unfolding act
act-Ordered holds [] o = o
act-Ordered holds (lock h ∷ rest) o = o.1
act-Ordered holds (unlock h ∷ rest) (ks, e, o) =
    subst (λ hs. Ordered (release h hs) rest) (sym e) (rw (same_mutex_refl h.mutex) o)
