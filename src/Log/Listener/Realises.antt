-- ===== src/Log/Listener/Realises.antt =====
-- Appenders that are as definitions list them.
use chord_server.Prelude.{ℕ, ◌≤◌, ◌<◌, ◌≡◌, ◌∙◌, List, [], ◌∷◌, ◌++◌, arith}
use chord_server.Log.Formatter.{LogFormatter}
use chord_server.Log.World.{World}
use chord_server.Log.Definition.{LogAppenderDefine}
use chord_server.Log.Listener.Changes.{Same, IsTarget, Wears, AsksFor, Changes}

-- The appender at `i` is one of the kind and level that the define says, with the formatter that it
-- asks for, and was made.
abbrev pub IsRealised : World → ℕ → LogAppenderDefine → Type 0
IsRealised w i a =
    (i < w.next_appender)
    × ((w.appender i).level ≡ a.level)
    × IsTarget (w.appender i).target a
    × ((f : LogFormatter) → AsksFor a.formatter f → Wears w i f)

abbrev pub Realises : World → List ℕ → List LogAppenderDefine → Type 0
Realises w [] [] = Unit
Realises w (i ∷ is) (a ∷ as') = IsRealised w i a × Realises w is as'
Realises w _ _ = ⊥

IsRealised-kept :
    (w v : World) (i : ℕ) (a : LogAppenderDefine)
    → w.next_appender ≤ v.next_appender
    → ((j : ℕ) → j < w.next_appender → Same w v j)
    → IsRealised w i a
    → IsRealised v i a
IsRealised-kept w v i a grows same (n, level, target, own) =
    let (x, y, p) = same i n in (omega arith, x ∙ level, y a target, λ f q. p f (own f q))

pub Realises-kept :
    (w v : World) (is : List ℕ) (as' : List LogAppenderDefine)
    → w.next_appender ≤ v.next_appender
    → ((j : ℕ) → j < w.next_appender → Same w v j)
    → Realises w is as'
    → Realises v is as'
Realises-kept w v [] [] g h r = tt
Realises-kept w v (i ∷ is) (a ∷ as') g h r =
    (IsRealised-kept w v i a g h r.0, Realises-kept w v is as' g h r.1)
Realises-kept w v [] (a ∷ as') g h r = absurd r
Realises-kept w v (i ∷ is) [] g h r = absurd r

pub IsRealised-Changes :
    {l : ℕ} {w v : World} (i : ℕ) (a : LogAppenderDefine)
    → Changes l w v
    → IsRealised w i a
    → IsRealised v i a
IsRealised-Changes {l} {w} {v} i a h r = IsRealised-kept w v i a h.grows h.same r

pub Realises-Changes :
    {l : ℕ} {w v : World} (is : List ℕ) (as' : List LogAppenderDefine)
    → Changes l w v
    → Realises w is as'
    → Realises v is as'
Realises-Changes {l} {w} {v} is as' h r = Realises-kept w v is as' h.grows h.same r

pub Realises-snoc :
    (w : World) (is : List ℕ) (i : ℕ) (as' : List LogAppenderDefine) (a : LogAppenderDefine)
    → Realises w is as'
    → IsRealised w i a
    → Realises w (is ++ i ∷ []) (as' ++ a ∷ [])
Realises-snoc w [] i [] a r h = (h, tt)
Realises-snoc w (j ∷ is) i (c ∷ as') a r h = (r.0, Realises-snoc w is i as' a r.1 h)
Realises-snoc w [] i (c ∷ as') a r h = absurd r
Realises-snoc w (j ∷ is) i [] a r h = absurd r
