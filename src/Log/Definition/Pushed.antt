-- ===== src/Log/Definition/Pushed.antt =====
-- Nodes pushed to the sequence of appenders of a node, and lists of nodes that are read.
use chord_server.Prelude.{
  false, ◌≡◌, refl, sym, ap, ◌∙◌, List, [], ◌∷◌, ◌++◌, Option, none, some, Bytes, codes, equal, map,
  append_assoc, append-nil, All,
}
use chord_server.Config.Yaml.{Yaml, Builder, Laws}
use chord_server.Log.Definition.{
  LogAppenderDefine, LogDefine, LogDefines, read_appender, keep, read_appenders,
  read_found_appenders, read_all_appenders, read_define, read_defines,
}
use chord_server.Log.Definition.Print.{get_or_null, push_at}
use chord_server.Log.Definition.Order.{
  IsOrdered, Before, insert_define-last, Before-head, Before-snoc,
}

abbrev pub keep_all : List (Option LogAppenderDefine) → List LogAppenderDefine
keep_all [] = []
keep_all (d ∷ ds) = keep d (keep_all ds)

module _ (yaml : Yaml) (b : Builder yaml) (y : Laws yaml b) where
  open yaml use {Node}
  open b use {items, get, null, push_back, assign}

  -- The nodes, pushed one after another.
  unfoldable pub push_all : Node → List Node → Node
  push_all n [] = n
  push_all n (x ∷ xs) = push_all (push_at yaml b n (codes "appenders") x) xs

  get_or_null-some :
      (n v : Node) (key : Bytes) → get n key ≡ some (some v) → get_or_null yaml b n key ≡ v
  get_or_null-some n v key e = rw (e, get_or_null)

  get_or_null-none :
      (n : Node) (key : Bytes) → get n key ≡ some none → get_or_null yaml b n key ≡ null
  get_or_null-none n key e = rw (e, get_or_null)

  pub push_all-IsMap : (xs : List Node) (n : Node) → y.IsMap n → y.IsMap (push_all n xs)
  unfolding push_all
  push_all-IsMap [] n h = h
  push_all-IsMap (x ∷ xs) n h = push_all-IsMap xs _ (y.assign-IsMap _ _ _ h)

  -- The other keys are as they were.
  pub push_all-get :
      (xs : List Node) (n : Node) (k : Bytes)
      → y.IsMap n
      → equal (codes "appenders") k ≡ false
      → get (push_all n xs) k ≡ get n k
  unfolding push_all
  push_all-get [] n k h e = refl
  push_all-get (x ∷ xs) n k h e =
      let list = push_back (get_or_null yaml b n (codes "appenders")) x in
      push_all-get xs (assign n (codes "appenders") list) k
        (y.assign-IsMap n list (codes "appenders") h) e
      ∙ y.get-assign n list (codes "appenders") k h
      ∙ rw e

  push_all-items :
      (xs : List Node) (n : Node)
      → y.IsMap n
      → y.IsSequence (get_or_null yaml b n (codes "appenders"))
      → items (get_or_null yaml b (push_all n xs) (codes "appenders"))
        ≡ items (get_or_null yaml b n (codes "appenders")) ++ xs
  unfolding push_all
  push_all-items [] n h q = sym (append-nil _)
  push_all-items (x ∷ xs) n h q =
      let old = get_or_null yaml b n (codes "appenders") in
      let list = push_back old x in
      let next = assign n (codes "appenders") list in
      let got : get_or_null yaml b next (codes "appenders") ≡ list =
        get_or_null-some next list (codes "appenders")
          (y.get-assign n list (codes "appenders") (codes "appenders") h) in
      push_all-items xs next (y.assign-IsMap n list (codes "appenders") h)
        (rw got (y.push_back-IsSequence old x q))
      ∙ ap (λ t. items t ++ xs) got
      ∙ ap (λ t. t ++ xs) (y.items-push_back old x q)
      ∙ append_assoc (items old) (x ∷ []) xs

  read_found_appenders-items :
      (n : Node) (found : Option Node)
      → get n (codes "appenders") ≡ some found
      → read_all_appenders yaml b n
        ≡ read_appenders yaml b (items (get_or_null yaml b n (codes "appenders")))
  unfolding read_all_appenders read_found_appenders read_appenders
  read_found_appenders-items n none e = rw (e, read_all_appenders) (rw y.items-null refl)
  read_found_appenders-items n (some v) e = rw (e, read_all_appenders) refl

  -- The appenders that were pushed to a node without any are read.
  pub read_all_appenders-push_all :
      (xs : List Node) (n : Node)
      → y.IsMap n
      → get n (codes "appenders") ≡ some none
      → read_all_appenders yaml b (push_all n xs) ≡ read_appenders yaml b xs
  read_all_appenders-push_all xs n h e =
      let fresh = get_or_null-none n (codes "appenders") e in
      let (found, f) = y.get-IsMap (push_all n xs) (codes "appenders") (push_all-IsMap xs n h) in
      read_found_appenders-items (push_all n xs) found f
      ∙ ap (read_appenders yaml b)
          (push_all-items xs n h (rw fresh y.null-IsSequence) ∙ rw fresh (rw y.items-null refl))

  -- Nodes of which it is known what is read from each.
  pub read_appenders-map :
      {X : Type 0} (node : X → Node) (read : X → Option LogAppenderDefine) (xs : List X)
      → All (λ x. read_appender yaml b (node x) ≡ some (read x)) xs
      → read_appenders yaml b (map node xs) ≡ some (keep_all (map read xs))
  unfolding read_appenders
  read_appenders-map node read [] h = refl
  read_appenders-map node read (x ∷ xs) h = rw h.0 (rw (read_appenders-map node read xs h.1))

  pub read_defines-map :
      {X : Type 0} (node : X → Node) (read : X → LogDefine) (xs : List X) (es : LogDefines)
      → All (λ x. read_define yaml b (node x) ≡ some (some (read x))) xs
      → IsOrdered (map read xs)
      → Before es (map read xs)
      → read_defines yaml b (map node xs) es ≡ some (es ++ map read xs)
  unfolding read_defines
  read_defines-map node read [] es h o q = rw append-nil
  read_defines-map node read (x ∷ xs) es h o q =
      let (below, rest) = Before-head (read x) es (map read xs) q in
      rw h.0 (
        rw (insert_define-last (read x) es below) (
          read_defines-map node read xs (es ++ read x ∷ []) h.1 o.1
            (Before-snoc (read x) es (map read xs) rest o.0)
          ∙ ap some (append_assoc es (read x ∷ []) (map read xs))))

  -- Nodes pushed to a sequence of their own.
  unfoldable pub push_back_all : Node → List Node → Node
  push_back_all n [] = n
  push_back_all n (x ∷ xs) = push_back_all (push_back n x) xs

  pub push_back_all-items :
      (xs : List Node) (n : Node) → y.IsSequence n → items (push_back_all n xs) ≡ items n ++ xs
  unfolding push_back_all
  push_back_all-items [] n h = sym (append-nil (items n))
  push_back_all-items (x ∷ xs) n h =
      push_back_all-items xs (push_back n x) (y.push_back-IsSequence n x h)
      ∙ ap (λ t. t ++ xs) (y.items-push_back n x h)
      ∙ append_assoc (items n) (x ∷ []) xs
