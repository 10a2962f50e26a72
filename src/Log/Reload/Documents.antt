-- ===== src/Log/Reload/Documents.antt =====
-- LoadFromYaml of chord/config.cpp in a program with the variable "logs": what it does to the
-- loggers.
use mathlib.Core.List.{Memᴰ}
use mathlib.Core.List.Memᴰ.{head, tail}
use chord_server.Prelude.{
  cons-cases, ℕ, ◌<◌, true, false, ◌≡◌, ◌↔◌, refl, sym, subst, ap, ap₂, List, [], ◌∷◌, Option, none,
  some, ◌==◌, ==_iff, if◌then◌else◌, Bytes, codes, Bool-cases, inl, inr,
}
use chord_server.Config.Yaml.{Yaml, Builder}
use chord_server.Config.Members.Keys.{IsMember}
use chord_server.Config.Registry.{Registry, lookup_base, load_from_yaml}
use chord_server.Config.Registry.Settings.{setting, load_from_yaml_exactly}
use chord_server.Log.Listener.{Site}
use chord_server.Log.Reload.{Logs, load_logs}
use chord_server.Log.Reload.Follows.{Follows, load_logs-Follows}

-- What `fromString` of another variable, at a place and with a text, does through its listeners and
-- its handler.
abbrev pub Others : Type 0
Others = ℕ → Bytes → Logs → Logs

module _ (yaml : Yaml) (b : Builder yaml) (others : Others) where
  -- The calls of `fromString` in turn, where "logs" is the variable at the place.
  unfoldable pub set_each : ℕ → Site → List (ℕ × Bytes) → Logs → Logs
  set_each place s [] l = l
  set_each place s ((var, text) ∷ calls) l =
      set_each place s calls (if var == place then load_logs yaml b l s text else others var text l)

  -- `LoadFromYaml`
  unfoldable pub load_document : ℕ → Registry → ℕ → Site → Logs → yaml.Node → Option Logs
  unfolding set_each
  load_document fuel r place s l root = elim (load_from_yaml yaml fuel r root) [
    | none ↦ none
    | some calls ↦ some (set_each place s calls l)
  ]

-- The texts that are set at the place.
texts_at : ℕ → List (ℕ × Bytes) → List Bytes
texts_at place [] = []
texts_at place ((var, text) ∷ calls) =
    let rest = texts_at place calls in if var == place then text ∷ rest else rest

Memᴰ-texts_at :
    (place : ℕ) (t : Bytes) (calls : List (ℕ × Bytes))
    → Memᴰ (place, t) calls
    → Memᴰ t (texts_at place calls)
unfolding texts_at
Memᴰ-texts_at place t [] m = elim m [ ]
Memᴰ-texts_at place t ((var, text) ∷ calls) (head e) =
    let same : (var == place) ≡ true = (==_iff var place).1 (sym (ap (λ x. x.0) e)) in
    rw same (head (ap (λ x. x.1) e))
Memᴰ-texts_at place t ((var, text) ∷ calls) (tail m) = elim (Bool-cases (var == place)) [
  | inl e ↦ rw e (tail (Memᴰ-texts_at place t calls m))
  | inr e ↦ rw e (Memᴰ-texts_at place t calls m)
]

texts_at-Memᴰ :
    (place : ℕ) (t : Bytes) (calls : List (ℕ × Bytes))
    → Memᴰ t (texts_at place calls)
    → Memᴰ (place, t) calls
unfolding texts_at
texts_at-Memᴰ place t [] m = elim m [ ]
texts_at-Memᴰ place t ((var, text) ∷ calls) m = elim (Bool-cases (var == place)) [
  | inl e ↦
      let v : place ≡ var = sym ((==_iff var place).0 e) in
      elim (cons-cases (rw e at m)) [
        | inl x ↦ head (ap₂ (λ i u. (i, u)) v x)
        | inr n ↦ tail (texts_at-Memᴰ place t calls n)
      ]
  | inr e ↦ tail (texts_at-Memᴰ place t calls (rw e at m))
]

-- The texts are loaded into "logs", the variable at the place, one after another, with any calls of
-- other variables in between.
pub data Loaded (yaml : Yaml) (b : Builder yaml) (others : Others) (place : ℕ) (s : Site)
    : List Bytes → Logs → Logs → Type 0 where
  done : {l : Logs} → Loaded yaml b others place s [] l l
  own :
      {ts : List Bytes} {l o : Logs} (t : Bytes)
      → Loaded yaml b others place s ts (load_logs yaml b l s t) o
      → Loaded yaml b others place s (t ∷ ts) l o
  other :
      {ts : List Bytes} {l o : Logs} (var : ℕ) (t : Bytes)
      → (var == place) ≡ false
      → Loaded yaml b others place s ts (others var t l) o
      → Loaded yaml b others place s ts l o

module _ (yaml : Yaml) (b : Builder yaml) (others : Others) where
  set_each-Loaded :
      (place : ℕ) (s : Site) (calls : List (ℕ × Bytes)) (l : Logs)
      → Loaded yaml b others place s
          (texts_at place calls)
          l
          (set_each yaml b others place s calls l)
  unfolding set_each texts_at
  set_each-Loaded place s [] l = done
  set_each-Loaded place s ((var, text) ∷ calls) l = elim (Bool-cases (var == place)) [
    | inl e ↦ rw e (own text (set_each-Loaded place s calls (load_logs yaml b l s text)))
    | inr e ↦ rw e (other var text e (set_each-Loaded place s calls (others var text l)))
  ]

  Loaded-Follows :
      {place : ℕ} {s : Site} {ts : List Bytes} {l o : Logs}
      → ((var : ℕ) (t : Bytes) (k : Logs) → Follows k → Follows (others var t k))
      → Loaded yaml b others place s ts l o
      → Follows l
      → Follows o
  Loaded-Follows keep done h = h
  Loaded-Follows {s} {l = l} keep (own t r) h =
      Loaded-Follows keep r (load_logs-Follows yaml b l s t h)
  Loaded-Follows {l = l} keep (other var t e r) h = Loaded-Follows keep r (keep var t l h)

  -- The texts in the order in which they are loaded, which are those of the members "logs".
  abbrev pub LoadsMembers : ℕ → Site → Logs → yaml.Node → Option Logs → Type 0
  LoadsMembers place s l root result =
      (o : Logs) × (result ≡ some o)
      × ((texts : List Bytes) × Loaded yaml b others place s texts l o
          × ((t : Bytes)
              → Memᴰ t texts
                ↔ ((m : yaml.Node) × IsMember yaml root (codes "logs") m × (t ≡ setting yaml m))))
      × Follows o

  -- Loading a finite document in a program where "logs", and no other name, names the variable at a
  -- place, ends; it loads into the variable exactly the texts of the document's members with the
  -- path "logs", one after another, with calls of other variables in between; and if the loggers
  -- followed the variable before (at its levels, with the valid formatters, and with the appenders
  -- of the kinds, files, levels and valid formatters that it lists, unless the program has
  -- crashed), and no call of another variable makes them stop doing so, they do so after.
  pub load_document-LoadsMembers :
      (fuel : ℕ) (r : Registry) (place : ℕ) (s : Site) (l : Logs) (root : yaml.Node)
      → yaml.depth root < fuel
      → lookup_base r (codes "logs") ≡ some place
      → ((name : Bytes) → lookup_base r name ≡ some place → name ≡ codes "logs")
      → ((var : ℕ) (t : Bytes) (k : Logs) → Follows k → Follows (others var t k))
      → Follows l
      → LoadsMembers place s l root (load_document yaml b others fuel r place s l root)
  unfolding load_document
  load_document-LoadsMembers fuel r place s l root d bound only keep h =
      let (calls, e, exactly) = load_from_yaml_exactly yaml root r fuel d in
      let loaded = set_each-Loaded place s calls l in
      (
        set_each yaml b others place s calls l,
        rw (load_document, e) refl,
        (
          texts_at place calls,
          loaded,
          λ t. (
            λ m.
                let (path, node, i, full, there, is_text) =
                  (exactly (place, t)).0 (texts_at-Memᴰ place t calls m) in
                (node, subst (λ p. IsMember yaml root p node) (only path there) i, is_text),
            λ (node, i, is_text).
                Memᴰ-texts_at place t calls
                  ((exactly (place, t)).1 (codes "logs", node, i, refl, bound, is_text)),
          ),
        ),
        Loaded-Follows keep loaded h,
      )
