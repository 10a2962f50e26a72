-- ===== src/Config/Var.antt =====
-- ConfigVar<T> of chord/config.h: a value with listeners. `T` is the value's type, and `S` stands
-- for all that the listeners may change.
pub mod Changes
use chord_server.Prelude.{
  ℕ, suc, ◌+◌, ◌%◌, ◌^◌, Bool, true, false, List, [], ◌∷◌, ◌++◌, map, Option, none, some, ltb, ◌==◌,
  if◌then◌else◌, Bytes, tolower,
}

-- `std::function<void (const T& old_value, const T& new_value)>`
abbrev pub Callback {ℓ} : Type ℓ → Type ℓ → Type ℓ
Callback T S = T → T → S → S

-- `class ConfigVar`; `std::map<uint64_t, on_change_cb>` is in the order of its keys.
pub record ConfigVar {ℓ} (T S : Type ℓ) : Type ℓ where
  pub name : Bytes
  pub description : Bytes
  pub val : T
  pub cbs : List (ℕ × Callback T S)

module _ {ℓ} {V : Type ℓ} where
  unfoldable pub find_cb : ℕ → List (ℕ × V) → Option V
  find_cb key [] = none
  find_cb key ((k, cb) ∷ cbs) = if k == key then some cb else find_cb key cbs

  -- `m_cbs[key] = cb`
  unfoldable pub insert_cb : ℕ → V → List (ℕ × V) → List (ℕ × V)
  insert_cb key cb [] = (key, cb) ∷ []
  insert_cb key cb ((k, c) ∷ cbs) =
      let more = insert_cb key cb cbs in
      if k == key
      then (key, cb) ∷ cbs
      else if ltb key k
      then (key, cb) ∷ (k, c) ∷ cbs
      else (k, c) ∷ more

  -- `m_cbs.erase(key)`
  unfoldable pub erase_cb : ℕ → List (ℕ × V) → List (ℕ × V)
  erase_cb key [] = []
  erase_cb key ((k, c) ∷ cbs) = if k == key then cbs else (k, c) ∷ erase_cb key cbs

-- `ConfigVarBase::ConfigVarBase`: the name is lowered.
abbrev pub base_name : Bytes → Bytes
base_name name = map tolower name

module _ {ℓ} {T S : Type ℓ} where
  -- `ConfigVar::ConfigVar`
  unfoldable pub new_var : Bytes → T → Bytes → ConfigVar T S
  new_var name default_value description = record {
    name = base_name name;
    description = description;
    val = default_value;
    cbs = [];
  }

  -- The loop over `m_cbs`.
  unfoldable pub call_all : List (ℕ × Callback T S) → T → T → S → S
  call_all [] old new s = s
  call_all ((k, cb) ∷ cbs) old new s = call_all cbs old new (cb old new s)

  -- `setValue`, given `==` on T.
  unfoldable pub set_value : (T → T → Bool) → ConfigVar T S → T → S → ConfigVar T S × S
  unfolding call_all
  set_value eq v val s =
      if eq val v.val then (v, s) else (record v { val = val }, call_all v.cbs v.val val s)

  -- `addListener`, with the counter `s_fun_id` that all variables of one type share; it returns the
  -- variable, the counter and the key.
  unfoldable pub add_listener : ConfigVar T S → ℕ → Callback T S → ConfigVar T S × (ℕ × ℕ)
  unfolding insert_cb
  add_listener v fun_id cb =
      let id = (fun_id + 1) % 2 ^ 64 in (record v { cbs = insert_cb id cb v.cbs }, (id, id))

  -- `delListener`
  unfoldable pub del_listener : ConfigVar T S → ℕ → ConfigVar T S
  unfolding erase_cb
  del_listener v key = record v { cbs = erase_cb key v.cbs }

  -- `getListener`
  unfoldable pub get_listener : ConfigVar T S → ℕ → Option (Callback T S)
  unfolding find_cb
  get_listener v key = find_cb key v.cbs

  -- `clearListener`
  unfoldable pub clear_listener : ConfigVar T S → ConfigVar T S
  clear_listener v = record v { cbs = [] }

  -- `fromString`, given `==`, the conversion, which throws where it is `none`, and what the logging
  -- of the handler changes then; the last part is what is returned. Listeners are taken not to
  -- throw.
  unfoldable pub from_string :
      (T → T → Bool)
      → (Bytes → Option T)
      → (Bytes → S → S)
      → ConfigVar T S
      → Bytes
      → S
      → (ConfigVar T S × S) × Bool
  unfolding set_value
  from_string eq from_str report v text s = elim (from_str text) [
    | none ↦ ((v, report text s), false)
    | some val ↦ (set_value eq v val s, false)
  ]

  -- `toString`, given the conversion, which throws where it is `none`.
  unfoldable pub to_string : (T → Option Bytes) → ConfigVar T S → Bytes
  to_string to_str v = elim (to_str v.val) [ none ↦ [] | some text ↦ text ]
