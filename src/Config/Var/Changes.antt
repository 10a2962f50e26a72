-- ===== src/Config/Var/Changes.antt =====
-- Changing a configuration variable, and its listeners.
use chord_server.Prelude.{
  ℕ, suc, ◌+◌, ◌%◌, ◌^◌, ◌<◌, Bool, true, false, ◌≡◌, refl, sym, ◌∙◌, List, [], ◌∷◌, ◌++◌, map,
  Option, none, some, ◌==◌, if◌then◌else◌, Bytes, arith, Bool-cases, inl, inr, append_assoc,
  append-nil, Option-cases,
}
use chord_server.Config.Var.{
  Callback, ConfigVar, call_all, set_value, find_cb, insert_cb, erase_cb, add_listener,
  del_listener, get_listener, from_string,
}

-- Listeners that write down their key and what they are told.
abbrev pub Notice : Type 0 → Type 0
Notice T = ℕ × (T × T)

abbrev pub recorder : (T : Type 0) → ℕ → Callback T (List (Notice T))
recorder T k old new s = s ++ (k, (old, new)) ∷ []

abbrev pub recorders : (T : Type 0) → List ℕ → List (ℕ × Callback T (List (Notice T)))
recorders T ks = map (λ k. (k, recorder T k)) ks

module _ {T : Type 0} where
  call_all-recorders :
      (ks : List ℕ) (old new : T) (s : List (Notice T))
      → call_all (recorders T ks) old new s ≡ s ++ map (λ k. (k, (old, new))) ks
  unfolding call_all
  call_all-recorders [] old new s = rw append-nil
  call_all-recorders (k ∷ ks) old new s =
      call_all-recorders ks old new (s ++ (k, (old, new)) ∷ []) ∙ rw append_assoc

  -- Setting a value: if it equals the old one nothing happens; otherwise it is stored, and every
  -- listener is told once, in the order of the keys, of the old and the new value.
  set_value-notices :
      (eq : T → T → Bool) (v : ConfigVar T (List (Notice T))) (ks : List ℕ) (val : T)
      (s : List (Notice T))
      → ((a b : T) → eq a b ≡ true → a ≡ b)
      → v.cbs ≡ recorders T ks
      → ((set_value eq v val s).0.val ≡ val)
        × ((set_value eq v val s).0.cbs ≡ v.cbs)
        × ((set_value eq v val s).1
            ≡ (if eq val v.val then s else s ++ map (λ k. (k, (v.val, val))) ks))
  unfolding set_value
  set_value-notices eq v ks val s sound h = elim (Bool-cases (eq val v.val)) [
    | inl e ↦ rw e (sym (sound val v.val e), refl, refl)
    | inr e ↦ rw (e, h) (refl, refl, call_all-recorders ks v.val val s)
  ]

module _ {ℓ} {V : Type ℓ} where
  -- Keys rise along the map.
  abbrev pub Above : ℕ → List (ℕ × V) → Type 0
  Above n [] = Unit
  Above n ((k, c) ∷ cbs) = (n < k) × Above k cbs

  find_cb-insert_cb :
      (key k : ℕ) (cb : V) (cbs : List (ℕ × V))
      → find_cb k (insert_cb key cb cbs) ≡ (if key == k then some cb else find_cb k cbs)
  unfolding find_cb insert_cb
  find_cb-insert_cb key k cb [] = refl
  find_cb-insert_cb key k cb ((j, c) ∷ cbs) = ground (arith, find_cb-insert_cb key k cb cbs)

  find_cb-Above :
      (key n : ℕ) (cbs : List (ℕ × V)) → Above n cbs → key < suc n → find_cb key cbs ≡ none
  unfolding find_cb
  find_cb-Above key n [] a h = refl
  find_cb-Above key n ((k, c) ∷ cbs) a h = ground (arith, find_cb-Above key k cbs a.1)

  find_cb-erase_cb :
      (key k n : ℕ) (cbs : List (ℕ × V))
      → Above n cbs
      → find_cb k (erase_cb key cbs) ≡ (if key == k then none else find_cb k cbs)
  unfolding find_cb erase_cb
  find_cb-erase_cb key k n [] a = ground arith
  find_cb-erase_cb key k n ((j, c) ∷ cbs) a =
      ground (arith, find_cb-erase_cb key k j cbs a.1, find_cb-Above k j cbs a.1)

Above-insert_cb {ℓ} :
    {V : Type ℓ} (n key : ℕ) (cb : V) (cbs : List (ℕ × V))
    → n < key
    → Above n cbs
    → Above n (insert_cb key cb cbs)
unfolding insert_cb
Above-insert_cb n key cb [] h a = (h, tt)
Above-insert_cb n key cb ((k, c) ∷ cbs) h a = ground (arith, Above-insert_cb k key cb cbs, a)

module _ {ℓ} {T S : Type ℓ} where
  -- Registering a listener on a variable whose map is in order: the map stays in order, the
  -- returned key finds the listener, every other key finds what it found before, and erasing the
  -- key again leaves all other keys as they were and this one without a listener; the counter must
  -- not be about to wrap round.
  add_listener-get :
      (v : ConfigVar T S) (fun_id k : ℕ) (cb : Callback T S)
      → Above 0 v.cbs
      → fun_id + 1 < 2 ^ 64
      → let (w, (next, id)) = add_listener v fun_id cb in
        Above 0 w.cbs
        × (id ≡ fun_id + 1)
        × (get_listener w k ≡ (if id == k then some cb else get_listener v k))
        × (get_listener (del_listener w id) k ≡ (if id == k then none else get_listener v k))
  unfolding add_listener get_listener del_listener
  add_listener-get v fun_id k cb a h =
      let id : (fun_id + 1) % 2 ^ 64 ≡ fun_id + 1 = omega arith in
      let order : Above 0 (insert_cb (fun_id + 1) cb v.cbs) =
        Above-insert_cb 0 (fun_id + 1) cb v.cbs (omega arith) a in
      rw id (
        order,
        refl,
        find_cb-insert_cb (fun_id + 1) k cb v.cbs,
        find_cb-erase_cb (fun_id + 1) k 0 _ order
            ∙ ground (arith, find_cb-insert_cb (fun_id + 1) k cb v.cbs),
      )

  -- `fromString` answers false whether or not it has set the value: it sets it exactly if the text
  -- can be converted.
  from_string_lem :
      (eq : T → T → Bool) (from_str : Bytes → Option T) (report : Bytes → S → S) (v : ConfigVar T S)
      (text : Bytes) (s : S)
      → ((from_string eq from_str report v text s).1 ≡ false)
        × ((val : T)
            → from_str text ≡ some val
            → (from_string eq from_str report v text s).0 ≡ set_value eq v val s)
        × (from_str text ≡ none → (from_string eq from_str report v text s).0 ≡ (v, report text s))
  unfolding from_string
  from_string_lem eq from_str report v text s = (
    elim (Option-cases (from_str text)) [
      | inl e ↦ rw (e, from_string)
      | inr (a, e) ↦ rw (e, from_string)
    ],
    λ val e. rw (e, from_string),
    λ e. rw (e, from_string),
  )
