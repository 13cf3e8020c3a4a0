-- ===== src/SecureStorage/RoundTrip.antt =====
-- What is written is read back, and secrets stay in the keyring.
use y5fgb.Common.{
  ap, ◌≡◌, ◌∙◌, Bool, if◌then◌else◌, inr, insert, Bool-cases, sym, Option, Text, false, Dict, some,
  true, subst, codes, refl, ◌++◌, Option-cases, inl, not, ◌&&◌, ◌||◌, is_some, if_cases,
}
use y5fgb.SecureStorage.{
  Machine, Vault, Action, get_item, set_item, is_sensitive_key, threw, get_strict, catch,
  set_fallback, set_strict, done, get_fallback, Access, fallback_prefix, unavailable,
}
use y5fgb.SecureStorage.Layers.{
  IsTold, catch-done, set_strict-works, is_done, get_strict-found, lookup-insert_same,
  set_strict-broken, catch-threw, get_strict-broken, set_strict-outside,
}

-- Whether the keyring takes values.
abbrev pub keyring_works : Machine → Bool
keyring_works machine = machine.is_tauri && not (is_some machine.keyring_error)

module _ (machine : Machine) (key value : Text) (v : Vault) where
  pub set_item-secret :
      is_sensitive_key key ≡ true → set_item machine key value ≡ set_strict machine key value
  unfolding set_item
  set_item-secret secret = rw (set_item, secret) refl

  pub get_item-secret : is_sensitive_key key ≡ true → get_item machine key ≡ get_strict machine key
  unfolding get_item
  get_item-secret secret = rw (get_item, secret) refl

  abbrev plain_set : Bool → Action {0} Unit
  plain_set b =
      if b
      then catch (set_strict machine key value) (λ error. set_fallback machine key value)
      else set_fallback machine key value

  set_item-plain :
      (b : Bool)
      → is_sensitive_key key ≡ false
      → machine.is_tauri ≡ b
      → set_item machine key value ≡ plain_set b
  unfolding set_item
  set_item-plain b plain tauri =
      ap (λ s. if s then set_strict machine key value else plain_set machine.is_tauri) plain
      ∙ ap plain_set tauri

  abbrev plain_get : Bool → Action (Option Text)
  plain_get b =
      if b then catch (get_strict machine key) (λ error. get_fallback key) else get_fallback key

  get_item-plain :
      (b : Bool)
      → is_sensitive_key key ≡ false
      → machine.is_tauri ≡ b
      → get_item machine key ≡ plain_get b
  unfolding get_item
  get_item-plain b plain tauri =
      ap (λ s. if s then get_strict machine key else plain_get machine.is_tauri) plain
      ∙ ap plain_get tauri

  -- A write that ended well is read back; one that threw left the vault as it was.
  abbrev pub IsKept : Access {0} Unit → Vault → Type 0
  IsKept (done _) after = (get_item machine key after).0 ≡ done (some value)
  IsKept (threw _) after = after ≡ v

  abbrev IsSettled : Access {0} Unit × Vault → Type 0
  IsSettled result =
      (is_done result.0
        ≡ (keyring_works machine || (not (is_sensitive_key key) && machine.has_room)))
      × IsKept result.0 result.1
      × ((if is_sensitive_key key then result.1.fallback else v.fallback) ≡ v.fallback)

  abbrev inserted : Vault
  inserted = record v { keyring = insert key value v.keyring }

  stored_in_keyring :
      keyring_works machine ≡ true
      → set_item machine key value v ≡ (done tt, inserted)
      → (get_item machine key inserted).0 ≡ done (some value)
      → IsSettled (set_item machine key value v)
  stored_in_keyring intact set got = subst IsSettled (sym set) (
    rw intact refl,
    got,
    if_cases (λ f. f ≡ v.fallback) (is_sensitive_key key) (λ _. refl) (λ _. refl),
  )

  refused :
      (message : Text)
      → (keyring_works machine || (not (is_sensitive_key key) && machine.has_room)) ≡ false
      → set_item machine key value v ≡ (threw message, v)
      → IsSettled (set_item machine key value v)
  refused message shut set = subst IsSettled (sym set) (
    sym shut,
    refl,
    if_cases (λ f. f ≡ v.fallback) (is_sensitive_key key) (λ _. refl) (λ _. refl),
  )

  -- What follows where the keyring did not take a value that is no secret.
  through_fallback :
      is_sensitive_key key ≡ false
      → keyring_works machine ≡ false
      → set_item machine key value v ≡ set_fallback machine key value v
      → ((d : Dict Text)
          → get_item machine key (record v { fallback = d })
            ≡ get_fallback key (record v { fallback = d }))
      → IsSettled (set_item machine key value v)
  through_fallback plain shut set got =
      let d = insert (fallback_prefix ++ key) value v.fallback in
      let u = record v { fallback = d } in
      elim (Bool-cases machine.has_room) [
        | inl room ↦
            let written =
              set
              ∙ ap (λ b. if b then (done tt, u) else (threw (codes "QuotaExceededError"), v))
                  room in
            subst IsSettled (sym written) (
              rw (shut, plain, room) refl,
              ap (λ (p : Access (Option Text) × Vault). p.0)
                  (got d
                    ∙ ap (λ o. (done o, u))
                        (lookup-insert_same (fallback_prefix ++ key) value v.fallback)),
              rw plain refl,
            )
        | inr full ↦ refused (codes "QuotaExceededError") (rw (shut, plain, full) refl) (
            set
            ∙ ap (λ b. if b then (done tt, u) else (threw (codes "QuotaExceededError"), v)) full)
      ]

  set_item-IsSettled_secret : is_sensitive_key key ≡ true → IsSettled (set_item machine key value v)
  set_item-IsSettled_secret secret =
      let set = ap (λ m. m v) (set_item-secret secret) in
      elim (Bool-cases machine.is_tauri) [
        | inl tauri ↦ elim (Option-cases machine.keyring_error) [
          | inl intact ↦
              stored_in_keyring (rw (tauri, intact) refl)
                (set ∙ set_strict-works machine key value v tauri intact)
                (ap (λ (p : Access (Option Text) × Vault). p.0)
                  (ap (λ m. m inserted) (get_item-secret secret)
                    ∙ get_strict-found machine key value inserted tauri intact
                        (lookup-insert_same key value v.keyring)))
          | inr (error, broken) ↦
              refused (codes "failed to set secret: " ++ error) (rw (tauri, broken, secret) refl)
                (set ∙ set_strict-broken machine key value error v tauri broken)
        ]
        | inr outside ↦
            refused unavailable (rw (outside, secret) refl)
              (set ∙ set_strict-outside machine key value v outside)
      ]

  set_item-IsSettled_plain :
      is_sensitive_key key ≡ false
      → IsTold machine machine.keyring_error
      → IsSettled (set_item machine key value v)
  set_item-IsSettled_plain plain told = elim (Bool-cases machine.is_tauri) [
    | inl tauri ↦
        let set = ap (λ m. m v) (set_item-plain true plain tauri) in
        let got : (w : Vault) → get_item machine key w ≡ plain_get true w =
          λ w. ap (λ m. m w) (get_item-plain true plain tauri) in
        elim (Option-cases machine.keyring_error) [
          | inl intact ↦
              stored_in_keyring (rw (tauri, intact) refl)
                (set
                  ∙ catch-done (set_strict machine key value)
                      (λ error. set_fallback machine key value) v inserted tt
                      (set_strict-works machine key value v tauri intact))
                (ap (λ (p : Access (Option Text) × Vault). p.0)
                  (got inserted
                    ∙ catch-done (get_strict machine key) (λ error. get_fallback key) inserted
                        inserted (some value)
                        (get_strict-found machine key value inserted tauri intact
                          (lookup-insert_same key value v.keyring))))
          | inr (error, broken) ↦
              through_fallback plain (rw (tauri, broken) refl)
                (set
                  ∙ catch-threw (set_strict machine key value)
                      (λ error. set_fallback machine key value) v v _
                      (set_strict-broken machine key value error v tauri broken))
                (λ d.
                  got (record v { fallback = d })
                  ∙ catch-threw (get_strict machine key) (λ error. get_fallback key) _ _ _
                      (get_strict-broken machine key error (record v { fallback = d }) tauri broken
                        (subst (IsTold machine) broken told)))
        ]
    | inr outside ↦
        through_fallback plain (rw outside refl)
          (ap (λ m. m v) (set_item-plain false plain outside))
          (λ d. ap (λ m. m (record v { fallback = d })) (get_item-plain false plain outside))
  ]

  -- `setItem` ends well exactly where the keyring works or, for a key that does not name a secret,
  -- where `localStorage` has room. Where it ends well, `getItem` on the same machine then reads the
  -- value back; where it throws, nothing that is stored has changed. Under a key that names a secret
  -- the fallback is never changed, whether it ends well or throws. This is provided that the error of a
  -- keyring that does not work is not taken for a missing entry.
  pub get_item-set_item :
      IsTold machine machine.keyring_error
      → let result = set_item machine key value v in
        (is_done result.0
          ≡ (keyring_works machine || (not (is_sensitive_key key) && machine.has_room)))
        × IsKept result.0 result.1
        × ((if is_sensitive_key key then result.1.fallback else v.fallback) ≡ v.fallback)
  get_item-set_item told = elim (Bool-cases (is_sensitive_key key)) [
    | inl secret ↦ set_item-IsSettled_secret secret
    | inr plain ↦ set_item-IsSettled_plain plain told
  ]
