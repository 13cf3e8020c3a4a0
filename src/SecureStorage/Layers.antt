-- ===== src/SecureStorage/Layers.antt =====
-- The keyring below the secure storage: what it answers where it works, where it does not work, and
-- where there is none.
use y5fgb.Common.{
  insert, if◌then◌else◌, not, ◌∙◌, codes, ◌≡◌, some, lookup-insert, true, refl, none, eq_text_refl,
  ◌++◌, Text, Bool, lookup, ap, arith, false, Dict, Option,
}
use y5fgb.SecureStorage.{
  Machine, Access, is_missing_secure_entry_error, done, Action, get_strict, secure_store_get,
  set_strict, threw, Vault, pure, secure_store_set, unavailable, catch, throw,
}

-- The error of a keyring that does not work is not taken for a missing entry.
abbrev pub IsTold : Machine → Option Text → Type 0
IsTold machine none = Unit
IsTold machine (some error) =
    (is_missing_secure_entry_error machine error ≡ false)
    × (is_missing_secure_entry_error machine (codes "failed to get secret: " ++ error) ≡ false)

pub lookup-insert_same :
    (key value : Text) (d : Dict Text) → lookup key (insert key value d) ≡ some value
lookup-insert_same key value d = lookup-insert key key value d ∙ rw (eq_text_refl key) refl

abbrev pub is_done : Access {0} Unit → Bool
is_done (done _) = true
is_done (threw _) = false

pub threw-ne-done : (message : Text) → is_done (threw message) ≡ true → ⊥
threw-ne-done message e = ground (arith, e)

module _ {ℓ} {A : Type ℓ} where
  pub catch-done :
      (m : Action A) (h : Text → Action A) (v v' : Vault) (a : A)
      → m v ≡ (done a, v')
      → catch m h v ≡ (done a, v')
  catch-done m h v v' a e =
      ap
        (λ (p : Access A × Vault). elim p.0 as (λ _. Access A × Vault) [
          | done a ↦ (done a, p.1)
          | threw message ↦ h message p.1
        ])
        e

  pub catch-threw :
      (m : Action A) (h : Text → Action A) (v v' : Vault) (message : Text)
      → m v ≡ (threw message, v')
      → catch m h v ≡ h message v'
  catch-threw m h v v' message e =
      ap
        (λ (p : Access A × Vault). elim p.0 as (λ _. Access A × Vault) [
          | done a ↦ (done a, p.1)
          | threw message ↦ h message p.1
        ])
        e

module _ (machine : Machine) where
  abbrev on_missing : Text → Action (Option Text)
  on_missing error = if is_missing_secure_entry_error machine error then pure none else throw error

  pub get_strict-inside :
      (key : Text) (v : Vault)
      → machine.is_tauri ≡ true
      → get_strict machine key v ≡ catch (secure_store_get machine key) on_missing v
  unfolding get_strict
  get_strict-inside key v tauri =
      ap
        (λ b.
          (if not b then throw unavailable else catch (secure_store_get machine key) on_missing) v)
        tauri

  pub get_strict-found :
      (key value : Text) (v : Vault)
      → machine.is_tauri ≡ true
      → machine.keyring_error ≡ none
      → lookup key v.keyring ≡ some value
      → get_strict machine key v ≡ (done (some value), v)
  unfolding secure_store_get
  get_strict-found key value v tauri works found =
      get_strict-inside key v tauri
      ∙ catch-done (secure_store_get machine key) on_missing v v (some value)
          (rw (secure_store_get, works) (rw found (ap (λ o. (done o, v)) found)))

  pub get_strict-missing :
      (key : Text) (v : Vault)
      → machine.is_tauri ≡ true
      → machine.keyring_error ≡ none
      → lookup key v.keyring ≡ none
      → is_missing_secure_entry_error machine machine.missing_error ≡ true
      → get_strict machine key v ≡ (done none, v)
  unfolding secure_store_get
  get_strict-missing key v tauri works empty missing =
      get_strict-inside key v tauri
      ∙ catch-done (secure_store_get machine key) on_missing v v none
          (rw (secure_store_get, works) (rw (empty, missing) refl))

  pub get_strict-broken :
      (key error : Text) (v : Vault)
      → machine.is_tauri ≡ true
      → machine.keyring_error ≡ some error
      → IsTold machine (some error)
      → get_strict machine key v ≡ (threw (codes "failed to get secret: " ++ error), v)
  unfolding secure_store_get
  get_strict-broken key error v tauri broken (own, wrapped) =
      let message = codes "failed to get secret: " ++ error in
      let refused : secure_store_get machine key v ≡ (threw message, v) =
        rw (secure_store_get, broken) (rw own refl) in
      get_strict-inside key v tauri
      ∙ catch-threw (secure_store_get machine key) on_missing v v message refused
      ∙ ap (λ b. (if b then pure none else throw message) v) wrapped

  pub set_strict-works :
      (key value : Text) (v : Vault)
      → machine.is_tauri ≡ true
      → machine.keyring_error ≡ none
      → set_strict machine key value v
        ≡ (done tt, record v { keyring = insert key value v.keyring })
  unfolding set_strict secure_store_set
  set_strict-works key value v tauri works =
      rw (set_strict, tauri) (rw (secure_store_set, works) refl)

  pub set_strict-outside :
      (key value : Text) (v : Vault)
      → machine.is_tauri ≡ false
      → set_strict machine key value v ≡ (threw unavailable, v)
  unfolding set_strict
  set_strict-outside key value v outside = rw (set_strict, outside) refl

  pub set_strict-broken :
      (key value error : Text) (v : Vault)
      → machine.is_tauri ≡ true
      → machine.keyring_error ≡ some error
      → set_strict machine key value v ≡ (threw (codes "failed to set secret: " ++ error), v)
  unfolding set_strict secure_store_set
  set_strict-broken key value error v tauri broken =
      rw (set_strict, tauri) (rw (secure_store_set, broken) refl)
