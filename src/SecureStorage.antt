-- ===== src/SecureStorage.antt =====
-- apps/client-desktop/src/services/secureStorage.ts over the keyring commands of
-- apps/client-desktop/src-tauri/src/main.rs. An operation may throw, and what was written before stays.
pub mod Layers
pub mod RoundTrip
use y5fgb.Common.{
  is_some, not, ◌||◌, if◌then◌else◌, Bool, remove, includes, any, Text, some, List, [], starts_with,
  ◌∷◌, Option, ◌++◌, insert, none, lookup, coalesce, codes, Dict,
}

-- The keyring of the operating system and the fallback in `localStorage`.
pub record Vault : Type 0 where
  pub keyring : Dict Text
  pub fallback : Dict Text

-- Whether the program runs in Tauri, the error of a keyring that does not work, the error for an entry
-- that is missing, whether `localStorage` has room, and `toLowerCase`.
pub record Machine : Type 0 where
  pub is_tauri : Bool
  pub keyring_error : Option Text
  pub missing_error : Text
  pub has_room : Bool
  pub lower : Text → Text

pub data Access {ℓ} (A : Type ℓ) : Type ℓ where
  done : A → Access A
  threw : (message : Text) → Access A

abbrev pub Action {ℓ} : Type ℓ → Type ℓ
Action A = Vault → Access A × Vault

abbrev pub pure {ℓ} : {A : Type ℓ} → A → Action A
pure a v = (done a, v)

abbrev pub throw {ℓ} : {A : Type ℓ} → Text → Action A
throw message v = (threw message, v)

-- What follows a result.
abbrev pub chain {ℓ κ} :
    {A : Type ℓ} {B : Type κ} → Access A × Vault → (A → Action B) → Access B × Vault
chain (done a, v) f = f a v
chain (threw message, v) f = (threw message, v)

infixl 5 ◌>>=◌
abbrev pub ◌>>=◌ {ℓ κ} : {A : Type ℓ} {B : Type κ} → Action A → (A → Action B) → Action B
◌>>=◌ m f v = chain (m v) f

infixl 5 ◌>>◌
abbrev pub ◌>>◌ {ℓ κ} : {A : Type ℓ} {B : Type κ} → Action A → Action B → Action B
m >> k = m >>= λ _. k

-- `try { … } catch (error) { … }`
abbrev pub catch {ℓ} : {A : Type ℓ} → Action A → (Text → Action A) → Action A
catch m handler v =
    let (r, v') = m v in elim r [ done a ↦ (done a, v') | threw message ↦ handler message v' ]

abbrev pub fallback_prefix : Text
fallback_prefix = codes "secure-messenger-fallback:"

abbrev strict_sensitive_prefixes : List Text
strict_sensitive_prefixes = codes "auth." ∷ codes "identity." ∷ codes "messaging.store.key." ∷ []

unfoldable pub is_sensitive_key : Text → Bool
is_sensitive_key key = any (λ prefix. starts_with prefix key) strict_sensitive_prefixes

unfoldable pub is_missing_secure_entry_error : Machine → Text → Bool
is_missing_secure_entry_error machine error =
    let message = machine.lower error in
    includes (codes "no entry") message
    || includes (codes "not found") message
    || includes (codes "no matching entry") message
    || includes (codes "cannot find") message
    || includes (codes "element not found") message
    || includes (codes "file specified") message

-- The command `secure_store_set`.
unfoldable pub secure_store_set : Machine → Text → Text → Action {0} Unit
secure_store_set machine key value v = elim machine.keyring_error [
  | some error ↦ (threw (codes "failed to set secret: " ++ error), v)
  | none ↦ (done tt, record v { keyring = insert key value v.keyring })
]

-- The error of `get_password` and `delete_password`, where there is one.
abbrev entry_error : Machine → Text → Vault → Option Text
entry_error machine key v =
    coalesce machine.keyring_error
      (if is_some (lookup key v.keyring) then none else some machine.missing_error)

-- The command `secure_store_get`.
unfoldable pub secure_store_get : Machine → Text → Action (Option Text)
unfolding is_missing_secure_entry_error
secure_store_get machine key v = elim (entry_error machine key v) [
  | none ↦ (done (lookup key v.keyring), v)
  | some error ↦
      if is_missing_secure_entry_error machine error
      then (done none, v)
      else (threw (codes "failed to get secret: " ++ error), v)
]

-- The command `secure_store_delete`.
unfoldable pub secure_store_delete : Machine → Text → Action {0} Unit
unfolding is_missing_secure_entry_error
secure_store_delete machine key v = elim (entry_error machine key v) [
  | none ↦ (done tt, record v { keyring = remove key v.keyring })
  | some error ↦
      if is_missing_secure_entry_error machine error
      then (done tt, v)
      else (threw (codes "failed to delete secret: " ++ error), v)
]

abbrev pub unavailable : Text
unavailable = codes "secure keyring is unavailable outside tauri runtime"

unfoldable pub set_strict : Machine → Text → Text → Action {0} Unit
unfolding secure_store_set
set_strict machine key value =
    if machine.is_tauri then secure_store_set machine key value else throw unavailable

unfoldable pub get_strict : Machine → Text → Action (Option Text)
unfolding secure_store_get
get_strict machine key =
    if not machine.is_tauri
    then throw unavailable
    else catch (secure_store_get machine key)
        (λ error. if is_missing_secure_entry_error machine error then pure none else throw error)

unfoldable pub delete_strict : Machine → Text → Action {0} Unit
unfolding secure_store_delete
delete_strict machine key =
    if not machine.is_tauri
    then throw unavailable
    else catch (secure_store_delete machine key)
        (λ error. if is_missing_secure_entry_error machine error then pure tt else throw error)

-- `localStorage.setItem`
abbrev pub set_fallback : Machine → Text → Text → Action {0} Unit
set_fallback machine key value v =
    if machine.has_room
    then (done tt, record v { fallback = insert (fallback_prefix ++ key) value v.fallback })
    else (threw (codes "QuotaExceededError"), v)

abbrev pub get_fallback : Text → Action (Option Text)
get_fallback key v = (done (lookup (fallback_prefix ++ key) v.fallback), v)

abbrev remove_fallback : Text → Action {0} Unit
remove_fallback key v =
    (done tt, record v { fallback = remove (fallback_prefix ++ key) v.fallback })

-- `secureStorage.set`
unfoldable pub set_item : Machine → Text → Text → Action {0} Unit
unfolding is_sensitive_key set_strict
set_item machine key value =
    if is_sensitive_key key
    then set_strict machine key value
    else if machine.is_tauri
    then catch (set_strict machine key value) (λ error. set_fallback machine key value)
    else set_fallback machine key value

-- `secureStorage.get`
unfoldable pub get_item : Machine → Text → Action (Option Text)
unfolding is_sensitive_key get_strict
get_item machine key =
    if is_sensitive_key key
    then get_strict machine key
    else if machine.is_tauri
    then catch (get_strict machine key) (λ error. get_fallback key)
    else get_fallback key

-- `secureStorage.delete`
unfoldable pub delete_item : Machine → Text → Action {0} Unit
unfolding is_sensitive_key delete_strict
delete_item machine key =
    if is_sensitive_key key
    then delete_strict machine key
    else if machine.is_tauri
    then catch (delete_strict machine key) (λ error. pure tt) >> remove_fallback key
    else remove_fallback key
