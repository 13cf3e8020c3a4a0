-- ===== src/Social/Friends.antt =====
-- The list of friends over the actions of the social store.
use y5fgb.Common.{
  has_key, List, eq_text, ◌≡◌, IsDistinctBy, option_cases, map, trim, if_cases, ◌∷◌, find, [], any,
  refl, any_of_find, is_empty, if◌then◌else◌, Text, Bool, eq_text_iff, codes, subst, Bool-cases,
  take, Option, find-map_kept, inl, none, false, true, inr, sym, find-passes, ap, some, not,
  or_default, ◌&&◌, arith,
}
use y5fgb.Social.{
  SocialState, refreshed, add_friend, FriendPayload, FriendContact, new_friend, or_else, trimmed,
}

-- No account is a friend twice.
abbrev pub IsDistinctFriends : SocialState → Type 0
IsDistinctFriends state = IsDistinctBy (λ (f : FriendContact). f.account_id) state.friends

-- A change of other fields keeps the keys.
module _ {ℓ} {A : Type ℓ} (key : A → Text) (f : A → A) (same : (x : A) → key (f x) ≡ key x) where
  any-map_same : (k : Text) (xs : List A) → any (has_key key k) (map f xs) ≡ any (has_key key k) xs
  unfolding any
  any-map_same k [] = refl
  any-map_same k (x ∷ xs) = rw (same x, any-map_same k xs) refl

  IsDistinctBy-map_same : (xs : List A) → IsDistinctBy key xs → IsDistinctBy key (map f xs)
  IsDistinctBy-map_same [] d = tt
  IsDistinctBy-map_same (x ∷ xs) (new, d) =
      (rw (same x, any-map_same (key x) xs) new, IsDistinctBy-map_same xs d)

refreshed-account_id :
    (account_id : Text) (payload : FriendPayload) (f : FriendContact)
    → (if eq_text f.account_id account_id then refreshed payload f else f).account_id ≡ f.account_id
unfolding refreshed
refreshed-account_id account_id payload f =
    if_cases (λ (x : FriendContact). x.account_id ≡ f.account_id) (eq_text f.account_id account_id)
      (λ _. refl) (λ _. refl)

-- A field after a refresh: the text that came, or the old one where none came.
abbrev replaced : Text → Text → Text
replaced came old = if is_empty came then old else came

-- A contact after a refresh. Only its three fields of text may change.
abbrev pub IsRefreshed : FriendPayload → FriendContact → FriendContact → Type 0
IsRefreshed payload old f =
    (f.id ≡ old.id)
    × (f.account_id ≡ old.account_id)
    × (f.created_at ≡ old.created_at)
    × (f.nickname ≡ replaced (trim (or_default payload.nickname [])) old.nickname)
    × (f.avatar_color ≡ replaced (or_default payload.avatar_color []) old.avatar_color)
    × (f.note ≡ replaced (trim (or_default payload.note [])) old.note)

-- A contact that is new.
abbrev pub IsNew : Text → Text → Text → FriendPayload → FriendContact → Type 0
IsNew fresh now account payload f =
    (f.id ≡ fresh)
    × (f.account_id ≡ account)
    × (f.created_at ≡ now)
    × (f.nickname ≡ replaced (trim (or_default payload.nickname [])) (take 8 account))
    × (f.avatar_color ≡ replaced (or_default payload.avatar_color []) (codes "#5e9bff"))
    × (f.note ≡ trim (or_default payload.note []))

-- What stands under an account, before and after; `named` says that it is the account of the payload.
abbrev pub IsStanding :
    Text → Text → FriendPayload → Bool → Option FriendContact → Option FriendContact → Type 0
IsStanding fresh now payload true none (some f) =
    IsNew fresh now (trim payload.account_id) payload f
IsStanding fresh now payload true (some old) (some f) = IsRefreshed payload old f
IsStanding fresh now payload true before none = ⊥
IsStanding fresh now payload false before after = after ≡ before

abbrev pub friend_of : Text → SocialState → Option FriendContact
friend_of account state = find (λ (f : FriendContact). eq_text f.account_id account) state.friends

module _ (fresh now : Text) (payload : FriendPayload) (k : Text) where
  abbrev account : Text
  account = trim payload.account_id

  abbrev refreshed_under : FriendContact → FriendContact
  refreshed_under f = if eq_text f.account_id account then refreshed payload f else f

  refreshed_under-IsRefreshed :
      (old : FriendContact)
      → eq_text old.account_id account ≡ true
      → IsRefreshed payload old (refreshed_under old)
  unfolding refreshed or_else trimmed
  refreshed_under-IsRefreshed old own = rw own (refl, refl, refl, refl, refl, refl)

  new_friend-IsStanding :
      (state : SocialState)
      → friend_of account state ≡ none
      → IsStanding fresh now payload (eq_text account k) (friend_of k state) (
          friend_of k
            (record state { friends = new_friend fresh now account payload ∷ state.friends }))
  unfolding find new_friend or_else trimmed
  new_friend-IsStanding state missing = elim (Bool-cases (eq_text account k)) [
    | inl own ↦
        let before : friend_of k state ≡ none =
          subst (λ j. friend_of j state ≡ none) ((eq_text_iff account k).0 own) missing in
        rw (own, before) (refl, refl, refl, refl, refl, refl)
    | inr other ↦ rw other refl
  ]

  refreshed-IsStanding :
      (state : SocialState) (existing : FriendContact)
      → friend_of account state ≡ some existing
      → IsStanding fresh now payload
          (eq_text account k)
          (friend_of k state)
          (friend_of k (record state { friends = map refreshed_under state.friends }))
  refreshed-IsStanding state existing found =
      let after =
        find-map_kept (λ f. eq_text f.account_id k) refreshed_under state.friends
          (λ f. ap (λ j. eq_text j k) (refreshed-account_id account payload f)) in
      subst (IsStanding fresh now payload (eq_text account k) (friend_of k state)) (sym after)
        (elim (Bool-cases (eq_text account k)) [
          | inl own ↦
              let before : friend_of k state ≡ some existing =
                subst (λ j. friend_of j state ≡ some existing) ((eq_text_iff account k).0 own)
                  found in
              rw (own, before)
                (refreshed_under-IsRefreshed existing (find-passes _ state.friends existing found))
          | inr other ↦ rw other (
              option_cases (λ o. o ≡ friend_of k state) (friend_of k state) (λ e. sym e)
                (λ g e.
                  let own : eq_text g.account_id k ≡ true =
                    find-passes (λ (f : FriendContact). eq_text f.account_id k) state.friends g e in
                  let miss : eq_text g.account_id account ≡ false = ground (
                    arith,
                    eq_text_iff g.account_id k,
                    eq_text_iff g.account_id account,
                    eq_text_iff account k,
                  ) in
                  rw miss (sym e)))
        ])

-- `addFriend` never makes an account a friend twice. Where the trimmed account id of the payload is not
-- empty, the contact that stood under it is refreshed: each of nickname, colour and note becomes the
-- one that came, trimmed but for the colour, or stays where none came, and nothing else of it changes;
-- where none stood there, a new contact with the fresh id does. Under every other account, and where
-- the account id is empty, the same contact stands as before.
pub add_friend-IsDistinctFriends :
    (fresh now : Text) (payload : FriendPayload) (k : Text) (state : SocialState)
    → IsDistinctFriends state
    → let after = add_friend fresh now payload state in
      let account = trim payload.account_id in
      IsDistinctFriends after
      × IsStanding fresh now payload
          (not (is_empty account) && eq_text account k)
          (friend_of k state)
          (friend_of k after)
unfolding add_friend
add_friend-IsDistinctFriends fresh now payload k state d =
    let account_id = trim payload.account_id in
    let P : Bool → SocialState → Type 0 = λ b after.
      IsDistinctFriends after
      × IsStanding fresh now payload (not b && eq_text account_id k) (friend_of k state)
          (friend_of k after) in
    elim (Bool-cases (is_empty account_id)) [
      | inl blank ↦ rw blank (d, refl)
      | inr given ↦ rw given (
          option_cases (P false) (friend_of account_id state)
            (λ missing. (
              (any_of_find _ state.friends missing, d),
              new_friend-IsStanding fresh now payload k state missing,
            ))
            (λ existing found. (
              IsDistinctBy-map_same (λ (f : FriendContact). f.account_id)
                  (λ f. if eq_text f.account_id account_id then refreshed payload f else f)
                  (refreshed-account_id account_id payload) state.friends d,
              refreshed-IsStanding fresh now payload k state existing found,
            )))
    ]
