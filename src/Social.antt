-- ===== src/Social.antt =====
-- `useSocialStore` of apps/client-desktop/src/state/socialStore.ts. `now` is what
-- `new Date().toISOString()` returns, `fresh` what `randomID()` returns.
pub mod Friends
mod Tests
use y5fgb.Common.{
  filter, none, trim, Option, is_empty, find, or_default, not, if◌then◌else◌, map, ◌∷◌, some, List,
  take, [], eq_text, Text, codes,
}

pub record FriendContact : Type 0 where
  pub id : Text
  pub account_id : Text
  pub nickname : Text
  pub avatar_color : Text
  pub note : Text
  pub created_at : Text

pub record Profile : Type 0 where
  pub display_name : Text
  pub avatar_color : Text
  pub bio : Text

pub record SocialState : Type 0 where
  pub profile : Profile
  pub friends : List FriendContact

abbrev pub initial_social : SocialState
initial_social = record {
  profile = record { display_name = []; avatar_color = codes "#3fa5ff"; bio = [] };
  friends = [];
}

-- `Partial<profile>`: `none` where the property is absent.
pub record ProfilePatch : Type 0 where
  pub display_name : Option Text
  pub avatar_color : Option Text
  pub bio : Option Text

unfoldable pub update_profile : ProfilePatch → SocialState → SocialState
update_profile patch state = record state {
  profile = record {
    display_name = or_default patch.display_name state.profile.display_name;
    avatar_color = or_default patch.avatar_color state.profile.avatar_color;
    bio = or_default patch.bio state.profile.bio;
  };
}

-- The argument of `addFriend`.
pub record FriendPayload : Type 0 where
  pub account_id : Text
  pub nickname : Option Text
  pub avatar_color : Option Text
  pub note : Option Text

-- `value || other`
unfoldable pub or_else : Text → Text → Text
or_else value other = if is_empty value then other else value

-- `value?.trim()`, where undefined counts as empty.
unfoldable pub trimmed : Option Text → Text
trimmed value = trim (or_default value [])

unfoldable pub refreshed : FriendPayload → FriendContact → FriendContact
unfolding or_else trimmed
refreshed payload friend = record friend {
  nickname = or_else (trimmed payload.nickname) friend.nickname;
  avatar_color = or_else (or_default payload.avatar_color []) friend.avatar_color;
  note = or_else (trimmed payload.note) friend.note;
}

unfoldable pub new_friend : Text → Text → Text → FriendPayload → FriendContact
unfolding or_else trimmed
new_friend fresh now account_id payload = record {
  id = fresh;
  account_id = account_id;
  nickname = or_else (trimmed payload.nickname) (take 8 account_id);
  avatar_color = or_else (or_default payload.avatar_color []) (codes "#5e9bff");
  note = trimmed payload.note;
  created_at = now;
}

unfoldable pub add_friend : Text → Text → FriendPayload → SocialState → SocialState
unfolding refreshed new_friend
add_friend fresh now payload state =
    let account_id = trim payload.account_id in
    if is_empty account_id
    then state
    else elim (find (λ (f : FriendContact). eq_text f.account_id account_id) state.friends) [
      | none ↦ record state { friends = new_friend fresh now account_id payload ∷ state.friends }
      | some existing ↦ record state {
        friends =
            map (λ f. if eq_text f.account_id account_id then refreshed payload f else f)
              state.friends;
      }
    ]

unfoldable pub remove_friend : Text → SocialState → SocialState
remove_friend id state = record state {
  friends = filter (λ f. not (eq_text f.id id)) state.friends;
}
