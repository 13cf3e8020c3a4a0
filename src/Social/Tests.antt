-- ===== src/Social/Tests.antt =====
-- An instance of the theorem on friends.
use y5fgb.Common.{
  none, find, map, [], ◌∷◌, trim, some, is_empty, codes, eq_text, refl, ◌≡◌, any, ◌&&◌, not,
}
use y5fgb.Social.{
  FriendContact, add_friend, SocialState, FriendPayload, initial_social, refreshed, or_else,
}
use y5fgb.Social.Friends.{IsDistinctFriends, add_friend-IsDistinctFriends, IsStanding, friend_of}

abbrev payload : FriendPayload
payload = record {
  account_id = codes " acc-1 ";
  nickname = some (codes "Ann");
  avatar_color = none;
  note = none;
}

abbrev friend : FriendContact
friend = record {
  id = codes "f1";
  account_id = codes "acc-1";
  nickname = codes "A";
  avatar_color = codes "#5e9bff";
  note = [];
  created_at = codes "2024-01-01";
}

abbrev befriended : SocialState
befriended = record initial_social { friends = friend ∷ [] }

-- The contact is refreshed, and no second one is added.
add_friend_runs :
    map (λ f. f.nickname) (add_friend (codes "f2") (codes "2024-01-02") payload befriended).friends
    ≡ codes "Ann" ∷ []
unfolding add_friend trim is_empty find eq_text refreshed or_else
add_friend_runs = refl

befriended-IsDistinctFriends : IsDistinctFriends befriended
unfolding any
befriended-IsDistinctFriends = (refl, tt)

add_friend-IsDistinctFriends_example :
    let after = add_friend (codes "f2") (codes "2024-01-02") payload befriended in
    let named = not (is_empty (trim payload.account_id)) in
    IsDistinctFriends after
    × IsStanding
        (codes "f2")
        (codes "2024-01-02")
        payload
        (named && eq_text (trim payload.account_id) (codes "acc-1"))
        (friend_of (codes "acc-1") befriended)
        (friend_of (codes "acc-1") after)
add_friend-IsDistinctFriends_example =
    add_friend-IsDistinctFriends (codes "f2") (codes "2024-01-02") payload (codes "acc-1")
      befriended befriended-IsDistinctFriends
