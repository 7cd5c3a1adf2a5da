-- ===== src/Engine/Rooms.antt =====
-- The commands on rooms keep a state sound.
use pushd.Prelude.{ℕ, Bool, Option, none, some, List, [], ◌∷◌}
use pushd.Text.{Bytes, split}
use pushd.External.{External, DbError}
use pushd.External.Laws.{LruLaws}
use pushd.World.{Run}
use pushd.Engine.Kept.{Kept}
use pushd.Engine.Actions.{steps}
use pushd.Engine.Shared.{del_room-Kept}
use pushd.Engine.Publishing.{
  add_all_user_ids-Kept, remove_user_id-Kept, exists_room-Kept, load_user_ids_from_database-Kept,
}
use pushd.Im.{create_room, join_room, leave_room, disolve_room}
use pushd.Process.Replies.{Reply}
use pushd.Process.Rooms.{
  or_fail, invite_first, create_room_cmd, room_param, join_room_cmd, leave_room_cmd, check_users,
  or_reply, join_each, refresh_members, add_user_params, add_user_into_room, subs_params, subs,
  unsubs_params, unsubs, disolve,
}

module _ (x : External) where
  create_room-Kept : (u c : Bytes) → Kept x (create_room x u c)
  unfolding create_room
  create_room-Kept u c = search steps depth 12

  join_room-Kept : (c : Bytes) (us : List Bytes) → Kept x (join_room x c us)
  unfolding join_room
  join_room-Kept c us = search steps depth 12

  leave_room-Kept : (c : Bytes) (us : List Bytes) → Kept x (leave_room x c us)
  unfolding leave_room
  leave_room-Kept c us = search steps depth 12

  disolve_room-Kept : (c : Bytes) → Kept x (disolve_room x c)
  unfolding disolve_room
  disolve_room-Kept c = search (steps, leave_room-Kept) depth 12

  or_fail-Kept : (e : Option DbError) (rest : Run x Reply) → Kept x rest → Kept x (or_fail x e rest)
  or_fail-Kept none rest k = k
  or_fail-Kept (some e) rest k = search steps

  or_reply-Kept : (e : Option Reply) (rest : Run x Reply) → Kept x rest → Kept x (or_reply x e rest)
  or_reply-Kept none rest k = k
  or_reply-Kept (some e) rest k = search steps

  invite_first-Kept : (c : Bytes) (us : List Bytes) → Kept x (invite_first x c us)
  unfolding invite_first
  invite_first-Kept c [] = search steps
  invite_first-Kept c (u ∷ us) = search (steps, join_room-Kept) depth 9

  pub create_room_cmd-Kept : (c : ℕ) (params : Bytes) → Kept x (create_room_cmd x c params)
  unfolding create_room_cmd
  create_room_cmd-Kept c params =
      search (steps, create_room-Kept, or_fail-Kept, invite_first-Kept) depth 9

  room_param-Kept :
      (ps : List Bytes) (k : Bytes → Run x Reply)
      → ((r : Bytes) → Kept x (k r))
      → Kept x (room_param x ps k)
  unfolding room_param
  room_param-Kept [] k h = search steps
  room_param-Kept (p ∷ ps) k h = search steps

  pub join_room_cmd-Kept : (c : ℕ) (params : Bytes) → Kept x (join_room_cmd x c params)
  unfolding join_room_cmd
  join_room_cmd-Kept c params =
      search (steps, room_param-Kept, join_room-Kept, or_fail-Kept) depth 9

  pub leave_room_cmd-Kept : (c : ℕ) (params : Bytes) → Kept x (leave_room_cmd x c params)
  unfolding leave_room_cmd
  leave_room_cmd-Kept c params =
      search (steps, room_param-Kept, leave_room-Kept, or_fail-Kept) depth 9

  check_users-Kept : (tell : Bool) (us : List Bytes) → Kept x (check_users x tell us)
  unfolding check_users
  check_users-Kept tell [] = search steps
  check_users-Kept tell (u ∷ us) = let rest = check_users-Kept tell us in search steps depth 9

  join_each-Kept : (c : Bytes) (us : List Bytes) → Kept x (join_each x c us)
  unfolding join_each
  join_each-Kept c [] = search steps
  join_each-Kept c (u ∷ us) =
      let rest = join_each-Kept c us in search (steps, join_room-Kept) depth 9

  module _ (l : LruLaws x.rooms) where
    refresh_members-Kept : (c : Bytes) (us : List Bytes) → Kept x (refresh_members x c us)
    unfolding refresh_members
    refresh_members-Kept c us = search (
      steps,
      exists_room-Kept x l,
      add_all_user_ids-Kept x l,
      load_user_ids_from_database-Kept x l,
    )

    add_user_params-Kept : (ps : List Bytes) → Kept x (add_user_params x ps)
    unfolding add_user_params
    add_user_params-Kept [] = search steps
    add_user_params-Kept (c ∷ []) = search steps
    add_user_params-Kept (c ∷ u ∷ us) =
        search
          (
            steps, check_users-Kept, or_reply-Kept, join_each-Kept, or_fail-Kept,
            refresh_members-Kept,
          )
          depth 12

    pub add_user_into_room-Kept : (params : Bytes) → Kept x (add_user_into_room x params)
    unfolding add_user_into_room
    add_user_into_room-Kept params = add_user_params-Kept (split params)

    subs_params-Kept : (ps : List Bytes) → Kept x (subs_params x ps)
    unfolding subs_params
    subs_params-Kept [] = search steps
    subs_params-Kept (c ∷ []) = search steps
    subs_params-Kept (c ∷ u ∷ []) = search steps
    subs_params-Kept (c ∷ u ∷ o ∷ us) =
        search
          (steps, check_users-Kept, or_reply-Kept, join_each-Kept, or_fail-Kept, create_room-Kept)
          depth 14

    pub subs-Kept : (params : Bytes) → Kept x (subs x params)
    unfolding subs
    subs-Kept params = subs_params-Kept (split params)

    unsubs_params-Kept : (ps : List Bytes) → Kept x (unsubs_params x ps)
    unfolding unsubs_params
    unsubs_params-Kept [] = search steps
    unsubs_params-Kept (c ∷ []) = search steps
    unsubs_params-Kept (c ∷ u ∷ us) =
        search (steps, leave_room-Kept, or_fail-Kept, exists_room-Kept x l, remove_user_id-Kept x l)
          depth 12

    pub unsubs-Kept : (params : Bytes) → Kept x (unsubs x params)
    unfolding unsubs
    unsubs-Kept params = unsubs_params-Kept (split params)

    pub disolve-Kept : (params : Bytes) → Kept x (disolve x params)
    unfolding disolve
    disolve-Kept params = search (steps, disolve_room-Kept, or_fail-Kept, del_room-Kept x l) depth 9
