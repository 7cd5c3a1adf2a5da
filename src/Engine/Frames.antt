-- ===== src/Engine/Frames.antt =====
-- The commands on calls keep a state sound.
use pushd.Prelude.{ℕ, Bool, Option, none, some, List, [], ◌∷◌, ℤ}
use pushd.Text.{Bytes}
use pushd.External.{External, Unstable}
use pushd.External.Laws.{LruLaws}
use pushd.Engine.Kept.{Kept}
use pushd.Engine.Actions.{steps}
use pushd.Engine.Publishing.{publish_str_msg-Kept, add_user_id-Kept, remove_user_id-Kept}
use pushd.Process.Frames.{
  invite_users, start_call, apply_parsed, apply_params, frame_apply, frame_enter, quit, frame_exit,
  frame_left, frame_refuse, frame_info, remind, frame_action,
}
use pushd.Engine.Clients.{fetch_uuids_about_channel-Kept, dismiss_frame-Kept, pull_active-Kept}

module _ (x : External) where
  pub frame_info-Kept : (params : Bytes) → Kept x (frame_info x params)
  unfolding frame_info
  frame_info-Kept params = search steps depth 9

  remind-Kept : (c : ℕ) (id : Bytes) → Kept x (remind x c id)
  unfolding remind
  remind-Kept c id = search steps depth 9

  pub frame_action-Kept : (c : ℕ) → Kept x (frame_action x c)
  unfolding frame_action
  frame_action-Kept c = search (steps, remind-Kept) depth 9

  module _ (l : LruLaws x.rooms) where
    invite_users-Kept : (u id ch : Bytes) (t : ℤ) → Kept x (invite_users x u id ch t)
    unfolding invite_users
    invite_users-Kept u id ch t =
        search
          (
            steps,
            fetch_uuids_about_channel-Kept x l,
            add_user_id-Kept x l,
            publish_str_msg-Kept x l,
          )
          depth 9

    start_call-Kept : (u ch : Bytes) (t : ℤ) → Kept x (start_call x u ch t)
    unfolding start_call
    start_call-Kept u ch t = search (steps, invite_users-Kept) depth 9

    apply_parsed-Kept : (c : ℕ) (ch : Bytes) (t : Option ℤ) → Kept x (apply_parsed x c ch t)
    unfolding apply_parsed
    apply_parsed-Kept c ch none = search steps
    apply_parsed-Kept c ch (some t) = search (steps, start_call-Kept) depth 9

    apply_params-Kept : (c : ℕ) (ps : List Bytes) → Kept x (apply_params x c ps)
    unfolding apply_params
    apply_params-Kept c [] = search steps
    apply_params-Kept c (a ∷ []) = search steps
    apply_params-Kept c (a ∷ b ∷ []) = search apply_parsed-Kept
    apply_params-Kept c (a ∷ b ∷ d ∷ ps) = search steps

    pub frame_apply-Kept : (c : ℕ) (params : Bytes) → Kept x (frame_apply x c params)
    unfolding frame_apply
    frame_apply-Kept c params = search apply_params-Kept

    pub frame_enter-Kept :
        (step : Bytes) (c : ℕ) (params : Bytes) → Kept x (frame_enter x step c params)
    unfolding frame_enter
    frame_enter-Kept step c params =
        search (steps, add_user_id-Kept x l, publish_str_msg-Kept x l) depth 9

    quit-Kept : (step u ch : Bytes) → Kept x (quit x step u ch)
    unfolding quit
    quit-Kept step u ch = search (steps, remove_user_id-Kept x l, publish_str_msg-Kept x l) depth 9

    frame_left-Kept :
        (step : Bytes) (forget : Bool) (u : Bytes) (info : Unstable) (params : Bytes)
        (us : List Bytes)
        → Kept x (frame_left x step forget u info params us)
    unfolding frame_left
    frame_left-Kept step forget u info params [] =
        search (steps, quit-Kept, dismiss_frame-Kept x l, remove_user_id-Kept x l) depth 9
    frame_left-Kept step forget u info params (a ∷ us) = search quit-Kept

    pub frame_exit-Kept :
        (step : Bytes) (forget : Bool) (c : ℕ) (params : Bytes)
        → Kept x (frame_exit x step forget c params)
    unfolding frame_exit
    frame_exit-Kept step forget c params =
        search (steps, pull_active-Kept x l, frame_left-Kept) depth 9

    pub frame_refuse-Kept : (c : ℕ) (params : Bytes) → Kept x (frame_refuse x c params)
    unfolding frame_refuse
    frame_refuse-Kept c params = search (steps, publish_str_msg-Kept x l) depth 9
