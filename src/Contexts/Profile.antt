-- ===== src/Contexts/Profile.antt =====
-- context/profileContext: the page of the own profile.
use dev_ops_projet.Base.{◌≡◌, refl, Bool, true, false, Option, none, some, List, [], ◌∷◌}

pub record Profile : Type 0 where
  pub read : Bool
  pub update : Bool
  pub password_modal : Bool

-- `keyState` of `OPEN_PANEL`: the one part that the component opens; null opens none of the parts.
pub data ProfileAction : Type 0 where
  open_modal close_modal open_update open_none close_panel unknown : ProfileAction

abbrev pub initial_profile : Profile
initial_profile = record { read = true; update = false; password_modal = false }

-- `none` is the error of an unknown action.
unfoldable pub profile_reducer : Profile → ProfileAction → Option Profile
profile_reducer s open_modal = some (record s { password_modal = true })
profile_reducer s close_modal = some (record s { password_modal = false })
profile_reducer s open_update = some (record initial_profile { read = false; update = true })
profile_reducer s open_none = some (record initial_profile { read = false })
profile_reducer s close_panel = some initial_profile
profile_reducer s unknown = none

-- `contextActions`: `modal` and `updatePanel`, each with `open` and `close`.
pub data ProfileCall : Type 0 where
  modal_open modal_close update_open update_close : ProfileCall

unfoldable pub profile_actions : ProfileCall → ProfileAction
profile_actions modal_open = open_modal
profile_actions modal_close = close_modal
profile_actions update_open = open_update
profile_actions update_close = close_panel

abbrev pub after_profile_calls : List ProfileCall → Profile → Option Profile
after_profile_calls [] s = some s
after_profile_calls (call ∷ calls) s = elim (profile_reducer s (profile_actions call)) [
  | none ↦ none
  | some t ↦ after_profile_calls calls t
]

-- Whether the form is open and whether the modal is: what the page is, abstractly.
abbrev pub profile_flags : Bool × Bool → Profile
profile_flags (true, modal) = record { read = false; update = true; password_modal = modal }
profile_flags (false, modal) = record { read = true; update = false; password_modal = modal }

abbrev pub profile_turn : ProfileCall → Bool × Bool → Bool × Bool
profile_turn modal_open (form, modal) = (form, true)
profile_turn modal_close (form, modal) = (form, false)
profile_turn update_open page = (true, false)
profile_turn update_close page = (false, false)

abbrev pub profile_turns : List ProfileCall → Bool × Bool → Bool × Bool
profile_turns [] page = page
profile_turns (call ∷ calls) page = profile_turns calls (profile_turn call page)

profile_reducer-turn :
    (call : ProfileCall) (page : Bool × Bool)
    → profile_reducer (profile_flags page) (profile_actions call)
      ≡ some (profile_flags (profile_turn call page))
unfolding profile_reducer profile_actions
profile_reducer-turn modal_open (true, modal) = refl
profile_reducer-turn modal_open (false, modal) = refl
profile_reducer-turn modal_close (true, modal) = refl
profile_reducer-turn modal_close (false, modal) = refl
profile_reducer-turn update_open page = refl
profile_reducer-turn update_close page = refl

-- Any run of the calls from a page with its flags throws no error and leaves the flags of a page: the
-- profile or its form, never both and never neither.
after_profile_calls-turns :
    (calls : List ProfileCall) (page : Bool × Bool)
    → after_profile_calls calls (profile_flags page)
      ≡ some (profile_flags (profile_turns calls page))
after_profile_calls-turns [] page = refl
after_profile_calls-turns (call ∷ calls) page =
    rw (after_profile_calls, profile_reducer-turn call page)
      (after_profile_calls-turns calls (profile_turn call page))
