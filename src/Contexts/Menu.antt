-- ===== src/Contexts/Menu.antt =====
-- context/appContext: the navigation's menu and the app that is shown.
use dev_ops_projet.Base.{◌≡◌, refl, String, Bool, true, false, not, Option, none, some}

pub record Menu : Type 0 where
  pub is_nav_menu_close : Bool
  pub current_app : String

pub data MenuAction : Type 0 where
  open_nav_menu close_nav_menu collapse_nav_menu default_app unknown : MenuAction
  change_app : String → MenuAction

abbrev pub initial_menu : Menu
initial_menu = record { is_nav_menu_close = false; current_app = "default" }

-- `none` is the error of an unknown action.
unfoldable pub menu_reducer : Menu → MenuAction → Option Menu
menu_reducer s open_nav_menu = some (record s { is_nav_menu_close = false })
menu_reducer s close_nav_menu = some (record s { is_nav_menu_close = true })
menu_reducer s collapse_nav_menu = some (record s { is_nav_menu_close = not s.is_nav_menu_close })
menu_reducer s (change_app name) = some (record s { current_app = name })
menu_reducer s default_app = some (record s { current_app = "default" })
menu_reducer s unknown = none

abbrev then_reduce : Option Menu → MenuAction → Option Menu
then_reduce none a = none
then_reduce (some s) a = menu_reducer s a

-- A menu that is folded twice is as it was.
collapse_nav_menu-twice :
    (s : Menu) → then_reduce (menu_reducer s collapse_nav_menu) collapse_nav_menu ≡ some s
unfolding menu_reducer
collapse_nav_menu-twice s = λ i. some (record s { is_nav_menu_close = back s.is_nav_menu_close i })
  where
    back : (b : Bool) → not (not b) ≡ b
    back true = refl
    back false = refl
