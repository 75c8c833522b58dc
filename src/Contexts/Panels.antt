-- ===== src/Contexts/Panels.antt =====
-- context/erp and context/adavancedCrud, which have the same reducer and the same actions.
use dev_ops_projet.Base.{◌≡◌, refl, Bool, true, false, Option, none, some, List, [], ◌∷◌}

-- The flag `isOpen` of each part; `last`, which nothing sets, is left out.
pub record Panels : Type 0 where
  pub create : Bool
  pub update : Bool
  pub read : Bool
  pub record_payment : Bool
  pub delete_modal : Bool
  pub data_table_list : Bool

-- `keyState`: the name of a part.
pub data Part : Type 0 where
  create_part update_part read_part record_payment_part delete_modal_part : Part
  data_table_list_part : Part

-- An action of another type is `unknown`; `keyState` is null if the action has none, and then the
-- part that opens has the name 'null', which nothing reads.
pub data PanelAction : Type 0 where
  open_modal close_modal close_panel unknown : PanelAction
  open_panel : Option Part → PanelAction

abbrev pub initial_state : Panels
initial_state = record {
  create = false;
  update = false;
  read = false;
  record_payment = false;
  delete_modal = false;
  data_table_list = true;
}

abbrev pub opened : Option Part → Panels → Panels
opened none s = s
opened (some create_part) s = record s { create = true }
opened (some update_part) s = record s { update = true }
opened (some read_part) s = record s { read = true }
opened (some record_payment_part) s = record s { record_payment = true }
opened (some delete_modal_part) s = record s { delete_modal = true }
opened (some data_table_list_part) s = record s { data_table_list = true }

-- `none` is the error of an unknown action.
unfoldable pub context_reducer : Panels → PanelAction → Option Panels
context_reducer s open_modal = some (record s { delete_modal = true })
context_reducer s close_modal = some (record s { delete_modal = false })
context_reducer s (open_panel key_state) =
    some (opened key_state (record initial_state { data_table_list = false }))
context_reducer s close_panel = some initial_state
context_reducer s unknown = none

-- `contextActions`: `modal`, and the four panels, each with `open` and `close`.
pub data Panel : Type 0 where
  read_panel update_panel create_panel record_panel : Panel

pub data Call : Type 0 where
  modal_open modal_close : Call
  panel_open panel_close : Panel → Call

abbrev pub part_of : Panel → Part
part_of read_panel = read_part
part_of update_panel = update_part
part_of create_panel = create_part
part_of record_panel = record_payment_part

unfoldable pub context_actions : Call → PanelAction
context_actions modal_open = open_modal
context_actions modal_close = close_modal
context_actions (panel_open p) = open_panel (some (part_of p))
context_actions (panel_close p) = close_panel

-- What a run of calls leaves, or an error.
abbrev pub after_calls : List Call → Panels → Option Panels
after_calls [] s = some s
after_calls (call ∷ calls) s = elim (context_reducer s (context_actions call)) [
  | none ↦ none
  | some t ↦ after_calls calls t
]

-- The abstract view of the page: the list or one panel, and whether the modal is over it.
pub data Screen : Type 0 where
  list_screen : Screen
  panel_screen : Panel → Screen

abbrev pub Page : Type 0
Page = Screen × Bool

abbrev pub turn : Call → Page → Page
turn modal_open (screen, modal) = (screen, true)
turn modal_close (screen, modal) = (screen, false)
turn (panel_open p) page = (panel_screen p, false)
turn (panel_close p) page = (list_screen, false)

abbrev pub turns : List Call → Page → Page
turns [] page = page
turns (call ∷ calls) page = turns calls (turn call page)

-- The flags of a page: exactly one of the list and the four panels is open.
abbrev pub flags : Page → Panels
flags (list_screen, modal) = record initial_state { delete_modal = modal }
flags (panel_screen p, modal) =
    record (opened (some (part_of p)) (record initial_state { data_table_list = false })) {
      delete_modal = modal;
    }

-- Every call does to the flags what it does to the page, and throws no error.
context_reducer-turn :
    (call : Call) (page : Page)
    → context_reducer (flags page) (context_actions call) ≡ some (flags (turn call page))
unfolding context_reducer context_actions
context_reducer-turn modal_open (list_screen, modal) = refl
context_reducer-turn modal_open (panel_screen read_panel, modal) = refl
context_reducer-turn modal_open (panel_screen update_panel, modal) = refl
context_reducer-turn modal_open (panel_screen create_panel, modal) = refl
context_reducer-turn modal_open (panel_screen record_panel, modal) = refl
context_reducer-turn modal_close (list_screen, modal) = refl
context_reducer-turn modal_close (panel_screen read_panel, modal) = refl
context_reducer-turn modal_close (panel_screen update_panel, modal) = refl
context_reducer-turn modal_close (panel_screen create_panel, modal) = refl
context_reducer-turn modal_close (panel_screen record_panel, modal) = refl
context_reducer-turn (panel_open read_panel) page = refl
context_reducer-turn (panel_open update_panel) page = refl
context_reducer-turn (panel_open create_panel) page = refl
context_reducer-turn (panel_open record_panel) page = refl
context_reducer-turn (panel_close p) page = refl

-- Any run of the calls that the components have, from the initial state, throws no error and leaves
-- the flags of one page: the list or the panel opened last since a panel was closed, alone, and the
-- modal only if it was opened after that.
pub after_calls-turns :
    (calls : List Call)
    → after_calls calls initial_state ≡ some (flags (turns calls (list_screen, false)))
after_calls-turns calls = from_page calls (list_screen, false)
  where
    from_page :
        (calls : List Call) (page : Page)
        → after_calls calls (flags page) ≡ some (flags (turns calls page))
    from_page [] page = refl
    from_page (call ∷ calls) page =
        rw (after_calls, context_reducer-turn call page) (from_page calls (turn call page))
