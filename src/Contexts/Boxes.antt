-- ===== src/Contexts/Boxes.antt =====
-- context/crud: the side panel of the entities' pages and its boxes.
use dev_ops_projet.Base.{
  ◌≡◌, refl, Bool, true, false, not, ◌&&◌, Option, none, some, List, [], ◌∷◌, All, arith,
}

pub record Boxes : Type 0 where
  pub is_modal_open : Bool
  pub is_panel_close : Bool
  pub is_box_collapsed : Bool
  pub is_read_box_open : Bool
  pub is_advanced_box_open : Bool
  pub is_edit_box_open : Bool

pub data BoxAction : Type 0 where
  open_modal close_modal open_panel close_panel collapse_panel : BoxAction
  open_box close_box collapse_box : BoxAction
  open_read_box close_read_box open_advanced_box close_advanced_box : BoxAction
  open_edit_box close_edit_box collapse_read_box unknown : BoxAction

abbrev pub initial_boxes : Boxes
initial_boxes = record {
  is_modal_open = false;
  is_panel_close = true;
  is_box_collapsed = false;
  is_read_box_open = false;
  is_advanced_box_open = false;
  is_edit_box_open = false;
}

-- `none` is the error of an unknown action.
unfoldable pub box_reducer : Boxes → BoxAction → Option Boxes
box_reducer s open_modal = some (record s { is_modal_open = true })
box_reducer s close_modal = some (record s { is_modal_open = false })
box_reducer s open_panel = some (record s { is_panel_close = false })
box_reducer s close_panel = some (record s { is_panel_close = true })
box_reducer s collapse_panel = some (record s { is_panel_close = not s.is_panel_close })
box_reducer s open_box = some (record s { is_box_collapsed = true })
box_reducer s close_box = some (record s { is_box_collapsed = false })
box_reducer s collapse_box = some (record s { is_box_collapsed = not s.is_box_collapsed })
box_reducer s open_read_box =
    some
      (record s { is_advanced_box_open = false; is_edit_box_open = false; is_read_box_open = true })
box_reducer s close_read_box = some (record s { is_read_box_open = false })
box_reducer s open_advanced_box =
    some
      (record s { is_read_box_open = false; is_edit_box_open = false; is_advanced_box_open = true })
box_reducer s close_advanced_box = some (record s { is_advanced_box_open = false })
box_reducer s open_edit_box =
    some
      (record s { is_read_box_open = false; is_advanced_box_open = false; is_edit_box_open = true })
box_reducer s close_edit_box = some (record s { is_edit_box_open = false })
box_reducer s collapse_read_box = some (record s { is_read_box_open = not s.is_read_box_open })
box_reducer s unknown = none

-- What a run of actions leaves, or an error.
abbrev pub after_actions : List BoxAction → Boxes → Option Boxes
after_actions [] s = some s
after_actions (a ∷ later) s = elim (box_reducer s a) [
  | none ↦ none
  | some t ↦ after_actions later t
]

-- At most one of the boxes for reading, editing and the advanced form is open.
abbrev pub IsExclusive : Boxes → Type 0
IsExclusive s =
    ((s.is_read_box_open && s.is_edit_box_open) ≡ false)
    × ((s.is_read_box_open && s.is_advanced_box_open) ≡ false)
    × ((s.is_edit_box_open && s.is_advanced_box_open) ≡ false)

-- The actions that the components dispatch: all but the flip of the read box.
abbrev pub is_dispatched : BoxAction → Bool
is_dispatched collapse_read_box = false
is_dispatched unknown = false
is_dispatched a = true

box_reducer-IsExclusive :
    (s : Boxes) (a : BoxAction)
    → is_dispatched a ≡ true
    → IsExclusive s
    → (t : Boxes) × (box_reducer s a ≡ some t) × IsExclusive t
unfolding box_reducer
box_reducer-IsExclusive s open_modal d h = (_, refl, ground (arith, h))
box_reducer-IsExclusive s close_modal d h = (_, refl, ground (arith, h))
box_reducer-IsExclusive s open_panel d h = (_, refl, ground (arith, h))
box_reducer-IsExclusive s close_panel d h = (_, refl, ground (arith, h))
box_reducer-IsExclusive s collapse_panel d h = (_, refl, ground (arith, h))
box_reducer-IsExclusive s open_box d h = (_, refl, ground (arith, h))
box_reducer-IsExclusive s close_box d h = (_, refl, ground (arith, h))
box_reducer-IsExclusive s collapse_box d h = (_, refl, ground (arith, h))
box_reducer-IsExclusive s open_read_box d h = (_, refl, ground (arith, h))
box_reducer-IsExclusive s close_read_box d h = (_, refl, ground (arith, h))
box_reducer-IsExclusive s open_advanced_box d h = (_, refl, ground (arith, h))
box_reducer-IsExclusive s close_advanced_box d h = (_, refl, ground (arith, h))
box_reducer-IsExclusive s open_edit_box d h = (_, refl, ground (arith, h))
box_reducer-IsExclusive s close_edit_box d h = (_, refl, ground (arith, h))
box_reducer-IsExclusive s collapse_read_box d h = cc
box_reducer-IsExclusive s unknown d h = cc

-- Any run of the actions that the components dispatch, from the initial state, throws no error and
-- leaves at most one of the boxes for reading, editing and the advanced form open.
after_actions-IsExclusive :
    (actions : List BoxAction)
    → All (λ a. is_dispatched a ≡ true) actions
    → (t : Boxes) × (after_actions actions initial_boxes ≡ some t) × IsExclusive t
after_actions-IsExclusive actions = from_state actions initial_boxes (refl, refl, refl)
  where
    from_state :
        (actions : List BoxAction) (s : Boxes)
        → IsExclusive s
        → All (λ a. is_dispatched a ≡ true) actions
        → (t : Boxes) × (after_actions actions s ≡ some t) × IsExclusive t
    from_state [] s h _ = (s, refl, h)
    from_state (a ∷ later) s h (d, ds) =
        let (t, e, k) = box_reducer-IsExclusive s a d h in
        rw (after_actions, e) (from_state later t k ds)
