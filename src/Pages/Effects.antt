-- ===== src/Pages/Effects.antt =====
-- The effects of CreateForm, UpdateForm and DeleteModal, on what has changed since the last render.
use dev_ops_projet.Base.{
  false, not, ◌&&◌, ◌||◌, if◌then◌else◌, String, Option, none, some, List, [], ◌∷◌, ◌>>=◌,
}
use dev_ops_projet.Contexts.Boxes.{close_modal, open_panel, open_box, open_read_box}
use dev_ops_projet.Redux.{Key, create, update, delete, Payload, doc, State, Action, reset_action}
use dev_ops_projet.Redux.Actions.{list_op}
use dev_ops_projet.Pages.{
  Page, Forms, Turn, list_request, started, succeeds, changes_current, nothing, commit,
}

-- The labels of an object, or those that are shown.
abbrev pub label_of : {A : Type 0} → (A → String) → Payload A → String → String
label_of labels (doc a) shown = labels a
label_of labels _ shown = shown

module _ {A F : Type 0} where
  -- The effects on `[isSuccess]` of the two forms.
  abbrev pub saved : Key → Forms A F → Page A F → Turn A F
  saved k forms p = record {
    actions = reset_action k ∷ started (list_op (some 10));
    box_actions = open_read_box ∷ open_box ∷ open_panel ∷ [];
    folds_menu = false;
    forms = forms;
    sent = list_request 1 10 ∷ [];
  }

  unfoldable pub create_effect : State A → State A → Page A F → Turn A F
  create_effect before now p =
      if succeeds create before now
      then saved create (record p.forms { create_form = none }) p
      else nothing p

  unfoldable pub update_effect : State A → State A → Page A F → Turn A F
  update_effect before now p =
      if succeeds update before now
      then saved update (record p.forms { update_form = none }) p
      else nothing p

  -- The dates of an object as the update form takes them, and the labels of an object.
  module _ (with_dates : A → A) (labels : A → String) where
    abbrev filled : Payload A → Page A F → Turn A F
    filled (doc a) p = record (nothing p) {
      forms = record p.forms { update_form = some (with_dates a) };
    }
    filled _ p = nothing p

    -- The effect on `[current]` of the update form.
    unfoldable pub current_effect : List (Action A) → State A → State A → Page A F → Turn A F
    current_effect actions before now p =
        if changes_current update actions before now
        then filled (now.slot update).current p
        else nothing p

    -- The effect on `[isSuccess, current]` of the deletion dialog.
    unfoldable pub delete_effect : List (Action A) → State A → State A → Page A F → Turn A F
    delete_effect actions before now p =
        let was = (before.slot delete).is_success in
        let is = (now.slot delete).is_success in
        if changes_current delete actions before now || (was && not is) || (not was && is)
        then record {
          actions = if is then started (list_op (some 10)) else [];
          box_actions = if is then close_modal ∷ [] else [];
          folds_menu = false;
          forms = record p.forms {
            display_item = label_of labels (now.slot delete).current p.forms.display_item;
          };
          sent = if is then list_request 1 10 ∷ [] else [];
        }
        else nothing p

    -- The effects of the render behind `actions`. The renders that they cause in turn find flags that
    -- have become false, and null, on which the effects do nothing.
    unfoldable pub effects : State A → List (Action A) → Page A F → Option (Page A F)
    effects before actions p = do
      p1 ← commit (current_effect actions before p.store p) p
      p2 ← commit (update_effect before p.store p1) p1
      p3 ← commit (create_effect before p.store p2) p2
      commit (delete_effect actions before p.store p3) p3
