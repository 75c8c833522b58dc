-- ===== src/Tests/Reads.antt =====
-- The page of an invoice, which is read, and then mailed.
use dev_ops_projet.Base.{ℕ, ◌≡◌, refl, true, String, none, some, List, [], ◌∷◌}
use dev_ops_projet.Redux.{doc, initial_state}
use dev_ops_projet.Redux.Actions.{Reply}
use dev_ops_projet.ErpRead.{
  Page, Event, Fields, read_answered, mail_clicked, mailed, open_page, step,
}
use dev_ops_projet.ErpRead.Runs.{after, IsPossible, IsAbout, after-IsAbout}

record Billed : Type 0 where
  id : ℕ
  lines : List String

abbrev bill : Billed
bill = record { id = 5; lines = "paper" ∷ "ink" ∷ [] }

abbrev id_of : Billed → ℕ
id_of b = b.id

abbrev fields : Fields Billed String String
fields = record {
  items = λ b. some b.lines;
  invoice = λ b. none;
  client = λ b. some "Ann";
  spread = λ a v. v;
  blank = record { id = 0; lines = [] };
}

abbrev answer : Reply Billed
answer = record { success = true; result = doc bill; pagination = none }

abbrev opened : Page Billed String String
opened = elim (open_page fields initial_state 5) [ none ↦ empty_page | some p ↦ p ]
  where
    empty_page : Page Billed String String
    empty_page = record {
      store = initial_state;
      id = 0;
      items_list = [];
      current_erp = bill;
      client = none;
      sent = [];
      windows = [];
      went = none;
    }

abbrev mailing : List (Event Billed)
mailing = read_answered (some answer) ∷ mail_clicked ∷ mailed (some answer) ∷ []

opened-reached : open_page fields initial_state 5 ≡ some opened
unfolding open_page
opened-reached = refl

mailing-IsPossible : IsPossible fields id_of 5 mailing (some opened)
unfolding open_page step
mailing-IsPossible = (
  refl,
  (λ h. (bill, "paper" ∷ "ink" ∷ [], "Ann", refl, refl, refl, refl)),
  (refl, tt, (refl, tt, tt)),
)

after-IsAbout_example :
    (p : Page Billed String String) × (after fields id_of mailing (some opened) ≡ some p)
    × IsAbout fields id_of 5 p
after-IsAbout_example =
    after-IsAbout fields id_of initial_state 5 opened mailing opened-reached mailing-IsPossible
