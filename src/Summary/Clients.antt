-- ===== src/Summary/Clients.antt =====
-- backend/src/controllers/appControllers/clientController/summary.js.
use dev_ops_projet.Base.{
  ℕ, Bool, true, not, ◌&&◌, ◌==◌, leb, ltb, String, Option, none, some, List, [], ◌∷◌,
  if◌then◌else◌,
}
use dev_ops_projet.Http.{Outcome, reply, text}
use dev_ops_projet.Documents.{Invoice}
use dev_ops_projet.Summary.{Aggregation, period_of, invalid_type}

-- The fields of a client that the pipelines read.
pub record Client : Type 0 where
  pub id : ℕ
  pub removed : Bool
  pub enabled : Bool
  pub created : ℕ

pub record ClientSummary : Type 0 where
  pub new : ℕ
  pub active : ℕ

-- `result.totalClients[0] ? result.totalClients[0].count : 0`; `$count` gives nothing for nothing.
abbrev pub count_of : {A : Type 0} → Aggregation → List A → ℕ
count_of db xs = elim (db.group_all xs) [ [] ↦ 0 | g ∷ gs ↦ db.count g ]

-- The start and the end of the period are moment's, from the period.
module _ (db : Aggregation) (start_of end_of : String → ℕ) where
  -- `activeClients`: the `$lookup` of the client's invoices, one of which is not removed. It does
  -- not ask whether the client is removed or enabled.
  abbrev pub active_clients : List Invoice → List Client → ℕ
  active_clients invoices clients = count_of db (
      db.group_ids (λ c. c.id)
        (db.matching
          (λ c. ltb 0 (db.count (db.matching (λ d. d.client == c.id && not d.removed) invoices)))
          clients))

  unfoldable pub client_summary : Option String → List Invoice → List Client → Outcome ClientSummary
  client_summary type invoices clients = elim (period_of type) [
    | none ↦ invalid_type
    | some period ↦
        let total_clients = count_of db (db.matching (λ c. not c.removed && c.enabled) clients) in
        let new_clients = count_of db (
          db.matching
            (λ c.
              not c.removed
              && (leb (start_of period) c.created && leb c.created (end_of period))
              && c.enabled)
            clients) in
        reply 200 true
          (some (record {
            new = if ltb 0 total_clients then db.percentage new_clients total_clients else 0;
            active =
                if ltb 0 total_clients
                then db.percentage (active_clients invoices clients) total_clients
                else 0;
          }))
          (text "Successfully get summary of new clients")
  ]
