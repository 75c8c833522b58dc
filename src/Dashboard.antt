-- ===== src/Dashboard.antt =====
-- frontend/src/modules/DashboardModule: index.jsx, what it hands to its cards, and the cards of
-- components/PreviewCard.jsx, SummaryCard.jsx and RecentTable. The answers are in the state of
-- useOnFetch and useFetch.
pub mod Groups
pub mod Percentages
use dev_ops_projet.Base.{
  ℕ, ℤ, pos, ◌==ℤ◌, String, str_eq, Bool, true, false, ◌&&◌, if◌then◌else◌, Option, none, some,
  List, [], ◌∷◌, map, take,
}
use dev_ops_projet.Mongo.{first}

-- A row of a preview card.
pub record Stat : Type 0 where
  pub tag : String
  pub value : ℕ

-- What a card is given as `statistics`: `false` while the request runs, undefined if the result has
-- no `performance`, or an array.
pub data Statistics : Type 0 where
  not_array undefined : Statistics
  array : List Stat → Statistics

abbrev pub zero_stat : String → Stat
zero_stat tag = record { tag = tag; value = 0 }

abbrev pub default_statistics : List Stat
default_statistics =
    zero_stat "draft"
    ∷ zero_stat "pending"
    ∷ zero_stat "sent"
    ∷ zero_stat "accepted"
    ∷ zero_stat "declined"
    ∷ zero_stat "expired"
    ∷ []

abbrev pub default_invoice_statistics : List Stat
default_invoice_statistics =
    zero_stat "draft"
    ∷ zero_stat "pending"
    ∷ zero_stat "overdue"
    ∷ zero_stat "paid"
    ∷ zero_stat "unpaid"
    ∷ zero_stat "partially"
    ∷ []

-- `!isLoading && result?.performance?.map(...)`, by the status and the percentage of an item.
unfoldable pub statistics_of :
    {E : Type 0} → (E → String) → (E → ℕ) → Bool → Option (List E) → Statistics
statistics_of status percentage true performance = not_array
statistics_of status percentage false none = undefined
statistics_of status percentage false (some items) =
    array (map (λ item. record { tag = status item; value = percentage item }) items)

-- `matchedStat || defaultStat`
abbrev pub matched : List Stat → Stat → Stat
matched statistics default_stat =
    elim (first (λ stat. str_eq stat.tag default_stat.tag) statistics) [
      | none ↦ default_stat
      | some stat ↦ stat
    ]

-- The prop's default stands for undefined.
abbrev pub listed_of : Statistics → List Stat
listed_of not_array = []
listed_of undefined = default_statistics
listed_of (array statistics) = statistics

-- `statisticsMap`. The sort of the rendered rows compares `props.color`, which no row has: every
-- comparison is 0 and the rows stay in order.
unfoldable pub statistics_map : String → Statistics → List Stat
statistics_map entity statistics =
    map (matched (listed_of statistics))
      (if str_eq entity "invoice" then default_invoice_statistics else default_statistics)

-- The amount that a summary card shows, which is 0 while there is none.
unfoldable pub summary_amount : Option ℤ → ℤ
summary_amount none = pos 0
summary_amount (some data_) = if data_ ==ℤ pos 0 then pos 0 else data_

-- `firstFiveItems` of a recent table.
unfoldable pub first_five_items : {A : Type 0} → Bool → Option (List A) → List A
first_five_items true (some result) = take 5 result
first_five_items _ _ = []
