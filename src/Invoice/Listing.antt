-- ===== src/Invoice/Listing.antt =====
-- backend/src/controllers/appControllers/invoiceController/paginatedList.js, the code of the generic
-- handler but for the fields that `populate` adds to an invoice.
use dev_ops_projet.Base.{Bool, List}
use dev_ops_projet.Http.{Outcome}
use dev_ops_projet.Mongo.{Mongoose}
use dev_ops_projet.Documents.{Invoice}
use dev_ops_projet.Crud.Listing.{Query, Page}
use dev_ops_projet.Crud.Listing.{paginated_list as generic_list}

abbrev paginated_list :
    Mongoose
    → (List Invoice → List Invoice)
    → Query
    → (Invoice → Bool)
    → List Invoice
    → Outcome (Page Invoice)
paginated_list db sort = generic_list db sort (λ d. d.removed)
