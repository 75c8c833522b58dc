-- ===== src/Lib.antt =====
-- The billing application: an express and mongoose server (backend/src) and a React client
-- (frontend/src) with a redux store.
--
-- How the parts interact. A request passes the token gate of the authentication, then reaches a
-- controller, which reads and writes collections by mongoose and answers with a status and a JSON
-- body; what it throws goes to the error handlers. The payment controller writes invoices too: the
-- credit and payment status of an invoice are kept by five handlers of two controllers. The client
-- sends requests by the actions of the store, whose reducers keep one slot per kind of request.
--
-- Files:
--   Base            numbers, integers, lists and Boolean tests
--   Http            backend/src/handlers/errorHandlers.js, and the answers as values
--   Mongo           mongoose as a parameter; Mongo/Laws, Keys and Lookup: its laws and what follows
--   Calculate       `calculate` of backend/src/helpers.js
--   Settings        backend/src/middlewares/settings and models/coreModels/Setting.js;
--                   Settings/Controller and Many: controllers/coreControllers/settingController
--   Documents       backend/src/models/appModels: Invoice.js, Payment.js, Quote.js
--   Billing         the loop over the items of invoices and quotes
--   Invoice         controllers/appControllers/invoiceController: create, update, remove, read, mail
--   Payment         controllers/appControllers/paymentController: create, update, remove, mail
--   Quote           controllers/appControllers/quoteController: create, update, read, convert
--   Ledger          the invariant of invoices with payments, and that each handler keeps it
--   DefaultItem     taxesController and paymentModeController, which are the same code
--   Auth            controllers/middlewaresControllers/createAuthMiddleware; Auth/Profile:
--                   createUserController
--   Crud            controllers/middlewaresControllers/createCRUDController
--   Summary         summary.js of the four controllers of appControllers
--   Uploads         backend/src/middlewares/uploadMiddleware
--   Downloads       backend/src/routes/coreRoutes/coreDownloadRouter.js and
--                   handlers/downloadHandler/downloadPdf.js
--   Forms           the totals of frontend/src/modules/ErpPanelModule: CreateItem.jsx and
--                   UpdateItem.jsx, and of InvoiceModule/Forms/InvoiceForm.jsx
--   PaymentForms    frontend/src/forms/PaymentForm.jsx with its two pages: RecordPayment.jsx of
--                   InvoiceModule, and Payment.jsx and UpdatePayment.jsx of PaymentModule
--   Contexts        frontend/src/context: erp and adavancedCrud (Panels), crud (Boxes),
--                   profileContext (Profile), appContext (Menu)
--   HttpClient      frontend/src/request and frontend/src/auth, over axios and the browser
--   SettingsStore   frontend/src/redux/settings, with its copy in local storage
--   Redux           frontend/src/redux: crud, erp and adavancedCrud
--   Session         frontend/src/redux/auth, with its copy in local storage
--   Routes          backend/src/app.js and backend/src/routes for '/api', with the gate
--   Hooks           frontend/src/hooks: useFetch and useOnFetch, and components/SelectAsync
--   SearchBoxes     frontend/src/hooks: useTimeoutFn and useDebounce, and components/SearchItem
--   Money           useMoney of backend/src/settings and of frontend/src/settings
--   PublicFiles     backend/src/routes/coreRoutes/corePublicRouter.js and utils/is-path-inside.js
--   Setup           backend/src/setup: setup.js and reset.js
--   Pages           frontend/src/modules/CrudModule with components/DataTable, CreateForm, UpdateForm,
--                   DeleteModal and SidePanel: the pages of clients, taxes and payment modes
--   ErpList         index.jsx, DataTable.jsx and DeleteItem.jsx of frontend/src/modules/ErpPanelModule:
--                   the lists of invoices, quotes and payments
--   ErpCreate       CreateItem.jsx of frontend/src/modules/ErpPanelModule: the form of a new
--                   invoice or quote
--   ErpRead         ReadItem.jsx of frontend/src/modules/ErpPanelModule, InvoiceModule's
--                   ReadInvoiceModule and hooks/useMail.jsx: the page of an invoice or a quote
--   ErpUpdate       UpdateItem.jsx of frontend/src/modules/ErpPanelModule, and InvoiceModule's
--                   UpdateInvoiceModule: the form of an old invoice or quote
--   Dashboard       frontend/src/modules/DashboardModule: what its cards show of the summaries
--   EndToEnd        a list of the client with the server's handler behind it; EndToEnd/Login: a
--                   login and the client's next request
--   Tests           concrete libraries, and the theorems at concrete requests
--
-- State. A collection is the list of its documents in natural order; a handler is a function from the
-- request and the collections to an outcome and the new collections, so that what was written before
-- a throw stays written. An ObjectId is a number, a new one is an argument, and so are the time and
-- the texts that shortid generates. Amounts of money are integers of cents, quantities and rates are
-- decimals; JavaScript's own sums of amounts are taken as exact. Handlers run one after the other,
-- each to its end; an update that is not awaited is its handler's last step.
--
-- Third-party code is a parameter with its documented behaviour as hypotheses: mongoose
-- (IsMongoose), its bulkWrite and the stages of MongoDB's pipelines (IsAggregation, IsGrouping),
-- currency.js (IsCurrency, which says nothing of products; IsZeroed), Joi (IsSchema), bcryptjs and
-- jsonwebtoken (IsCrypto), the driver's sort (IsSort), express's matching of paths, axios, slugify, the PDF
-- service, insertMany and deleteMany (IsBulk), node's paths (IsNodePath) and React, which is the
-- order in which effects run. Every loop is structural but the runs of useFetch's effect, which take fuel: 3 are
-- enough, as is proved.
--
-- Not modelled: mails, the PDF's contents, tables of data and translations, the client's views beyond
-- what its pages, forms, cards, selects and search boxes do and compute, and what nothing uses: the
-- setup controller and the storage of files in S3.
pub mod Base
pub mod Http
pub mod Mongo
pub mod Calculate
pub mod Settings
pub mod Documents
pub mod Billing
pub mod Invoice
pub mod Payment
pub mod Quote
pub mod Ledger
pub mod DefaultItem
pub mod Auth
pub mod Crud
pub mod Summary
pub mod Uploads
pub mod Downloads
pub mod Forms
pub mod PaymentForms
pub mod Contexts
pub mod HttpClient
pub mod SettingsStore
pub mod Redux
pub mod Session
pub mod Routes
pub mod Hooks
pub mod SearchBoxes
pub mod Money
pub mod PublicFiles
pub mod Pages
pub mod ErpList
pub mod Dashboard
pub mod ErpCreate
pub mod ErpRead
pub mod ErpUpdate
pub mod Setup
pub mod EndToEnd
pub mod Tests
