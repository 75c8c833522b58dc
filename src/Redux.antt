-- ===== src/Redux.antt =====
-- The three request reducers of the web client: frontend/src/redux/crud, erp and adavancedCrud,
-- reducer.js. They differ in one case and in the keys of their initial state. A field or key that
-- an object lacks is read as the null, false or empty slot that it is tested like.
pub mod Actions
pub mod Requests
use dev_ops_projet.Base.{
  ℕ, ◌==◌, Bool, true, false, if◌then◌else◌, Option, none, some, List, [], ◌∷◌,
}

pub data Key : Type 0 where
  list create update delete read search record_payment create_invoice summary mail : Key

abbrev pub index : Key → ℕ
index list = 0
index create = 1
index update = 2
index delete = 3
index read = 4
index search = 5
index record_payment = 6
index create_invoice = 7
index summary = 8
index mail = 9

abbrev pub same_key : Key → Key → Bool
same_key j k = index j == index k

-- `page` is the `{ items, pagination: { current, pageSize, total } }` of lists.
pub data Payload (A : Type 0) : Type 0 where
  absent : Payload A
  doc : A → Payload A
  docs : List A → Payload A
  page : Payload A → ℕ → Option ℕ → ℕ → Payload A

pub record Slot (A : Type 0) : Type 0 where
  pub result : Payload A
  pub current : Payload A
  pub is_loading : Bool
  pub is_success : Bool

pub record State (A : Type 0) : Type 0 where
  pub current_item : Payload A
  pub slot : Key → Slot A

-- `RESET_STATE`, `CURRENT_ITEM` and so on, with the `keyState` and the payload that the case reads.
pub data Action (A : Type 0) : Type 0 where
  reset_state : Action A
  current_item : Payload A → Action A
  request_loading : Key → Action A
  request_failed : Key → Action A
  request_success : Key → Payload A → Action A
  current_action : Key → Payload A → Action A
  reset_action : Key → Action A

module _ {A : Type 0} where
  -- `INITIAL_KEY_STATE`.
  abbrev pub initial_key_state : Slot A
  initial_key_state = record {
    result = absent;
    current = absent;
    is_loading = false;
    is_success = false;
  }

  -- `INITIAL_STATE`.
  abbrev pub initial_slot : Key → Slot A
  initial_slot list = record {
    result = page (docs []) 1 (some 10) 1;
    current = absent;
    is_loading = false;
    is_success = false;
  }
  initial_slot search = record {
    result = docs [];
    current = absent;
    is_loading = false;
    is_success = false;
  }
  initial_slot _ = initial_key_state

  abbrev pub initial_state : State A
  initial_state = record { current_item = absent; slot = initial_slot }

  -- `{ ...state, [keyState]: v }`
  abbrev pub put : Key → Slot A → State A → State A
  put k v s = record s { slot = λ j. if same_key j k then v else s.slot j }

  -- The reducers' switch, up to the slot that `CURRENT_ACTION` makes.
  unfoldable pub reduce : (Payload A → Slot A → Slot A) → State A → Action A → State A
  reduce g s reset_state = initial_state
  reduce g s (current_item p) = record s { current_item = p }
  reduce g s (request_loading k) = put k (record (s.slot k) { is_loading = true }) s
  reduce g s (request_failed k) =
      put k (record (s.slot k) { is_loading = false; is_success = false }) s
  reduce g s (request_success k p) =
      put k (record { result = p; current = absent; is_loading = false; is_success = true }) s
  reduce g s (current_action k p) = put k (g p (s.slot k)) s
  reduce g s (reset_action k) = put k (initial_slot k) s

  -- `crudReducer` starts from the initial slot there, the other two from the state's.
  unfoldable pub crud_reducer : State A → Action A → State A
  crud_reducer = reduce (λ p v. record initial_key_state { current = p })

  unfoldable pub erp_reducer : State A → Action A → State A
  erp_reducer = reduce (λ p v. record v { current = p })

  unfoldable pub adavanced_crud_reducer : State A → Action A → State A
  adavanced_crud_reducer = reduce (λ p v. record v { current = p })
