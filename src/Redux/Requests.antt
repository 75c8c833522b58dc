-- ===== src/Redux/Requests.antt =====
-- What a request leaves in its slot, alone and mixed with other requests.
use dev_ops_projet.Base.{
  ℕ, zero, suc, ◌≡◌, refl, sym, ap, ◌∙◌, Bool, true, false, if◌then◌else◌, some, inl, inr, List, [],
  ◌∷◌, Bool-cases, ==_iff,
}
use dev_ops_projet.Mongo.{select}
use dev_ops_projet.Redux.{
  Key, list, create, update, delete, read, search, record_payment, create_invoice, summary, mail,
  index, same_key, Payload, absent, doc, docs, page, Slot, State, Action, reset_state, current_item,
  request_loading, request_failed, request_success, current_action, reset_action, initial_slot, put,
  reduce,
}
use dev_ops_projet.Redux.Actions.{
  Reply, Pagination, Operation, list_op, create_op, read_op, update_op, delete_op, search_op,
  summary_op, mail_op, record_payment_op, create_invoice_op, key_of, dispatches, list_items,
  create_item, read_item, update_item, delete_item, search_items, summary_items, mail_item,
  record_payment_item, create_invoice_item, item_of_invoice,
}

key_at : ℕ → Key
key_at zero = list
key_at (suc zero) = create
key_at (suc (suc zero)) = update
key_at (suc (suc (suc zero))) = delete
key_at (suc (suc (suc (suc zero)))) = read
key_at (suc (suc (suc (suc (suc zero))))) = search
key_at (suc (suc (suc (suc (suc (suc zero)))))) = record_payment
key_at (suc (suc (suc (suc (suc (suc (suc zero))))))) = create_invoice
key_at (suc (suc (suc (suc (suc (suc (suc (suc zero)))))))) = summary
key_at _ = mail

key_at-index : (k : Key) → key_at (index k) ≡ k
unfolding key_at
key_at-index list = refl
key_at-index create = refl
key_at-index update = refl
key_at-index delete = refl
key_at-index read = refl
key_at-index search = refl
key_at-index record_payment = refl
key_at-index create_invoice = refl
key_at-index summary = refl
key_at-index mail = refl

same_key-eq : (j k : Key) → same_key j k ≡ true → j ≡ k
same_key-eq j k h =
    sym (key_at-index j) ∙ ap key_at ((==_iff (index j) (index k)).0 h) ∙ key_at-index k

module _ {A : Type 0} where
  -- A reducer over a list of dispatched actions.
  abbrev pub run : (State A → Action A → State A) → State A → List (Action A) → State A
  run f s [] = s
  run f s (a ∷ rest) = run f (f s a) rest

  -- Whether an action writes the slot of a key.
  abbrev pub touches : Key → Action A → Bool
  touches k reset_state = true
  touches k (current_item p) = false
  touches k (request_loading j) = same_key k j
  touches k (request_failed j) = same_key k j
  touches k (request_success j p) = same_key k j
  touches k (current_action j p) = same_key k j
  touches k (reset_action j) = same_key k j

  -- What an action makes of one slot.
  abbrev written : (Payload A → Slot A → Slot A) → Key → Action A → Slot A → Slot A
  written g k reset_state v = initial_slot k
  written g k (current_item p) v = v
  written g k (request_loading j) v = record v { is_loading = true }
  written g k (request_failed j) v = record v { is_loading = false; is_success = false }
  written g k (request_success j p) v = record {
    result = p;
    current = absent;
    is_loading = false;
    is_success = true;
  }
  written g k (current_action j p) v = g p v
  written g k (reset_action j) v = initial_slot k

  put-slot :
      (f : Slot A → Slot A) (j k : Key) (s : State A)
      → (put j (f (s.slot j)) s).slot k ≡ (if same_key k j then f (s.slot k) else s.slot k)
  put-slot f j k s = elim (Bool-cases (same_key k j)) [
    | inl t ↦ rw t (ap (λ i. f (s.slot i)) (sym (same_key-eq k j t)))
    | inr t ↦ rw t refl
  ]

  reduce-slot :
      (g : Payload A → Slot A → Slot A) (k : Key) (s : State A) (a : Action A)
      → (reduce g s a).slot k ≡ (if touches k a then written g k a (s.slot k) else s.slot k)
  unfolding reduce
  reduce-slot g k s reset_state = refl
  reduce-slot g k s (current_item p) = refl
  reduce-slot g k s (request_loading j) = put-slot (λ v. record v { is_loading = true }) j k s
  reduce-slot g k s (request_failed j) =
      put-slot (λ v. record v { is_loading = false; is_success = false }) j k s
  reduce-slot g k s (request_success j p) =
      put-slot (λ v. record { result = p; current = absent; is_loading = false; is_success = true })
        j k s
  reduce-slot g k s (current_action j p) = put-slot (g p) j k s
  reduce-slot g k s (reset_action j) = elim (Bool-cases (same_key k j)) [
    | inl t ↦ rw t (ap initial_slot (sym (same_key-eq k j t)))
    | inr t ↦ rw t refl
  ]

  writes : (Payload A → Slot A → Slot A) → Key → Slot A → List (Action A) → Slot A
  writes g k v [] = v
  writes g k v (a ∷ rest) = writes g k (written g k a v) rest

  -- Only the actions that touch a key bear on its slot.
  run-slot :
      (g : Payload A → Slot A → Slot A) (k : Key) (xs : List (Action A)) (s : State A)
      → (run (reduce g) s xs).slot k ≡ writes g k (s.slot k) (select (touches k) xs)
  unfolding writes
  run-slot g k [] s = refl
  run-slot g k (a ∷ xs) s = run-slot g k xs (reduce g s a) ∙ elim (Bool-cases (touches k a)) [
    | inl t ↦
        rw t (ap (λ v. writes g k v (select (touches k) xs)) (reduce-slot g k s a ∙ rw t refl))
    | inr t ↦
        rw t (ap (λ v. writes g k v (select (touches k) xs)) (reduce-slot g k s a ∙ rw t refl))
  ]

  -- What an answer shows, and what the slot is before the request: `delete` resets it.
  abbrev pub shown : Operation → Pagination → Reply A → Payload A
  shown (list_op size) p r = page r.result p.page size p.count
  shown _ p r = r.result

  abbrev pub start : Operation → Slot A → Slot A
  start delete_op v = initial_slot delete
  start _ v = v

  -- The answer to a list has its pagination; no other answer needs one.
  abbrev pub HasPagination : Operation → Pagination → Reply A → Type 0
  HasPagination (list_op size) p r = r.pagination ≡ some p
  HasPagination _ p r = Unit

  -- The slot that an answered request should leave.
  abbrev pub settled : Operation → Pagination → Reply A → Slot A → Slot A
  settled o p r v =
      if r.success
      then record { result = shown o p r; current = absent; is_loading = false; is_success = true }
      else record (start o v) { is_loading = false; is_success = false }

  module _ (invoice_of : A → Payload A) where
    select-item_of_invoice :
        (k : Key) (x : Payload A) → select (touches k) (item_of_invoice invoice_of x) ≡ []
    select-item_of_invoice k absent = refl
    select-item_of_invoice k (doc a) = refl
    select-item_of_invoice k (docs xs) = refl
    select-item_of_invoice k (page xs n m t) = refl

    module _ (g : Payload A → Slot A → Slot A) (p : Pagination) (r : Reply A) (v : Slot A) where
      abbrev Settles : Operation → Type 0
      Settles o =
          writes g (key_of o) v (select (touches (key_of o)) (dispatches invoice_of o (some r)))
          ≡ settled o p r v

      writes-dispatches : (o : Operation) → HasPagination o p r → Settles o
      unfolding dispatches writes list_items create_item read_item update_item delete_item
          search_items summary_items mail_item record_payment_item create_invoice_item
      writes-dispatches o paged = elim (Bool-cases r.success) [
        | inl t ↦ done o t paged
        | inr t ↦ failed o t
      ]
        where
          done : (o : Operation) → r.success ≡ true → HasPagination o p r → Settles o
          done (list_op size) t paged = rw (t, paged) refl
          done create_op t h = rw t refl
          done read_op t h = rw t refl
          done update_op t h = rw t refl
          done delete_op t h = rw t refl
          done search_op t h = rw t refl
          done summary_op t h = rw t refl
          done mail_op t h = rw t refl
          done record_payment_op t h = rw (t, select-item_of_invoice record_payment r.result) refl
          done create_invoice_op t h = rw (t, select-item_of_invoice create_invoice r.result) refl

          failed : (o : Operation) → r.success ≡ false → Settles o
          failed (list_op size) t = rw t refl
          failed create_op t = rw t refl
          failed read_op t = rw t refl
          failed update_op t = rw t refl
          failed delete_op t = rw t refl
          failed search_op t = rw t refl
          failed summary_op t = rw t refl
          failed mail_op t = rw t refl
          failed record_payment_op t = rw t refl
          failed create_invoice_op t = rw t refl

-- However the actions of one answered request are mixed with others that leave its key alone, its
-- slot ends settled, for any slot that `CURRENT_ACTION` makes, so in the three reducers: not
-- loading, successful exactly when the answer is, with what the answer shows or, on a failure, the
-- result from before (for `delete`, the initial one). The answer to a list has its pagination.
pub interleaved_request-settles :
    {A : Type 0} (g : Payload A → Slot A → Slot A) (invoice_of : A → Payload A) (o : Operation)
    (p : Pagination) (r : Reply A) (xs : List (Action A)) (s : State A)
    → HasPagination o p r
    → select (touches (key_of o)) xs
      ≡ select (touches (key_of o)) (dispatches invoice_of o (some r))
    → (run (reduce g) s xs).slot (key_of o) ≡ settled o p r (s.slot (key_of o))
interleaved_request-settles g invoice_of o p r xs s paged mixed =
    run-slot g (key_of o) xs s
    ∙ ap (writes g (key_of o) (s.slot (key_of o))) mixed
    ∙ writes-dispatches invoice_of g p r (s.slot (key_of o)) o paged
