-- ===== src/HttpClient/Laws.antt =====
-- What the client makes of the answers of the server.
use dev_ops_projet.Base.{
  ◌≡◌, refl, ap, ◌∙◌, ◌==◌, true, ◌⊎◌, inl, inr, Option, none, some, Bool-cases, Option-cases,
}
use dev_ops_projet.Redux.Actions.{Reply}
use dev_ops_projet.HttpClient.{
  HttpResponse, Exchange, answered, failed, Browser, include_token, error_handler, is_token_error,
  reply_of, failure, drop_expired,
}
use dev_ops_projet.HttpClient.Requests.{Sent, Request, sent_by, perform}

failure-unsuccessful :
    {A : Type 0} (r : Reply A) → some (failure {A = A}) ≡ some r → r.success ≡ true → ⊥
failure-unsuccessful r e ok = cc

module _ {T A : Type 0} where
  -- A success that an error's handler gives is what the response carries.
  pub error_handler-source :
      (x : Option (HttpResponse A)) (b : Browser T) (r : Reply A)
      → (error_handler x b).0 ≡ some r
      → r.success ≡ true
      → (y : HttpResponse A) × (x ≡ some y) × (reply_of y ≡ some r)
  unfolding error_handler
  error_handler-source x b r e ok = elim (Bool-cases b.online) [
    | inr off ↦ absurd (failure-unsuccessful r (rw (error_handler, off) at e) ok)
    | inl on ↦ elim (Option-cases x) [
      | inl lost ↦ absurd (failure-unsuccessful r (rw (error_handler, on, lost) at e) ok)
      | inr (y, here) ↦ elim (Bool-cases (y.status == 0)) [
        | inl zero_status ↦ elim (Bool-cases (drop_expired y b).online) [
          | inl up ↦
              absurd
                (failure-unsuccessful r (rw (error_handler, on, here, zero_status, up) at e) ok)
          | inr down ↦
              absurd
                (failure-unsuccessful r (rw (error_handler, on, here, zero_status, down) at e) ok)
        ]
        | inr st ↦ elim (Bool-cases (is_token_error y)) [
          | inl bad ↦ cc (rw (error_handler, on, here, st, bad) at e)
          | inr fine ↦ (y, here, rw (error_handler, on, here, st, fine) at e)
        ]
      ]
    ]
  ]

module _ {J T A : Type 0} (send : Sent J → Option T → Exchange A) (q : Request J)
    (b : Browser T) where
  -- A success that an operation gives to its action is what a response of the server carries, the
  -- response to the operation's call with the stored token: the client makes up none itself.
  pub perform-success :
      (r : Reply A)
      → (perform send q b).0 ≡ some r
      → r.success ≡ true
      → (c : Browser T) × (y : HttpResponse A) × (include_token b ≡ some c)
        × ((send (sent_by q) c.authorization ≡ answered y)
            ⊎ (send (sent_by q) c.authorization ≡ failed (some y)))
        × (reply_of y ≡ some r)
  unfolding perform
  perform-success r e ok = elim (Option-cases (include_token b)) [
    | inl broken_login ↦ absurd (no_source b r (rw (perform, broken_login) at e) ok)
    | inr (c, started) ↦ from_exchange c started _ refl
  ]
    where
      no_source :
          (b : Browser T) (r : Reply A)
          → (error_handler {A = A} none b).0 ≡ some r
          → r.success ≡ true
          → ⊥
      no_source b r e ok = let (y, none_is, _) = error_handler-source none b r e ok in cc

      from_exchange :
          (c : Browser T)
          → include_token b ≡ some c
          → (x : Exchange A) → send (sent_by q) c.authorization ≡ x
          → (c : Browser T) × (y : HttpResponse A) × (include_token b ≡ some c)
            × ((send (sent_by q) c.authorization ≡ answered y)
                ⊎ (send (sent_by q) c.authorization ≡ failed (some y)))
            × (reply_of y ≡ some r)
      from_exchange c started (answered y) got =
          (c, y, started, inl got, rw (perform, started, got) at e)
      from_exchange c started (failed x) got =
          let (y, has, gives) = error_handler-source x c r (rw (perform, started, got) at e) ok in
          (c, y, started, inr (got ∙ ap failed has), gives)
