-- ===== src/Auth/Renewal.antt =====
-- A user's own change of the password.
use Prim.Native.String
use dev_ops_projet.Base.{
  ℕ, ◌≡◌, refl, ◌≢◌, String, true, false, Option, none, some, inl, inr, arith, Bool-cases,
  Option-cases, str_eq, ltb,
}
use dev_ops_projet.Http.{Message, Response, respond, reply}
use dev_ops_projet.Mongo.{Mongoose, in_memory, first, update_first}
use dev_ops_projet.Mongo.Lookup.{first-update_first_self}
use dev_ops_projet.Mongo.Laws.{IsMongoose, eq-in_memory}
use dev_ops_projet.Settings.{present}
use dev_ops_projet.Auth.{
  Admin, AdminPassword, AuthDb, Crypto, IsCrypto, Session, has_email, is_live_password,
}
use dev_ops_projet.Auth.Login.{Credentials, login}
use dev_ops_projet.Auth.Profile.{
  units, save_password, set_password, demo_email, update_profile_password,
}
use dev_ops_projet.Auth.Recovery.{login_succeeds}

-- What a change that is answered with 200 has checked and written.
abbrev WasChanged : Crypto → Option String → ℕ → String → AuthDb → AuthDb → Type 0
WasChanged k password id salt s t =
    (pw : String) × (p : AdminPassword) × (present password ≡ some pw)
    × (first (is_live_password id) s.passwords ≡ some p)
    × (t ≡ record s {
      passwords = update_first (is_live_password id) (set_password k salt pw) s.passwords;
    })

refused :
    {r : Response (Unit {0})} (n : ℕ) {m : Message}
    → n ≢ 200
    → reply n false none m ≡ respond r
    → r.status ≡ 200
    → ⊥
refused n ne q code = ground arith

save_writes :
    (k : Crypto) (salt password : String) (id : ℕ) (s : AuthDb) (r : Response (Unit {0}))
    → (save_password in_memory k salt password id id s).0 ≡ respond r
    → r.status ≡ 200
    → (p : AdminPassword) × (first (is_live_password id) s.passwords ≡ some p)
      × ((save_password in_memory k salt password id id s).1 ≡ record s {
        passwords = update_first (is_live_password id) (set_password k salt password) s.passwords;
      })
unfolding save_password
save_writes k salt password id s r answer code =
    elim (Option-cases (first (is_live_password id) s.passwords)) [
      | inl lost ↦ absurd (refused 403 (omega arith) (rw (save_password, lost) at answer) code)
      | inr (p, pass) ↦ (p, pass, rw (save_password, pass))
    ]

change_writes :
    (k : Crypto) (password check : Option String) (admin : Admin) (salt : String) (s : AuthDb)
    (r : Response (Unit {0}))
    → (update_profile_password in_memory k password check admin salt s).0 ≡ respond r
    → r.status ≡ 200
    → WasChanged k password admin.id salt s
        (update_profile_password in_memory k password check admin salt s).1
unfolding update_profile_password
change_writes k password check admin salt s r answer code = elim (Option-cases (present password)) [
  | inl missing ↦
      absurd (refused 400 (omega arith) (rw (update_profile_password, missing) at answer) code)
  | inr (pw, given) ↦ elim (Option-cases (present check)) [
    | inl missing ↦
        absurd
          (refused 400 (omega arith) (rw (update_profile_password, given, missing) at answer) code)
    | inr (again, repeated) ↦ elim (Bool-cases (ltb (units pw) 8)) [
      | inl short ↦ absurd (
          refused 400 (omega arith) (rw (update_profile_password, given, repeated, short) at answer)
            code)
      | inr long ↦ elim (Bool-cases (str_eq pw again)) [
        | inr differ ↦ absurd (
            refused 400 (omega arith)
              (rw (update_profile_password, given, repeated, long, differ) at answer) code)
        | inl same ↦ elim (Bool-cases (str_eq admin.email demo_email)) [
          | inl demo ↦ absurd (
              refused 403 (omega arith)
                (rw (update_profile_password, given, repeated, long, same, demo) at answer) code)
          | inr own ↦
              let (p, pass, writes) =
                save_writes k salt pw admin.id s r
                  (rw (update_profile_password, given, repeated, long, same, own) at answer) code in
              (
                pw,
                p,
                given,
                pass,
                rw (update_profile_password, given, repeated, long, same, own) writes,
              )
        ]
      ]
    ]
  ]
]

present-eq : (o : Option String) (s t : String) → present o ≡ some s → o ≡ some t → s ≡ t
present-eq o s t e f = ground arith

-- After a user's change of the password that is answered with 200, a login of the same enabled
-- account with the new password is answered with 200, if its body is valid.
pub update_profile_password-login :
    (db : Mongoose) (k : Crypto) (accepts : Credentials → Option String) (check : Option String)
    (salt : String) (creds : Credentials) (s : AuthDb) (u : Admin) (r : Response (Unit {0}))
    → IsMongoose db
    → IsCrypto k
    → first (has_email creds.email) s.admins ≡ some u
    → u.enabled ≡ true
    → accepts creds ≡ none
    → (update_profile_password db k (some creds.password) check u salt s).0 ≡ respond r
    → r.status ≡ 200
    → (r' : Response Session) × ((login db k accepts creds
          (update_profile_password db k (some creds.password) check u salt s).1).0
        ≡ respond r')
      × (r'.status ≡ 200)
update_profile_password-login db k accepts check salt creds s u r m laws user enabled fine =
    rw (eq-in_memory m) (λ answer code.
      let (pw, p, given, pass, writes) =
        change_writes k (some creds.password) check u salt s r answer code in
      let same : pw ≡ creds.password = present-eq (some creds.password) pw _ given refl in
      let after =
        first-update_first_self (is_live_password u.id) (set_password k salt pw) s.passwords p
          (λ x. refl) pass in
      rw writes (
        login_succeeds k accepts creds _ u (set_password k salt pw p) fine user enabled after
          (rw same (laws.compare-hash_sync (String.◌++◌ salt creds.password)))))
