-- ===== src/Auth/Profile.antt =====
-- backend/src/controllers/middlewaresControllers/createUserController, for the model Admin. `admin`
-- is `req.admin`, which the token gate has set.
use Prim.Native.Char.{code}
use Prim.Native.String.{[], ◌∷◌, ◌++◌}
use dev_ops_projet.Base.{
  ℕ, ◌+◌, String, true, false, Option, none, some, str_eq, ltb, if◌then◌else◌,
}
use dev_ops_projet.Http.{Outcome, reply, text, of_id, msg, throw, type_error}
use dev_ops_projet.Mongo.{Mongoose, updated}
use dev_ops_projet.Settings.{present}
use dev_ops_projet.Auth.{Admin, AdminPassword, AuthDb, Crypto, is_live_admin, is_live_password}

-- `password.length`, in units of UTF-16.
abbrev pub units : String → ℕ
units [] = 0
units (c ∷ s) = (if ltb 65535 (code c) then 2 else 1) + units s

-- `$set: UserPasswordData`; the salt is generated.
abbrev pub set_password : Crypto → String → String → AdminPassword → AdminPassword
set_password k salt password p = record p { password = k.hash_sync (salt ++ password); salt = salt }

abbrev pub demo_email : String
demo_email = "admin@admin.com"

module _ (db : Mongoose) (k : Crypto) where
  -- The write to the password document, and its answer.
  unfoldable pub save_password : String → String → ℕ → ℕ → AuthDb → Outcome (Unit {0}) × AuthDb
  save_password salt password user admin s =
      let (result_password, passwords) =
        db.find_one_and_update updated (is_live_password user) (set_password k salt password)
          s.passwords in
      let t : AuthDb = record s { passwords = passwords } in
      elim result_password [
        | none ↦ (reply 403 false none (text "User Password couldn't save correctly"), t)
        | some p ↦ (reply 200 true (some tt) (of_id "we update the password by this id: " admin), t)
      ]

  -- `id` is `req.params.id`; a body without a password has no `length` to read.
  unfoldable pub update_password :
      Option String → ℕ → Admin → String → AuthDb → Outcome (Unit {0}) × AuthDb
  update_password none id admin salt s = (throw type_error, s)
  update_password (some password) id admin salt s =
      if ltb (units password) 8
      then (reply 400 false none (msg "The password needs to be at least 8 characters long."), s)
      else if str_eq admin.email demo_email
      then (reply 403 false none (text "you couldn't update demo password"), s)
      else save_password salt password id admin.id s

  unfoldable pub update_profile_password :
      Option String → Option String → Admin → String → AuthDb → Outcome (Unit {0}) × AuthDb
  update_profile_password password password_check admin salt s = elim (present password) [
    | none ↦ (reply 400 false none (msg "Not all fields have been entered."), s)
    | some pw ↦ elim (present password_check) [
      | none ↦ (reply 400 false none (msg "Not all fields have been entered."), s)
      | some check ↦
          if ltb (units pw) 8
          then (
            reply 400 false none (msg "The password needs to be at least 8 characters long."),
            s,
          )
          else if str_eq pw check
          then (if str_eq admin.email demo_email
              then (reply 403 false none (text "you couldn't update demo password"), s)
              else save_password salt pw admin.id admin.id s)
          else (reply 400 false none (msg "Enter the same password twice for verification."), s)
    ]
  ]

-- The body of an update of the profile; a field that it leaves out is not set. The email is the text
-- that the setters of the schema make of it.
pub record ProfileBody : Type 0 where
  pub email : Option String
  pub name : Option String
  pub surname : Option String
  pub photo : Option String

abbrev pub or_kept : {A : Type 0} → Option A → A → A
or_kept none a = a
or_kept (some b) a = b

abbrev pub or_kept_option : {A : Type 0} → Option A → Option A → Option A
or_kept_option none a = a
or_kept_option (some b) a = some b

abbrev pub apply_profile : ProfileBody → Admin → Admin
apply_profile body u = record u {
  email = or_kept body.email u.email;
  name = or_kept body.name u.name;
  surname = or_kept_option body.surname u.surname;
  photo = or_kept_option (present body.photo) u.photo;
}

-- The answers hold the fields of the document but `removed`.
module _ (db : Mongoose) where
  unfoldable pub update_profile : ProfileBody → Admin → AuthDb → Outcome Admin × AuthDb
  update_profile body admin s =
      if str_eq admin.email demo_email
      then (reply 403 false none (text "you couldn't update demo informations"), s)
      else (let (result, admins) =
            db.find_one_and_update updated (is_live_admin admin.id) (apply_profile body) s.admins in
          let t : AuthDb = record s { admins = admins } in
          elim result [
            | none ↦ (reply 404 false none (of_id "No profile found by this id: " admin.id), t)
            | some u ↦
                (reply 200 true (some u) (of_id "we update this profile by this id: " admin.id), t)
          ])

  unfoldable pub read : ℕ → AuthDb → Outcome Admin
  read id s = elim (db.find_one (is_live_admin id) s.admins) [
    | none ↦ reply 404 false none (text "No document found ")
    | some u ↦ reply 200 true (some u) (text "we found this document ")
  ]
