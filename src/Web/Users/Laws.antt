-- ===== src/Web/Users/Laws.antt =====
-- The pages of the users keep administrators.
use tinydm.Prelude.{
  Option, none, some, ◌∙◌, String, ◌≡◌, refl, true, false, List, [], ◌∷◌, sym, subst, Bool-cases,
  inl, inr, ltb, arith,
}
use tinydm.Sql.{Result, ok, err, Conn, Error}
use tinydm.Schema.{Tables}
use tinydm.Storage.{Files}
use tinydm.Auth.Users.{User, get_user_by_id, change_password, hash_password}
use tinydm.Auth.Users.Safety.{
  ActiveAdmin, UserOp, create, change, set_active, delete, after, after-ActiveAdmin,
}
use tinydm.Prelude.Texts.{byte_len, trim_space}
use tinydm.Web.{WebRequest, WebReply, WebHandler, Site}
use tinydm.Web.Users.{
  row_after, refreshed, shown, user_type_of, user_row_partial, password_form, create_user_web,
  change_user_password, activate_user, deactivate_user, delete_user_web, created_row, deleted,
  create_hashed, change_hashed, is_incomplete,
}

get_user_by_id_reads : (id : String) (c : Conn Tables) → (get_user_by_id id c).1.tables ≡ c.tables
unfolding get_user_by_id
get_user_by_id_reads id c = ground arith

-- The tables after a page's reply.
abbrev tables_of : WebReply × Site → Tables
tables_of outcome = outcome.1.1.tables

refreshed_reads :
    (files : Files) (x : Result (Option User) × Conn Tables)
    → tables_of (refreshed files x) ≡ x.1.tables
refreshed_reads files (err e, c) = refl
refreshed_reads files (ok none, c) = refl
refreshed_reads files (ok (some u), c) = refl

row_after_reads :
    (failed : Error → WebReply) (id : String) (files : Files) (x : Result (Unit {0}) × Conn Tables)
    → tables_of (row_after failed id files x) ≡ x.1.tables
row_after_reads failed id files (err e, c) = refl
row_after_reads failed id files (ok _, c) =
    refreshed_reads files (get_user_by_id id c) ∙ get_user_by_id_reads id c

shown_reads :
    (f : User → WebReply) (files : Files) (x : Result (Option User) × Conn Tables)
    → tables_of (shown f files x) ≡ x.1.tables
shown_reads f files (err e, c) = refl
shown_reads f files (ok none, c) = refl
shown_reads f files (ok (some u), c) = refl

created_row_reads :
    (files : Files) (x : Result (Option User) × Conn Tables)
    → tables_of (created_row files x) ≡ x.1.tables
created_row_reads files (err e, c) = refl
created_row_reads files (ok u, c) = refl

deleted_reads :
    (files : Files) (x : Result (Unit {0}) × Conn Tables) → tables_of (deleted files x) ≡ x.1.tables
deleted_reads files (err e, c) = refl
deleted_reads files (ok _, c) = refl

-- The pages of the users; `create_page` has the new identifier.
pub data UserPage : Type 0 where
  row_page : UserPage
  form_page : UserPage
  create_page : String → UserPage
  password_page : UserPage
  activate_page : UserPage
  deactivate_page : UserPage
  delete_page : UserPage

module _ (generate : String → Result String) where
  abbrev handler_of : UserPage → WebHandler
  handler_of row_page = user_row_partial
  handler_of form_page = password_form
  handler_of (create_page id) = create_user_web generate id
  handler_of password_page = change_user_password generate
  handler_of activate_page = activate_user
  handler_of deactivate_page = deactivate_user
  handler_of delete_page = delete_user_web

  pub visit_all : List (UserPage × WebRequest) → Site → Site
  visit_all [] s = s
  visit_all ((page, r) ∷ visits) s = visit_all visits (handler_of page r s).1

module _ (generate : String → Result String) (admin : String) (r : WebRequest) (files : Files)
    (c : Conn Tables) (h : ActiveAdmin admin c.tables) where
  kept : (op : UserOp) (t : Tables) → t ≡ (after op c).tables → ActiveAdmin admin t
  kept op t same = subst (ActiveAdmin admin) (sym same) (after-ActiveAdmin admin op c h)

  create_kept :
      (id : String) (hashed : Result String)
      → ActiveAdmin admin (tables_of (create_hashed generate id r hashed (files, c)))
  create_kept id (err e) = h
  create_kept id (ok hash) =
      kept
        (create id (r.form_value "username") (r.form_value "email")
          (trim_space (r.form_value "first_name")) (trim_space (r.form_value "last_name")) hash
          (user_type_of (r.form_value "role")))
        _ (created_row_reads files _)

  change_kept :
      (id : String) (hashed : Result String)
      → ActiveAdmin admin (tables_of (change_hashed generate id hashed (files, c)))
  change_kept id (err e) = h
  change_kept id (ok hash) =
      kept (change id hash) _ (row_after_reads _ id files (change_password id hash c))

  visit-ActiveAdmin :
      (page : UserPage) → ActiveAdmin admin (tables_of (handler_of generate page r (files, c)))
  unfolding user_row_partial password_form create_user_web change_user_password activate_user
      deactivate_user delete_user_web
  visit-ActiveAdmin row_page =
      subst (ActiveAdmin admin)
        (sym (
          shown_reads _ files (get_user_by_id (r.url_param "userID") c)
          ∙ get_user_by_id_reads (r.url_param "userID") c))
        h
  visit-ActiveAdmin form_page =
      subst (ActiveAdmin admin)
        (sym (
          shown_reads _ files (get_user_by_id (r.url_param "userID") c)
          ∙ get_user_by_id_reads (r.url_param "userID") c))
        h
  visit-ActiveAdmin (create_page id) = elim (Bool-cases (is_incomplete r)) [
    | inl bad ↦ rw bad h
    | inr complete ↦ rw complete (create_kept id (hash_password generate (r.form_value "password")))
  ]
  visit-ActiveAdmin password_page = elim (Bool-cases (ltb (byte_len (r.form_value "password")) 8)) [
    | inl short ↦ rw short h
    | inr long ↦
        rw long
          (change_kept (r.url_param "userID") (hash_password generate (r.form_value "password")))
  ]
  visit-ActiveAdmin activate_page =
      kept (set_active (r.url_param "userID") true) _
        (row_after_reads _ (r.url_param "userID") files _)
  visit-ActiveAdmin deactivate_page =
      kept (set_active (r.url_param "userID") false) _
        (row_after_reads _ (r.url_param "userID") files _)
  visit-ActiveAdmin delete_page = kept (delete (r.url_param "userID")) _ (deleted_reads files _)

-- Whatever pages of the users are visited, in any order, with any forms and any failures of the driver,
-- an active administrator stays one.
pub visit_all-ActiveAdmin :
    (generate : String → Result String) (admin : String) (visits : List (UserPage × WebRequest))
    (s : Site)
    → ActiveAdmin admin s.1.tables
    → ActiveAdmin admin (visit_all generate visits s).1.tables
unfolding visit_all
visit_all-ActiveAdmin generate admin [] s h = h
visit_all-ActiveAdmin generate admin ((page, r) ∷ visits) s h =
    visit_all-ActiveAdmin generate admin visits (handler_of generate page r s).1
      (visit-ActiveAdmin generate admin r s.0 s.1 h page)
