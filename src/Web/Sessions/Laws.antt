-- ===== src/Web/Sessions/Laws.antt =====
-- Whom a session lets through, and that a login begins one.
use tinydm.Prelude.{
  ap, sym, String, ◌≡◌, ◌∙◌, ◌⊎◌, true, false, ◌||◌, some, Option, arith, inl, inr, refl, none, eqb,
  Option-cases, Bool-cases, ◌==◌,
}
use tinydm.Prelude.Int.{ℤ, pos, ltb_ℤ, ◌+ℤ◌}
use tinydm.Sql.{Result, ok, err, driver, Conn}
use tinydm.Sql.Quiet.{Result-cases, ticked}
use tinydm.Sql.Table.Find.{find}
use tinydm.Schema.{UserRow, Tables}
use tinydm.Storage.{Files}
use tinydm.Auth.Users.{User, to_user, scan_user, get_user_by_id, get_user_by_username}
use tinydm.Auth.Token.{lifetime, Claims, Documented, new_jwt, parse_jwt, claims_of}
use tinydm.Auth.Middleware.{World}
use tinydm.Auth.Middleware.Bearer.{parse_jwt-new_jwt}
use tinydm.Web.{
  WebRequest, WebReply, redirect, untouched, cleared, session, SetCookie, Site, WebHandler,
}
use tinydm.Web.Sessions.{
  require_session, login_submit, session_principal, try_login, with_cookie, with_user,
}

-- The reply sends the browser to the login, and no table has changed.
abbrev pub SentToLogin : Files → Conn Tables → WebReply × Site → Type 0
SentToLogin files c outcome =
    (cookie : SetCookie) × ((c' : Conn Tables) × ((outcome
          ≡ (redirect cookie "/app/login", (files, c')))
        × (c'.tables ≡ c.tables)))

-- The next handler runs, for the user `u` of the token.
abbrev pub LetThrough :
    World
    → String
    → WebHandler
    → WebRequest
    → Files
    → Conn Tables
    → UserRow
    → WebReply × Site
    → Type 0
LetThrough w secret next r files c u outcome =
    (token : String) × ((claims : Claims) × ((r.cookie ≡ some token)
        × ((parse_jwt w.jwt w.time_now secret token ≡ ok claims)
            × ((find (λ u. u.id) claims.subject c.tables.users ≡ some u)
                × ((u.is_active ≡ 1)
                    × (outcome
                        ≡ next (record r { principal = session_principal (to_user u) })
                            (files, ticked c)))))))

module _ (w : World) (secret : String) (next : WebHandler) (r : WebRequest) (files : Files)
    (c : Conn Tables) where
  read :
      {o : Option String} {outcome : WebReply × Site}
      → r.cookie ≡ o
      → with_cookie w secret next r o (files, c) ≡ outcome
      → require_session w secret next r (files, c) ≡ outcome
  unfolding require_session
  read given rest = ap (λ o. with_cookie w secret next r o (files, c)) given ∙ rest

  failing :
      (id : String) {m : String}
      → (c.world c.tick).fault ≡ some m
      → get_user_by_id id c ≡ (err (driver m), ticked c)
  unfolding get_user_by_id
  failing id failed = ground arith

  answering :
      (id : String) (o : Option UserRow)
      → (c.world c.tick).fault ≡ none
      → find (λ u. u.id) id c.tables.users ≡ o
      → get_user_by_id id c ≡ (ok (scan_user o), ticked c)
  unfolding get_user_by_id
  answering id none quiet e = ground arith
  answering id (some u) quiet e = ground arith

  from_token :
      {token : String} {claims : Claims} {found : Result (Option User) × Conn Tables}
      → r.cookie ≡ some token
      → (token == "") ≡ false
      → parse_jwt w.jwt w.time_now secret token ≡ ok claims
      → get_user_by_id claims.subject c ≡ found
      → require_session w secret next r (files, c) ≡ with_user next r files found
  from_token given there parsed e =
      read given (rw (there, parsed) refl) ∙ ap (with_user next r files) e

  -- A request behind requireSession is sent to the login with no table changed, or the token in its
  -- cookie is accepted and names a user in the table, live and active at the time of the request, and
  -- the handler runs as that user, with the name and the type that the row has then.
  pub require_session_lem :
      SentToLogin files c (require_session w secret next r (files, c))
      ⊎ ((u : UserRow) × LetThrough w secret next r files c u
            (require_session w secret next r (files, c)))
  unfolding require_session get_user_by_id
  require_session_lem = elim (Option-cases r.cookie) [
    | inl absent ↦ inl (untouched, (c, (read absent refl, refl)))
    | inr (token, given) ↦ elim (Bool-cases (token == "")) [
      | inl blank ↦ inl (untouched, (c, (read given (rw (blank) refl), refl)))
      | inr there ↦ elim (Result-cases (parse_jwt w.jwt w.time_now secret token)) [
        | inr (e, bad) ↦ inl (cleared, (c, (read given (rw (there, bad) refl), refl)))
        | inl (claims, parsed) ↦ elim (Option-cases (c.world c.tick).fault) [
          | inr (m, failed) ↦ inl (
            cleared,
            (ticked c, (from_token given there parsed (failing claims.subject failed), refl)),
          )
          | inl quiet ↦ elim (Option-cases (find (λ u. u.id) claims.subject c.tables.users)) [
            | inl gone ↦ inl (
              cleared,
              (
                ticked c,
                (from_token given there parsed (answering claims.subject none quiet gone), refl),
              ),
            )
            | inr (u, found) ↦ elim (Bool-cases (eqb u.is_active 1)) [
              | inl active ↦ inr (
                u,
                (
                  token,
                  (
                    claims,
                    (
                      given,
                      (
                        parsed,
                        (
                          found,
                          (
                            ground arith,
                            from_token given there parsed
                                  (answering claims.subject (some u) quiet found)
                                ∙ rw active refl,
                          ),
                        ),
                      ),
                    ),
                  ),
                ),
              )
              | inr inactive ↦ inl (
                cleared,
                (
                  ticked c,
                  (
                    from_token given there parsed (answering claims.subject (some u) quiet found)
                        ∙ rw inactive refl,
                    refl,
                  ),
                ),
              )
            ]
          ]
        ]
      ]
    ]
  ]

module _ (w w' : World) (secret : String) (minutes : ℤ) (d : Documented w'.jwt) where
  started_sound :
      (name password token : String) (age : ℤ) (u : User)
      → try_login w secret minutes name password (ok (some u))
        ≡ redirect (session token age) "/app/"
      → (u.is_active ≡ true)
        × ((w.compare_hash_and_password u.password_hash password ≡ true)
            × (new_jwt w.jwt w.time_now secret minutes u.id u.username u.user_type ≡ ok token))
  started_sound name password token age u h =
      elim (Result-cases (new_jwt w.jwt w.time_now secret minutes u.id u.username u.user_type)) [
        | inr (e, failed) ↦ absurd (ground arith)
        | inl (t, made) ↦ (ground arith, (ground arith, ground arith))
      ]

  by_name :
      (name : String) (c : Conn Tables) (u : UserRow)
      → (c.world c.tick).fault ≡ none
      → find (λ u. u.username) name c.tables.users ≡ some u
      → get_user_by_username name c ≡ (ok (some (to_user u)), ticked c)
  unfolding get_user_by_username
  by_name name c u quiet found = ground arith

  reply_for :
      (r : WebRequest) (files : Files) (c : Conn Tables) (u : UserRow)
      → (r.form_value "username" == "" || r.form_value "password" == "") ≡ false
      → get_user_by_username (r.form_value "username") c ≡ (ok (some (to_user u)), ticked c)
      → (login_submit w secret minutes r (files, c)).0
        ≡ try_login w secret minutes
            (r.form_value "username")
            (r.form_value "password")
            (ok (some (to_user u)))
  unfolding login_submit
  reply_for r files c u given found = rw given (
      ap (λ x. try_login w secret minutes (r.form_value "username") (r.form_value "password") x.0)
        found)

  is_active_one : (u : UserRow) → (to_user u).is_active ≡ true → u.is_active ≡ 1
  is_active_one u h = ground arith

  -- A login that begins a session is that of a live and active user with the name, whose hash the
  -- password meets.
  login_submit_sound :
      (r : WebRequest) (files : Files) (c : Conn Tables) (token : String) (age : ℤ)
      → (login_submit w secret minutes r (files, c)).0 ≡ redirect (session token age) "/app/"
      → (u : UserRow) × ((find (λ u. u.username) (r.form_value "username") c.tables.users ≡ some u)
          × ((u.is_active ≡ 1)
              × ((w.compare_hash_and_password u.password_hash (r.form_value "password") ≡ true)
                  × (new_jwt w.jwt w.time_now secret minutes u.id u.username u.user_type
                      ≡ ok token))))
  unfolding login_submit get_user_by_username
  login_submit_sound r files c token age h =
      elim (Bool-cases (r.form_value "username" == "" || r.form_value "password" == "")) [
        | inl blank ↦ absurd (ground arith)
        | inr given ↦ elim (Option-cases (c.world c.tick).fault) [
          | inr failed ↦ absurd (ground arith)
          | inl quiet ↦
              elim (Option-cases
                (find (λ u. u.username) (r.form_value "username") c.tables.users)) [
                  | inl absent ↦ absurd (ground arith)
                  | inr (u, found) ↦
                      let (active, (met, made)) =
                        started_sound (r.form_value "username") (r.form_value "password") token age
                          (to_user u)
                          (sym (
                              reply_for r files c u given
                                (by_name (r.form_value "username") c u quiet found))
                            ∙ h) in
                      (u, (found, (is_active_one u active, (met, made))))
                ]
        ]
      ]

  -- The session that a login begins is, with the same secret and until the token expires, that of the
  -- user of the login: where that user is still live and active, and the query does not fail, the
  -- handler runs, as the user's row is then.
  pub require_session-login_submit :
      (next : WebHandler) (r r' : WebRequest) (files files' : Files) (c c' : Conn Tables)
      (token : String) (age : ℤ)
      → w'.jwt ≡ w.jwt
      → (login_submit w secret minutes r (files, c)).0 ≡ redirect (session token age) "/app/"
      → ltb_ℤ (pos w'.time_now) (pos w.time_now +ℤ lifetime minutes) ≡ true
      → r'.cookie ≡ some token
      → (token == "") ≡ false
      → (c'.world c'.tick).fault ≡ none
      → (u : UserRow) × ((find (λ u. u.username) (r.form_value "username") c.tables.users ≡ some u)
          × ((v : UserRow)
              → find (λ u. u.id) u.id c'.tables.users ≡ some v
              → v.is_active ≡ 1
              → require_session w' secret next r' (files', c')
                ≡ next
                    (record r' { principal = session_principal (to_user v) })
                    (files', ticked c')))
  unfolding claims_of
  require_session-login_submit next r r' files files' c c' token age same h early given there
        quiet =
      let (u, (found, (active, (met, made)))) = login_submit_sound r files c token age h in
      let made' =
        ap (λ j. new_jwt j w.time_now secret minutes u.id u.username u.user_type) same ∙ made in
      let parsed =
        parse_jwt-new_jwt w'.jwt d w.time_now w'.time_now secret token minutes u.id u.username
          u.user_type made' early in
      (
        u,
        (
          found,
          λ v live active'.
              from_token w' secret next r' files' c' given there parsed
                (answering w' secret next r' files' c' u.id (some v) quiet live)
              ∙ rw (ap (λ n. eqb n 1) active') refl,
        ),
      )
