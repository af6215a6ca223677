-- ===== src/Auth/Rights/Laws.antt =====
-- Granting a right, of internal/auth/store.go, and asking for it, of internal/auth/rbac.go.
use tinydm.Prelude.{
  ◌⊎◌, if◌then◌else◌, ◌+◌, String, ◌≡◌, refl, ◌∙◌, sym, ap, Bool, true, false, none, List, [], ◌∷◌,
  ◌++◌, Memᴰ, any, map, arith, inl, inr, Bool-cases, eq_iff, eqb,
}
use tinydm.Sql.{Result, ok, Conn}
use tinydm.Sql.Quiet.{Quiet}
use tinydm.Sql.Table.{select_all, update_all}
use tinydm.Schema.{RightRow, Tables}
use tinydm.Auth.Rbac.{Right, Action, right_grants_action, check_rights}
use tinydm.Auth.Rbac.Laws.{check_rights_iff}
use tinydm.Auth.Rights.{
  bool_to_int, scan_right, held_by_user, subject_of, set_grants, right_row, upsert_right,
  get_user_rights,
}

bool_back : (b : Bool) → eqb (bool_to_int b) 1 ≡ b
bool_back true = refl
bool_back false = refl

scan_new : (id : String) (p : Right) → scan_right (right_row id p) ≡ p
scan_new id p = λ i. record p {
  can_create = bool_back p.can_create i;
  can_read = bool_back p.can_read i;
  can_update = bool_back p.can_update i;
  can_delete = bool_back p.can_delete i;
}

module _ (t : Tables) (p : Right) where
  -- The rights of the rows that the user of `p` holds.
  abbrev rights_in : List RightRow → List Right
  rights_in rows = map scan_right (select_all (held_by_user p.principal_id t) rows)

  later :
      (b : Bool) (r : RightRow) (rows : List RightRow)
      → Memᴰ p (map scan_right rows)
      → Memᴰ p (map scan_right (if b then r ∷ rows else rows))
  later true r rows m = Memᴰ.tail m
  later false r rows m = m

  here :
      (b : Bool) (r : RightRow) (rows : List RightRow)
      → b ≡ true
      → scan_right r ≡ p
      → Memᴰ p (map scan_right (if b then r ∷ rows else rows))
  here true r rows own same = Memᴰ.head (sym same)
  here false r rows own same = absurd (ground arith)

  listed_cons :
      (r : RightRow) (rows : List RightRow)
      → Memᴰ p (rights_in rows)
      → Memᴰ p (rights_in (r ∷ rows))
  unfolding select_all
  listed_cons r rows m =
      later (held_by_user p.principal_id t r) r (select_all (held_by_user p.principal_id t) rows) m

  held_lem :
      (r : RightRow)
      → p.principal_type ≡ "user"
      → scan_right r ≡ p
      → held_by_user p.principal_id t r ≡ true
  held_lem r user same =
      let kind = ap (λ x. x.principal_type) same ∙ user in
      let who = ap (λ x. x.principal_id) same in
      ground (arith, eq_iff r.principal_type "user", eq_iff r.principal_id p.principal_id)

  listed_here :
      (r : RightRow) (rows : List RightRow)
      → p.principal_type ≡ "user"
      → scan_right r ≡ p
      → Memᴰ p (rights_in (r ∷ rows))
  unfolding select_all
  listed_here r rows user same =
      here (held_by_user p.principal_id t r) r (select_all (held_by_user p.principal_id t) rows)
        (held_lem r user same) same

  -- A new row is found.
  listed_new :
      (id : String) (rows : List RightRow)
      → p.principal_type ≡ "user"
      → Memᴰ p (rights_in (rows ++ right_row id p ∷ []))
  listed_new id [] user = listed_here (right_row id p) [] user (scan_new id p)
  listed_new id (r ∷ rows) user =
      listed_cons r (rows ++ right_row id p ∷ []) (listed_new id rows user)

  scan_set : (r : RightRow) → subject_of p r ≡ true → scan_right (set_grants p r) ≡ p
  scan_set r h =
      let a = (eq_iff r.principal_type p.principal_type).0 (ground arith) in
      let b = (eq_iff r.principal_id p.principal_id).0 (ground arith) in
      let c = (eq_iff r.resource_type p.resource_type).0 (ground arith) in
      let d = (eq_iff r.resource_id p.resource_id).0 (ground arith) in
      λ i. record {
        principal_type = a i;
        principal_id = b i;
        resource_type = c i;
        resource_id = d i;
        can_create = bool_back p.can_create i;
        can_read = bool_back p.can_read i;
        can_update = bool_back p.can_update i;
        can_delete = bool_back p.can_delete i;
      }

  -- A row that is there is given the grants.
  listed_set :
      (rows : List RightRow)
      → p.principal_type ≡ "user"
      → any (subject_of p) rows ≡ true
      → Memᴰ p (rights_in (update_all (subject_of p) (set_grants p) rows))
  unfolding update_all
  listed_set [] user h = absurd (ground arith)
  listed_set (r ∷ rows) user h = elim (Bool-cases (subject_of p r)) [
    | inl same ↦
        listed_here (if subject_of p r then set_grants p r else r)
          (update_all (subject_of p) (set_grants p) rows) user
          (ap (λ b. scan_right (if b then set_grants p r else r)) same ∙ scan_set r same)
    | inr other ↦
        listed_cons (if subject_of p r then set_grants p r else r)
          (update_all (subject_of p) (set_grants p) rows) (listed_set rows user (ground arith))
  ]

-- What an upsert that reports no error leaves.
upserted :
    (id : String) (p : Right) (c : Conn Tables)
    → Quiet c
    → (upsert_right id p c).0 ≡ ok tt
    → ((any (subject_of p) c.tables.rights ≡ true)
        × (upsert_right id p c ≡ (
          ok tt,
          record c {
            tables = record c.tables {
              rights = update_all (subject_of p) (set_grants p) c.tables.rights;
            };
            tick = c.tick + 1;
          },
        )))
      ⊎ (upsert_right id p c ≡ (
        ok tt,
        record c {
          tables = record c.tables { rights = c.tables.rights ++ right_row id p ∷ [] };
          tick = c.tick + 1;
        },
      ))
unfolding upsert_right
upserted id p c q h =
    let quiet = q c.tick in
    elim (Bool-cases (any (subject_of p) c.tables.rights)) [
      | inl there ↦ inl (there, ground arith)
      | inr new ↦ inr (ground arith)
    ]

rights_read :
    (u : String) (c : Conn Tables)
    → (c.world c.tick).fault ≡ none
    → (get_user_rights u c).0
      ≡ ok (map scan_right (select_all (held_by_user u c.tables) c.tables.rights))
unfolding get_user_rights
rights_read u c quiet = ground arith

granted_in :
    (p : Right) (action : Action) (rows : List RightRow) (c : Conn Tables)
    → Quiet c
    → (answer : Result (Unit {0}) × Conn Tables)
    → answer ≡ (ok tt, record c { tables = record c.tables { rights = rows }; tick = c.tick + 1 })
    → Memᴰ p (rights_in c.tables p rows)
    → right_grants_action p action ≡ true
    → (rights : List Right) × (((get_user_rights p.principal_id answer.1).0 ≡ ok rights)
        × (Memᴰ p rights × (check_rights rights action p.resource_type p.resource_id ≡ true)))
granted_in p action rows c q answer after m grants = (
  rights_in c.tables p rows,
  (
    ap (λ a. (get_user_rights p.principal_id a.1).0) after
        ∙ rights_read p.principal_id
            (record c { tables = record c.tables { rights = rows }; tick = c.tick + 1 })
            (q (c.tick + 1)),
    (
      m,
      (check_rights_iff (rights_in c.tables p rows) action p.resource_type p.resource_id).1
          (p, m, (refl, inl refl), grants),
    ),
  ),
)

-- A right that is granted to a user, where the driver does not fail and the statement is accepted, is
-- among the rights of the user that are read next, as it was given; and in explicit mode each
-- action that it grants is then allowed on its resource.
pub get_user_rights-upsert_right :
    (id : String) (p : Right) (action : Action) (c : Conn Tables)
    → Quiet c
    → p.principal_type ≡ "user"
    → (upsert_right id p c).0 ≡ ok tt
    → right_grants_action p action ≡ true
    → (rights : List Right) × (((get_user_rights p.principal_id (upsert_right id p c).1).0
          ≡ ok rights)
        × (Memᴰ p rights × (check_rights rights action p.resource_type p.resource_id ≡ true)))
get_user_rights-upsert_right id p action c q user done grants = elim (upserted id p c q done) [
  | inl (there, after) ↦
      granted_in p action (update_all (subject_of p) (set_grants p) c.tables.rights) c q
        (upsert_right id p c) after (listed_set c.tables p c.tables.rights user there) grants
  | inr after ↦
      granted_in p action (c.tables.rights ++ right_row id p ∷ []) c q (upsert_right id p c) after
        (listed_new c.tables p id c.tables.rights user) grants
]
