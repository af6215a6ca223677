-- ===== src/Audit/Store/Laws.antt =====
-- What the audit's log of internal/audit/store.go lists.
use tinydm.Prelude.{
  ◌+◌, ◌≡◌, refl, ◌∙◌, ap, String, Bool, true, false, ◌&&◌, ◌||◌, List, [], ◌∷◌, ◌++◌, any, length,
  arith, ◌==◌, Bool-cases, inl, inr,
}
use tinydm.Sql.{Engine, ok, Conn}
use tinydm.Sql.Quiet.{Quiet, ticked}
use tinydm.Sql.Table.{select_all}
use tinydm.Repo.{order_by, paged}
use tinydm.Audit.Store.{
  Event, Filter, Condition, unless_empty, action_condition, where_clause, holds, limit_of,
  offset_of, list, record_event,
}

-- A field of the filter that is empty asks nothing.
abbrev asks : String → Bool → Bool
asks text condition = text == "" || condition

-- What the filter asks of an event
abbrev pub accepts : Filter → Engine → Event → Bool
accepts f engine e =
    asks f.principal (e.principal == f.principal)
    && (asks f.action (action_condition f.action engine e)
        && (asks f.resource (e.resource == f.resource)
            && (asks f.from (engine.text_le f.from e.created_at)
                && asks f.to (engine.text_le e.created_at f.to))))

module _ (engine : Engine) (e : Event) where
  holds-unless :
      (text : String) (condition : Condition) (rest : List Condition)
      → holds (unless_empty text condition rest) engine e
        ≡ (asks text (condition engine e) && holds rest engine e)
  unfolding holds unless_empty
  holds-unless text condition rest = elim (Bool-cases (text == "")) [
    | inl nothing ↦ rw nothing refl
    | inr something ↦ rw something refl
  ]

  and_true : (b : Bool) → (b && true) ≡ b
  and_true true = refl
  and_true false = refl

  holds-where : (f : Filter) → holds (where_clause f) engine e ≡ accepts f engine e
  unfolding where_clause holds
  holds-where f =
      holds-unless f.principal _ _
      ∙ ap (λ b. asks f.principal (e.principal == f.principal) && b)
          (holds-unless f.action _ _
            ∙ ap (λ b. asks f.action (action_condition f.action engine e) && b)
                (holds-unless f.resource _ _
                  ∙ ap (λ b. asks f.resource (e.resource == f.resource) && b)
                      (holds-unless f.from _ _
                        ∙ ap (λ b. asks f.from (engine.text_le f.from e.created_at) && b)
                            (holds-unless f.to _ [] ∙ and_true _))))

select_all-cong :
    (p q : Event → Bool)
    → ((e : Event) → p e ≡ q e)
    → (log : List Event) → select_all p log ≡ select_all q log
unfolding select_all
select_all-cong p q h [] = refl
select_all-cong p q h (e ∷ log) = rw (h e, select_all-cong p q h log) refl

-- The events that a filter accepts, in the order of the log
abbrev pub accepted : Filter → Engine → List Event → List Event
accepted f engine log = select_all (accepts f engine) log

abbrev pub newest_first : Engine → List Event → List Event
newest_first engine = order_by (λ d e. engine.text_le e.created_at d.created_at)

abbrev pub page_of : Filter → List Event → List Event
page_of f = paged (record { limit = limit_of f.limit; offset = offset_of f.offset })

selected :
    (f : Filter) (engine : Engine) (log : List Event)
    → select_all (holds (where_clause f) engine) log ≡ accepted f engine log
selected f engine log = select_all-cong _ _ (λ e. holds-where engine e f) log

list_raw :
    (f : Filter) (c : Conn (List Event))
    → Quiet c
    → let log = select_all (holds (where_clause f) c.engine) c.tables in
      list f c ≡ (ok (page_of f (newest_first c.engine log), length log), ticked (ticked c))
unfolding list
list_raw f c q = ground (arith, q c.tick, q (c.tick + 1))

-- Where the driver does not fail, List gives the page that the filter names of the events that it
-- accepts, the newest first, with the number of all of them; an empty field accepts every event.
pub list_lem :
    (f : Filter) (c : Conn (List Event))
    → Quiet c
    → list f c ≡ (
      ok (
        page_of f (newest_first c.engine (accepted f c.engine c.tables)),
        length (accepted f c.engine c.tables),
      ),
      ticked (ticked c),
    )
list_lem f c q =
    list_raw f c q
    ∙ ap (λ log. (ok (page_of f (newest_first c.engine log), length log), ticked (ticked c)))
        (selected f c.engine c.tables)

-- The event that `Record` stores
abbrev pub event_at : String → String → String → String → String → Conn (List Event) → Event
event_at id principal action resource detail c = record {
  id = id;
  principal = principal;
  action = action;
  resource = resource;
  detail = detail;
  created_at = (c.world c.tick).now;
}

pub record_event_adds :
    (id principal action resource detail : String) (c : Conn (List Event))
    → Quiet c
    → any (λ e. e.id == id) c.tables ≡ false
    → record_event id principal action resource detail c ≡ (
      ok tt,
      record c {
        tables = c.tables ++ event_at id principal action resource detail c ∷ [];
        tick = c.tick + 1;
      },
    )
unfolding record_event
record_event_adds id principal action resource detail c q fresh = ground (arith, q c.tick)
