-- ===== src/Postgres/Templates.antt =====
-- internal/adapter/postgres/template_repo.go over the table of migration 000002.
use event_driven_ns.Prelude.{Bool, ◌&&◌, List, [], ◌∷◌, ◌++◌, str_eq, ◌==◌, leb, if◌then◌else◌}
use event_driven_ns.Domain.Error.{Error, plain, template_not_found, duplicate_template_name}
use event_driven_ns.Domain.Notification.{Uuid}
use event_driven_ns.Domain.Template.{Template}
use event_driven_ns.Platform.{Platform}
use event_driven_ns.World.{M}
use event_driven_ns.Postgres.Table.{find_row, has_row, order_by}
use event_driven_ns.Postgres.Driver.{
  DbError, pg, rows, failure, Sql, to_error, contains, or_missing, run,
}
use event_driven_ns.Postgres.Rows.{one_row}

-- The error of the INSERT as `Create` returns it.
unfoldable pub wrap_name_error : DbError → Error
unfolding to_error
wrap_name_error (pg code constraint) =
    if str_eq code "23505" && contains constraint "name"
    then plain duplicate_template_name
    else to_error (pg code constraint)
wrap_name_error e = to_error e

unfoldable pub insert_template : Template → Sql Unit
unfolding has_row
insert_template t w =
    if has_row (λ r. r.id == t.id) w.templates
    then (failure (pg "23505" "templates_pkey"), w)
    else if has_row (λ r. str_eq r.name t.name) w.templates
    then (failure (pg "23505" "templates_name_key"), w)
    else (rows tt, record w { templates = w.templates ++ t ∷ [] })

-- ORDER BY created_at DESC.
unfoldable pub created_later : Template → Template → Bool
created_later a b = leb b.created_at a.created_at

unfoldable pub select_template : Uuid → Sql Template
unfolding find_row
select_template id w = one_row (find_row (λ r. r.id == id) w.templates) w

unfoldable pub all_templates : Sql (List Template)
unfolding order_by created_later
all_templates w = (rows (order_by created_later w.templates), w)

module _ ⦃p : Platform⦄ where
  unfoldable pub create : Template → M Unit
  unfolding insert_template run wrap_name_error
  create t = run wrap_name_error (insert_template t)

  unfoldable pub get_by_id : Uuid → M Template
  unfolding select_template run or_missing
  get_by_id id = run (or_missing template_not_found) (select_template id)

  unfoldable pub list : M (List Template)
  unfolding all_templates run to_error
  list = run to_error all_templates
