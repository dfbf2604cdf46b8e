-- ===== src/App/TemplateService.antt =====
-- internal/app/template_service.go.
use event_driven_ns.Prelude.{List, String}
use event_driven_ns.Domain.Channel.{Channel}
use event_driven_ns.Domain.Notification.{Uuid}
use event_driven_ns.Domain.Template.{Template, new_template}
use event_driven_ns.Platform.{Platform}
use event_driven_ns.World.{M, ◌>>=◌, ◌>>◌, pure, lift, time_now, new_uuid}
use event_driven_ns.Postgres.Templates

pub record CreateTemplateInput : Type 0 where
  pub name : String
  pub channel : Channel
  pub body : String

module _ ⦃p : Platform⦄ where
  unfoldable pub create : CreateTemplateInput → M Template
  create input = do
    now ← time_now
    id ← new_uuid
    t ← lift (new_template id now input.name input.channel input.body)
    Templates.create t
    pure t

  unfoldable pub get_by_id : Uuid → M Template
  get_by_id id = Templates.get_by_id id

  unfoldable pub list : M (List Template)
  list = Templates.list
