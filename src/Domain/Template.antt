-- ===== src/Domain/Template.antt =====
-- internal/domain/template.go.
use event_driven_ns.Prelude.{Option, none, some, String, str_eq, if◌then◌else◌}
use event_driven_ns.Domain.Error.{
  Error, Result, ok, plain, wrapped, empty_template_name, empty_template_body,
  invalid_template_body, template_render_failed,
}
use event_driven_ns.Domain.Channel.{Channel}
use event_driven_ns.Domain.Validation.{validate_channel}
use event_driven_ns.Domain.Notification.{Uuid, Time, Variables, check}
use event_driven_ns.Platform.{Platform}

pub record Template : Type 0 where
  pub id : Uuid
  pub name : String
  pub channel : Channel
  pub body : String
  pub created_at : Time
  pub updated_at : Time

-- `fmt.Errorf("%w: %v", …)` on an error that may be nil.
abbrev syntax_error : Option String → Option Error
syntax_error none = none
syntax_error (some reason) = some (wrapped invalid_template_body reason)

abbrev render_error : Option String → Option Error
render_error none = none
render_error (some reason) = some (wrapped template_render_failed reason)

module _ ⦃p : Platform⦄ where
  unfoldable pub new_template : Uuid → Time → String → Channel → String → Result Template
  new_template id now name channel body =
      check (if str_eq name "" then some (plain empty_template_name) else none) (
        check (validate_channel channel) (
          check (if str_eq body "" then some (plain empty_template_body) else none) (
            check (syntax_error (p.template_error "validate" body)) (
              ok (record {
                id = id;
                name = name;
                channel = channel;
                body = body;
                created_at = now;
                updated_at = now;
              })))))

  unfoldable pub render : Template → Variables → Result String
  render t variables = check (render_error (p.template_error t.name t.body)) (
      check (render_error (p.execute_error t.name t.body variables))
        (ok (p.execute_output t.name t.body variables)))
