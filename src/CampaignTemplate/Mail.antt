-- ===== src/CampaignTemplate/Mail.antt =====
-- content.ts and render.ts of packages/campaign-template/src.
use aggregator_dpg.Prelude.{
  String, Bool, true, ◌&&◌, Option, none, some, [], ◌∷◌, leb, if◌then◌else◌, has_text,
}
use aggregator_dpg.Prelude.Json.{Json, Fields}
use aggregator_dpg.Prelude.Texts.{utf16_length, trim}
use aggregator_dpg.ProfileCsv.Profiles.{lookup_field}
use aggregator_dpg.CampaignTemplate.{PlaceholderValues, substitute, escape_html}

pub record EmailContent : Type 0 where
  pub subject : String
  pub body_markdown : String
  pub reply_to : Option String

pub record RenderedEmail : Type 0 where
  pub subject : String
  pub html : String
  pub text : String

-- What the libraries do: the address check of zod, `marked.parse` (nothing where it throws), and
-- `sanitizeHtml` with the options of the source.
pub record MailLibraries : Type 0 where
  pub is_email : String → Bool
  pub parse_markdown : String → Option String
  pub sanitize : String → String

-- Every key is one of the three that the strict schema has.
unfoldable pub only_known_keys : Fields → Bool
only_known_keys Fields.end = true
only_known_keys (Fields.field k v fs) =
    has_text k ("subject" ∷ "body_markdown" ∷ "reply_to" ∷ []) && only_known_keys fs

-- `z.string().trim().min(1).max(200)`
unfoldable pub parse_subject : Option Json → Option String
unfolding trim
parse_subject (some (Json.str s)) =
    let t = trim s in if leb 1 (utf16_length t) && leb (utf16_length t) 200 then some t else none
parse_subject v = none

-- `z.string().min(1).max(20000)`
unfoldable pub parse_body : Option Json → Option String
parse_body (some (Json.str s)) =
    if leb 1 (utf16_length s) && leb (utf16_length s) 20000 then some s else none
parse_body v = none

-- The mail of a parsed and sanitised body.
unfoldable pub rendered_email : String → String → String → PlaceholderValues → RenderedEmail
unfolding substitute escape_html
rendered_email subject body_markdown html values = record {
  subject = substitute values (λ v. v) subject;
  html = substitute values escape_html html;
  text = substitute values (λ v. v) body_markdown;
}

module _ (libraries : MailLibraries) where
  -- `z.string().email().optional()`: nothing inside `some` for an absent field.
  unfoldable pub parse_reply_to : Option Json → Option (Option String)
  parse_reply_to none = some none
  parse_reply_to (some (Json.str s)) = if libraries.is_email s then some (some s) else none
  parse_reply_to (some v) = none

  unfoldable pub parse_fields : Fields → Option EmailContent
  unfolding parse_subject parse_body parse_reply_to only_known_keys lookup_field
  parse_fields fs = elim (parse_subject (lookup_field "subject" fs)) [
    | none ↦ none
    | some subject ↦ elim (parse_body (lookup_field "body_markdown" fs)) [
      | none ↦ none
      | some body ↦ elim (parse_reply_to (lookup_field "reply_to" fs)) [
        | none ↦ none
        | some reply_to ↦
            if only_known_keys fs
            then some (record { subject = subject; body_markdown = body; reply_to = reply_to })
            else none
      ]
    ]
  ]

  -- `emailContentSchema.safeParse`
  unfoldable pub parse_email_content : Json → Option EmailContent
  unfolding parse_fields
  parse_email_content (Json.obj fs) = parse_fields fs
  parse_email_content j = none

  unfoldable pub render_email : String → String → PlaceholderValues → Option RenderedEmail
  unfolding rendered_email
  render_email subject body_markdown values = elim (libraries.parse_markdown body_markdown) [
    | none ↦ none
    | some rendered ↦
        some (rendered_email subject body_markdown (libraries.sanitize rendered) values)
  ]
