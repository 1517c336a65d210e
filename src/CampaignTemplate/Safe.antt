-- ===== src/CampaignTemplate/Safe.antt =====
-- What the values of a recipient can add to a rendered mail (render.ts of
-- packages/campaign-template/src).
use aggregator_dpg.Prelude.{ℕ, ◌≤◌, String, ◌≡◌, Option, some}
use aggregator_dpg.Prelude.Texts.{count_code}
use aggregator_dpg.CampaignTemplate.{PlaceholderValues, placeholder_values, escape_html}
use aggregator_dpg.CampaignTemplate.Mail.{
  MailLibraries, RenderedEmail, rendered_email, render_email,
}
use aggregator_dpg.CampaignTemplate.Escape.{IsMarkup, count-escape_html, count-substitute}
use aggregator_dpg.CampaignTemplate.Clean.{IsControlCode, value_of-IsClean}

module _ (libraries : MailLibraries) (subject body rendered : String) (n : ℕ) where
  -- If the Markdown of a mail is parsed, the mail is rendered, whatever the values of the
  -- recipient; `<`, `>`, `"` and `'` each occur in its HTML at most as often as in the sanitised
  -- Markdown.
  pub render_email_html :
      (values : PlaceholderValues)
      → IsMarkup n
      → libraries.parse_markdown body ≡ some rendered
      → (mail : RenderedEmail) × (render_email libraries subject body values ≡ some mail)
        × (count_code n mail.html ≤ count_code n (libraries.sanitize rendered))
  unfolding render_email rendered_email
  render_email_html values markup parsed = (
    rendered_email subject body (libraries.sanitize rendered) values,
    rw (parsed, render_email),
    count-substitute n values escape_html (λ key v h. count-escape_html n markup v)
        (libraries.sanitize rendered),
  )

  -- If the Markdown of a mail is parsed, the mail is rendered with the values made of a recipient's
  -- name, email and phone; a control character occurs in its subject at most as often as in the
  -- template's subject, and in its plain text at most as often as in the template's body.
  pub render_email_subject :
      (name email phone : Option String)
      → IsControlCode n
      → libraries.parse_markdown body ≡ some rendered
      → (mail : RenderedEmail) × (render_email libraries subject body
            (placeholder_values name email phone)
          ≡ some mail)
        × (count_code n mail.subject ≤ count_code n subject)
        × (count_code n mail.text ≤ count_code n body)
  unfolding render_email rendered_email
  render_email_subject name email phone control parsed =
      let safe = value_of-IsClean n control name email phone in
      let count = count-substitute n (placeholder_values name email phone) (λ v. v) safe in
      (
        rendered_email subject body (libraries.sanitize rendered)
            (placeholder_values name email phone),
        rw (parsed, render_email),
        count subject,
        count body,
      )
