-- ===== src/CampaignTemplate/Tests.antt =====
-- A mail to one recipient, and the theorems at it.
use Prim.Native.String.{◌++◌ as ◌+ₛ◌}
use aggregator_dpg.Prelude.{◌≤◌, String, ◌≡◌, refl, inl, arith, true, some, [], ◌∷◌}
use aggregator_dpg.Prelude.Texts.{count_code}
use aggregator_dpg.CampaignTemplate.{
  PlaceholderValues, placeholder_values, substitute, escape_html, extract_placeholders,
  unknown_placeholders, required_contact_fields,
}
use aggregator_dpg.CampaignTemplate.Mail.{MailLibraries, RenderedEmail, render_email}
use aggregator_dpg.CampaignTemplate.Safe.{render_email_html, render_email_subject}
use aggregator_dpg.CampaignTemplate.Unknown.{substitute_unknown}

abbrev libraries : MailLibraries
libraries = record {
  is_email = λ s. true;
  parse_markdown = λ s. some ("<p>" +ₛ (s +ₛ "</p>"));
  sanitize = λ s. s;
}

abbrev asha : PlaceholderValues
asha = placeholder_values (some " Asha <b>\n Rao ") (some "a@example.org") (some "+100")

abbrev letter : String
letter = "Hi {{ First_Name }}, {{name}} {{nick}} {{ }}"

asha-name : asha.name ≡ "Asha <b> Rao"
unfolding placeholder_values
asha-name = refl

asha-last_name : asha.last_name ≡ "<b> Rao"
unfolding placeholder_values
asha-last_name = refl

letter-placeholders : extract_placeholders (letter ∷ []) ≡ "first_name" ∷ "name" ∷ "nick" ∷ []
unfolding extract_placeholders
letter-placeholders = refl

letter-unknown : unknown_placeholders (letter ∷ []) ≡ "nick" ∷ []
unfolding unknown_placeholders
letter-unknown = refl

letter-required : required_contact_fields (letter ∷ "{{EMAIL}}" ∷ []) ≡ "name" ∷ "email" ∷ []
unfolding required_contact_fields
letter-required = refl

letter-html : substitute asha escape_html letter ≡ "Hi Asha, Asha &lt;b&gt; Rao {{nick}} {{ }}"
unfolding substitute placeholder_values escape_html
letter-html = refl

render_email_html_example :
    (mail : RenderedEmail) × (render_email libraries "Hi" letter asha ≡ some mail)
    × (count_code 60 mail.html ≤ count_code 60 ("<p>" +ₛ (letter +ₛ "</p>")))
render_email_html_example =
    render_email_html libraries "Hi" letter ("<p>" +ₛ (letter +ₛ "</p>")) 60 asha (inl refl) refl

render_email_subject_example :
    (mail : RenderedEmail) × (render_email libraries "For {{name}}" letter
        (placeholder_values (some "Asha\nRao") (some "a@example.org") (some "+100"))
      ≡ some mail)
    × (count_code 10 mail.subject ≤ count_code 10 "For {{name}}")
    × (count_code 10 mail.text ≤ count_code 10 letter)
render_email_subject_example =
    render_email_subject libraries "For {{name}}" letter ("<p>" +ₛ (letter +ₛ "</p>")) 10
      (some "Asha\nRao") (some "a@example.org") (some "+100") (inl (omega arith)) refl

nick_only : unknown_placeholders ("Hi {{nick}}" ∷ []) ≡ extract_placeholders ("Hi {{nick}}" ∷ [])
unfolding unknown_placeholders
nick_only = refl

substitute_unknown_example : substitute asha escape_html "Hi {{nick}}" ≡ "Hi {{nick}}"
substitute_unknown_example = substitute_unknown asha escape_html "Hi {{nick}}" nick_only
