-- ===== src/CampaignWorker/Messages.antt =====
-- The texts that campaign-process/index.ts makes. A text is measured in code points. The formatting
-- of a date is of the runtime (`Intl`), and an argument: it gives nothing for a date that cannot be
-- parsed.
use aggregator_dpg.Prelude.{
  ℕ, zero, suc, ◌+◌, ◌-◌, ◌*◌, ◌/◌, ◌%◌, ◌≤◌, ◌<◌, String, ◌≡◌, refl, sym, ap, ◌∙◌, ◌≢◌, ◌↔◌, ◌⊎◌,
  inl, inr, Bool, true, false, not, ◌&&◌, ◌||◌, Option, none, some, List, [], ◌∷◌, ◌++◌, map, arith,
  eq_iff, eq_refl, ltb, leb, ◌==◌, ◌=ₛ◌, if◌then◌else◌, Bool-cases, Option-cases, option_eq,
  option_eq→eq, &&→left, &&→right, length, take, take_all, drop, keep, any, find, last?, All,
  All-append, has_text, text_ne, Ascending,
}
pub mod Bounds
use Prim.Native.String.{◌++◌ as ◌+ₛ◌}
use aggregator_dpg.Prelude.Decimal.{decimal}
use aggregator_dpg.Prelude.Texts.{utf16_length, utf16_take, replace_all}
use aggregator_dpg.ProfileCsv.{join}

unfoldable pub truncate_reason : String → String
unfolding utf16_take
truncate_reason reason =
    if ltb 500 (utf16_length reason) then utf16_take 497 reason +ₛ "..." else reason

unfoldable pub export_object_key : String → String → String
export_object_key org_id job_id = "campaign-exports/" +ₛ (org_id +ₛ ("/" +ₛ (job_id +ₛ ".csv")))

unfoldable pub esc : String → String
unfolding replace_all
esc value = replace_all ">" "&gt;" (replace_all "<" "&lt;" (replace_all "&" "&amp;" value))

-- `String(a - b)`
unfoldable pub minus : ℕ → ℕ → String
unfolding decimal
minus a b = if ltb a b then "-" +ₛ decimal (b - a) else decimal (a - b)

-- `skipped` is the text of the number, which is negative if more rows came than were asked for.
pub record ExportEmailInput : Type 0 where
  pub org_id : String
  pub purpose : String
  pub exported : ℕ
  pub skipped : String
  pub url : String
  pub expires_at : String

pub record RenderedEmail : Type 0 where
  pub subject : String
  pub html : String
  pub text : String

module _ (format_date : String → Option String) where
  unfoldable pub format_expiry : String → String
  format_expiry iso = elim (format_date iso) [ none ↦ iso | some formatted ↦ formatted +ₛ " UTC" ]

  unfoldable pub text_lines : ExportEmailInput → List String
  unfolding format_expiry decimal
  text_lines i =
      "A participant PII export is ready."
      ∷ ""
      ∷ ("Requested by org: " +ₛ i.org_id)
      ∷ ("Purpose: " +ₛ i.purpose)
      ∷ ("Records exported: " +ₛ decimal i.exported)
      ∷ ("Skipped (not found / not owned): " +ₛ i.skipped)
      ∷ ""
      ∷ ("Download it before " +ₛ (format_expiry i.expires_at +ₛ ":"))
      ∷ i.url
      ∷ ""
      ∷ "After that the link stops working and the file is permanently deleted from storage — so download it now. The file contains personal data; do not forward this link."
      ∷ []

  unfoldable pub html_lines : ExportEmailInput → List String
  unfolding format_expiry decimal esc
  html_lines i =
      "<div style=\"font-family:sans-serif;font-size:14px;line-height:1.5\">"
      ∷ "<p>A participant PII export is ready.</p>"
      ∷ "<ul>"
      ∷ ("<li>Requested by org: <strong>" +ₛ (esc i.org_id +ₛ "</strong></li>"))
      ∷ ("<li>Purpose: " +ₛ (esc i.purpose +ₛ "</li>"))
      ∷ ("<li>Records exported: <strong>" +ₛ (decimal i.exported +ₛ "</strong></li>"))
      ∷ ("<li>Skipped (not found / not owned): <strong>" +ₛ (i.skipped +ₛ "</strong></li>"))
      ∷ "</ul>"
      ∷ ("<p><a href=\""
          +ₛ (esc i.url
              +ₛ ("\">Download the export</a> before <strong>"
                  +ₛ (format_expiry i.expires_at +ₛ "</strong>.</p>"))))
      ∷ "<p style=\"color:#a00\">After that the link stops working and the file is <strong>permanently deleted</strong> from storage — so download it now. The file contains personal data; do not forward this link.</p>"
      ∷ "</div>"
      ∷ []

  unfoldable pub render_export_email : ExportEmailInput → RenderedEmail
  unfolding text_lines html_lines join decimal
  render_export_email i = record {
    subject = "PII export ready — " +ₛ (decimal i.exported +ₛ " records");
    text = join "\n" (text_lines i);
    html = join "" (html_lines i);
  }
