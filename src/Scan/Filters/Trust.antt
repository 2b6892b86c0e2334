-- ===== src/Scan/Filters/Trust.antt =====
-- Which authentication results _is_sicurre_notification of
-- src/data_platform/api/routers/email_scan.py believes.
use sicurre.Prelude.{◌≡◌, refl, none, some, List, [], ◌∷◌, ◌++◌}
use sicurre.Prelude.Lists.{All}
use sicurre.Prelude.Text.{Text}
use sicurre.Scan.Filters.{
  trusted_value, first_trusted, header_lines, dkim_pass, is_sicurre_notification,
}

-- A header line that is no authentication result of mx.cloudflare.net.
abbrev pub IsPlain : Text → Type 0
IsPlain line = trusted_value line ≡ none

first_trusted-append :
    (before : List Text) (line value : Text) (rest : List Text)
    → All IsPlain before
    → trusted_value line ≡ some value
    → first_trusted (before ++ (line ∷ rest)) ≡ some value
unfolding first_trusted
first_trusted-append [] line value rest a h = rw (first_trusted, h) refl
first_trusted-append (l ∷ before) line value rest (p, a) h =
    rw (first_trusted, p) (first_trusted-append before line value rest a h)

-- Only the first header line that mx.cloudflare.net wrote decides whether a message is a Sicurre
-- notification: whatever results the lines below it claim, the answer is that line's own.
pub forged_results_ignored :
    (raw : Text) (before : List Text) (line value : Text) (rest : List Text)
    → header_lines raw ≡ before ++ (line ∷ rest)
    → All IsPlain before
    → trusted_value line ≡ some value
    → is_sicurre_notification raw ≡ dkim_pass value
unfolding is_sicurre_notification
forged_results_ignored raw before line value rest e a h =
    rw (e, first_trusted-append before line value rest a h) refl
