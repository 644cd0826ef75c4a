-- ===== src/Formats/Fits.antt =====
-- Every call of printformat_module gives the arguments that its text uses.
use irssi_robustirc.Formats.{
  txt_error_temporary, txt_error_permanent, txt_error_parse_json, txt_error_retry, FormatRec,
  formatnum, fe_robustirc_formats, ModuleText, gm_write_func_failed, get_messages_failed,
  create_session_failed, retrying, request_failed, request_refused, socket_failed, timeout_failed,
  connect_failed, send_without_curl, send_without_gen, send_without_url,
}
use irssi_robustirc.Base.{
  ℕ, zero, suc, ◌-◌, ◌≡◌, refl, ◌&&◌, ◌==◌, leb, Option, none, some, List, [], ◌∷◌, ◌++◌, length,
  if◌then◌else◌, All,
}
use irssi_robustirc.Base.Text.{Str, codes, decimal}

abbrev pub entry_at : ℕ → List FormatRec → Option FormatRec
entry_at n [] = none
entry_at zero (x ∷ xs) = some x
entry_at (suc n) (x ∷ xs) = entry_at n xs

-- The numbers of the arguments in a text, `$0` to `$9`
abbrev pub arguments_in : Str → List ℕ
arguments_in [] = []
arguments_in (c ∷ []) = []
arguments_in (c ∷ d ∷ s) =
    let rest = arguments_in (d ∷ s) in
    if (c == b'$') && (leb b'0' d && leb d b'9') then (d - b'0') ∷ rest else rest

-- The numbers below n
abbrev pub below : ℕ → List ℕ
below zero = []
below (suc n) = below n ++ n ∷ []

-- The entry that the number of the text selects has a text that takes just the arguments of the call:
-- as many as the entry says, and each used once, in order.
abbrev pub Fits : ModuleText × List Str → Type 0
Fits (name, arguments) =
    (entry : FormatRec) × (text : Str) × (entry_at (formatnum name) fe_robustirc_formats
      ≡ some entry)
    × (entry.text ≡ some text)
    × (length arguments ≡ entry.params)
    × (arguments_in text ≡ below entry.params)

error_temporary-Fits : (reason : Str) → Fits (txt_error_temporary, reason ∷ [])
unfolding formatnum fe_robustirc_formats
error_temporary-Fits reason = (_, _, refl, refl, refl, refl)

error_permanent-Fits : (reason : Str) → Fits (txt_error_permanent, reason ∷ [])
unfolding formatnum fe_robustirc_formats
error_permanent-Fits reason = (_, _, refl, refl, refl, refl)

error_parse_json-Fits : (chunk error : Str) → Fits (txt_error_parse_json, chunk ∷ error ∷ [])
unfolding formatnum fe_robustirc_formats
error_parse_json-Fits chunk error = (_, _, refl, refl, refl, refl)

error_retry-Fits :
    (url_suffix old_target target : Str)
    → Fits (txt_error_retry, url_suffix ∷ old_target ∷ target ∷ [])
unfolding formatnum fe_robustirc_formats
error_retry-Fits url_suffix old_target target = (_, _, refl, refl, refl, refl)

-- Each of the twelve calls of printformat_module, whatever its arguments are, names by its number an
-- entry of the table of texts that says how many arguments it takes; the call gives that many, and
-- the text uses each of them once, in their order.
pub report-Fits :
    (chunk gm_error body error url_suffix old_target target curl_error strerror : Str) (code : ℕ)
    → All Fits (
        gm_write_func_failed chunk gm_error
        ∷ get_messages_failed
        ∷ create_session_failed body error
        ∷ retrying url_suffix old_target target
        ∷ request_failed curl_error
        ∷ request_refused code
        ∷ socket_failed strerror
        ∷ timeout_failed strerror
        ∷ connect_failed
        ∷ send_without_curl
        ∷ send_without_gen
        ∷ send_without_url
        ∷ [])
report-Fits chunk gm_error body error url_suffix old_target target curl_error strerror code = (
  error_parse_json-Fits chunk gm_error,
  (
    error_temporary-Fits (codes "curl_easy_init() failed. Out of memory?"),
    (
      error_parse_json-Fits body error,
      (
        error_retry-Fits url_suffix old_target target,
        (
          error_temporary-Fits curl_error,
          (
            error_permanent-Fits (codes "HTTP error code " ++ decimal code),
            (
              error_temporary-Fits strerror,
              (
                error_temporary-Fits strerror,
                (
                  error_temporary-Fits (codes "curl_easy_init() failed. Out of memory?"),
                  (
                    error_temporary-Fits (codes "curl_easy_init() failed. Out of memory?"),
                    (
                      error_temporary-Fits (codes "yajl_gen_alloc() failed. Out of memory?"),
                      (error_temporary-Fits (codes "g_strdup_printf() failed. Out of memory?"), tt),
                    ),
                  ),
                ),
              ),
            ),
          ),
        ),
      ),
    ),
  ),
)
