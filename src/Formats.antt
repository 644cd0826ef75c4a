-- ===== src/Formats.antt =====
-- src/fe-common/module-formats.c and module-formats.h: the texts of the plugin's messages, and the calls
-- of printformat_module in src/core/robustsession/robustsession.c that use them.
pub mod Fits
use irssi_robustirc.Base.{ℕ, suc, Option, none, some, List, [], ◌∷◌, ◌++◌}
use irssi_robustirc.Base.Text.{Str, codes, decimal}

-- The enum of module-formats.h
pub data ModuleText : Type 0 where
  txt_module_name txt_fill_1 txt_error_temporary txt_error_retry : ModuleText
  txt_error_parse_json txt_error_permanent : ModuleText

-- Its values
unfoldable pub formatnum : ModuleText → ℕ
formatnum txt_module_name = 0
formatnum txt_fill_1 = 1
formatnum txt_error_temporary = 2
formatnum txt_error_retry = 3
formatnum txt_error_parse_json = 4
formatnum txt_error_permanent = 5

-- FORMAT_REC, less the types of the parameters
pub record FormatRec : Type 0 where
  pub tag : Option Str
  pub text : Option Str
  pub params : ℕ

-- fe_robustirc_formats
unfoldable pub fe_robustirc_formats : List FormatRec
fe_robustirc_formats =
    record { tag = some (codes "robustirc"); text = some (codes "RobustIRC"); params = 0 }
    ∷ record { tag = none; text = some (codes "Errors"); params = 0 }
    ∷ record {
      tag = some (codes "error_temporary");
      text = some (codes "{hilight RobustIRC:} Temporary error {reason $0}");
      params = 1;
    }
    ∷ record {
      tag = some (codes "error_retry");
      text =
          some (
            codes
              "{hilight RobustIRC:} Retrying request $0 (failed on {server $1}) on {server $2}");
      params = 3;
    }
    ∷ record {
      tag = some (codes "error_parse_json");
      text = some (codes "{hilight RobustIRC:} Error parsing chunk \"$0\" as JSON {reason $1}");
      params = 2;
    }
    ∷ record {
      tag = some (codes "error_permanent");
      text = some (codes "{hilight RobustIRC:} Permanent error (killed?) {reason $0}");
      params = 1;
    }
    ∷ record { tag = none; text = none; params = 0 }
    ∷ []

-- The calls of printformat_module, each with the text that it names and the arguments for it:
-- gm_write_func, with the chunk and the error of yajl, both stripped
abbrev pub gm_write_func_failed : Str → Str → ModuleText × List Str
gm_write_func_failed chunk error = (txt_error_parse_json, chunk ∷ error ∷ [])

-- get_messages, if curl_easy_init fails
abbrev pub get_messages_failed : ModuleText × List Str
get_messages_failed = (txt_error_temporary, codes "curl_easy_init() failed. Out of memory?" ∷ [])

-- create_session_done, with the body and the error of yajl, both stripped
abbrev pub create_session_failed : Str → Str → ModuleText × List Str
create_session_failed chunk error = (txt_error_parse_json, chunk ∷ error ∷ [])

-- retry_request, with the target before and the target now
abbrev pub retrying : Str → Str → Str → ModuleText × List Str
retrying url_suffix old_target target = (txt_error_retry, url_suffix ∷ old_target ∷ target ∷ [])

-- check_multi_info, with the error that libcurl wrote into the request
abbrev pub request_failed : Str → ModuleText × List Str
request_failed curl_error_buf = (txt_error_temporary, curl_error_buf ∷ [])

-- check_multi_info, for an error that is permanent
abbrev pub request_refused : ℕ → ModuleText × List Str
request_refused http_code =
    (txt_error_permanent, (codes "HTTP error code " ++ decimal http_code) ∷ [])

-- socket_recv_cb, with the error of libcurl
abbrev pub socket_failed : Str → ModuleText × List Str
socket_failed strerror = (txt_error_temporary, strerror ∷ [])

-- timeout_cb, with the error of libcurl
abbrev pub timeout_failed : Str → ModuleText × List Str
timeout_failed strerror = (txt_error_temporary, strerror ∷ [])

-- robustsession_connect_target, if curl_easy_init fails
abbrev pub connect_failed : ModuleText × List Str
connect_failed = (txt_error_temporary, codes "curl_easy_init() failed. Out of memory?" ∷ [])

-- robustsession_send_target, if curl_easy_init, yajl_gen_alloc or g_strdup_printf fails
abbrev pub send_without_curl : ModuleText × List Str
send_without_curl = (txt_error_temporary, codes "curl_easy_init() failed. Out of memory?" ∷ [])

abbrev pub send_without_gen : ModuleText × List Str
send_without_gen = (txt_error_temporary, codes "yajl_gen_alloc() failed. Out of memory?" ∷ [])

abbrev pub send_without_url : ModuleText × List Str
send_without_url = (txt_error_temporary, codes "g_strdup_printf() failed. Out of memory?" ∷ [])
