-- ===== src/Authorised.antt =====
-- The session id and the X-Session-Auth header of the requests over the whole life of a session:
-- create_session_done keeps them, get_messages and curl_set_common_options use them.
pub mod Reach
use mathlib.Core.List.{append_assoc}
use irssi_robustirc.Base.{◌≡◌, refl, ap, sym, ◌∙◌, Option, some, List, ◌++◌, ◌∷◌, [], true, false}
use irssi_robustirc.Base.Text.{Str, codes}
use irssi_robustirc.Session.{
  RequestType, rt_createsession, rt_deletesession, rt_postmessage, rt_getmessages, Options,
  is_getmessages, printed, Session, Request,
}
use irssi_robustirc.Policy.{Policy, Basics, basics, created, options_of}

-- The headers end in the X-Session-Auth header with the secret.
abbrev pub HasAuth : List Str → Type 0
HasAuth headers =
    (before : List Str) × (auth : Str) × (headers
      ≡ before ++ (codes "X-Session-Auth: " ++ auth) ∷ [])

-- The server has given an id and a secret.
abbrev pub IsAuthorised : Basics → Type 0
IsAuthorised b = ((id : Str) × (b.sessionid ≡ some id)) × HasAuth b.headers

-- The path is the one of get_messages, and the headers have a secret.
abbrev pub HasSession : Str → Options → Type 0
HasSession suffix o =
    ((id : Str) × (suffix ≡ codes "/robustirc/v1/" ++ (id ++ codes "/messages")))
    × HasAuth o.headers

-- A GetMessages
abbrev pub AuthRule : Basics → RequestType → Str → Options → Type 0
AuthRule b kind suffix o = is_getmessages kind ≡ true → IsAuthorised b × HasSession suffix o

pub created_auth : (id auth : Str) (b : Basics) → IsAuthorised (created id auth b)
created_auth id auth b = (
  (id, refl),
  (
    b.headers ++ (codes "Accept: application/json" ∷ codes "Content-Type: application/json" ∷ []),
    auth,
    sym (append_assoc b.headers _ _),
  ),
)

pub gets_auth :
    (b : Basics)
    → IsAuthorised b
    → (id : Str) × (codes "/robustirc/v1/" ++ (printed b.sessionid ++ codes "/messages")
        ≡ codes "/robustirc/v1/" ++ (id ++ codes "/messages"))
gets_auth b ((id, e), auth) =
    (id, ap (λ s. codes "/robustirc/v1/" ++ (printed s ++ codes "/messages")) e)

-- A request of another type
pub not_gets :
    (b : Basics) (suffix : Str) (o : Options) → false ≡ true → IsAuthorised b × HasSession suffix o
not_gets b suffix o gets = cc

abbrev pub auth_policy : Policy
auth_policy = record {
  session = λ b. Unit;
  request = AuthRule;
  polls = IsAuthorised;
  connects = λ b s gets. not_gets b _ (options_of b) gets;
  sends = λ b s gets. not_gets b _ (options_of b) gets;
  gets = λ b s started gets. (started, (gets_auth b started, started.1));
  starts = λ id auth b s. tt;
  starts_polls = created_auth;
  keeps = λ id auth b kind suffix o good gets. (created_auth id auth b, (good gets).1);
  polls_again = λ b kind suffix o gets good. (good gets).0;
}
