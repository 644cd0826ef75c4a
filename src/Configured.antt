-- ===== src/Configured.antt =====
-- The options of curl_set_common_options over the whole life of a session.
pub mod Reach
use irssi_robustirc.Base.{◌≡◌, refl, ap, Bool, ℕ, if◌then◌else◌}
use irssi_robustirc.Session.{
  Request, RequestType, Options, Family, resolve_of, is_getmessages, Connrec,
}
use irssi_robustirc.Policy.{Policy}

-- The peer is verified as the connection record says, only a GetMessages may take longer than 30
-- seconds, and the IP version is the one of the connection record.
abbrev pub HasOptions : Bool → Family → RequestType → Options → Type 0
HasOptions verify family kind o =
    (o.verify_peer ≡ verify)
    × (o.timeout ≡ (if is_getmessages kind then 0 else 30))
    × (o.connect_timeout ≡ 5)
    × (o.resolve ≡ resolve_of family)

abbrev pub IsConfigured : Bool → Family → Request → Type 0
IsConfigured verify family r = HasOptions verify family r.kind r.options

abbrev pub options_policy : Connrec → Policy
options_policy c = record {
  session = λ b. (b.tls_verify ≡ c.tls_verify) × (b.family ≡ c.family);
  request = λ b kind suffix o. HasOptions c.tls_verify c.family kind o;
  polls = λ b. Unit;
  connects = λ b s. (s.0, refl, refl, ap resolve_of s.1);
  sends = λ b s. (s.0, refl, refl, ap resolve_of s.1);
  gets = λ b s polls. (s.0, refl, refl, ap resolve_of s.1);
  starts = λ id auth b s. s;
  starts_polls = λ id auth b. tt;
  keeps = λ id auth b kind suffix o good. good;
  polls_again = λ b kind suffix o gets good. tt;
}
