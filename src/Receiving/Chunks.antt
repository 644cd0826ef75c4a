-- ===== src/Receiving/Chunks.antt =====
-- However libcurl splits the body of a GetMessages, the callbacks come to the same.
use irssi_robustirc.Base.{
  ℕ, ◌≡◌, refl, sym, ap, ap₂, ◌∙◌, some, List, [], ◌∷◌, ◌++◌, flat_map, length, ◌*◌, ◌%◌,
  ℕ_discrete,
}
use mathlib.Core.List.{append_assoc, append-nil}
use irssi_robustirc.Base.Text.{Str}
use irssi_robustirc.Base.Tables.{insert_self, insert_same, insert-insert}
use irssi_robustirc.Glib.{Glib}
use irssi_robustirc.Yajl.{Yajl}
use irssi_robustirc.Body.{take, size_mod}
use irssi_robustirc.Messages.{Token}
use irssi_robustirc.Session.{Request, Session}
use irssi_robustirc.Receiving.{
  put_fed, drop_tokens, new_tokens, gm_callbacks, yajl_parse, gm_write_func,
}
use irssi_robustirc.Receiving.Moves.{fed_request, gm_callbacks-Moves, gm_callbacks-append}

-- A call of gm_write_func: the memory from its pointer on, and its two numbers
pub record Chunk : Type 0 where
  pub memory : Str
  pub size : ℕ
  pub nmemb : ℕ

abbrev pub bytes_of : Chunk → Str
bytes_of c = take (c.size * c.nmemb % size_mod) c.memory

drop_tokens-append : (ts us : List Token) → drop_tokens (length ts) (ts ++ us) ≡ us
drop_tokens-append [] us = refl
drop_tokens-append (t ∷ ts) us = drop_tokens-append ts us

module _ (g : Glib) (y : Yajl) where
  pub new_tokens_lem :
      (old new : Str) (more : List Token)
      → y.emits (old ++ new) ≡ y.emits old ++ more
      → new_tokens g y old new ≡ more
  new_tokens_lem old new more e =
      ap (drop_tokens (length (y.emits old))) e ∙ drop_tokens-append (y.emits old) more

  new_tokens-append :
      (old a b : Str)
      → new_tokens g y old (a ++ b) ≡ new_tokens g y old a ++ new_tokens g y (old ++ a) b
  new_tokens-append old a b =
      let (first, e) = y.emits_more old a in
      let (second, f) = y.emits_more (old ++ a) b in
      let both : y.emits (old ++ (a ++ b)) ≡ y.emits old ++ (first ++ second) =
        ap y.emits (sym (append_assoc old a b))
        ∙ f
        ∙ ap (λ l. l ++ second) e
        ∙ append_assoc (y.emits old) first second in
      new_tokens_lem old (a ++ b) (first ++ second) both
      ∙ ap₂ ◌++◌ (sym (new_tokens_lem old a first e)) (sym (new_tokens_lem (old ++ a) b second f))

  pub yajl_parse-some :
      (new : Str) (curl : ℕ) (r : Request) (w : Session)
      → w.requests curl ≡ some r
      → yajl_parse g y new curl w
        ≡ gm_callbacks g
            (new_tokens g y r.parse.fed new)
            curl
            (put_fed curl r (r.parse.fed ++ new) w)
  unfolding yajl_parse
  yajl_parse-some new curl r w e = rw (e, yajl_parse) refl

  -- The parser has been given the new bytes too, and nothing else depends on them but for the
  -- callbacks.
  parsed :
      (a : Str) (curl : ℕ) (r : Request) (w : Session)
      → w.requests curl ≡ some r
      → (q : Request) × (yajl_parse g y a curl w
          ≡ put_fed curl q
              (r.parse.fed ++ a)
              (gm_callbacks g (new_tokens g y r.parse.fed a) curl w))
        × ((fed : Str)
            → gm_callbacks g (new_tokens g y r.parse.fed a) curl (put_fed curl r fed w)
              ≡ put_fed curl q fed (gm_callbacks g (new_tokens g y r.parse.fed a) curl w))
  parsed a curl r w e =
      let (q, found, same, moves) =
        gm_callbacks-Moves g (new_tokens g y r.parse.fed a) curl r w e in
      (q, yajl_parse-some a curl r w e ∙ moves (r.parse.fed ++ a), moves)

  put_fed-put_fed :
      (curl : ℕ) (q : Request) (a b : Str) (w : Session)
      → put_fed curl (fed_request q a) b (put_fed curl q a w) ≡ put_fed curl q b w
  put_fed-put_fed curl q a b w =
      ap (λ t. record w { requests = t })
        (insert-insert ℕ_discrete curl (fed_request q b) (fed_request q a) w.requests)

  yajl_parse-append :
      (a b : Str) (curl : ℕ) (r : Request) (w : Session)
      → w.requests curl ≡ some r
      → yajl_parse g y (a ++ b) curl w ≡ yajl_parse g y b curl (yajl_parse g y a curl w)
  yajl_parse-append a b curl r w e =
      let old = r.parse.fed in
      let (q, after, moves) = parsed a curl r w e in
      let u = gm_callbacks g (new_tokens g y old a) curl w in
      let found : (put_fed curl q (old ++ a) u).requests curl ≡ some (fed_request q (old ++ a)) =
        insert_self ℕ_discrete curl (fed_request q (old ++ a)) u.requests in
      yajl_parse-some (a ++ b) curl r w e
      ∙ ap (λ ts. gm_callbacks g ts curl (put_fed curl r (old ++ (a ++ b)) w))
          (new_tokens-append old a b)
      ∙ gm_callbacks-append g (new_tokens g y old a) (new_tokens g y (old ++ a) b) curl _
      ∙ ap (gm_callbacks g (new_tokens g y (old ++ a) b) curl) (
          moves (old ++ (a ++ b))
          ∙ ap (λ fed. put_fed curl q fed u) (sym (append_assoc old a b))
          ∙ sym (put_fed-put_fed curl q (old ++ a) ((old ++ a) ++ b) u))
      ∙ sym (yajl_parse-some b curl (fed_request q (old ++ a)) (put_fed curl q (old ++ a) u) found)
      ∙ ap (yajl_parse g y b curl) (sym after)

  yajl_parse-nil :
      (curl : ℕ) (r : Request) (w : Session)
      → w.requests curl ≡ some r
      → yajl_parse g y [] curl w ≡ w
  unfolding gm_callbacks
  yajl_parse-nil curl r w e =
      let old = r.parse.fed in
      let nothing : y.emits (old ++ []) ≡ y.emits old ++ [] =
        ap y.emits (append-nil old) ∙ sym (append-nil (y.emits old)) in
      yajl_parse-some [] curl r w e
      ∙ ap (λ ts. gm_callbacks g ts curl (put_fed curl r (old ++ []) w))
          (new_tokens_lem old [] [] nothing)
      ∙ ap (λ fed. put_fed curl r fed w) (append-nil old)
      ∙ ap (λ t. record w { requests = t }) (insert_same ℕ_discrete curl r w.requests e)

  -- The calls that libcurl makes, one after the other
  unfoldable pub receive_chunks : List Chunk → ℕ → Session → Session
  receive_chunks [] curl w = w
  receive_chunks (c ∷ cs) curl w =
      receive_chunks cs curl (gm_write_func g y c.memory c.size c.nmemb curl w).0

  gm_write_func-some :
      (c : Chunk) (curl : ℕ) (r : Request) (w : Session)
      → w.requests curl ≡ some r
      → (gm_write_func g y c.memory c.size c.nmemb curl w).0 ≡ yajl_parse g y (bytes_of c) curl w
  unfolding gm_write_func
  gm_write_func-some c curl r w e = rw (e, gm_write_func) refl

  -- However libcurl splits the body of a GetMessages into chunks, the session comes to the same as
  -- if all the bytes were parsed at once.
  pub chunks_join :
      (cs : List Chunk) (curl : ℕ) (r : Request) (w : Session)
      → w.requests curl ≡ some r
      → receive_chunks cs curl w ≡ yajl_parse g y (flat_map bytes_of cs) curl w
  unfolding receive_chunks flat_map
  chunks_join [] curl r w e = sym (yajl_parse-nil curl r w e)
  chunks_join (c ∷ cs) curl r w e =
      let (q, after, moves) = parsed (bytes_of c) curl r w e in
      let u = yajl_parse g y (bytes_of c) curl w in
      let found =
        ap (λ v. v.requests curl) after
        ∙ insert_self ℕ_discrete curl _
            (gm_callbacks g (new_tokens g y r.parse.fed (bytes_of c)) curl w).requests in
      ap (receive_chunks cs curl) (gm_write_func-some c curl r w e)
      ∙ chunks_join cs curl _ u found
      ∙ sym (yajl_parse-append (bytes_of c) (flat_map bytes_of cs) curl r w e)
