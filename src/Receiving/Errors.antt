-- ===== src/Receiving/Errors.antt =====
-- What is left of a GetMessages whose body is not JSON.
use irssi_robustirc.Base.{
  ℕ, ◌≡◌, refl, sym, ap, ◌∙◌, false, some, List, [], ◌++◌, ◌*◌, ◌%◌, flat_map,
}
use mathlib.Core.List.{append-nil}
use irssi_robustirc.Base.Text.{Str, c_string}
use irssi_robustirc.Glib.{Glib}
use irssi_robustirc.Yajl.{Yajl}
use irssi_robustirc.Body.{size_mod, take}
use irssi_robustirc.Session.{Request, Session}
use irssi_robustirc.Receiving.{put_fed, gm_callbacks, yajl_parse, gm_write_func}
use irssi_robustirc.Receiving.Chunks.{
  Chunk, bytes_of, new_tokens_lem, receive_chunks, chunks_join, yajl_parse-some,
}

module _ (g : Glib) (y : Yajl) where
  invalid_parse :
      (new : Str) (curl : ℕ) (r : Request) (w : Session)
      → w.requests curl ≡ some r
      → y.valid r.parse.fed ≡ false
      → yajl_parse g y new curl w ≡ put_fed curl r (r.parse.fed ++ new) w
  unfolding gm_callbacks
  invalid_parse new curl r w e invalid =
      let old = r.parse.fed in
      let (again, nothing) = y.stays_invalid old new invalid in
      yajl_parse-some g y new curl r w e
      ∙ ap (λ ts. gm_callbacks g ts curl (put_fed curl r (old ++ new) w))
          (new_tokens_lem g y old new [] (nothing ∙ sym (append-nil (y.emits old))))

  -- Once a GetMessages has received bytes that are not JSON, whatever follows on its connection is
  -- taken in full, printed as an error each time (with the memory behind the chunk, up to a NUL), and
  -- changes nothing but what the parser was given: the request is neither ended nor sent again.
  pub error_sticks :
      (cs : List Chunk) (memory : Str) (size nmemb curl : ℕ) (r : Request) (w : Session)
      → w.requests curl ≡ some r
      → y.valid r.parse.fed ≡ false
      → (receive_chunks g y cs curl w ≡ put_fed curl r (r.parse.fed ++ flat_map bytes_of cs) w)
        × ((gm_write_func g y memory size nmemb curl w).1 ≡ size * nmemb % size_mod)
        × ((gm_write_func g y memory size nmemb curl w).2 ≡ some (g.strstrip (c_string memory)))
  unfolding gm_write_func
  error_sticks cs memory size nmemb curl r w e invalid =
      let new = take (size * nmemb % size_mod) memory in
      let (again, nothing) = y.stays_invalid r.parse.fed new invalid in
      (
        chunks_join g y cs curl r w e ∙ invalid_parse (flat_map bytes_of cs) curl r w e invalid,
        rw (e, gm_write_func) refl,
        rw (e, gm_write_func) (rw again refl),
      )
