-- ===== src/Serve/Stale.antt =====
-- Which open files the server can find, and what a request gets whose file it does not find.
use os_lab5_challenge.Base.{
  ℕ, ◌%◌, ◌<◌, ◌≡◌, ◌≢◌, refl, sym, ap, ◌∙◌, Bool, true, false, not, ◌||◌, Option, none, some, ◌∷◌,
  arith, ◌==◌, if◌then◌else◌, ==_ne, done, Error,
}
use os_lab5_challenge.Fs.Cache.{given, failed}
use os_lab5_challenge.Fs.Files.{Memory}
use os_lab5_challenge.Serve.{
  Server, answer, no_page, Request, open_req, remove_req, sync_req, other_req, map_req,
  set_size_req, close_req, dirty_req, open_lookup, entry_of, serve, serve_map, serve_set_size,
  serve_close, serve_dirty,
}

-- The file ids of the table, as `serve_init` and `open_alloc` keep them.
abbrev pub HasIds : Server → Type 0
HasIds s = (i : ℕ) → i < 1024 → (s.opentab i).o_fileid % 2048 ≡ i

-- A file id that is even and no multiple of 2048 is looked up in entry 0, which has another id: the file of an
-- even entry other than 0 is never found, though it is open under this id.
pub open_lookup_lem :
    (s : Server) (i fileid : ℕ)
    → HasIds s
    → i < 1024
    → (s.opentab i).o_fileid ≡ fileid
    → fileid % 2 ≡ 0
    → i ≢ 0
    → open_lookup fileid s ≡ done (failed Error.inval) s
unfolding open_lookup
open_lookup_lem s i fileid ids lt is_id even ne =
    ap
      (λ k.
        if (s.refs k == 1) || not ((s.opentab k).o_fileid == fileid)
        then done (failed Error.inval) s
        else done (given k) s)
      first
    ∙ rw (==_ne ((s.opentab 0).o_fileid) fileid differ, or_true (s.refs 0 == 1))
  where
    first : entry_of fileid ≡ 0
    first = omega arith

    differ : (s.opentab 0).o_fileid ≢ fileid
    differ e = ne (sym (ids i lt) ∙ ap (λ k. k % 2048) (is_id ∙ sym e) ∙ ids 0 (omega arith))

    or_true : (x : Bool) → (x || true) ≡ true
    or_true true = refl
    or_true false = refl

-- The file id in a request.
abbrev pub asks_for : Request → Option ℕ
asks_for (map_req fileid offset) = some fileid
asks_for (set_size_req fileid size) = some fileid
asks_for (dirty_req fileid offset) = some fileid
asks_for (close_req fileid) = some fileid
asks_for _ = none

abbrev pub refused : ℕ → Server → Server
refused whom s = record s {
  sent = record { whom = whom; result = answer (failed Error.inval); page = no_page } ∷ s.sent;
}

id_of : {a b : ℕ} → some a ≡ some b → a ≡ b
id_of e = cc

answered :
    (memory : Memory) (whom fileid : ℕ) (request : Request) (s : Server)
    → asks_for request ≡ some fileid
    → open_lookup fileid s ≡ done (failed Error.inval) s
    → serve memory true whom request s ≡ done tt (refused whom s)
unfolding serve serve_map serve_set_size serve_close serve_dirty
answered memory whom fileid (map_req f offset) s e stale =
    rw (ap (λ k. open_lookup k s) (id_of e) ∙ stale)
answered memory whom fileid (set_size_req f size) s e stale =
    rw (ap (λ k. open_lookup k s) (id_of e) ∙ stale)
answered memory whom fileid (dirty_req f offset) s e stale =
    rw (ap (λ k. open_lookup k s) (id_of e) ∙ stale)
answered memory whom fileid (close_req f) s e stale =
    rw (ap (λ k. open_lookup k s) (id_of e) ∙ stale)
answered memory whom fileid (open_req path mode) s e stale = absurd (ground (arith, e))
answered memory whom fileid (remove_req path) s e stale = absurd (ground (arith, e))
answered memory whom fileid sync_req s e stale = absurd (ground (arith, e))
answered memory whom fileid other_req s e stale = absurd (ground (arith, e))

-- With the file ids as `serve_init` and `open_alloc` keep them: each request that names the file of an even entry other
-- than 0, under the id that the entry has, is answered by -E_INVAL, once and to its sender, whatever the file, and
-- nothing else changes: neither the files nor the table. So such a file can be opened, but not be mapped, resized, written
-- back or closed.
pub serve-refused :
    (memory : Memory) (whom i fileid : ℕ) (request : Request) (s : Server)
    → HasIds s
    → i < 1024
    → i ≢ 0
    → i % 2 ≡ 0
    → (s.opentab i).o_fileid ≡ fileid
    → asks_for request ≡ some fileid
    → serve memory true whom request s ≡ done tt (refused whom s)
serve-refused memory whom i fileid request s ids lt ne even is_id asks =
    answered memory whom fileid request s asks (
      open_lookup_lem s i fileid ids lt is_id (even_id ((s.opentab i).o_fileid) (ids i lt) is_id)
        ne)
  where
    even_id : (id : ℕ) → id % 2048 ≡ i → id ≡ fileid → fileid % 2 ≡ 0
    even_id id h e = omega arith
