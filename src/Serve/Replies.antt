-- ===== src/Serve/Replies.antt =====
-- Every request is answered once.
use os_lab5_challenge.Base.{
  ℕ, zero, suc, ◌+◌, ◌≡◌, refl, ap, ◌∙◌, Bool, true, false, Option, none, some, List, ◌∷◌, ◌==◌,
  if◌then◌else◌, ◌/◌, ◌%◌, not, ◌||◌, modify, ◌>>◌, Error, arith, M, Run, done, panic, and_then,
  pure, ◌>>=◌, Result, ok, err,
}
use os_lab5_challenge.Fs.{Fs}
use os_lab5_challenge.Fs.Cache.{Reply, given, no_disk, not_found, bad_path, file_exists, failed}
use os_lab5_challenge.Fs.Files.{
  Place, Memory, file_get_block, file_set_size, file_dirty, file_close, fs_sync, or_return, store,
  f_type,
}
use os_lab5_challenge.Fs.Dirs.{file_remove, file_create, file_open}
use os_lab5_challenge.Serve.{
  Server, Message, Answer, answer, Page, filefd, no_page, block, send_ok, always, wrapped, in_fs,
  or_send, ipc_send, on_open, open_lookup, entry_of, Allocated, opened, too_many, no_page_left,
  take_entry, fill_entry, open_from, open_alloc, open_with, find_or_make, Request, open_req,
  map_req, set_size_req, close_req, dirty_req, remove_req, sync_req, other_req, serve, serve_open,
}

-- A run from `s` that sends nothing, and one that answers once; a panic of the server ends it.
abbrev Keeps : {A : Type 0} → Server → Run Server A → Type 0
Keeps s panic = Unit {0}
Keeps s (done a s') = s'.sent ≡ s.sent

abbrev pub AnswersOnce : ℕ → Server → Run Server (Unit {0}) → Type 0
AnswersOnce whom s panic = Unit {0}
AnswersOnce whom s (done a s') = (m : Message) × (s'.sent ≡ m ∷ s.sent) × (m.whom ≡ whom)

abbrev Silent : {A : Type 0} → M Server A → Type 0
Silent m = (s : Server) → Keeps s (m s)

abbrev Answers : ℕ → M Server (Unit {0}) → Type 0
Answers whom m = (s : Server) → AnswersOnce whom s (m s)

in_fs-Silent : {A : Type 0} (m : M Fs A) → Silent (in_fs m)
in_fs-Silent {A} m s = by_run (m s.fs)
  where
    by_run :
        (r : Run Fs A)
        → Keeps s (elim r [ panic ↦ panic | done a fs ↦ done a (record s { fs = fs }) ])
    by_run panic = tt
    by_run (done a fs) = refl

bind-Answers :
    {A : Type 0} (whom : ℕ) (m : M Server A) (k : A → M Server (Unit {0}))
    → Silent m
    → ((a : A) → Answers whom (k a))
    → Answers whom (m >>= k)
bind-Answers {A} whom m k silent rest s = by_run (m s) (silent s)
  where
    moved :
        (s' : Server) (r : Run Server (Unit {0}))
        → s'.sent ≡ s.sent
        → AnswersOnce whom s' r
        → AnswersOnce whom s r
    moved s' panic e h = tt
    moved s' (done a t) e (m, sent, to) = (m, sent ∙ ap (λ x. m ∷ x) e, to)

    by_run : (r : Run Server A) → Keeps s r → AnswersOnce whom s (and_then r k)
    by_run panic h = tt
    by_run (done a s') h = moved s' (k a s') h (rest a s')

ipc_send-Answers : (whom : ℕ) (r : Answer) (page : Page) → Answers whom (ipc_send whom r page)
ipc_send-Answers whom r page s = (record { whom = whom; result = r; page = page }, refl, refl)

or_send-Answers :
    {A : Type 0} (whom : ℕ) (k : A → M Server (Unit {0})) (r : Reply A)
    → ((a : A) → Answers whom (k a))
    → Answers whom (or_send whom k r)
or_send-Answers whom k (given a) h = h a
or_send-Answers whom k no_disk h = ipc_send-Answers whom _ _
or_send-Answers whom k not_found h = ipc_send-Answers whom _ _
or_send-Answers whom k bad_path h = ipc_send-Answers whom _ _
or_send-Answers whom k file_exists h = ipc_send-Answers whom _ _
or_send-Answers whom k (failed e) h = ipc_send-Answers whom _ _

if-Keeps :
    {A : Type 0} (s : Server) (b : Bool) (r r' : Run Server A)
    → Keeps s r
    → Keeps s r'
    → Keeps s (if b then r else r')
if-Keeps s true r r' h h' = h
if-Keeps s false r r' h h' = h'

open_lookup-Silent : (fileid : ℕ) → Silent (open_lookup fileid)
unfolding open_lookup
open_lookup-Silent fileid s =
    if-Keeps {A = Reply ℕ} s
      ((s.refs (entry_of fileid) == 1) || not ((s.opentab (entry_of fileid)).o_fileid == fileid))
      (done (failed Error.inval) s) (done (given (entry_of fileid)) s) refl refl

on_open-Answers :
    {A : Type 0} (whom fileid : ℕ) (m : Place → M Fs (Reply A)) (k : A → M Server (Unit {0}))
    → ((a : A) → Answers whom (k a))
    → Answers whom (on_open whom fileid m k)
on_open-Answers whom fileid m k h =
    bind-Answers whom (open_lookup fileid) _ (open_lookup-Silent fileid)
      (λ r. or_send-Answers whom _ r (λ i s. by_file s ((s.opentab i).o_file)))
  where
    by_file :
        (s : Server) (o : Option Place)
        → AnswersOnce whom s (elim o [ none ↦ panic | some f ↦ (in_fs (m f) >>= or_send whom k) s ])
    by_file s none = tt
    by_file s (some f) =
        bind-Answers whom (in_fs (m f)) (or_send whom k) (in_fs-Silent (m f))
          (λ r. or_send-Answers whom k r h) s

fill_entry-Silent : (i : ℕ) (r : Result (Unit {0})) → Silent (fill_entry i r)
fill_entry-Silent i (err e) s = refl
fill_entry-Silent i (ok _) s = refl

open_step :
    (memory : Memory) (i : ℕ) (s : Server) (rest : Run Server Allocated) (c : ℕ)
    → Keeps s rest
    → Keeps s (elim c [
      | zero ↦ fill_entry i (memory s.fs) s
      | suc k ↦ if k == 0 then take_entry i s else rest
    ])
open_step memory i s rest zero h = fill_entry-Silent i (memory s.fs) s
open_step memory i s rest (suc k) h =
    if-Keeps {A = Allocated} s (k == 0) (take_entry i s) rest refl h

open_from-Silent : (memory : Memory) (n i : ℕ) → Silent (open_from memory n i)
unfolding open_from
open_from-Silent memory zero i s = refl
open_from-Silent memory (suc n) i s =
    open_step memory i s (open_from memory n (i + 1) s) (s.refs i)
      (open_from-Silent memory n (i + 1) s)

find_or_make-Silent :
    (memory : Memory) (path : List ℕ) (mode : ℕ) → Silent (find_or_make memory path mode)
find_or_make-Silent memory path mode s = by_mode (mode / 0x100 % 2 == 1) (mode / 0x800 % 2 == 1)
  where
    made : M Fs (Reply Place)
    made = or_return (file_create memory path) (λ f. modify (store f f_type 1) >> pure (given f))

    by_mode :
        (b b' : Bool)
        → Keeps {A = Reply Place} s (
            (if b
                then in_fs (file_create memory path)
                else if b'
                then in_fs made
                else in_fs (file_open memory path))
              s)
    by_mode true b' = in_fs-Silent (file_create memory path) s
    by_mode false true = in_fs-Silent made s
    by_mode false false = in_fs-Silent (file_open memory path) s

serve_open-Answers :
    (memory : Memory) (whom : ℕ) (path : List ℕ) (mode : ℕ)
    → Answers whom (serve_open memory whom path mode)
unfolding serve_open
serve_open-Answers memory whom path mode =
    bind-Answers whom (open_alloc memory) _ (open_from-Silent memory 1024 0) after
  where
    after : (r : Allocated) → Answers whom (open_with memory whom path mode r)
    after (no_page_left e) = ipc_send-Answers whom _ _
    after too_many = ipc_send-Answers whom _ _
    after (wrapped id) = ipc_send-Answers whom _ _
    after (opened i) =
        bind-Answers whom (find_or_make memory path mode) _ (find_or_make-Silent memory path mode)
          (λ r. or_send-Answers whom _ r (λ f s.
            (record { whom = whom; result = answer (given tt); page = filefd i }, refl, refl)))

send_ok-Answers : (whom : ℕ) → Answers whom (send_ok whom)
send_ok-Answers whom = ipc_send-Answers whom (answer (given tt)) no_page

by_call :
    (whom fileid : ℕ) (m : Place → M Fs (Reply (Unit {0})))
    → Answers whom (on_open whom fileid m (λ _. send_ok whom))
by_call whom fileid m =
    on_open-Answers whom fileid m (λ _. send_ok whom) (λ _. send_ok-Answers whom)

-- The codes that `serve` knows.
abbrev pub is_known : Request → Bool
is_known other_req = false
is_known _ = true

-- A request with an argument page and a known code is answered exactly once, and to its sender, whatever the file
-- system reports, unless the server panics.
pub serve_lem :
    (memory : Memory) (whom : ℕ) (request : Request) (s : Server)
    → is_known request ≡ true
    → AnswersOnce whom s (serve memory true whom request s)
unfolding serve
serve_lem memory whom (open_req path mode) s e = serve_open-Answers memory whom path mode s
serve_lem memory whom (map_req fileid offset) s e =
    on_open-Answers whom fileid (λ f. file_get_block memory f (offset / 4096))
      (λ blk. ipc_send whom (answer (given tt)) (block blk))
      (λ blk. ipc_send-Answers whom (answer (given tt)) (block blk)) s
serve_lem memory whom (set_size_req fileid size) s e =
    by_call whom fileid (λ f. always (file_set_size memory f size)) s
serve_lem memory whom (dirty_req fileid offset) s e =
    by_call whom fileid (λ f. file_dirty memory f offset) s
serve_lem memory whom (close_req fileid) s e =
    by_call whom fileid (λ f. always (file_close memory f)) s
serve_lem memory whom (remove_req path) s e =
    bind-Answers whom (in_fs (file_remove memory path)) (λ r. ipc_send whom (answer r) no_page)
      (in_fs-Silent (file_remove memory path)) (λ r. ipc_send-Answers whom (answer r) no_page) s
serve_lem memory whom sync_req s e =
    bind-Answers whom (in_fs fs_sync) (λ _. send_ok whom) (in_fs-Silent fs_sync)
      (λ _. send_ok-Answers whom) s
serve_lem memory whom other_req s e = absurd (ground (arith, e))
