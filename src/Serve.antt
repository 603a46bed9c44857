-- ===== src/Serve.antt =====
-- The request loop of fs/serv.c on top of the file system. `pageref(o_ff)` of each open file is part of the
-- state, since the clients that have the page mapped change it. The request page holds the arguments.
pub mod Replies
pub mod Stale
use os_lab5_challenge.Base.{
  ℕ, zero, suc, ◌+◌, ◌*◌, ◌/◌, ◌%◌, ◌^◌, Bool, true, false, not, ltb, ◌||◌, Option, none, some,
  List, [], ◌∷◌, ◌==◌, if◌then◌else◌, update, M, Run, done, panic, pure, ◌>>=◌, ◌>>◌, modify, get,
  Error, Result, ok, err,
}
use os_lab5_challenge.Fs.{Fs}
use os_lab5_challenge.Fs.Cache.{Reply, given, no_disk, not_found, bad_path, file_exists, failed}
use os_lab5_challenge.Fs.Files.{
  Place, load, store, f_type, or_return, Memory, file_get_block, file_dirty, file_set_size,
  file_close, fs_sync,
}
use os_lab5_challenge.Fs.Dirs.{file_open, file_create, file_remove}

-- `struct Open`, with its `Filefd` page: `f_file` is the 64 words of the file. The page is named by the
-- index.
pub record Open : Type 0 where
  pub o_file : Option Place
  pub o_fileid : ℕ
  pub o_mode : ℕ
  pub ff_fileid : ℕ
  pub fd_omode : ℕ
  pub ff_file : ℕ → ℕ

pub data Page : Type 0 where
  no_page : Page
  filefd : ℕ → Page
  block : ℕ → Page

-- A result that is sent: that of a file system call, -E_MAX_OPEN, or a file id from 2 ^ 31 on, which is negative.
pub data Answer : Type 0 where
  raw : ℕ → Answer
  answer : Reply (Unit {0}) → Answer
  max_open : Answer

-- A call of `ipc_send`: the receiver, the result, and the page that goes with it.
pub record Message : Type 0 where
  pub whom : ℕ
  pub result : Answer
  pub page : Page

pub record Server : Type 0 where
  pub fs : Fs
  pub opentab : ℕ → Open
  pub refs : ℕ → ℕ
  pub sent : List Message

-- A call into fs/fs.c.
abbrev pub in_fs : {A : Type 0} → M Fs A → M Server A
in_fs m s = elim (m s.fs) [ panic ↦ panic | done a fs ↦ done a (record s { fs = fs }) ]

abbrev pub set_open : ℕ → Open → Server → Server
set_open i o s = record s { opentab = update s.opentab i o }

-- `ipc_send`
abbrev pub ipc_send : ℕ → Answer → Page → M Server (Unit {0})
ipc_send whom r page =
    modify (λ s. record s { sent = record { whom = whom; result = r; page = page } ∷ s.sent })

-- `if ((r = ...) < 0) { ipc_send(envid, r, 0, 0); return; }`
abbrev pub or_send : {A : Type 0} → ℕ → (A → M Server (Unit {0})) → Reply A → M Server (Unit {0})
or_send whom k (given a) = k a
or_send whom k no_disk = ipc_send whom (answer no_disk) no_page
or_send whom k not_found = ipc_send whom (answer not_found) no_page
or_send whom k bad_path = ipc_send whom (answer bad_path) no_page
or_send whom k file_exists = ipc_send whom (answer file_exists) no_page
or_send whom k (failed e) = ipc_send whom (answer (failed e)) no_page

pub data Allocated : Type 0 where
  opened : ℕ → Allocated
  no_page_left : Error → Allocated
  too_many : Allocated
  wrapped : ℕ → Allocated

-- `case 1` of the `switch`, which `case 0` falls into; the page is cleared. The id that is returned is an int.
abbrev pub take_entry : ℕ → M Server Allocated
take_entry i s =
    let o = record (s.opentab i) {
      o_fileid = ((s.opentab i).o_fileid + 2048) % 2 ^ 32;
      ff_fileid = 0;
      fd_omode = 0;
      ff_file = λ _. 0;
    } in
    done (if ltb o.o_fileid (2 ^ 31) then opened i else wrapped o.o_fileid) (set_open i o s)

-- `case 0`: `syscall_mem_alloc` maps the page once.
abbrev pub fill_entry : ℕ → Result (Unit {0}) → M Server Allocated
fill_entry i (err e) = pure (no_page_left e)
fill_entry i (ok _) = modify (λ s. record s { refs = update s.refs i 1 }) >> take_entry i

-- The loop of `open_alloc` from entry `i` on.
unfoldable pub open_from : Memory → ℕ → ℕ → M Server Allocated
open_from memory zero i s = done too_many s
open_from memory (suc n) i s = elim (s.refs i) [
  | zero ↦ fill_entry i (memory s.fs) s
  | suc k ↦ (let rest = open_from memory n (i + 1) s in if k == 0 then take_entry i s else rest)
]

unfoldable pub open_alloc : Memory → M Server Allocated
unfolding open_from
open_alloc memory = open_from memory 1024 0

-- `fileid % MAXOPEN_NUM`: the macro is `MAXFS * MAXOPEN` without parentheses, so this is
-- `fileid % 2 * 1024`. Entry 1024 is the memory after the table.
abbrev pub entry_of : ℕ → ℕ
entry_of fileid = fileid % 2 * 1024

unfoldable pub open_lookup : ℕ → M Server (Reply ℕ)
open_lookup fileid s =
    let i = entry_of fileid in
    if (s.refs i == 1) || not ((s.opentab i).o_fileid == fileid)
    then done (failed Error.inval) s
    else done (given i) s

-- The rest of `serve_open` for a file that is found or made.
abbrev pub answer_open : ℕ → ℕ → ℕ → Place → M Server (Unit {0})
answer_open whom mode i f = do
  modify (λ s.
      set_open i
        (record (s.opentab i) {
          o_file = some f;
          ff_fileid = (s.opentab i).o_fileid;
          o_mode = mode;
          fd_omode = mode;
          ff_file = λ k. load f k s.fs;
        })
        s)
  ipc_send whom (answer (given tt)) (filefd i)

abbrev pub find_or_make : Memory → List ℕ → ℕ → M Server (Reply Place)
find_or_make memory path mode =
    if mode / 0x100 % 2 == 1
    then in_fs (file_create memory path)
    else if mode / 0x800 % 2 == 1
    then in_fs
        (or_return (file_create memory path) (λ f. modify (store f f_type 1) >> pure (given f)))
    else in_fs (file_open memory path)

abbrev pub open_with : Memory → ℕ → List ℕ → ℕ → Allocated → M Server (Unit {0})
open_with memory whom path mode (no_page_left e) = ipc_send whom (answer (failed e)) no_page
open_with memory whom path mode too_many = ipc_send whom max_open no_page
open_with memory whom path mode (wrapped id) = ipc_send whom (raw id) no_page
open_with memory whom path mode (opened i) =
    find_or_make memory path mode >>= or_send whom (answer_open whom mode i)

unfoldable pub serve_open : Memory → ℕ → List ℕ → ℕ → M Server (Unit {0})
unfolding open_alloc
serve_open memory whom path mode = open_alloc memory >>= open_with memory whom path mode

-- Runs a function on the file of an open entry, and sends what it reports; a NULL `o_file` faults.
abbrev pub on_open :
    {A : Type 0}
    → ℕ
    → ℕ
    → (Place → M Fs (Reply A))
    → (A → M Server (Unit {0}))
    → M Server (Unit {0})
on_open whom fileid m k =
    open_lookup fileid
    >>= or_send whom (λ i s. elim ((s.opentab i).o_file) [
      | none ↦ panic
      | some f ↦ (in_fs (m f) >>= or_send whom k) s
    ])

abbrev pub send_ok : ℕ → M Server (Unit {0})
send_ok whom = ipc_send whom (answer (given tt)) no_page

-- A function of fs/fs.c that cannot fail.
abbrev pub always : M Fs (Unit {0}) → M Fs (Reply (Unit {0}))
always m = m >> pure (given tt)

unfoldable pub serve_map : Memory → ℕ → ℕ → ℕ → M Server (Unit {0})
serve_map memory whom fileid offset =
    on_open whom fileid (λ f. file_get_block memory f (offset / 4096))
      (λ blk. ipc_send whom (answer (given tt)) (block blk))

unfoldable pub serve_set_size : Memory → ℕ → ℕ → ℕ → M Server (Unit {0})
serve_set_size memory whom fileid size =
    on_open whom fileid (λ f. always (file_set_size memory f size)) (λ _. send_ok whom)

unfoldable pub serve_close : Memory → ℕ → ℕ → M Server (Unit {0})
serve_close memory whom fileid =
    on_open whom fileid (λ f. always (file_close memory f)) (λ _. send_ok whom)

unfoldable pub serve_dirty : Memory → ℕ → ℕ → ℕ → M Server (Unit {0})
serve_dirty memory whom fileid offset =
    on_open whom fileid (λ f. file_dirty memory f offset) (λ _. send_ok whom)

unfoldable pub serve_remove : Memory → ℕ → List ℕ → M Server (Unit {0})
serve_remove memory whom path =
    in_fs (file_remove memory path) >>= λ r. ipc_send whom (answer r) no_page

unfoldable pub serve_sync : ℕ → M Server (Unit {0})
serve_sync whom = in_fs fs_sync >> send_ok whom

-- What a request asks for; `other` is any other code.
pub data Request : Type 0 where
  open_req : List ℕ → ℕ → Request
  map_req set_size_req dirty_req : ℕ → ℕ → Request
  close_req : ℕ → Request
  remove_req : List ℕ → Request
  sync_req other_req : Request

abbrev pub dispatch : Memory → ℕ → Request → M Server (Unit {0})
dispatch memory whom (open_req path mode) = serve_open memory whom path mode
dispatch memory whom (map_req fileid offset) = serve_map memory whom fileid offset
dispatch memory whom (set_size_req fileid size) = serve_set_size memory whom fileid size
dispatch memory whom (close_req fileid) = serve_close memory whom fileid
dispatch memory whom (dirty_req fileid offset) = serve_dirty memory whom fileid offset
dispatch memory whom (remove_req path) = serve_remove memory whom path
dispatch memory whom sync_req = serve_sync whom
dispatch memory whom other_req = pure tt

-- One round of `serve`; `has_page` is `perm & PTE_V`.
unfoldable pub serve : Memory → Bool → ℕ → Request → M Server (Unit {0})
unfolding serve_open serve_map serve_set_size serve_close serve_dirty serve_remove serve_sync
serve memory has_page whom request = if has_page then dispatch memory whom request else pure tt

-- `serve_init`: entry `i` has file id `i`.
unfoldable pub serve_init : Server → Server
serve_init s = record s {
  opentab = λ i. if ltb i 1024 then record (s.opentab i) { o_fileid = i } else s.opentab i;
}
