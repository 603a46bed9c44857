-- ===== src/Tests/Serving.antt =====
-- A server whose entry 2 is open under its id, on the disk of the files.
use os_lab5_challenge.Base.{◌≡◌, refl, arith, true, some, [], done, Error}
use os_lab5_challenge.Fs.Cache.{failed}
use os_lab5_challenge.Serve.{Server, close_req, sync_req, open_lookup, serve}
use os_lab5_challenge.Serve.Stale.{HasIds, refused, open_lookup_lem, serve-refused}
use os_lab5_challenge.Serve.Replies.{AnswersOnce, serve_lem}
use os_lab5_challenge.Tests.Files.{disk, memory, file}

abbrev server : Server
server = record {
  fs = disk;
  opentab = λ i. record {
    o_file = some file;
    o_fileid = i;
    o_mode = 0;
    ff_fileid = 0;
    fd_omode = 0;
    ff_file = λ _. 0;
  };
  refs = λ _. 2;
  sent = [];
}

server-HasIds : HasIds server
server-HasIds i lt = omega arith

open_lookup_example : open_lookup 2 server ≡ done (failed Error.inval) server
open_lookup_example =
    open_lookup_lem server 2 2 server-HasIds (omega arith) refl (omega arith)
      (λ e. absurd (omega arith))

serve-refused_example : serve memory true 7 (close_req 2) server ≡ done tt (refused 7 server)
serve-refused_example =
    serve-refused memory 7 2 2 (close_req 2) server server-HasIds (omega arith)
      (λ e. absurd (omega arith)) refl refl refl

serve_example : AnswersOnce 7 server (serve memory true 7 sync_req server)
serve_example = serve_lem memory 7 sync_req server refl
