-- ===== src/WebServer/Request/Tests.antt =====
-- `handle_request` at concrete inputs.
use systemprogramming.Base.{arith, [], ◌∷◌, ◌≢◌, ℕ, ◌≡◌, refl, List, some, if◌then◌else◌}
use systemprogramming.Ctype.{is_space}
use systemprogramming.CString.{codes, str_eq, strtok, until_zero}
use systemprogramming.WebServer.Request.{
  undefined, method_not_allowed, served, Files, scan_request, handle_request, full_path,
  request_line, is_below, answer_below, serve_below, serve_resolved, send_file,
}
use systemprogramming.WebServer.Request.Safety.{IsUnder, handle_request-IsUnder}

-- A directory `/srv/www` with a page, and a file beside it.
abbrev files : Files
files = record {
  realpath = λ p.
      if str_eq p (codes "./www")
      then some (codes "/w")
      else if str_eq p (codes "./www/../k")
      then some (codes "/k")
      else some (codes "/w/i");
  contents = λ p. some (codes "x");
}

abbrev request : List ℕ
request = codes "GET /i HTTP/1.1"

handle_request-IsUnder_example :
    (handle_request files request ≢ undefined)
    × (codes "GET" ≢ codes "GET" → handle_request files request ≡ method_not_allowed)
    × ((path body : List ℕ)
        → handle_request files request ≡ served path body
        → (base : List ℕ) × (files.realpath (codes "./www") ≡ some base)
          × IsUnder base path
          × (files.contents path ≡ some body))
unfolding until_zero strtok is_space
handle_request-IsUnder_example =
    handle_request-IsUnder files request (codes "GET") (codes "/i") (codes "HTTP/1.1" ∷ [])
      (λ e. cc) refl (omega arith) (omega arith)

serves : handle_request files request ≡ served (codes "/w/i") (codes "x")
unfolding handle_request answer_below serve_below serve_resolved send_file is_below scan_request
    until_zero request_line strtok is_space str_eq full_path
serves = refl
