-- ===== src/WebServer/Request.antt =====
-- `handle_request` of lab9-lyjae/webserver.c and of webserver-mt.c. What `read` returned is the list
-- of its bytes, empty at the end of the input or on an error.
pub mod Safety
mod Tests
use systemprogramming.Base.{
  ℕ, ◌+◌, Bool, true, false, not, ◌&&◌, ◌||◌, ◌==◌, List, [], ◌∷◌, ◌++◌, Option, none, some,
  if◌then◌else◌, length, take, drop, ltb,
}
use systemprogramming.Ctype.{is_space}
use systemprogramming.CString.{codes, str_eq, strtok, until_zero}

-- The file system below the server: `realpath`, and the contents of a file that can be opened.
pub record Files : Type 0 where
  pub realpath : List ℕ → Option (List ℕ)
  pub contents : List ℕ → Option (List ℕ)

-- What is written to the client before it is closed: nothing, one of the error pages, or the header
-- and a file. `undefined` stands for the requests on which the C code has no defined behaviour: a
-- word that does not fit `method` or `path`, or one of these read with no word stored in it.
pub data Answer : Type 0 where
  closed : Answer
  method_not_allowed : Answer
  not_found : Answer
  forbidden : Answer
  served : (path : List ℕ) → (body : List ℕ) → Answer
  undefined : Answer

-- `strcmp(method, "GET")` and the path that follows, over the words that `sscanf` reads.
pub data Line : Type 0 where
  broken : Line
  other_method : Line
  get : List ℕ → Line

pub request_line : List (List ℕ) → Line
request_line [] = broken
request_line (m ∷ []) =
    if ltb 7 (length m) then broken else if str_eq m (codes "GET") then broken else other_method
request_line (m ∷ p ∷ rest) =
    if ltb 7 (length m) || ltb 255 (length p)
    then broken
    else if str_eq m (codes "GET")
    then get p
    else other_method

-- `sscanf(buffer, "%s %s", method, path)` and the test of the method.
pub scan_request : List ℕ → Line
unfolding until_zero request_line
scan_request request = request_line (strtok is_space (until_zero request))

abbrev pub index_page : List ℕ → List ℕ
index_page path = if str_eq path (codes "/") then codes "/index.html" else path

pub full_path : List ℕ → List ℕ
full_path path = codes "./www" ++ index_page path

-- `open` and, if it succeeds, the header and the contents.
pub send_file : Files → List ℕ → Answer
send_file fs path = elim (fs.contents path) [ none ↦ not_found | some body ↦ served path body ]

abbrev pub slash_or_end : List ℕ → Bool
slash_or_end [] = true
slash_or_end (c ∷ cs) = c == b'/'

-- The test of webserver.c on the two resolved paths.
pub is_below : List ℕ → List ℕ → Bool
is_below base path = str_eq (take (length base) path) base && slash_or_end (drop (length base) path)

pub serve_resolved : Files → List ℕ → Option (List ℕ) → Answer
unfolding is_below send_file
serve_resolved fs base none = not_found
serve_resolved fs base (some path) = if is_below base path then send_file fs path else forbidden

pub serve_below : Files → Option (List ℕ) → List ℕ → Answer
unfolding serve_resolved
serve_below fs none path = closed
serve_below fs (some base) path = serve_resolved fs base (fs.realpath path)

pub answer_below : Files → Line → Answer
unfolding serve_below full_path
answer_below fs broken = undefined
answer_below fs other_method = method_not_allowed
answer_below fs (get path) = serve_below fs (fs.realpath (codes "./www")) (full_path path)

-- `handle_request` of webserver.c.
pub handle_request : Files → List ℕ → Answer
unfolding answer_below scan_request
handle_request fs [] = closed
handle_request fs (c ∷ request) = answer_below fs (scan_request (c ∷ request))

pub answer_unchecked : Files → Line → Answer
unfolding send_file full_path
answer_unchecked fs broken = undefined
answer_unchecked fs other_method = method_not_allowed
answer_unchecked fs (get path) = send_file fs (take 511 (full_path path))

-- `handle_request` of webserver-mt.c.
pub handle_request_mt : Files → List ℕ → Answer
unfolding answer_unchecked scan_request
handle_request_mt fs [] = closed
handle_request_mt fs (c ∷ request) = answer_unchecked fs (scan_request (c ∷ request))
