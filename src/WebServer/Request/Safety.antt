-- ===== src/WebServer/Request/Safety.antt =====
-- Which files the two servers hand out.
use systemprogramming.Base.{
  ℕ, ◌≤◌, ◌≡◌, ◌≢◌, refl, sym, ap, ◌∙◌, arith, true, false, Bool-cases, inl, inr, List, [], ◌∷◌,
  ◌++◌, Option, none, some, if◌then◌else◌, length, take, drop, take-all, take-append-drop,
}
use systemprogramming.Ctype.{is_space}
use systemprogramming.CString.{codes, str_eq, str_eq_iff, strtok, until_zero}
use systemprogramming.WebServer.Request.{
  Files, method_not_allowed, undefined, request_line, forbidden, served, Line, broken, other_method,
  get, scan_request, full_path, send_file, slash_or_end, is_below, serve_resolved, serve_below,
  answer_below, handle_request, answer_unchecked, handle_request_mt,
}

-- The base itself, or a path that goes on with a slash behind it.
abbrev pub IsUnder : List ℕ → List ℕ → Type 0
IsUnder base path = (rest : List ℕ) × (path ≡ base ++ rest) × (slash_or_end rest ≡ true)

is_below-IsUnder : (base path : List ℕ) → is_below base path ≡ true → IsUnder base path
unfolding is_below
is_below-IsUnder base path h =
    let front = (str_eq_iff (take (length base) path) base).0 (ground arith) in
    (
      drop (length base) path,
      sym (take-append-drop (length base) path) ∙ ap (λ t. t ++ drop (length base) path) front,
      ground arith,
    )

module _ (fs : Files) (path body : List ℕ) where
  send_file-served :
      (p : List ℕ) → send_file fs p ≡ served path body → (path ≡ p) × (fs.contents p ≡ some body)
  unfolding send_file
  send_file-served p h = ground arith

  serve_resolved-IsUnder :
      (base : List ℕ) (o : Option (List ℕ))
      → serve_resolved fs base o ≡ served path body
      → IsUnder base path × (fs.contents path ≡ some body)
  unfolding serve_resolved
  serve_resolved-IsUnder base none h = cc
  serve_resolved-IsUnder base (some p) h = elim (Bool-cases (is_below base p)) [
    | inl e ↦
        let sent = send_file-served p (ground (arith, e, h)) in
        rw (sent.0) (is_below-IsUnder base p e, sent.1)
    | inr e ↦ absurd (ground (arith, e, h))
  ]

  serve_below-IsUnder :
      (o : Option (List ℕ)) (p : List ℕ)
      → serve_below fs o p ≡ served path body
      → (base : List ℕ) × (o ≡ some base) × IsUnder base path × (fs.contents path ≡ some body)
  unfolding serve_below
  serve_below-IsUnder none p h = cc
  serve_below-IsUnder (some base) p h =
      let r = serve_resolved-IsUnder base (fs.realpath p) h in (base, refl, r.0, r.1)

  answer_below-IsUnder :
      (l : Line)
      → answer_below fs l ≡ served path body
      → (base : List ℕ) × (fs.realpath (codes "./www") ≡ some base)
        × IsUnder base path
        × (fs.contents path ≡ some body)
  unfolding answer_below
  answer_below-IsUnder broken h = cc
  answer_below-IsUnder other_method h = cc
  answer_below-IsUnder (get p) h = serve_below-IsUnder (fs.realpath (codes "./www")) (full_path p) h

scan_request-words :
    (request m p : List ℕ) (more : List (List ℕ))
    → strtok is_space (until_zero request) ≡ m ∷ p ∷ more
    → length m ≤ 7
    → length p ≤ 255
    → scan_request request ≡ (if str_eq m (codes "GET") then get p else other_method)
unfolding scan_request request_line
scan_request-words request m p more e hm hp = rw e (ground (arith, hm, hp))

answer_below-defined : (fs : Files) (p : List ℕ) → answer_below fs (get p) ≢ undefined
unfolding answer_below serve_below serve_resolved send_file
answer_below-defined fs p h = ground (arith, h)

-- A request has a method of at most 7 bytes and a path of at most 255, which fit their arrays: what
-- webserver.c does is defined; a method other than `GET` gets the error 405; and the contents of a file
-- are sent only if its path is the resolved `./www` or lies behind it and a slash.
pub handle_request-IsUnder :
    (fs : Files) (request m p : List ℕ) (more : List (List ℕ))
    → request ≢ []
    → strtok is_space (until_zero request) ≡ m ∷ p ∷ more
    → length m ≤ 7
    → length p ≤ 255
    → (handle_request fs request ≢ undefined)
      × (m ≢ codes "GET" → handle_request fs request ≡ method_not_allowed)
      × ((path body : List ℕ)
          → handle_request fs request ≡ served path body
          → (base : List ℕ) × (fs.realpath (codes "./www") ≡ some base)
            × IsUnder base path
            × (fs.contents path ≡ some body))
unfolding handle_request
handle_request-IsUnder fs [] m p more ne e hm hp = absurd (ne refl)
handle_request-IsUnder fs (c ∷ request) m p more ne e hm hp =
    let scanned = scan_request-words (c ∷ request) m p more e hm hp in
    elim (Bool-cases (str_eq m (codes "GET"))) [
      | inl is_get ↦
          rw (scanned, is_get)
            (
              answer_below-defined fs p,
              λ other. absurd (other ((str_eq_iff m (codes "GET")).0 is_get)),
              λ path body h. answer_below-IsUnder fs path body (get p) h,
            )
      | inr other ↦ rw (scanned, other) (ground arith)
    ]

-- The two servers part on a `GET` of a path, short enough for the buffer, that names a file that
-- can be read and resolves to a place outside the base: webserver.c answers 403, and webserver-
-- mt.c, which does not resolve the path, sends the file.
pub servers_differ :
    (fs : Files) (request p base outside body : List ℕ)
    → request ≢ []
    → scan_request request ≡ get p
    → length (full_path p) ≤ 511
    → fs.realpath (codes "./www") ≡ some base
    → fs.realpath (full_path p) ≡ some outside
    → is_below base outside ≡ false
    → fs.contents (full_path p) ≡ some body
    → (handle_request fs request ≡ forbidden)
      × (handle_request_mt fs request ≡ served (full_path p) body)
unfolding handle_request handle_request_mt answer_below answer_unchecked serve_below serve_resolved
    send_file
servers_differ fs [] p base outside body ne s short b r out c = absurd (ne refl)
servers_differ fs (x ∷ xs) p base outside body ne s short b r out c =
    (ground (arith, s, b, r, out), ground (arith, s, c, take-all 511 (full_path p) short))
