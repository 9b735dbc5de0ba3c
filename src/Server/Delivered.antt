-- ===== src/Server/Delivered.antt =====
-- What the client gets of an answer of PHP through the middleware of internal/server.
use maboo.Base.{
  ℕ, ◌≡◌, refl, ap, ◌∙◌, String, Bool, true, false, List, [], ◌∷◌, ◌++◌, str_eq, if◌then◌else◌,
  arith, Bool-cases, inl, inr,
}
use maboo.Base.Dict.{Dict, insert}
use maboo.Compress
use maboo.Compress.{
  Call, CompressWriter, write_header, write, Op, set_header, status, body, is_blank, run, op, close,
  reset, write_header_to, write_to,
}
use maboo.ResponseWriter
use maboo.ResponseWriter.{ResponseWriter, has_hint}
use maboo.Server.Middleware.{core_ops, core_op, passed_on}
use maboo.Server.Router.{set_headers}
use maboo.Server.Stack.{direct}
use maboo.Server.Http.{canonical_name}

-- The Link header after some headers were set.
abbrev pub links_after : Dict String → List String → List String
links_after [] links = links
links_after ((name, value) ∷ headers) links =
    links_after headers (if str_eq (canonical_name name) "Link" then value ∷ [] else links)

-- Whether a response has a link that is sent as an early hint: the one of its Link headers, in any
-- spelling, that is set last.
unfoldable pub hinted : Dict String → Bool
hinted headers = has_hint (links_after headers [])

-- The hint, if there is one, then the response.
abbrev pub hint_first : Bool → List Op → List Op
hint_first b os = if b then status 103 ∷ os else os

pub core_ops-set_headers :
    (written : List ℕ → ℕ × Bool) (headers : Dict String) (os : List Op) (w : ResponseWriter)
    → (core_ops written (set_headers headers ++ os) w).1
      ≡ set_headers headers
        ++ (core_ops written os (record w { links = links_after headers w.links })).1
unfolding core_ops core_op set_headers
core_ops-set_headers written [] os w = refl
core_ops-set_headers written ((name, value) ∷ headers) os w =
    elim (Bool-cases (str_eq (canonical_name name) "Link")) [
      | inl e ↦ rw e (
          ap (λ l. set_header (canonical_name name) value ∷ l)
            (core_ops-set_headers written headers os (record w { links = value ∷ [] })))
      | inr e ↦ rw e (
          ap (λ l. set_header (canonical_name name) value ∷ l)
            (core_ops-set_headers written headers os w))
    ]

pub core_ops-response :
    (written : List ℕ → ℕ × Bool) (links : List String) (code : ℕ) (b : List ℕ)
    → (core_ops written
        (status code ∷ body b ∷ [])
        (record (ResponseWriter.reset []) { links = links })).1
      ≡ hint_first (has_hint links) (status code ∷ body b ∷ [])
unfolding core_ops core_op passed_on ResponseWriter.reset ResponseWriter.write_header
    ResponseWriter.write
core_ops-response written links code b = elim (Bool-cases (has_hint links)) [
  | inl e ↦ rw e refl
  | inr e ↦ rw e refl
]

run-set_headers :
    (g : List ℕ → ℕ × Bool) (headers : Dict String) (os : List Op) (cw : CompressWriter)
    → (h : Dict String) × (run g (set_headers headers ++ os) cw
        ≡ run g os (record cw { headers = h }))
unfolding run op set_headers
run-set_headers g [] os cw = (cw.headers, refl)
run-set_headers g ((name, value) ∷ headers) os cw =
    run-set_headers g headers os
      (record cw { headers = insert (canonical_name name) value cw.headers })

-- What goes out where the status was sent before the body.
abbrev pub body_call : List ℕ → List Call
body_call b = if is_blank b then [] else write b ∷ []

settled :
    (g : List ℕ → ℕ × Bool) (h : Dict String) (hint : Bool) (code : ℕ) (b : List ℕ)
    → (close (run g (hint_first hint (status code ∷ body b ∷ [])) (reset h))).calls
      ≡ write_header (if hint then 103 else code) ∷ body_call b
unfolding run op reset close write_header_to write_to
settled g h true code [] = refl
settled g h false code [] = refl
settled g h true code (x ∷ xs) = ground arith
settled g h false code (x ∷ xs) = ground arith

pub serve-settled :
    (g : List ℕ → ℕ × Bool) (h headers : Dict String) (hint : Bool) (code : ℕ) (b : List ℕ)
    → (Compress.serve g h
        (set_headers headers ++ hint_first hint (status code ∷ body b ∷ []))).calls
      ≡ write_header (if hint then 103 else code) ∷ body_call b
unfolding Compress.serve reset
serve-settled g h headers hint code b =
    let (h', e) =
      run-set_headers g headers (hint_first hint (status code ∷ body b ∷ [])) (reset h) in
    ap (λ cw. (close cw).calls) e ∙ settled g h' hint code b

pub direct-set_headers :
    (headers : Dict String) (os : List Op) → direct (set_headers headers ++ os) ≡ direct os
unfolding direct set_headers
direct-set_headers [] os = refl
direct-set_headers ((name, value) ∷ headers) os = direct-set_headers headers os
