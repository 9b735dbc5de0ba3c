-- ===== src/ResponseWriter/Recorded.antt =====
-- What the writer of internal/server/middleware.go records of a response, and what it passes on.
use maboo.Base.{
  ℕ, ◌+◌, ◌≤◌, ◌≡◌, refl, ap, sym, ◌∙◌, ◌||◌, String, Bool, true, false, List, [], ◌∷◌, ◌++◌,
  if◌then◌else◌, arith,
}
use mathlib.Core.List.{append_assoc, append-nil}
use maboo.ResponseWriter.{
  HeaderCall, early_hints, final_status, body_bytes, ResponseWriter, reset, write_header, write,
  send_hints, send_status, Use, header, status, body, use_once, use_all,
}

-- How many statuses and early hints were passed on.
unfoldable pub finals : List HeaderCall → ℕ
finals [] = 0
finals (early_hints ∷ cs) = finals cs
finals (final_status code ∷ cs) = 1 + finals cs
finals (body_bytes b ∷ cs) = finals cs

unfoldable pub hints : List HeaderCall → ℕ
hints [] = 0
hints (early_hints ∷ cs) = 1 + hints cs
hints (final_status code ∷ cs) = hints cs
hints (body_bytes b ∷ cs) = hints cs

-- The first status that is passed on before the body, or 200, which net/http takes where there is none.
unfoldable pub sent_status : List HeaderCall → ℕ
sent_status [] = 200
sent_status (early_hints ∷ cs) = sent_status cs
sent_status (final_status code ∷ cs) = code
sent_status (body_bytes b ∷ cs) = 200

-- Whether the response has begun.
unfoldable begun : List HeaderCall → Bool
begun [] = false
begun (early_hints ∷ cs) = begun cs
begun (final_status code ∷ cs) = true
begun (body_bytes b ∷ cs) = true

-- The body that is passed on, and the one that the handler writes.
unfoldable pub sent_body : List HeaderCall → List ℕ
sent_body [] = []
sent_body (early_hints ∷ cs) = sent_body cs
sent_body (final_status code ∷ cs) = sent_body cs
sent_body (body_bytes b ∷ cs) = b ++ sent_body cs

unfoldable pub used_body : List Use → List ℕ
used_body [] = []
used_body (header links ∷ us) = used_body us
used_body (status code ∷ us) = used_body us
used_body (body b ∷ us) = b ++ used_body us

-- The status that a handler asks for: the first one that is set before the body, or 200.
unfoldable pub first_status : List Use → ℕ
first_status [] = 200
first_status (header links ∷ us) = first_status us
first_status (status code ∷ us) = code
first_status (body b ∷ us) = 200

-- The bytes that the wrapped writer took.
unfoldable pub taken : (List ℕ → ℕ × Bool) → List Use → ℕ
taken written [] = 0
taken written (header links ∷ us) = taken written us
taken written (status code ∷ us) = taken written us
taken written (body b ∷ us) = (written b).0 + taken written us

finals-append : (cs ds : List HeaderCall) → finals (cs ++ ds) ≡ finals cs + finals ds
unfolding finals
finals-append [] ds = omega arith
finals-append (early_hints ∷ cs) ds = finals-append cs ds
finals-append (final_status code ∷ cs) ds = ground (arith, finals-append cs ds)
finals-append (body_bytes b ∷ cs) ds = finals-append cs ds

hints-append : (cs ds : List HeaderCall) → hints (cs ++ ds) ≡ hints cs + hints ds
unfolding hints
hints-append [] ds = omega arith
hints-append (early_hints ∷ cs) ds = ground (arith, hints-append cs ds)
hints-append (final_status code ∷ cs) ds = hints-append cs ds
hints-append (body_bytes b ∷ cs) ds = hints-append cs ds

begun-append : (cs ds : List HeaderCall) → begun (cs ++ ds) ≡ (begun cs || begun ds)
unfolding begun
begun-append [] ds = refl
begun-append (early_hints ∷ cs) ds = begun-append cs ds
begun-append (final_status code ∷ cs) ds = refl
begun-append (body_bytes b ∷ cs) ds = refl

sent_status-append :
    (cs ds : List HeaderCall)
    → sent_status (cs ++ ds) ≡ (if begun cs then sent_status cs else sent_status ds)
unfolding begun sent_status
sent_status-append [] ds = refl
sent_status-append (early_hints ∷ cs) ds = sent_status-append cs ds
sent_status-append (final_status code ∷ cs) ds = refl
sent_status-append (body_bytes b ∷ cs) ds = refl

sent_body-append : (cs ds : List HeaderCall) → sent_body (cs ++ ds) ≡ sent_body cs ++ sent_body ds
unfolding sent_body
sent_body-append [] ds = refl
sent_body-append (early_hints ∷ cs) ds = sent_body-append cs ds
sent_body-append (final_status code ∷ cs) ds = sent_body-append cs ds
sent_body-append (body_bytes b ∷ cs) ds =
    ap (λ bytes. b ++ bytes) (sent_body-append cs ds)
    ∙ sym (append_assoc b (sent_body cs) (sent_body ds))

-- What is recorded is what was passed on.
record Told (rw : ResponseWriter) : Type 0 where
  opened : begun rw.calls ≡ rw.wrote_header
  blank : rw.wrote_header ≡ false → rw.status_code ≡ 200
  same : sent_status rw.calls ≡ rw.status_code

Told-use_once :
    (written : List ℕ → ℕ × Bool) (u : Use) (rw : ResponseWriter)
    → Told rw
    → Told (use_once written u rw)
unfolding use_once write_header send_hints send_status write begun sent_status
Told-use_once written (header links) rw t = record {
  opened = t.opened;
  blank = t.blank;
  same = t.same;
}
Told-use_once written (status code) rw t =
    let b = begun-append rw.calls (early_hints ∷ []) in
    let s = sent_status-append rw.calls (early_hints ∷ []) in
    let b' = begun-append rw.calls (final_status code ∷ []) in
    let s' = sent_status-append rw.calls (final_status code ∷ []) in
    let b2 = begun-append (rw.calls ++ early_hints ∷ []) (final_status code ∷ []) in
    let s2 = sent_status-append (rw.calls ++ early_hints ∷ []) (final_status code ∷ []) in
    record {
      opened = ground (arith, t.opened, b, b', b2);
      blank = λ h. ground (arith, t.blank, h);
      same = ground (arith, t.opened, t.blank, t.same, b, s, s', s2);
    }
Told-use_once written (body bytes) rw t =
    let b = begun-append rw.calls (body_bytes bytes ∷ []) in
    let s = sent_status-append rw.calls (body_bytes bytes ∷ []) in
    record {
      opened = ground (arith, t.opened, b);
      blank = λ h. ground (arith, h);
      same = ground (arith, t.opened, t.blank, t.same, s);
    }

Told-use_all :
    (written : List ℕ → ℕ × Bool) (us : List Use) (rw : ResponseWriter)
    → Told rw
    → Told (use_all written us rw)
unfolding use_all
Told-use_all written [] rw t = t
Told-use_all written (u ∷ us) rw t =
    Told-use_all written us (use_once written u rw) (Told-use_once written u rw t)

sent_body-use_once :
    (written : List ℕ → ℕ × Bool) (u : Use) (rw : ResponseWriter)
    → sent_body (use_once written u rw).calls ≡ sent_body rw.calls ++ used_body (u ∷ [])
unfolding use_once write_header send_hints send_status write sent_body used_body
sent_body-use_once written (header links) rw = sym (append-nil (sent_body rw.calls))
sent_body-use_once written (status code) rw = ground (
  arith,
  append-nil (sent_body rw.calls),
  sent_body-append rw.calls (early_hints ∷ []),
  sent_body-append rw.calls (final_status code ∷ []),
  sent_body-append (rw.calls ++ early_hints ∷ []) (final_status code ∷ []),
)
sent_body-use_once written (body b) rw = sent_body-append rw.calls (body_bytes b ∷ [])

used_body-cons : (u : Use) (us : List Use) → used_body (u ∷ us) ≡ used_body (u ∷ []) ++ used_body us
unfolding used_body
used_body-cons (header links) us = refl
used_body-cons (status code) us = refl
used_body-cons (body b) us = ap (λ bytes. bytes ++ used_body us) (sym (append-nil b))

use_all-body :
    (written : List ℕ → ℕ × Bool) (us : List Use) (rw : ResponseWriter)
    → sent_body (use_all written us rw).calls ≡ sent_body rw.calls ++ used_body us
unfolding use_all used_body
use_all-body written [] rw = sym (append-nil (sent_body rw.calls))
use_all-body written (u ∷ us) rw =
    use_all-body written us (use_once written u rw)
    ∙ ap (λ bytes. bytes ++ used_body us) (sent_body-use_once written u rw)
    ∙ append_assoc (sent_body rw.calls) (used_body (u ∷ [])) (used_body us)
    ∙ ap (λ bytes. sent_body rw.calls ++ bytes) (sym (used_body-cons u us))

-- One status at most, once the header is written; one early hint at most.
record Once (rw : ResponseWriter) : Type 0 where
  statuses : finals rw.calls ≤ (if rw.wrote_header then 1 else 0)
  hinted : hints rw.calls ≤ (if rw.hints_sent then 1 else 0)

Once-use_once :
    (written : List ℕ → ℕ × Bool) (u : Use) (rw : ResponseWriter)
    → Once rw
    → Once (use_once written u rw)
unfolding use_once write_header send_hints send_status write finals hints
Once-use_once written (header links) rw o = record { statuses = o.statuses; hinted = o.hinted }
Once-use_once written (status code) rw o =
    let f = finals-append rw.calls (early_hints ∷ []) in
    let h = hints-append rw.calls (early_hints ∷ []) in
    let f' = finals-append rw.calls (final_status code ∷ []) in
    let h' = hints-append rw.calls (final_status code ∷ []) in
    let f2 = finals-append (rw.calls ++ early_hints ∷ []) (final_status code ∷ []) in
    let h2 = hints-append (rw.calls ++ early_hints ∷ []) (final_status code ∷ []) in
    record {
      statuses = ground (arith, o.statuses, f, f', f2);
      hinted = ground (arith, o.hinted, h, h', h2);
    }
Once-use_once written (body b) rw o = record {
  statuses = ground (arith, o.statuses, finals-append rw.calls (body_bytes b ∷ []));
  hinted = ground (arith, o.hinted, hints-append rw.calls (body_bytes b ∷ []));
}

Once-use_all :
    (written : List ℕ → ℕ × Bool) (us : List Use) (rw : ResponseWriter)
    → Once rw
    → Once (use_all written us rw)
unfolding use_all
Once-use_all written [] rw o = o
Once-use_all written (u ∷ us) rw o =
    Once-use_all written us (use_once written u rw) (Once-use_once written u rw o)

-- Once the header is written the status stays.
use_all-fixed :
    (written : List ℕ → ℕ × Bool) (us : List Use) (rw : ResponseWriter)
    → rw.wrote_header ≡ true
    → (use_all written us rw).status_code ≡ rw.status_code
unfolding use_all use_once write_header send_hints send_status write
use_all-fixed written [] rw w = refl
use_all-fixed written (header links ∷ us) rw w =
    use_all-fixed written us (record rw { links = links }) w
use_all-fixed written (status code ∷ us) rw w =
    use_all-fixed written us (write_header code rw) (ground (arith, w)) ∙ ground (arith, w)
use_all-fixed written (body b ∷ us) rw w =
    use_all-fixed written us (write written b rw).0 refl ∙ ground (arith, w)

use_all-status :
    (written : List ℕ → ℕ × Bool) (us : List Use) (rw : ResponseWriter)
    → rw.status_code ≡ 200
    → rw.wrote_header ≡ false
    → (use_all written us rw).status_code ≡ first_status us
unfolding use_all use_once first_status write_header send_hints send_status write
use_all-status written [] rw s w = s
use_all-status written (header links ∷ us) rw s w =
    use_all-status written us (record rw { links = links }) s w
use_all-status written (status code ∷ us) rw s w =
    use_all-fixed written us (write_header code rw) (ground (arith, w)) ∙ ground (arith, w)
use_all-status written (body b ∷ us) rw s w =
    use_all-fixed written us (write written b rw).0 refl ∙ ground (arith, w)

use_all-bytes :
    (written : List ℕ → ℕ × Bool) (us : List Use) (rw : ResponseWriter)
    → (use_all written us rw).bytes_written ≡ rw.bytes_written + taken written us
unfolding use_all use_once taken write_header send_hints send_status write
use_all-bytes written [] rw = omega arith
use_all-bytes written (header links ∷ us) rw =
    use_all-bytes written us (record rw { links = links })
use_all-bytes written (status code ∷ us) rw =
    use_all-bytes written us (write_header code rw) ∙ ground arith
use_all-bytes written (body b ∷ us) rw =
    use_all-bytes written us (write written b rw).0 ∙ omega arith

-- Whatever a handler does, the status that is logged is the one that is passed on to the wrapped writer
-- before the body, or 200 where none is, and that is the first one that the handler sets before the
-- body, or 200; the body is passed on as the handler writes it and the size that is logged is what the wrapped writer took of it; and
-- at most one status and one early hint are passed on.
pub recorded_lem :
    (written : List ℕ → ℕ × Bool) (links : List String) (us : List Use)
    → let rw = use_all written us (reset links) in
      (rw.status_code ≡ sent_status rw.calls)
      × (rw.status_code ≡ first_status us)
      × (sent_body rw.calls ≡ used_body us)
      × (rw.bytes_written ≡ taken written us)
      × (finals rw.calls ≤ 1)
      × (hints rw.calls ≤ 1)
unfolding reset finals hints begun sent_status sent_body
recorded_lem written links us =
    let told =
      Told-use_all written us (reset links)
        (record { opened = refl; blank = λ h. refl; same = refl }) in
    let o =
      Once-use_all written us (reset links)
        (record { statuses = omega arith; hinted = omega arith }) in
    (
      sym told.same,
      use_all-status written us (reset links) refl refl,
      use_all-body written us (reset links),
      use_all-bytes written us (reset links) ∙ omega arith,
      ground (arith, o.statuses),
      ground (arith, o.hinted),
    )
