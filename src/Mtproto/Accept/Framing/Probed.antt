-- ===== src/Mtproto/Accept/Framing/Probed.antt =====
-- internal/mtproto/preflight.go and internal/discovery/discovery.go: which sockets are discovery requests.
use telegram_server.Common.{
  ℕ, zero, suc, ◌+◌, ◌≡◌, ◌↔◌, refl, sym, ap, ◌∙◌, Bool, true, false, some, [], ◌∷◌, ◌++◌, length,
  length-append, is_empty, ==_refl, ◌==◌, ◌!=◌, Bool-cases, if_lem, inl, inr, arith,
}
use mathlib.Core.List.{append_assoc, append-nil}
use telegram_server.Common.Text.{Text}
use telegram_server.Discovery.{request_magic, nonce_size, build_request}
use telegram_server.Mtproto.Accept.Framing.{
  read_full, Probe, matched, malformed, passes, breaks, probe_nonce, probe_magic, probe_preflight,
}
use telegram_server.Mtproto.Accept.Framing.Replayed.{read_full-stream}

-- A stream that a probe hands on or closes with an error.
abbrev pub IsReplay : Text → Probe → Type 0
IsReplay bytes (passes s) = s ≡ bytes
IsReplay bytes (breaks s) = s ≡ bytes
IsReplay bytes malformed = Unit
IsReplay bytes (matched nonce) = Unit

nonce-IsReplay :
    (whole bytes : Text) (expired eof : Bool) → IsReplay whole (probe_nonce bytes expired eof)
unfolding probe_nonce
nonce-IsReplay whole bytes expired eof = ground arith

magic-IsReplay :
    (magic read bytes : Text) (expired eof : Bool)
    → IsReplay (read ++ bytes) (probe_magic magic read bytes expired eof)
unfolding probe_magic
magic-IsReplay [] read bytes expired eof = nonce-IsReplay (read ++ bytes) bytes expired eof
magic-IsReplay (m ∷ magic) read [] expired eof = sym (append-nil read)
magic-IsReplay (m ∷ magic) read (c ∷ bytes) expired eof =
    let more = magic-IsReplay magic (read ++ c ∷ []) bytes expired eof in
    let whole = append_assoc read (c ∷ []) bytes in
    if_lem (IsReplay (read ++ c ∷ bytes)) (c == m) (λ _. rw (← whole) more) (λ _. refl)

nil_of : (s : Text) → is_empty s ≡ true → s ≡ []
nil_of [] h = refl
nil_of (c ∷ s) h = cc

read_all :
    (n : ℕ) (head rest : Text)
    → length rest ≡ n
    → read_full n head rest ≡ record { head = head ++ rest; rest = []; full = true }
unfolding read_full
read_all zero head [] h = rw append-nil refl
read_all zero head (c ∷ rest) h = absurd (omega arith)
read_all (suc n) head [] h = absurd (omega arith)
read_all (suc n) head (c ∷ rest) h =
    read_all n (head ++ c ∷ []) rest (omega arith)
    ∙ ap (λ t. record { head = t; rest = []; full = true }) (append_assoc head (c ∷ []) rest)

exact_head :
    (n : ℕ) (head rest : Text)
    → (read_full n head rest).full ≡ true
    → length (read_full n head rest).head ≡ length head + n
unfolding read_full
exact_head zero head rest f = omega arith
exact_head (suc n) head [] f = cc
exact_head (suc n) head (c ∷ rest) f =
    omega (arith, exact_head n (head ++ c ∷ []) rest f, length-append head (c ∷ []))

-- A nonce that is accepted is all that came, of its length, in time and before EOF.
nonce_inv :
    (bytes nonce : Text) (expired eof : Bool)
    → probe_nonce bytes expired eof ≡ matched nonce
    → (bytes ≡ nonce) × (length nonce ≡ nonce_size) × (expired ≡ false) × (eof ≡ true)
unfolding probe_nonce
nonce_inv bytes nonce expired eof e =
    let r = read_full nonce_size [] bytes in
    elim (Bool-cases r.full) [
      | inr f ↦ absurd (ground (arith, rw (f, probe_nonce) at e))
      | inl f ↦ elim (Bool-cases (is_empty r.rest)) [
        | inr m ↦ absurd (ground (arith, rw (f, m, probe_nonce) at e))
        | inl m ↦
            let e' = rw (f, m, probe_nonce) at e in
            let got : r.head ≡ nonce = ground (arith, e') in
            let none_left : r.rest ≡ [] = nil_of (r.rest) m in
            (
              sym (read_full-stream nonce_size [] bytes)
                  ∙ ap (λ t. r.head ++ t) none_left
                  ∙ append-nil r.head
                  ∙ got,
              sym (ap length got) ∙ exact_head nonce_size [] bytes f,
              ground (arith, e'),
              ground (arith, e'),
            )
      ]
    ]

cons-split :
    (magic read bytes nonce : Text) (m c : ℕ) (expired eof : Bool)
    → probe_magic (m ∷ magic) read (c ∷ bytes) expired eof ≡ matched nonce
    → (c ≡ m) × (probe_magic magic (read ++ c ∷ []) bytes expired eof ≡ matched nonce)
unfolding probe_magic
cons-split magic read bytes nonce m c expired eof e = elim (Bool-cases (c == m)) [
  | inl q ↦ (ground (arith, q), rw (q, probe_magic) at e)
  | inr q ↦ absurd (ground (arith, rw (q, probe_magic) at e))
]

magic_inv :
    (magic read bytes nonce : Text) (expired eof : Bool)
    → probe_magic magic read bytes expired eof ≡ matched nonce
    → (rest : Text) × (bytes ≡ magic ++ rest) × (probe_nonce rest expired eof ≡ matched nonce)
unfolding probe_magic
magic_inv [] read bytes nonce expired eof e = (bytes, refl, e)
magic_inv (m ∷ magic) read [] nonce expired eof e = cc
magic_inv (m ∷ magic) read (c ∷ bytes) nonce expired eof e =
    let (same, more) = cons-split magic read bytes nonce m c expired eof e in
    let (rest, at, found) = magic_inv magic (read ++ c ∷ []) bytes nonce expired eof more in
    (rest, cc (same, at), found)

magic_along :
    (magic read rest : Text) (expired eof : Bool)
    → probe_magic magic read (magic ++ rest) expired eof ≡ probe_nonce rest expired eof
unfolding probe_magic
magic_along [] read rest expired eof = refl
magic_along (m ∷ magic) read rest expired eof =
    rw (==_refl m) (magic_along magic (read ++ m ∷ []) rest expired eof)

nonce_all :
    (nonce : Text) → length nonce ≡ nonce_size → probe_nonce nonce false true ≡ matched nonce
unfolding probe_nonce
nonce_all nonce h = rw (read_all nonce_size [] nonce h)

request_inv :
    (nonce bytes : Text)
    → build_request nonce ≡ some bytes
    → (length nonce ≡ nonce_size) × (bytes ≡ request_magic ++ nonce)
unfolding build_request
request_inv nonce bytes e = elim (Bool-cases (length nonce != nonce_size)) [
  | inl n ↦ absurd (ground (arith, rw (n, build_request) at e))
  | inr n ↦ (ground (arith, n), cc (rw (n, build_request) at e))
]

request_made :
    (nonce : Text) → length nonce ≡ nonce_size → build_request nonce ≡ some (request_magic ++ nonce)
unfolding build_request
request_made nonce h = let n : (length nonce != nonce_size) ≡ false = ground (arith, h) in rw n

probe_inv :
    (bytes nonce : Text) (expired eof : Bool)
    → probe_preflight bytes expired eof ≡ matched nonce
    → (build_request nonce ≡ some bytes) × (expired ≡ false) × (eof ≡ true)
unfolding probe_preflight
probe_inv bytes nonce expired eof e =
    let (rest, at, found) = magic_inv request_magic [] bytes nonce expired eof e in
    let (all, size, in_time, ends) = nonce_inv rest nonce expired eof found in
    (request_made nonce size ∙ ap some (sym (at ∙ ap (λ t. request_magic ++ t) all)), in_time, ends)

request-probe :
    (bytes nonce : Text) (expired eof : Bool)
    → (build_request nonce ≡ some bytes) × (expired ≡ false) × (eof ≡ true)
    → probe_preflight bytes expired eof ≡ matched nonce
unfolding probe_preflight
request-probe bytes nonce expired eof (made, in_time, ends) =
    let (size, at) = request_inv nonce bytes made in
    rw (at, in_time, ends) (magic_along request_magic [] nonce false true ∙ nonce_all nonce size)

-- The probe takes a socket for a discovery request with some nonce exactly if what the socket delivers, up
-- to its EOF and before the deadline, is the request that is built for that nonce; and a stream that the
-- probe hands on for the codecs, or returns with an error before the magic has ended, still has every byte
-- of the socket.
pub probe_preflight_lem :
    (bytes nonce : Text) (expired eof : Bool)
    → ((probe_preflight bytes expired eof ≡ matched nonce)
        ↔ ((build_request nonce ≡ some bytes) × (expired ≡ false) × (eof ≡ true)))
      × IsReplay bytes (probe_preflight bytes expired eof)
probe_preflight_lem bytes nonce expired eof = (
  (probe_inv bytes nonce expired eof, request-probe bytes nonce expired eof),
  unfold probe_preflight in magic-IsReplay request_magic [] bytes expired eof,
)
