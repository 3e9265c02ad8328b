-- ===== src/Api/DialogFilterSync/Fifo.antt =====
-- internal/api/dialog_filter_sync.go: the recovery queue is a first-in-first-out queue of distinct
-- connections.
use telegram_server.Common.{
  ℕ, zero, suc, ◌+◌, ◌-◌, ◌*◌, ◌≤◌, ◌<◌, ◌≡◌, refl, sym, ap, ◌∙◌, min, true, false, ◌&&◌, Option,
  none, some, List, [], ◌∷◌, ◌++◌, map, leb, ◌==◌, if◌then◌else◌, length, get_or, set, take, drop,
  arith, length-append, length-set, Bool-cases, inl, inr,
}
use telegram_server.Api.DialogFilterSync.Queue.{
  RecoveryQueue, new_queue, contains, remove, enqueue, take_one, take_loop, compact,
  take_candidates,
}

abbrev pub Distinct : List ℕ → Type 0
Distinct [] = Unit {0}
Distinct (x ∷ xs) = (contains xs x ≡ false) × Distinct xs

-- The queue stands for the connections `xs`, the next one first.
pub record IsView (q : RecoveryQueue) (xs : List ℕ) : Type 0 where
  pub room : q.head ≤ length q.entries
  pub entries : drop q.head q.entries ≡ map (λ c. some c) xs
  pub members : (c : ℕ) → contains q.queued c ≡ contains xs c
  pub distinct : Distinct xs

drop-append {ℓ} :
    {A : Type ℓ} (n : ℕ) (xs ys : List A) → n ≤ length xs → drop n (xs ++ ys) ≡ drop n xs ++ ys
drop-append zero xs ys h = refl
drop-append (suc n) [] ys h = absurd (omega arith)
drop-append (suc n) (x ∷ xs) ys h = drop-append n xs ys (omega arith)

length-drop {ℓ} : {A : Type ℓ} (n : ℕ) (xs : List A) → length (drop n xs) ≡ length xs - n
length-drop zero xs = omega arith
length-drop (suc n) [] = omega arith
length-drop (suc n) (x ∷ xs) = omega (arith, length-drop n xs)

length-map-some : (xs : List ℕ) → length (map (λ c. some c) xs) ≡ length xs
length-map-some [] = refl
length-map-some (x ∷ xs) = ap suc (length-map-some xs)

contains-snoc :
    (xs : List ℕ) (c d : ℕ) → contains (xs ++ c ∷ []) d ≡ (if c == d then true else contains xs d)
unfolding contains
contains-snoc [] c d = refl
contains-snoc (x ∷ xs) c d = ground (arith, contains-snoc xs c d)

Distinct-snoc :
    (xs : List ℕ) (c : ℕ) → Distinct xs → contains xs c ≡ false → Distinct (xs ++ c ∷ [])
unfolding contains
Distinct-snoc [] c d h = (refl, tt)
Distinct-snoc (x ∷ xs) c d h =
    (ground (arith, contains-snoc xs c x), Distinct-snoc xs c d.1 (ground arith))

contains-remove :
    (xs : List ℕ) (c d : ℕ) → contains (remove xs c) d ≡ (if c == d then false else contains xs d)
unfolding contains remove
contains-remove [] c d = ground arith
contains-remove (x ∷ xs) c d = ground (arith, contains-remove xs c d)

map-snoc :
    (xs : List ℕ) (c : ℕ) → map (λ x. some x) (xs ++ c ∷ []) ≡ map (λ x. some x) xs ++ some c ∷ []
map-snoc [] c = refl
map-snoc (x ∷ xs) c = ap (◌∷◌ (some x)) (map-snoc xs c)

-- A connection joins the end, unless it waits already.
enqueue-IsView :
    (q : RecoveryQueue) (xs : List ℕ) (c : ℕ)
    → IsView q xs
    → IsView (enqueue q c) (if contains xs c then xs else xs ++ c ∷ [])
enqueue-IsView q xs c v = elim (Bool-cases (contains xs c)) [
  | inl old ↦ rw old (unfold enqueue in rw (v.members c ∙ old) v)
  | inr new ↦ rw new (
      unfold enqueue in
      rw (v.members c ∙ new) (record {
        room = omega (arith, length-append {0} q.entries, v.room);
        entries =
            drop-append q.head q.entries _ v.room
            ∙ ap (λ (t : List (Option ℕ)). t ++ some c ∷ []) v.entries
            ∙ sym (map-snoc xs c);
        members = λ d. unfold contains in ground (arith, v.members d, contains-snoc xs c d);
        distinct = Distinct-snoc xs c v.distinct new;
      }))
]

drop_head :
    (es : List (Option ℕ)) (n c : ℕ) (rest : List (Option ℕ))
    → drop n es ≡ some c ∷ rest
    → (get_or es n none ≡ some c) × (drop (suc n) (set es n none) ≡ rest) × (n < length es)
drop_head [] zero c rest e = cc
drop_head [] (suc n) c rest e = cc
drop_head (x ∷ es) zero c rest e = ground arith
drop_head (x ∷ es) (suc n) c rest e = let (a, b, d) = drop_head es n c rest e in (a, b, omega arith)

member_after :
    (q : RecoveryQueue) (c : ℕ) (xs : List ℕ)
    → IsView q (c ∷ xs)
    → (d : ℕ) → contains (remove q.queued c) d ≡ contains xs d
member_after q c xs v d = elim (Bool-cases (c == d)) [
  | inl same ↦
      let e : c ≡ d = ground arith in
      contains-remove q.queued c d ∙ rw (same, ← e) (sym v.distinct.0)
  | inr other ↦
      contains-remove q.queued c d ∙ rw other (v.members d ∙ unfold contains in rw other refl)
]

take_one-IsView :
    (q : RecoveryQueue) (c : ℕ) (xs : List ℕ)
    → IsView q (c ∷ xs)
    → IsView (take_one q).0 xs × ((take_one q).1 ≡ some c)
take_one-IsView q c xs v =
    let (a, b, d) = drop_head q.entries q.head c (map (λ x. some x) xs) v.entries in
    unfold take_one in
    rw a (
      record {
        room = omega (arith, length-set q.entries q.head none);
        entries = let e : q.head + 1 ≡ suc q.head = omega arith in rw e b;
        members = λ d. member_after q c xs v d;
        distinct = v.distinct.1;
      },
      refl,
    )

take_loop-IsView :
    (n : ℕ) (q : RecoveryQueue) (xs : List ℕ)
    → IsView q xs
    → n ≤ length xs
    → IsView (take_loop n q).0 (drop n xs) × ((take_loop n q).1 ≡ take n xs)
unfolding take_loop
take_loop-IsView zero q xs v h = (v, refl)
take_loop-IsView (suc n) q [] v h = absurd (omega arith)
take_loop-IsView (suc n) q (x ∷ xs) v h =
    let (v', e) = take_one-IsView q x xs v in
    let (v'', e') = take_loop-IsView n (take_one q).0 xs v' (omega arith) in
    rw e (v'', ap (◌∷◌ x) e')

drop-drop_zero {ℓ} : {A : Type ℓ} (n : ℕ) (xs : List A) → n ≡ length xs → drop n xs ≡ []
drop-drop_zero zero [] h = refl
drop-drop_zero zero (x ∷ xs) h = absurd (omega arith)
drop-drop_zero (suc n) [] h = refl
drop-drop_zero (suc n) (x ∷ xs) h = drop-drop_zero n xs (omega arith)

-- Compaction does not change what the queue stands for.
compact-IsView : (q : RecoveryQueue) (xs : List ℕ) → IsView q xs → IsView (compact q) xs
compact-IsView q xs v = elim (Bool-cases (q.head == length q.entries)) [
  | inl full ↦
      unfold compact in
      rw full (record {
        room = omega arith;
        entries = sym (drop-drop_zero q.head q.entries (ground arith)) ∙ v.entries;
        members = v.members;
        distinct = v.distinct;
      })
  | inr more ↦
      unfold compact in
      rw more (elim (Bool-cases (leb 256 q.head && leb (length q.entries) (q.head * 2))) [
        | inl half ↦ rw half (record {
          room = omega arith;
          entries = v.entries;
          members = v.members;
          distinct = v.distinct;
        })
        | inr less ↦ rw less v
      ])
]

-- Taking or dropping more than there is.
min_lem {ℓ} :
    {A : Type ℓ} (k n : ℕ) (xs : List A)
    → k ≡ min n (length xs)
    → (drop k xs ≡ drop n xs) × (take k xs ≡ take n xs)
min_lem zero zero xs e = (refl, refl)
min_lem zero (suc n) [] e = (refl, refl)
min_lem zero (suc n) (x ∷ xs) e = absurd (omega arith)
min_lem (suc k) zero xs e = absurd (omega arith)
min_lem (suc k) (suc n) [] e = absurd (omega arith)
min_lem (suc k) (suc n) (x ∷ xs) e = let (a, b) = min_lem k n xs (omega arith) in (a, ap (◌∷◌ x) b)

length-waiting :
    (q : RecoveryQueue) (xs : List ℕ) → IsView q xs → length q.entries - q.head ≡ length xs
length-waiting q xs v =
    sym (length-drop q.head q.entries) ∙ ap length v.entries ∙ length-map-some xs

-- The candidates are the connections that have waited longest, at most `limit` of them, and exactly
-- the others go on waiting, in order.
take_candidates-IsView :
    (q : RecoveryQueue) (xs : List ℕ) (limit : ℕ)
    → IsView q xs
    → IsView (take_candidates q limit).0 (drop limit xs)
      × ((take_candidates q limit).1 ≡ take limit xs)
take_candidates-IsView q xs limit v =
    let n = min limit (length q.entries - q.head) in
    let (dropped, taken) = min_lem n limit xs (omega (arith, length-waiting q xs v)) in
    let (v', out) = take_loop-IsView n q xs v (omega (arith, length-waiting q xs v)) in
    elim (Bool-cases (n == 0)) [
      | inl none_left ↦
          let e : n ≡ 0 = ground arith in
          unfold take_candidates in rw (none_left, ← dropped, ← taken, e) (v, refl)
      | inr more ↦
          unfold take_candidates in rw (more, ← dropped, ← taken) (compact-IsView _ _ v', out)
    ]

-- A connection asks for a push, or the delivery loop takes at most `limit` of those that wait.
pub data Op : Type 0 where
  enqueues : ℕ → Op
  takes : ℕ → Op

-- What the loop is given, take by take, by the queue.
unfoldable pub serve : RecoveryQueue → List Op → List (List ℕ)
serve q [] = []
serve q (enqueues c ∷ ops) = serve (enqueue q c) ops
serve q (takes limit ∷ ops) = (take_candidates q limit).1 ∷ serve (take_candidates q limit).0 ops

-- And by a list of distinct connections that is served from its front.
unfoldable pub serve_fifo : List ℕ → List Op → List (List ℕ)
serve_fifo xs [] = []
serve_fifo xs (enqueues c ∷ ops) = serve_fifo (if contains xs c then xs else xs ++ c ∷ []) ops
serve_fifo xs (takes limit ∷ ops) = take limit xs ∷ serve_fifo (drop limit xs) ops

serve-IsView :
    (q : RecoveryQueue) (xs : List ℕ) (ops : List Op)
    → IsView q xs
    → serve q ops ≡ serve_fifo xs ops
unfolding serve serve_fifo
serve-IsView q xs [] v = refl
serve-IsView q xs (enqueues c ∷ ops) v =
    serve-IsView (enqueue q c) (if contains xs c then xs else xs ++ c ∷ []) ops
      (enqueue-IsView q xs c v)
serve-IsView q xs (takes limit ∷ ops) v =
    let (rest, out) = take_candidates-IsView q xs limit v in
    rw (out, serve-IsView (take_candidates q limit).0 (drop limit xs) ops rest)

new_queue-IsView : IsView new_queue []
unfolding new_queue contains
new_queue-IsView = record { room = omega arith; entries = refl; members = λ c. refl; distinct = tt }

-- Whatever is enqueued and taken in whatever order, the recovery queue, with its nil entries, its head
-- and its compaction, gives out the same connections as a first-in-first-out list in which no
-- connection waits twice.
pub serve_new : (ops : List Op) → serve new_queue ops ≡ serve_fifo [] ops
serve_new ops = serve-IsView new_queue [] ops new_queue-IsView
