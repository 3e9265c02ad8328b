-- ===== src/Mtproto/Limits/PreAuth/Counted.antt =====
-- internal/mtproto/preauth.go: what the counters count, over every order in which the accept loop and
-- the serving goroutines use the limiter.
use telegram_server.Common.{
  ℕ, suc, ◌∙◌, ◌^◌, ◌≤◌, ◌<◌, ◌≡◌, inl, inr, refl, sym, true, false, none, some, List, [], ◌∷◌,
  ◌++◌, length, get_elem?, set, Bool-cases, Option-cases, arith, length-append, length-set, All,
}
use telegram_server.Common.Count.{count_if, count_if-snoc, count_if-set, count_if-pos, count_if-le}
use telegram_server.Common.Dict.{lookup_or}
use telegram_server.Net.{Addr, Prefix, prefix_eq, prefix_beq_iff}
use telegram_server.Store.IpBucket.{ip_bucket_key}
use telegram_server.Mtproto.Limits.Counters.{
  charge, lookup_or-charge, lookup_or-discharge, charge-IsPruned, discharge-IsPruned, pruned_empty,
}
use telegram_server.Mtproto.Limits.PreAuth.{
  Limits, Limiter, Slot, at_cap, admit, acquire_net, release, key_addr, arm_lifetime, clear,
}
use telegram_server.Mtproto.Limits.PreAuth.World.{
  World, start, Step, admits, refuses, keys, arms, clears, Steps, done, and_then, is_live, holds,
  IsCounted, start-IsCounted,
}

-- A step that changes neither the counters nor what its slot holds.
same_slot :
    (w : World) (i : ℕ) (s s' : Slot)
    → get_elem? w.slots i ≡ some s
    → s'.bucket ≡ s.bucket
    → s'.cleared ≡ s.cleared
    → IsCounted w
    → IsCounted (record w { slots = set w.slots i s' })
same_slot w i s s' e p q c = record {
  all = ground (arith, count_if-set is_live w.slots i s s' e, c.all);
  each = λ b. ground (arith, count_if-set (holds b) w.slots i s s' e, c.each b);
  pruned = c.pruned;
  all_fit = ground (arith, count_if-set is_live w.slots i s s' e, c.all_fit);
  each_fit = λ b. ground (arith, count_if-set (holds b) w.slots i s s' e, c.each_fit b);
}

admit-IsCounted :
    (w : World) (l : Limiter) (s : Slot)
    → admit w.limiter ≡ (l, some s)
    → suc (length w.slots) < 2 ^ 63
    → IsCounted w
    → IsCounted (record w { limiter = l; slots = w.slots ++ s ∷ [] })
unfolding admit
admit-IsCounted w l s e h c = record {
  all = ground (arith, count_if-snoc is_live w.slots s, count_if-le is_live w.slots, c.all);
  each = λ b. ground (arith, count_if-snoc (holds b) w.slots s, c.each b);
  pruned = let same : l.per_net ≡ w.limiter.per_net = ground arith in rw same c.pruned;
  all_fit =
      ground
        (arith, count_if-snoc is_live w.slots s, count_if-le is_live w.slots, c.all, c.all_fit);
  each_fit = λ b. ground (arith, count_if-snoc (holds b) w.slots s, c.each_fit b);
}

charge_slot-IsCounted :
    (w : World) (i : ℕ) (s : Slot) (b : Prefix)
    → get_elem? w.slots i ≡ some s
    → s.bucket ≡ none
    → s.cleared ≡ false
    → at_cap w.limiter.limits.max_conns_per_net (lookup_or w.limiter.per_net b 0) ≡ false
    → length w.slots < 2 ^ 63
    → IsCounted w
    → IsCounted (record {
      limiter = record (w.limiter) { per_net = charge w.limiter.per_net b };
      slots = set w.slots i (record s { bucket = some b });
    })
charge_slot-IsCounted w i s b e p q a h c =
    let s' = record s { bucket = some b } in
    let small : lookup_or w.limiter.per_net b 0 < 2 ^ 63 =
      omega (arith, c.each b, count_if-le (holds b) w.slots) in
    record {
      all = ground (arith, count_if-set is_live w.slots i s s' e, c.all);
      each = λ j. ground (
        arith,
        count_if-set (holds j) w.slots i s s' e,
        c.each j,
        lookup_or-charge w.limiter.per_net b j small,
        p,
        q,
      );
      pruned = charge-IsPruned w.limiter.per_net b small c.pruned;
      all_fit = ground (arith, count_if-set is_live w.slots i s s' e, c.all_fit);
      each_fit = λ j. ground (
        arith,
        count_if-set (holds j) w.slots i s s' e,
        c.each j,
        c.each_fit j,
        a,
        p,
        q,
        prefix_beq_iff b j,
        small,
      );
    }

release_net-IsCounted :
    (w : World) (i : ℕ) (s s' : Slot) (b : Prefix)
    → get_elem? w.slots i ≡ some s
    → s.bucket ≡ some b
    → s.cleared ≡ false
    → s'.cleared ≡ true
    → length w.slots < 2 ^ 63
    → IsCounted w
    → IsCounted (record { limiter = release w.limiter (some b); slots = set w.slots i s' })
unfolding release
release_net-IsCounted w i s s' b e p q r h c =
    let some_live = count_if-pos (holds b) w.slots i s e in
    let held : 0 < lookup_or w.limiter.per_net b 0 =
      ground (arith, c.each b, count_if-pos (holds b) w.slots i s e, prefix_beq_iff b b, p, q) in
    let small : lookup_or w.limiter.per_net b 0 < 2 ^ 63 =
      omega (arith, c.each b, count_if-le (holds b) w.slots) in
    record {
      all = ground (
        arith,
        count_if-set is_live w.slots i s s' e,
        count_if-pos is_live w.slots i s e,
        count_if-le is_live w.slots,
        c.all,
        q,
        r,
      );
      each = λ j. ground (
        arith,
        count_if-set (holds j) w.slots i s s' e,
        c.each j,
        lookup_or-discharge w.limiter.per_net b j held small,
        p,
        q,
        r,
      );
      pruned = discharge-IsPruned w.limiter.per_net b c.pruned;
      all_fit = ground (arith, count_if-set is_live w.slots i s s' e, c.all_fit, q, r);
      each_fit = λ j. ground (arith, count_if-set (holds j) w.slots i s s' e, c.each_fit j, r);
    }

release_free-IsCounted :
    (w : World) (i : ℕ) (s s' : Slot)
    → get_elem? w.slots i ≡ some s
    → s.bucket ≡ none
    → s.cleared ≡ false
    → s'.cleared ≡ true
    → length w.slots < 2 ^ 63
    → IsCounted w
    → IsCounted (record { limiter = release w.limiter none; slots = set w.slots i s' })
unfolding release
release_free-IsCounted w i s s' e p q r h c = record {
  all = ground (
    arith,
    count_if-set is_live w.slots i s s' e,
    count_if-pos is_live w.slots i s e,
    count_if-le is_live w.slots,
    c.all,
    q,
    r,
  );
  each = λ j. ground (arith, count_if-set (holds j) w.slots i s s' e, c.each j, p, q, r);
  pruned = c.pruned;
  all_fit = ground (arith, count_if-set is_live w.slots i s s' e, c.all_fit, q, r);
  each_fit = λ j. ground (arith, count_if-set (holds j) w.slots i s s' e, c.each_fit j, r);
}

clear-IsCounted :
    (w : World) (i : ℕ) (s : Slot)
    → get_elem? w.slots i ≡ some s
    → length w.slots < 2 ^ 63
    → IsCounted w
    → IsCounted
        (record { limiter = (clear w.limiter s).0; slots = set w.slots i (clear w.limiter s).1 })
unfolding clear
clear-IsCounted w i s e h c = elim (Bool-cases s.cleared) [
  | inl q ↦ rw q (same_slot w i s _ e refl (sym q) c)
  | inr q ↦ elim (Option-cases s.bucket) [
    | inl p ↦ rw (q, p) (release_free-IsCounted w i s _ e p q refl h c)
    | inr (b, p) ↦ rw (q, p) (release_net-IsCounted w i s _ b e p q refl h c)
  ]
]

key-IsCounted :
    (w : World) (i : ℕ) (s : Slot) (addr : Addr)
    → get_elem? w.slots i ≡ some s
    → s.bucket ≡ none
    → s.cleared ≡ false
    → length w.slots < 2 ^ 63
    → IsCounted w
    → IsCounted (record {
      limiter = (key_addr w.limiter s addr).0;
      slots = set w.slots i (key_addr w.limiter s addr).1;
    })
unfolding key_addr acquire_net
key-IsCounted w i s addr e p q h c = elim (Option-cases (ip_bucket_key addr)) [
  | inl k ↦ rw k (same_slot w i s s e refl refl c)
  | inr (b, k) ↦
      elim (Bool-cases
        (at_cap w.limiter.limits.max_conns_per_net (lookup_or w.limiter.per_net b 0))) [
          | inl a ↦ rw (k, a) (same_slot w i s s e refl refl c)
          | inr a ↦ rw (k, a) (charge_slot-IsCounted w i s b e p q a h c)
        ]
]

none_live : (slots : List Slot) → All (λ s. s.cleared ≡ true) slots → count_if is_live slots ≡ 0
unfolding count_if
none_live [] d = refl
none_live (s ∷ slots) d = ground (arith, d.0, none_live slots d.1)

none_held :
    (b : Prefix) (slots : List Slot)
    → All (λ s. s.cleared ≡ true) slots
    → count_if (holds b) slots ≡ 0
unfolding count_if
none_held b [] d = refl
none_held b (s ∷ slots) d = ground (arith, d.0, none_held b slots d.1)

step-IsCounted : {w v : World} → Step w v → length v.slots < 2 ^ 63 → IsCounted w → IsCounted v
step-IsCounted {w} (admits l s e) h c =
    admit-IsCounted w l s e (omega (arith, length-append w.slots (s ∷ []))) c
step-IsCounted {w} (refuses l e) h c =
    let same : l ≡ w.limiter = unfold admit in ground arith in rw same c
step-IsCounted {w} (keys i s addr e p q) h c =
    key-IsCounted w i s addr e p q
      (omega (arith, length-set w.slots i (key_addr w.limiter s addr).1)) c
step-IsCounted {w} (arms i s e) h c =
    same_slot w i s (arm_lifetime w.limiter s) e (unfold arm_lifetime in ground arith)
      (unfold arm_lifetime in ground arith) c
step-IsCounted {w} (clears i s e) h c =
    clear-IsCounted w i s e (omega (arith, length-set w.slots i (clear w.limiter s).1)) c

step-length : {w v : World} → Step w v → length w.slots ≤ length v.slots
step-length {w} (admits l s e) = omega (arith, length-append w.slots (s ∷ []))
step-length {w} (refuses l e) = omega arith
step-length {w} (keys i s addr e p q) =
    omega (arith, length-set w.slots i (key_addr w.limiter s addr).1)
step-length {w} (arms i s e) = omega (arith, length-set w.slots i (arm_lifetime w.limiter s))
step-length {w} (clears i s e) = omega (arith, length-set w.slots i (clear w.limiter s).1)

-- Whatever the order in which connections are accepted, charged, armed and cleared, and while fewer
-- than 2 ^ 63 have been accepted, the two counters are the numbers of live connections in all and
-- per network, neither passes its cap, and the map has no entry for a network without live ones.
pub Steps-IsCounted :
    (l : Limits) (w : World) → Steps (start l) w → length w.slots < 2 ^ 63 → IsCounted w
Steps-IsCounted l w done h = start-IsCounted l
Steps-IsCounted l w (and_then v u r st) h =
    step-IsCounted st h (Steps-IsCounted l v r (omega (arith, step-length st)))

-- Once every connection has been cleared, both counters are back where they started: none in all,
-- and no network has an entry.
Steps-drained :
    (l : Limits) (w : World)
    → Steps (start l) w
    → length w.slots < 2 ^ 63
    → All (λ s. s.cleared ≡ true) w.slots
    → (w.limiter.conns ≡ 0) × (w.limiter.per_net ≡ [])
Steps-drained l w r h d =
    let c = Steps-IsCounted l w r h in
    (
      c.all ∙ none_live w.slots d,
      pruned_empty w.limiter.per_net c.pruned (λ b. c.each b ∙ none_held b w.slots d),
    )
