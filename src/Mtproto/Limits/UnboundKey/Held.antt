-- ===== src/Mtproto/Limits/UnboundKey/Held.antt =====
-- internal/mtproto/unboundkey.go: what the counters count, over every order of charges and releases.
use telegram_server.Common.{
  ℕ, zero, suc, ◌^◌, ◌<◌, ◌≡◌, refl, sym, ◌≢◌, set-set, get_elem?-set_self, get_elem?-lt,
  All-get_elem?, All-replicate, length-replicate, ◌∙◌, All, All-set, Bool, true, false, not, ◌&&◌,
  ◌||◌, leb, Option, none, some, List, [], ◌∷◌, get_elem?, set, length, length-set, ◌==◌, ==_refl,
  is_pos, nat_eq, replicate, Bool-cases, Option-cases, inl, inr, arith,
}
use telegram_server.Common.Count.{count_if, count_if-set, count_if-pos, count_if-le}
use telegram_server.Common.Dict.{lookup_or}
use telegram_server.Mtproto.Limits.Counters
use telegram_server.Mtproto.Limits.Counters.{
  discharge, lookup_or-charge, lookup_or-discharge, IsPruned, charge-IsPruned, discharge-IsPruned,
}
use telegram_server.Mtproto.Limits.UnboundKey.{
  KeyLimiter, Hold, new_key_limiter, new_hold, is_full, acquire, give_back, release, take_key,
  charge,
}

-- The limiter and the hold of every connection.
pub record Server : Type 0 where
  pub limiter : KeyLimiter
  pub held : List Hold

abbrev pub start : ℕ → ℕ → Server
start max_conns n = record { limiter = new_key_limiter max_conns; held = replicate n new_hold }

-- The serving loop of connection `i` proves a key, with its user, or ends.
pub data Event : Type 0 where
  proves : ℕ → ℕ → ℕ → Event
  ends : ℕ → Event

prove_at : Server → ℕ → ℕ → ℕ → Option Hold → Server
prove_at w i id user none = w
prove_at w i id user (some h) =
    let r = charge w.limiter h id user in record { limiter = r.0; held = set w.held i r.1 }

end_at : Server → ℕ → Option Hold → Server
end_at w i none = w
end_at w i (some h) =
    let r = release w.limiter h in record { limiter = r.0; held = set w.held i r.1 }

pub react : Server → Event → Server
react w (proves i id user) = prove_at w i id user (get_elem? w.held i)
react w (ends i) = end_at w i (get_elem? w.held i)

pub run : Server → List Event → Server
run w [] = w
run w (e ∷ es) = run (react w e) es

abbrev pub holds : ℕ → Hold → Bool
holds id h = h.charged && (h.key == id)

abbrev pub fits : ℕ → ℕ → Bool
fits cap n = not (is_pos cap) || leb n cap

-- Each counter is the number of connections that hold its key, inside the cap; and a connection
-- that has signed in holds none.
pub record IsHeld (w : Server) : Type 0 where
  pub few : length w.held < 2 ^ 63
  pub each : (id : ℕ) → lookup_or w.limiter.conns id 0 ≡ count_if (holds id) w.held
  pub pruned : IsPruned w.limiter.conns
  pub each_fit : (id : ℕ) → fits w.limiter.max_conns (count_if (holds id) w.held) ≡ true
  pub outside : All (λ h. (h.signed_in && h.charged) ≡ false) w.held

-- A hold that changes nothing that is counted.
same_hold :
    (w : Server) (i : ℕ) (h h' : Hold)
    → get_elem? w.held i ≡ some h
    → h'.charged ≡ h.charged
    → h'.key ≡ h.key
    → (h'.signed_in && h'.charged) ≡ false
    → IsHeld w
    → IsHeld (record w { held = set w.held i h' })
same_hold w i h h' e p q o c = record {
  few = omega (arith, c.few, length-set w.held i h');
  each = λ id. ground (arith, count_if-set (holds id) w.held i h h' e, c.each id);
  pruned = c.pruned;
  each_fit = λ id. ground (arith, count_if-set (holds id) w.held i h h' e, c.each_fit id);
  outside = All-set _ w.held i h' c.outside o;
}

put_back :
    (w : Server) (i : ℕ) (h h' : Hold)
    → get_elem? w.held i ≡ some h
    → h.charged ≡ true
    → h'.charged ≡ false
    → IsHeld w
    → IsHeld (record { limiter = give_back w.limiter h.key; held = set w.held i h' })
unfolding give_back
put_back w i h h' e p q c =
    let some_held : 0 < lookup_or w.limiter.conns h.key 0 =
      ground (arith, c.each h.key, count_if-pos (holds h.key) w.held i h e, ==_refl h.key) in
    let small : lookup_or w.limiter.conns h.key 0 < 2 ^ 63 =
      omega (arith, c.each h.key, count_if-le (holds h.key) w.held, c.few) in
    record {
      few = omega (arith, c.few, length-set w.held i h');
      each = λ id. ground (
        arith,
        count_if-set (holds id) w.held i h h' e,
        c.each id,
        lookup_or-discharge w.limiter.conns h.key id some_held small,
        p,
        q,
      );
      pruned = discharge-IsPruned w.limiter.conns h.key c.pruned;
      each_fit = λ id. ground (arith, count_if-set (holds id) w.held i h h' e, c.each_fit id, q);
      outside = All-set _ w.held i h' c.outside (ground arith);
    }

take_hold :
    (w : Server) (i : ℕ) (h : Hold) (id : ℕ)
    → get_elem? w.held i ≡ some h
    → h.charged ≡ false
    → h.signed_in ≡ false
    → is_full w.limiter.max_conns (lookup_or w.limiter.conns id 0) ≡ false
    → IsHeld w
    → IsHeld (record {
      limiter = record (w.limiter) { conns = Counters.charge w.limiter.conns id };
      held = set w.held i (record h { key = id; charged = true });
    })
take_hold w i h id e p q f c =
    let h' = record h { key = id; charged = true } in
    let small : lookup_or w.limiter.conns id 0 < 2 ^ 63 =
      omega (arith, c.each id, count_if-le (holds id) w.held, c.few) in
    record {
      few = omega (arith, c.few, length-set w.held i h');
      each = λ j. ground (
        arith,
        count_if-set (holds j) w.held i h h' e,
        c.each j,
        lookup_or-charge w.limiter.conns id j small,
        p,
      );
      pruned = charge-IsPruned w.limiter.conns id small c.pruned;
      each_fit = λ j.
          ground
            (arith, count_if-set (holds j) w.held i h h' e, c.each j, c.each_fit j, f, p, small);
      outside = All-set _ w.held i h' c.outside (ground arith);
    }

release-IsHeld :
    (w : Server) (i : ℕ) (h g : Hold)
    → get_elem? w.held i ≡ some h
    → g.charged ≡ h.charged
    → g.key ≡ h.key
    → IsHeld w
    → IsHeld
        (record { limiter = (release w.limiter g).0; held = set w.held i (release w.limiter g).1 })
unfolding release
release-IsHeld w i h g e p q c = elim (Bool-cases g.charged) [
  | inl r ↦ rw (r, q) (put_back w i h _ e (sym p ∙ r) refl c)
  | inr r ↦ rw r (same_hold w i h _ e (sym r ∙ p) q (ground arith) c)
]

take_key-IsHeld :
    (w : Server) (i : ℕ) (h : Hold) (id : ℕ)
    → get_elem? w.held i ≡ some h
    → h.charged ≡ false
    → h.signed_in ≡ false
    → IsHeld w
    → IsHeld (record {
      limiter = (take_key w.limiter h id).0;
      held = set w.held i (take_key w.limiter h id).1;
    })
unfolding take_key acquire
take_key-IsHeld w i h id e p q c =
    elim (Bool-cases (is_full w.limiter.max_conns (lookup_or w.limiter.conns id 0))) [
      | inl f ↦ rw f (same_hold w i h h e refl refl (ground arith) c)
      | inr f ↦ rw f (take_hold w i h id e p q f c)
    ]

recharge-IsHeld :
    (w : Server) (i : ℕ) (h : Hold) (id : ℕ)
    → get_elem? w.held i ≡ some h
    → h.signed_in ≡ false
    → IsHeld w
    → IsHeld (record {
      limiter = (take_key (release w.limiter h).0 (release w.limiter h).1 id).0;
      held = set w.held i (take_key (release w.limiter h).0 (release w.limiter h).1 id).1;
    })
recharge-IsHeld w i h id e q c =
    let l = (release w.limiter h).0 in
    let g = (release w.limiter h).1 in
    let freed : Server = record { limiter = l; held = set w.held i g } in
    rw⁻¹ (set-set w.held i g (take_key l g id).1) (
      take_key-IsHeld freed i g id (get_elem?-set_self w.held i g (get_elem?-lt w.held i h e))
        (unfold release in ground arith) (unfold release in ground arith)
        (release-IsHeld w i h h e refl refl c))

charge-IsHeld :
    (w : Server) (i : ℕ) (h : Hold) (id user : ℕ)
    → get_elem? w.held i ≡ some h
    → IsHeld w
    → IsHeld (record {
      limiter = (charge w.limiter h id user).0;
      held = set w.held i (charge w.limiter h id user).1;
    })
unfolding charge
charge-IsHeld w i h id user e c =
    let o = All-get_elem? _ w.held i h e c.outside in
    elim (Bool-cases h.signed_in) [
      | inl s ↦ rw s (same_hold w i h _ e refl refl (ground (arith, o, s)) c)
      | inr s ↦ elim (Bool-cases (user == 0)) [
        | inr u ↦ rw (s, u) (release-IsHeld w i h _ e refl refl c)
        | inl u ↦ elim (Bool-cases (h.charged && (h.key == id))) [
          | inl k ↦ simp (s, u, k) (same_hold w i h h e refl refl o c)
          | inr k ↦ simp (s, u, k) (recharge-IsHeld w i h id e s c)
        ]
      ]
    ]

react-IsHeld : (w : Server) (e : Event) → IsHeld w → IsHeld (react w e)
unfolding react prove_at end_at
react-IsHeld w (proves i id user) c = elim (Option-cases (get_elem? w.held i)) [
  | inl e ↦ rw e c
  | inr (h, e) ↦ rw e (charge-IsHeld w i h id user e c)
]
react-IsHeld w (ends i) c = elim (Option-cases (get_elem? w.held i)) [
  | inl e ↦ rw e c
  | inr (h, e) ↦ rw e (release-IsHeld w i h h e refl refl c)
]

run-IsHeld : (w : Server) (es : List Event) → IsHeld w → IsHeld (run w es)
unfolding run
run-IsHeld w [] c = c
run-IsHeld w (e ∷ es) c = run-IsHeld (react w e) es (react-IsHeld w e c)

none_held : (n id : ℕ) → count_if (holds id) (replicate n new_hold) ≡ 0
unfolding count_if
none_held zero id = refl
none_held (suc n) id = ground (arith, none_held n id)

-- For any number of connections below 2 ^ 63 that prove keys, sign in and end in any order: each
-- counter is the number of connections charged to its key and stays inside the cap, the map has no
-- entry for a key without such connections, and no connection that has signed in is charged.
pub run_new-IsHeld :
    (max_conns n : ℕ) (es : List Event) → n < 2 ^ 63 → IsHeld (run (start max_conns n) es)
unfolding new_key_limiter lookup_or
run_new-IsHeld max_conns n es b = run-IsHeld (start max_conns n) es (record {
  few = omega (arith, b, length-replicate n new_hold);
  each = λ id. sym (none_held n id);
  pruned = tt;
  each_fit = λ id. ground (arith, none_held n id);
  outside = All-replicate _ n new_hold refl;
})

-- A proof of a key that has a user takes a connection outside the bound: it is not refused and not
-- charged, and no later proof, of any key, with a user or not and at any state of the limiter,
-- refuses it or changes anything. This supposes only that it was not both signed in and charged.
signed_in_kept :
    (l l' : KeyLimiter) (h : Hold) (id user id' user' : ℕ)
    → user ≢ 0
    → (h.signed_in && h.charged) ≡ false
    → ((charge l h id user).2 ≡ true)
      × ((charge l h id user).1.charged ≡ false)
      × (charge l' (charge l h id user).1 id' user' ≡ (l', (charge l h id user).1, true))
unfolding charge release
signed_in_kept l l' h id user id' user' u o = ground arith
