-- ===== src/Mtproto/Tests/LimitTests.antt =====
-- Runs of the limits and of the registry.
use telegram_server.Common.{ℕ, nat_eq, ◌<◌, ◌≡◌, refl, true, false, some, [], ◌∷◌, get_elem?, arith}
use telegram_server.Common.Dict.{lookup_or, insert, delete}
use telegram_server.Common.Index.{find_index}
use telegram_server.Net.{Addr, ip4, net32}
use telegram_server.Mtproto.Limits.PreAuth.{
  Slot, default_limits, new_limiter, new_slot, admit, key_addr, clear,
}
use telegram_server.Mtproto.Limits.PreAuth.{Timer, key_bucket, acquire_net, release}
use telegram_server.Mtproto.Limits.Counters
use telegram_server.Store.IpBucket.{ip_bucket_key, masked}
use telegram_server.Mtproto.Limits.PreAuth.World
use telegram_server.Mtproto.Limits.PreAuth.World.{World, IsCounted}
use telegram_server.Mtproto.Limits.PreAuth.Counted.{Steps-IsCounted}
use telegram_server.Mtproto.Limits.UnboundKey.Held
use telegram_server.Mtproto.Limits.UnboundKey.Held.{IsHeld, proves, ends, run_new-IsHeld}
use telegram_server.Mtproto.Limits.PendingLogin.Capped
use telegram_server.Mtproto.Limits.PendingLogin.Capped.{Process, IsCapped, Steps-IsCapped}
use telegram_server.Mtproto.Limits.PendingLogin.{
  LoginHold, new_login_limiter, new_login_hold, begin_acquire, finish_acquire, loaded, idle,
}
use telegram_server.Mtproto.Registry.{Registry, new_registry, conns, add, remove}
use telegram_server.Mtproto.Registry.Counts
use telegram_server.Mtproto.Registry.Counts.{IsTally, Steps-IsTally, is_listed}
use telegram_server.Mtproto.Registry.Turns.{turns, turns_all}

-- One key, two connections, a cap of one: the second is refused until the first signs in.
run_new-IsHeld_example :
    IsHeld (Held.run (Held.start 1 2) (proves 0 77 0 ∷ proves 1 77 0 ∷ proves 0 77 5 ∷ ends 1 ∷ []))
run_new-IsHeld_example =
    run_new-IsHeld 1 2 (proves 0 77 0 ∷ proves 1 77 0 ∷ proves 0 77 5 ∷ ends 1 ∷ []) (omega arith)

-- A socket is admitted, charged to 1.2.3.4, and cleared.
abbrev client : Addr
client = ip4 0x01020304

abbrev admitted : World
admitted = record {
  limiter = record { limits = default_limits; conns = 1; per_net = [] };
  slots = new_slot ∷ [];
}

abbrev keyed_slot : Slot
keyed_slot = record { bucket = some (net32 0x01020304); timer = Timer.unset; cleared = false }

abbrev keyed : World
keyed = record {
  limiter = record { limits = default_limits; conns = 1; per_net = (net32 0x01020304, 1) ∷ [] };
  slots = keyed_slot ∷ [];
}

abbrev cleared : World
cleared = record {
  limiter = record { limits = default_limits; conns = 0; per_net = [] };
  slots = record keyed_slot { cleared = true } ∷ [];
}

admitting : World.Step (World.start default_limits) admitted
unfolding admit new_limiter
admitting = World.admits admitted.limiter new_slot refl

keying : World.Step admitted keyed
unfolding key_addr key_bucket ip_bucket_key masked acquire_net Counters.charge lookup_or insert
keying = World.keys 0 new_slot client refl refl refl

clearing : World.Step keyed cleared
unfolding clear release Counters.discharge lookup_or insert delete
clearing = World.clears 0 keyed_slot refl

cleared-reached : World.Steps (World.start default_limits) cleared
cleared-reached =
    World.and_then keyed cleared
      (World.and_then admitted keyed
        (World.and_then (World.start default_limits) admitted World.done admitting) keying)
      clearing

Steps-IsCounted_example : IsCounted cleared
Steps-IsCounted_example = Steps-IsCounted default_limits cleared cleared-reached (omega arith)

-- Two connections race for the one place of a pending login; the loser is refused.
abbrev loaded_hold : LoginHold
loaded_hold = record { charged = false; claim = loaded 0 }

abbrev both_loaded : Process
both_loaded = record {
  limiter = record { max_conns = 1; count = 0 };
  held = loaded_hold ∷ loaded_hold ∷ [];
}

abbrev one_in : Process
one_in = record {
  limiter = record { max_conns = 1; count = 1 };
  held = record { charged = true; claim = idle } ∷ loaded_hold ∷ [];
}

abbrev first_loaded : Process
first_loaded = record {
  limiter = record { max_conns = 1; count = 0 };
  held = loaded_hold ∷ new_login_hold ∷ [];
}

loading_first : Capped.Step (Capped.start 1 2) first_loaded
unfolding begin_acquire new_login_limiter
loading_first = Capped.calls 0 new_login_hold refl refl

loading_second : Capped.Step first_loaded both_loaded
unfolding begin_acquire
loading_second = Capped.calls 1 new_login_hold refl refl

swapping : Capped.Step both_loaded one_in
unfolding finish_acquire
swapping = Capped.swaps 0 loaded_hold 0 refl refl

one_in-reached : Capped.Steps (Capped.start 1 2) one_in
one_in-reached =
    Capped.and_then both_loaded one_in
      (Capped.and_then first_loaded both_loaded
        (Capped.and_then (Capped.start 1 2) first_loaded Capped.done loading_first) loading_second)
      swapping

Steps-IsCapped_example : IsCapped 1 one_in
Steps-IsCapped_example = Steps-IsCapped 1 refl 2 one_in one_in-reached

-- Three connections of two users, the first one gone again.
abbrev one : Registry
one = (add new_registry 5 100).0

abbrev two : Registry
two = (add one 5 101).0

abbrev three : Registry
three = (add two 6 102).0

three-listed : is_listed 100 (conns three 5) ≡ is_listed 100 three.recovery_conns
unfolding add new_registry insert lookup_or find_index
three-listed = refl

three-reached : Counts.Steps new_registry (remove three 5 100)
three-reached =
    Counts.and_then three (remove three 5 100)
      (Counts.and_then two three
        (Counts.and_then one two (Counts.and_then new_registry one Counts.done (Counts.adds 5 100))
          (Counts.adds 5 101))
        (Counts.adds 6 102))
      (Counts.removes 5 100 three-listed)

Steps-IsTally_example : IsTally (remove three 5 100)
Steps-IsTally_example = Steps-IsTally (remove three 5 100) three-reached

abbrev listed : Registry
listed = record {
  users = (5, 100 ∷ 101 ∷ []) ∷ (6, 102 ∷ []) ∷ [];
  recovery_conns = 100 ∷ 101 ∷ 102 ∷ [];
  recovery_cursor = 2;
  total_conns = 3;
}

turns_all_example : (i : ℕ) × (i < 3) × (get_elem? (turns listed 2 2) i ≡ some 101)
turns_all_example = turns_all listed 2 2 1 refl (omega arith) (omega arith)
