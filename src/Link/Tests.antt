-- ===== src/Link/Tests.antt =====
-- Runs of the link host's selector.
use telegram_server.Common.{
  ℕ, ◌+◌, ◌-◌, ◌≤◌, ◌<◌, ◌≡◌, ◌≢◌, ◌↔◌, ◌⊎◌, refl, true, false, Option, none, some, List, [], ◌∷◌,
  ◌++◌, length, leb, if◌then◌else◌, arith,
}
use telegram_server.Common.Text.{codes, text_beq}
use telegram_server.Link.Target.{landing, web, landing_other, invite, message, classify_target}
use telegram_server.Link.Target.Forwarded.{IsForwarded, classify_target-IsForwarded}
use telegram_server.Link.Target.Links.{Link}
use telegram_server.Link.Landing.{response_for, static_body_for_status}
use telegram_server.Link.Landing.Answered.{IsRedacted, classify_target-IsRedacted}
use telegram_server.Link.Headers.{
  Header, canonical_header_key, is_token_byte, copy_response_headers, remove_hop_by_hop,
}
use telegram_server.Link.Headers.Stripped.{IsCanonical, hops_of, keep, copy-remove}
use telegram_server.Link.Serve.{Upstream, relayed, serve_web, max_web_body, max_staged}
use telegram_server.Link.Serve.Whole.{IsRelayed, serve_web-IsRelayed}
use telegram_server.Link.Serve.Staged.{
  Semaphore, Event, begins, ends, run, IsStaged, run_new-IsStaged,
}

asset :
    classify_target (codes "GET") (codes "/assets/app-1.js?v=2")
    ≡ web (codes "/assets/app-1.js") (codes "v=2") true
unfolding classify_target text_beq
asset = refl

climbing :
    classify_target (codes "GET") (codes "/assets/../admin") ≡ landing landing_other (codes "/")
unfolding classify_target text_beq
climbing = refl

secret_invite : classify_target (codes "GET") (codes "/+Ab-3") ≡ landing invite (codes "/+redacted")
unfolding classify_target text_beq
secret_invite = refl

private_message :
    classify_target (codes "get") (codes "/c/12/7") ≡ landing message (codes "/redacted/1")
unfolding classify_target text_beq
private_message = refl

classify_target-IsForwarded_example :
    IsForwarded (codes "/assets/app-1.js?v=2") (codes "/assets/app-1.js") (codes "v=2") true
classify_target-IsForwarded_example =
    classify_target-IsForwarded (codes "GET") (codes "/assets/app-1.js?v=2")
      (codes "/assets/app-1.js") (codes "v=2") true asset

classify_target-IsRedacted_example :
    IsRedacted invite (codes "/+redacted")
    × (let answer = response_for (codes "HEAD") (codes "/+redacted") in
        static_body_for_status answer.0 ≡ some answer.1)
classify_target-IsRedacted_example =
    classify_target-IsRedacted (codes "GET") (codes "/+Ab-3") (codes "/+redacted") invite
      (codes "HEAD") secret_invite

-- A response with a field that its Connection field names.
abbrev some_fields : Header
some_fields =
    (codes "Etag", codes "1")
    ∷ (codes "Connection", codes "x-hop , close")
    ∷ (codes "X-Hop", codes "2")
    ∷ []

some_fields-IsCanonical : IsCanonical some_fields
unfolding canonical_header_key is_token_byte
some_fields-IsCanonical = (refl, (refl, (refl, tt)))

only_etag : copy_response_headers [] some_fields ≡ (codes "Etag", codes "1") ∷ []
unfolding copy_response_headers text_beq canonical_header_key is_token_byte
only_etag = refl

copy-remove_example :
    (copy_response_headers [] some_fields ≡ [] ++ remove_hop_by_hop some_fields)
    × (remove_hop_by_hop some_fields ≡ keep (hops_of some_fields) some_fields)
copy-remove_example = copy-remove [] some_fields some_fields-IsCanonical

abbrev small_page : Upstream
small_page = record {
  status = 200;
  headers = some_fields;
  content_length = some 2;
  body = 104 ∷ 105 ∷ [];
  breaks = false;
  close_fails = false;
}

serve_web-IsRelayed_example :
    (serve_web (codes "GET") (some small_page) (λ n. leb n 64)
      ≡ relayed 200 ((codes "Etag", codes "1") ∷ []) (104 ∷ 105 ∷ []))
    ↔ IsRelayed
        (codes "GET")
        small_page
        (λ n. leb n 64)
        200
        ((codes "Etag", codes "1") ∷ [])
        (104 ∷ 105 ∷ [])
serve_web-IsRelayed_example =
    serve_web-IsRelayed (codes "GET") small_page (λ n. leb n 64) 200
      ((codes "Etag", codes "1") ∷ []) (104 ∷ 105 ∷ [])

-- A semaphore that is the number that it holds.
abbrev try_count : ℕ → ℕ → Option ℕ
try_count s n = if leb (s + n) max_staged then some (s + n) else none

count_acquired : (s t n : ℕ) → try_count s n ≡ some t → (t ≡ s + n) × (t ≤ max_staged)
count_acquired s t n e = ground (arith, e)

count_refused : (s n : ℕ) → try_count s n ≡ none → max_staged < s + n
count_refused s n e = ground (arith, e)

count_released : (s n : ℕ) → n ≤ s → s - n + n ≡ s
count_released s n h = omega arith

abbrev counting : Semaphore
counting = record {
  State = ℕ;
  size = max_staged;
  held = λ s. s;
  new = 0;
  try_acquire = try_count;
  release = λ s n. s - n;
  new_held = refl;
  acquired = count_acquired;
  refused = count_refused;
  released = count_released;
}

abbrev two_requests : List Event
two_requests =
    begins (codes "GET") (some small_page)
    ∷ begins (codes "GET") (some (record small_page { content_length = none }))
    ∷ ends 0
    ∷ []

run_new-IsStaged_example :
    let w = run counting (record { state = 0; active = [] }) two_requests in
    IsStaged counting w × ((try_count w.state 5 ≢ none) ⊎ (2 ≤ length w.active))
run_new-IsStaged_example =
    run_new-IsStaged counting two_requests 5 refl (unfold max_web_body in omega arith)
