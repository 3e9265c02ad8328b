-- ===== src/Discovery/Slices.antt =====
-- internal/discovery/discovery.go: the slices that the wire format is cut by.
use telegram_server.Common.{
  ℕ, zero, suc, ◌+◌, ◌%◌, ◌^◌, ◌≡◌, refl, sym, ap, ◌∙◌, true, [], ◌∷◌, ◌++◌, length, take, drop,
  arith,
}
use native.Mathlib.Nat.{suc-add}
use telegram_server.Common.Text.{Text}
use telegram_server.Discovery.{response_magic, validate_dc_id, widen}
use telegram_server.Discovery.Wire.{put32, put16, IsBytes}

pub take-append_len : (a b : Text) (n : ℕ) → length a ≡ n → take n (a ++ b) ≡ a
take-append_len [] b zero h = refl
take-append_len [] b (suc n) h = absurd (omega arith)
take-append_len (x ∷ a) b zero h = absurd (omega arith)
take-append_len (x ∷ a) b (suc n) h = ap (◌∷◌ x) (take-append_len a b n (omega arith))

pub drop-append_len : (a b : Text) (n : ℕ) → length a ≡ n → drop n (a ++ b) ≡ b
drop-append_len [] b zero h = refl
drop-append_len [] b (suc n) h = absurd (omega arith)
drop-append_len (x ∷ a) b zero h = absurd (omega arith)
drop-append_len (x ∷ a) b (suc n) h = drop-append_len a b n (omega arith)

pub take-drop : (n : ℕ) (s : Text) → take n s ++ drop n s ≡ s
take-drop zero s = refl
take-drop (suc n) [] = refl
take-drop (suc n) (x ∷ s) = ap (◌∷◌ x) (take-drop n s)

pub drop-IsBytes : (n : ℕ) (s : Text) → IsBytes s → IsBytes (drop n s)
drop-IsBytes zero s h = h
drop-IsBytes (suc n) [] h = h
drop-IsBytes (suc n) (x ∷ s) h = drop-IsBytes n s h.1

pub take_all : (s : Text) (n : ℕ) → length s ≡ n → take n s ≡ s
take_all [] zero h = refl
take_all [] (suc n) h = refl
take_all (x ∷ s) zero h = absurd (omega arith)
take_all (x ∷ s) (suc n) h = ap (◌∷◌ x) (take_all s n (omega arith))

pub All-append_right : (a b : Text) → IsBytes (a ++ b) → IsBytes b
All-append_right [] b h = h
All-append_right (x ∷ a) b h = All-append_right a b h.1

pub length-put32 : (n : ℕ) → length (put32 n) ≡ 4
unfolding put32
length-put32 n = refl

pub length-put16 : (n : ℕ) → length (put16 n) ≡ 2
unfolding put16
length-put16 n = refl

pub drop-drop : (n m : ℕ) (s : Text) → drop m (drop n s) ≡ drop (n + m) s
drop-drop zero m s = ap (λ k. drop k s) (omega arith)
drop-drop (suc n) zero [] = rw suc-add
drop-drop (suc n) (suc m) [] = rw suc-add
drop-drop (suc n) m (x ∷ s) = rw suc-add (drop-drop n m s)

pub framed :
    (response nonce : Text)
    → take 16 response ≡ response_magic
    → take 32 (drop 16 response) ≡ nonce
    → response ≡ response_magic ++ (nonce ++ drop 48 response)
framed response nonce magic echoed =
    sym (take-drop 16 response)
    ∙ ap (λ t. t ++ drop 16 response) magic
    ∙ ap (λ t. response_magic ++ t)
        (sym (take-drop 32 (drop 16 response))
          ∙ ap (λ t. t ++ drop 32 (drop 16 response)) echoed
          ∙ ap (λ t. nonce ++ t) (drop-drop 16 32 response))

pub widen_same : (dc_id : ℕ) → validate_dc_id dc_id ≡ true → widen (dc_id % 2 ^ 32) ≡ dc_id
unfolding validate_dc_id widen
widen_same dc_id v = ground (arith, v)
