-- ===== src/Socks5/Handshake.antt =====
-- src/socks5.js: the handshake, in whatever pieces the proxy's bytes come.
use mathlib.Core.Option.{some-injective}
use mathlib.Core.Path.{subst}
use strfry_namecoin_policy.Prelude.{
  ℕ, ◌+◌, ◌≤◌, ◌<◌, ◌≡◌, refl, sym, ap, ◌∙◌, false, some, [], ◌∷◌, ◌++◌, length, get_elem?, drop,
  ltb, if◌then◌else◌, arith, length-append, drop-length-append,
}
use strfry_namecoin_policy.Script.{Bytes}
use strfry_namecoin_policy.Socks5.{wait, done, enough, read_reply}

-- The address of a reply, with its type.
pub data Address : Type 0 where
  v4 v6 domain : Bytes → Address

abbrev pub IsAddress : Address → Type 0
IsAddress (v4 bytes) = length bytes ≡ 4
IsAddress (v6 bytes) = length bytes ≡ 16
IsAddress (domain bytes) = length bytes ≤ 255

abbrev pub address_bytes : Address → Bytes
address_bytes (v4 bytes) = 1 ∷ bytes
address_bytes (v6 bytes) = 4 ∷ bytes
address_bytes (domain bytes) = 3 ∷ length bytes ∷ bytes

-- RFC 1928's reply to a request that has succeeded.
abbrev pub reply_bytes : ℕ → Address → Bytes → Bytes
reply_bytes rsv address port = 5 ∷ 0 ∷ rsv ∷ address_bytes address ++ port

enough-done : (need : ℕ) (r x : Bytes) → length r ≡ need → enough need (r ++ x) ≡ done x
unfolding enough
enough-done need r x h =
    subst (λ n. (if ltb (length (r ++ x)) n then wait else done (drop n (r ++ x))) ≡ done x) h
      (let fits : ltb (length (r ++ x)) (length r) ≡ false = ground (arith, length-append r x) in
        rw (fits, drop-length-append r x) refl)

enough-wait : (need : ℕ) (p : Bytes) → length p < need → enough need p ≡ wait
unfolding enough
enough-wait need p h = ground arith

abbrev needed : Address → ℕ
needed (v4 bytes) = 4 + 4 + 2
needed (v6 bytes) = 4 + 16 + 2
needed (domain bytes) = 4 + 1 + length bytes + 2

length-reply_bytes :
    (rsv : ℕ) (address : Address) (port : Bytes)
    → IsAddress address
    → length port ≡ 2
    → length (reply_bytes rsv address port) ≡ needed address
length-reply_bytes rsv (v4 a) port h k = omega (arith, length-append a port)
length-reply_bytes rsv (v6 a) port h k = omega (arith, length-append a port)
length-reply_bytes rsv (domain a) port h k = omega (arith, length-append a port)

pub read_reply-done :
    (rsv : ℕ) (address : Address) (port x : Bytes)
    → IsAddress address
    → length port ≡ 2
    → read_reply (reply_bytes rsv address port ++ x) ≡ done x
unfolding read_reply
read_reply-done rsv (v4 a) port x h k =
    enough-done 10 (reply_bytes rsv (v4 a) port) x (length-reply_bytes rsv (v4 a) port h k)
read_reply-done rsv (v6 a) port x h k =
    enough-done 22 (reply_bytes rsv (v6 a) port) x (length-reply_bytes rsv (v6 a) port h k)
read_reply-done rsv (domain a) port x h k =
    enough-done (4 + 1 + length a + 2) (reply_bytes rsv (domain a) port) x
      (length-reply_bytes rsv (domain a) port h k)

-- The codes at the front of two equal lists.
pub same_at :
    (n : ℕ) (a b : ℕ) (p q : Bytes)
    → p ≡ q
    → get_elem? p n ≡ some a
    → get_elem? q n ≡ some b
    → a ≡ b
same_at n a b p q e h k = some-injective _ _ (sym h ∙ ap (λ l. get_elem? l n) e ∙ k)

pub read_reply-wait :
    (rsv : ℕ) (address : Address) (port x p q : Bytes)
    → IsAddress address
    → length port ≡ 2
    → p ++ q ≡ reply_bytes rsv address port ++ x
    → length p < length (reply_bytes rsv address port)
    → read_reply p ≡ wait
unfolding read_reply
read_reply-wait rsv address port x [] q h k e l = refl
read_reply-wait rsv address port x (a ∷ []) q h k e l = refl
read_reply-wait rsv address port x (a ∷ b ∷ []) q h k e l = refl
read_reply-wait rsv address port x (a ∷ b ∷ c ∷ []) q h k e l = refl
read_reply-wait rsv (v4 s) port x (a ∷ b ∷ c ∷ d ∷ p) q h k e l =
    let (five, ok, type) : (a ≡ 5) × (b ≡ 0) × (d ≡ 1) = (
      same_at 0 a 5 _ _ e refl refl,
      same_at 1 b 0 _ _ e refl refl,
      same_at 3 d 1 _ _ e refl refl,
    ) in
    rw (five, ok, type)
      (enough-wait 10 _ (omega (arith, l, length-reply_bytes rsv (v4 s) port h k)))
read_reply-wait rsv (v6 s) port x (a ∷ b ∷ c ∷ d ∷ p) q h k e l =
    let (five, ok, type) : (a ≡ 5) × (b ≡ 0) × (d ≡ 4) = (
      same_at 0 a 5 _ _ e refl refl,
      same_at 1 b 0 _ _ e refl refl,
      same_at 3 d 4 _ _ e refl refl,
    ) in
    rw (five, ok, type)
      (enough-wait 22 _ (omega (arith, l, length-reply_bytes rsv (v6 s) port h k)))
read_reply-wait rsv (domain s) port x (a ∷ b ∷ c ∷ d ∷ []) q h k e l =
    let (five, ok, type) : (a ≡ 5) × (b ≡ 0) × (d ≡ 3) = (
      same_at 0 a 5 _ _ e refl refl,
      same_at 1 b 0 _ _ e refl refl,
      same_at 3 d 3 _ _ e refl refl,
    ) in
    rw (five, ok, type) refl
read_reply-wait rsv (domain s) port x (a ∷ b ∷ c ∷ d ∷ n ∷ p) q h k e l =
    let (five, ok, type) : (a ≡ 5) × (b ≡ 0) × (d ≡ 3) = (
      same_at 0 a 5 _ _ e refl refl,
      same_at 1 b 0 _ _ e refl refl,
      same_at 3 d 3 _ _ e refl refl,
    ) in
    let size : n ≡ length s = same_at 4 n (length s) _ _ e refl refl in
    rw (five, ok, type, size)
      (enough-wait _ _ (omega (arith, l, length-reply_bytes rsv (domain s) port h k)))
