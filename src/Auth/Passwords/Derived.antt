-- ===== src/Auth/Passwords/Derived.antt =====
-- PBKDF2 as RFC 8018 defines it, against the loops of the code (auth/accounts.go: PBKDF2SHA256).
use Prim.Native.Nat.{bit_xor}
use gantry_core.Base.{
  ℕ, zero, suc, ◌+◌, ◌-◌, ◌*◌, ◌/◌, ◌%◌, ◌^◌, ◌≤◌, ◌<◌, ◌≡◌, refl, sym, ap, ◌∙◌, true, false, ltb,
  length, length-append, List, [], ◌∷◌, ◌++◌, arith,
}
use mathlib.Core.List.{append_assoc, append-nil}
use gantry_core.Auth.Passwords.{
  Bytes, take, xor_bytes, counter, iterate, block_value, add_blocks, pbkdf2_sha256,
}

-- The octets of a number, the most significant first.
abbrev pub octets : ℕ → ℕ → Bytes
octets zero n = []
octets (suc k) n = octets k (n / 256) ++ (n % 256 ∷ [])

counter-octets : (i : ℕ) → counter i ≡ octets 4 i
unfolding counter
counter-octets i =
    let third : i / 2 ^ 24 ≡ i / 256 / 256 / 256 = omega arith in
    let second : i / 2 ^ 16 ≡ i / 256 / 256 = omega arith in
    let first : i / 2 ^ 8 ≡ i / 256 = omega arith in
    ap (λ n. n % 256 ∷ (i / 2 ^ 16) % 256 ∷ (i / 2 ^ 8) % 256 ∷ i % 256 ∷ []) third
    ∙ ap (λ n. (i / 256 / 256 / 256) % 256 ∷ n % 256 ∷ (i / 2 ^ 8) % 256 ∷ i % 256 ∷ []) second
    ∙ ap (λ n. (i / 256 / 256 / 256) % 256 ∷ (i / 256 / 256) % 256 ∷ n % 256 ∷ i % 256 ∷ []) first

-- The exclusive or of two texts, octet by octet.
abbrev pub exclusive_or : Bytes → Bytes → Bytes
exclusive_or (v ∷ vs) (u ∷ us) = bit_xor v u ∷ exclusive_or vs us
exclusive_or _ _ = []

xor_bytes-exclusive_or : (v u : Bytes) → length v ≡ length u → xor_bytes v u ≡ exclusive_or v u
unfolding xor_bytes
xor_bytes-exclusive_or [] us h = refl
xor_bytes-exclusive_or (v ∷ vs) [] h = absurd (omega (arith, h))
xor_bytes-exclusive_or (v ∷ vs) (u ∷ us) h =
    ap (λ l. bit_xor v u ∷ l) (xor_bytes-exclusive_or vs us (omega (arith, h)))

length-exclusive_or : (v u : Bytes) → length v ≡ length u → length (exclusive_or v u) ≡ length v
length-exclusive_or [] us h = refl
length-exclusive_or (v ∷ vs) [] h = absurd (omega (arith, h))
length-exclusive_or (v ∷ vs) (u ∷ us) h =
    ap (λ n. suc n) (length-exclusive_or vs us (omega (arith, h)))

-- U_1, U_2, … from the first on: each is the HMAC of the one before.
abbrev pub chain : (Bytes → Bytes) → ℕ → Bytes → List Bytes
chain f zero u = []
chain f (suc n) u = u ∷ chain f n (f u)

-- The exclusive or of all.
abbrev pub xor_all : Bytes → List Bytes → Bytes
xor_all v [] = v
xor_all v (u ∷ us) = xor_all (exclusive_or v u) us

module _ (hmac : Bytes → Bytes → Bytes) (password salt : Bytes) where
  -- F (P, S, c, i) = U_1 xor U_2 xor … xor U_c
  abbrev pub exclusive : List Bytes → Bytes
  exclusive [] = []
  exclusive (u ∷ us) = xor_all u us

  abbrev pub block_of : ℕ → ℕ → Bytes
  block_of iterations i =
      exclusive (chain (hmac password) iterations (hmac password (salt ++ octets 4 i)))

  -- T_i, T_(i+1), … one after another.
  abbrev pub blocks_of : ℕ → ℕ → ℕ → Bytes
  blocks_of iterations zero i = []
  blocks_of iterations (suc n) i = block_of iterations i ++ blocks_of iterations n (i + 1)

  module _ (iterations : ℕ) (width : (k m : Bytes) → length (hmac k m) ≡ 32) where
    iterate-xor_all :
        (n : ℕ) (u v : Bytes)
        → length v ≡ 32
        → iterate hmac n password u v ≡ xor_all v (chain (hmac password) n (hmac password u))
    unfolding iterate
    iterate-xor_all zero u v h = refl
    iterate-xor_all (suc n) u v h =
        let next = hmac password u in
        let even : length v ≡ length next = h ∙ sym (width password u) in
        ap (iterate hmac n password next) (xor_bytes-exclusive_or v next even)
        ∙ iterate-xor_all n next (exclusive_or v next) (length-exclusive_or v next even ∙ h)

    block_value-block_of :
        (i : ℕ) → block_value hmac password salt (suc iterations) i ≡ block_of (suc iterations) i
    unfolding block_value
    block_value-block_of i =
        let one : suc iterations - 1 ≡ iterations = omega arith in
        let u = hmac password (salt ++ counter i) in
        ap (λ n. iterate hmac n password u u) one
        ∙ iterate-xor_all iterations u u (width password (salt ++ counter i))
        ∙ ap (λ c. exclusive (chain (hmac password) (suc iterations) (hmac password (salt ++ c))))
            (counter-octets i)

    length-xor_all :
        (n : ℕ) (v u : Bytes)
        → length v ≡ 32
        → length (xor_all v (chain (hmac password) n (hmac password u))) ≡ 32
    length-xor_all zero v u h = h
    length-xor_all (suc n) v u h =
        let even : length v ≡ length (hmac password u) = h ∙ sym (width password u) in
        length-xor_all n (exclusive_or v (hmac password u)) (hmac password u)
          (length-exclusive_or v (hmac password u) even ∙ h)

    length-block_of : (i : ℕ) → length (block_of (suc iterations) i) ≡ 32
    length-block_of i =
        let u = hmac password (salt ++ octets 4 i) in
        length-xor_all iterations u u (width password (salt ++ octets 4 i))

    -- From the block after `done` on, with as many blocks as the size still needs.
    add_blocks-blocks_of :
        (fuel size done more : ℕ) (out : Bytes)
        → more ≤ fuel
        → length out ≡ 32 * done
        → size ≤ 32 * (done + more)
        → 32 * (done + more) < size + 32
        → add_blocks hmac fuel password salt (suc iterations) size (done + 1) out
          ≡ out ++ blocks_of (suc iterations) more (done + 1)
    unfolding add_blocks
    add_blocks-blocks_of zero size done zero out f l a b = sym (append-nil out)
    add_blocks-blocks_of zero size done (suc more) out f l a b = absurd (omega arith)
    add_blocks-blocks_of (suc fuel) size done zero out f l a b =
        let full : ltb (length out) size ≡ false = ground arith in rw full (sym (append-nil out))
    add_blocks-blocks_of (suc fuel) size done (suc more) out f l a b =
        let short : ltb (length out) size ≡ true = ground arith in
        let value = block_value hmac password salt (suc iterations) (done + 1) in
        let same : value ≡ block_of (suc iterations) (done + 1) = block_value-block_of (done + 1) in
        let long : length (out ++ value) ≡ 32 * (done + 1) =
          length-append out value
          ∙ (let w = ap (λ (x : Bytes). length x) same ∙ length-block_of (done + 1) in
              omega arith) in
        let rest =
          add_blocks-blocks_of fuel size (done + 1) more (out ++ value) (omega arith) long
            (omega arith) (omega arith) in
        rw short (
          rest
          ∙ append_assoc out value (blocks_of (suc iterations) more (done + 1 + 1))
          ∙ ap (λ x. out ++ (x ++ blocks_of (suc iterations) more (done + 1 + 1))) same)

    length-blocks_of : (n i : ℕ) → length (blocks_of (suc iterations) n i) ≡ 32 * n
    length-blocks_of zero i = omega arith
    length-blocks_of (suc n) i =
        let one = length-block_of i in
        let rest = length-blocks_of n (i + 1) in
        length-append (block_of (suc iterations) i) (blocks_of (suc iterations) n (i + 1))
        ∙ omega arith

    length-take : (n : ℕ) (xs : Bytes) → n ≤ length xs → length (take n xs) ≡ n
    length-take zero xs h = refl
    length-take (suc n) [] h = absurd (omega arith)
    length-take (suc n) (x ∷ xs) h = ap (λ n. suc n) (length-take n xs (omega arith))

    -- With an HMAC of 32 bytes and at least one iteration, the derived bytes are the first of the
    -- blocks of RFC 8018, written out with its octets of the block's number, of which there are just
    -- as many as the size needs, and they are as many as were asked for.
    pub pbkdf2_sha256-blocks_of :
        (size blocks : ℕ)
        → size ≤ 32 * blocks
        → 32 * blocks < size + 32
        → let out = pbkdf2_sha256 hmac password salt (suc iterations) size in
          (out ≡ take size (blocks_of (suc iterations) blocks 1)) × (length out ≡ size)
    unfolding pbkdf2_sha256
    pbkdf2_sha256-blocks_of size blocks a b =
        let all =
          add_blocks-blocks_of size size 0 blocks [] (omega arith) (omega arith) (omega arith)
            (omega arith) in
        let long = length-blocks_of blocks 1 in
        (
          ap (take size) all,
          ap (λ x. length (take size x)) all
              ∙ length-take size (blocks_of (suc iterations) blocks 1) (omega arith),
        )
