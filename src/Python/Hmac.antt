-- ===== src/Python/Hmac.antt =====
-- The standard library's `hashlib.sha256` and `hmac` (FIPS 180-4, RFC 2104), which the program
-- calls: they are run, and only the length of their results is used in proofs.
use priestly.Base.{
  ◌≡◌, refl, arith, ℕ, zero, suc, ◌+◌, ◌-◌, ◌*◌, ◌/◌, ◌%◌, ◌^◌, bit_and, bit_xor, List, [], ◌∷◌,
  ◌++◌, map, ltb, if◌then◌else◌, length, length-append, length-be_bytes, be_bytes-IsBytes,
  All-append, IsByte, IsBytes, take, drop, replicate, get_or, Bytes, be_bytes, from_bytes,
}

abbrev word : ℕ → ℕ
word n = n % 2 ^ 32

rotr : ℕ → ℕ → ℕ
rotr x n = word (x / 2 ^ n + x * 2 ^ (32 - n))

abbrev round_constants : List ℕ
round_constants =
    0x428a2f98 ∷ 0x71374491 ∷ 0xb5c0fbcf ∷ 0xe9b5dba5 ∷ 0x3956c25b ∷ 0x59f111f1 ∷ 0x923f82a4
    ∷ 0xab1c5ed5 ∷ 0xd807aa98 ∷ 0x12835b01 ∷ 0x243185be ∷ 0x550c7dc3 ∷ 0x72be5d74 ∷ 0x80deb1fe
    ∷ 0x9bdc06a7 ∷ 0xc19bf174 ∷ 0xe49b69c1 ∷ 0xefbe4786 ∷ 0x0fc19dc6 ∷ 0x240ca1cc ∷ 0x2de92c6f
    ∷ 0x4a7484aa ∷ 0x5cb0a9dc ∷ 0x76f988da ∷ 0x983e5152 ∷ 0xa831c66d ∷ 0xb00327c8 ∷ 0xbf597fc7
    ∷ 0xc6e00bf3 ∷ 0xd5a79147 ∷ 0x06ca6351 ∷ 0x14292967 ∷ 0x27b70a85 ∷ 0x2e1b2138 ∷ 0x4d2c6dfc
    ∷ 0x53380d13 ∷ 0x650a7354 ∷ 0x766a0abb ∷ 0x81c2c92e ∷ 0x92722c85 ∷ 0xa2bfe8a1 ∷ 0xa81a664b
    ∷ 0xc24b8b70 ∷ 0xc76c51a3 ∷ 0xd192e819 ∷ 0xd6990624 ∷ 0xf40e3585 ∷ 0x106aa070 ∷ 0x19a4c116
    ∷ 0x1e376c08 ∷ 0x2748774c ∷ 0x34b0bcb5 ∷ 0x391c0cb3 ∷ 0x4ed8aa4a ∷ 0x5b9cca4f ∷ 0x682e6ff3
    ∷ 0x748f82ee ∷ 0x78a5636f ∷ 0x84c87814 ∷ 0x8cc70208 ∷ 0x90befffa ∷ 0xa4506ceb ∷ 0xbef9a3f7
    ∷ 0xc67178f2 ∷ []

record State : Type 0 where
  a : ℕ
  b : ℕ
  c : ℕ
  d : ℕ
  e : ℕ
  f : ℕ
  g : ℕ
  h : ℕ

abbrev initial : State
initial = record {
  a = 0x6a09e667;
  b = 0xbb67ae85;
  c = 0x3c6ef372;
  d = 0xa54ff53a;
  e = 0x510e527f;
  f = 0x9b05688c;
  g = 0x1f83d9ab;
  h = 0x5be0cd19;
}

padded : Bytes → Bytes
padded m =
    m ++ (0x80 ∷ (replicate ((119 - length m % 64) % 64) 0 ++ be_bytes 8 (length m * 8 % 2 ^ 64)))

load : ℕ → Bytes → List ℕ
load zero block = []
load (suc n) block = from_bytes (take 4 block) ∷ load n (drop 4 block)

-- The schedule, the newest word first.
extend : ℕ → List ℕ → List ℕ
unfolding rotr
extend zero w = w
extend (suc n) w =
    let x = get_or w 14 0 in
    let y = get_or w 1 0 in
    let s0 = bit_xor (bit_xor (rotr x 7) (rotr x 18)) (x / 2 ^ 3) in
    let s1 = bit_xor (bit_xor (rotr y 17) (rotr y 19)) (y / 2 ^ 10) in
    extend n (word (get_or w 15 0 + s0 + get_or w 6 0 + s1) ∷ w)

round : State → ℕ → State
unfolding rotr
round s kw =
    let s1 = bit_xor (bit_xor (rotr s.e 6) (rotr s.e 11)) (rotr s.e 25) in
    let ch = bit_xor (bit_and s.e s.f) (bit_and (2 ^ 32 - 1 - s.e) s.g) in
    let t1 = s.h + s1 + ch + kw in
    let s0 = bit_xor (bit_xor (rotr s.a 2) (rotr s.a 13)) (rotr s.a 22) in
    let maj = bit_xor (bit_xor (bit_and s.a s.b) (bit_and s.a s.c)) (bit_and s.b s.c) in
    record {
      a = word (t1 + (s0 + maj));
      b = s.a;
      c = s.b;
      d = s.c;
      e = word (s.d + t1);
      f = s.e;
      g = s.f;
      h = s.g;
    }

rounds : List ℕ → List ℕ → State → State
unfolding round
rounds [] w s = s
rounds (k ∷ ks) [] s = s
rounds (k ∷ ks) (x ∷ w) s = rounds ks w (round s (k + x))

reversed : List ℕ → List ℕ → List ℕ
reversed [] out = out
reversed (x ∷ xs) out = reversed xs (x ∷ out)

block_step : State → Bytes → State
unfolding rounds extend load reversed
block_step s block =
    let w = reversed (extend 48 (reversed (load 16 block) [])) [] in
    let t = rounds round_constants w s in
    record {
      a = word (s.a + t.a);
      b = word (s.b + t.b);
      c = word (s.c + t.c);
      d = word (s.d + t.d);
      e = word (s.e + t.e);
      f = word (s.f + t.f);
      g = word (s.g + t.g);
      h = word (s.h + t.h);
    }

blocks : ℕ → Bytes → State → State
unfolding block_step
blocks zero m s = s
blocks (suc n) m s = blocks n (drop 64 m) (block_step s (take 64 m))

state_bytes : State → Bytes
state_bytes s =
    be_bytes 4 s.a
    ++ (be_bytes 4 s.b
        ++ (be_bytes 4 s.c
            ++ (be_bytes 4 s.d
                ++ (be_bytes 4 s.e ++ (be_bytes 4 s.f ++ (be_bytes 4 s.g ++ be_bytes 4 s.h))))))

-- hashlib.sha256(m).digest()
unfoldable pub sha256 : Bytes → Bytes
unfolding padded blocks state_bytes be_bytes from_bytes
sha256 m = state_bytes (blocks (length (padded m) / 64) (padded m) initial)

block_key : Bytes → Bytes
unfolding sha256
block_key key =
    let short = if ltb 64 (length key) then sha256 key else key in
    short ++ replicate (64 - length short) 0

-- hmac.new(key, message, sha256).digest()
unfoldable pub hmac_sha256 : Bytes → Bytes → Bytes
unfolding sha256 block_key
hmac_sha256 key message =
    let k = block_key key in
    sha256 (map (λ b. bit_xor b 0x5c) k ++ sha256 (map (λ b. bit_xor b 0x36) k ++ message))

length-sha256 : (m : Bytes) → length (sha256 m) ≡ 32
unfolding sha256
length-sha256 m = go (blocks (length (padded m) / 64) (padded m) initial)
  where
    go : (s : State) → length (state_bytes s) ≡ 32
    go s = simp length-append (omega (arith, length-be_bytes))

pub length-hmac_sha256 : (key message : Bytes) → length (hmac_sha256 key message) ≡ 32
unfolding hmac_sha256
length-hmac_sha256 key message =
    let k = block_key key in
    length-sha256 (map (λ b. bit_xor b 0x5c) k ++ sha256 (map (λ b. bit_xor b 0x36) k ++ message))

state_bytes-IsBytes : (s : State) → IsBytes (state_bytes s)
unfolding state_bytes
state_bytes-IsBytes s =
    let join = All-append IsByte in
    join (be_bytes 4 s.a) _ (be_bytes-IsBytes 4 s.a) (
      join (be_bytes 4 s.b) _ (be_bytes-IsBytes 4 s.b) (
        join (be_bytes 4 s.c) _ (be_bytes-IsBytes 4 s.c) (
          join (be_bytes 4 s.d) _ (be_bytes-IsBytes 4 s.d) (
            join (be_bytes 4 s.e) _ (be_bytes-IsBytes 4 s.e) (
              join (be_bytes 4 s.f) _ (be_bytes-IsBytes 4 s.f)
                (join (be_bytes 4 s.g) _ (be_bytes-IsBytes 4 s.g) (be_bytes-IsBytes 4 s.h)))))))

sha256-IsBytes : (m : Bytes) → IsBytes (sha256 m)
unfolding sha256
sha256-IsBytes m = state_bytes-IsBytes (blocks (length (padded m) / 64) (padded m) initial)

pub hmac_sha256-IsBytes : (key message : Bytes) → IsBytes (hmac_sha256 key message)
unfolding hmac_sha256
hmac_sha256-IsBytes key message =
    let k = block_key key in
    sha256-IsBytes (map (λ b. bit_xor b 0x5c) k ++ sha256 (map (λ b. bit_xor b 0x36) k ++ message))

-- RFC 4231, test case 2: the key "Jefe".
hmac_jefe :
    take 4 (
      hmac_sha256 (0x4a ∷ 0x65 ∷ 0x66 ∷ 0x65 ∷ []) (
        0x77 ∷ 0x68 ∷ 0x61 ∷ 0x74 ∷ 0x20 ∷ 0x64 ∷ 0x6f ∷ 0x20 ∷ 0x79 ∷ 0x61 ∷ 0x20 ∷ 0x77 ∷ 0x61
        ∷ 0x6e ∷ 0x74 ∷ 0x20 ∷ 0x66 ∷ 0x6f ∷ 0x72 ∷ 0x20 ∷ 0x6e ∷ 0x6f ∷ 0x74 ∷ 0x68 ∷ 0x69 ∷ 0x6e
        ∷ 0x67 ∷ 0x3f ∷ []))
    ≡ 0x5b ∷ 0xdc ∷ 0xc1 ∷ 0x46 ∷ []
unfolding hmac_sha256
hmac_jefe = refl
