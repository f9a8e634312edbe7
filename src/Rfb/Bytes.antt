-- ===== src/Rfb/Bytes.antt =====
-- Bytes, big-endian numbers and the WebSocket mask.
use Prim.Native.Nat.{bit_xor}
use hermes_fleet.Prelude.{
  ◌≤◌, false, if◌then◌else◌, ℕ, zero, suc, ◌+◌, ◌*◌, ◌/◌, ◌%◌, ◌<◌, ◌≡◌, refl, ap, Bool, true, List,
  [], ◌∷◌, All, arith, nat_beq, nat_beq_iff, length,
}

-- `_MAX_MESSAGE`, `_MAX_ENCODINGS` and `_MAX_FENCE_PAYLOAD`
abbrev pub max_message : ℕ
max_message = 1048576

abbrev pub max_encodings : ℕ
max_encodings = 4096

abbrev pub max_fence_payload : ℕ
max_fence_payload = 64

-- The byte at a place; the callers have checked the length.
abbrev pub byte_at : List ℕ → ℕ → ℕ
byte_at [] i = 0
byte_at (x ∷ xs) zero = x
byte_at (x ∷ xs) (suc i) = byte_at xs i

-- `struct.unpack(">H")`, `">I"` and `">Q"`
unfoldable pub be16 : List ℕ → ℕ → ℕ
be16 xs i = byte_at xs i * 256 + byte_at xs (i + 1)

unfoldable pub be32 : List ℕ → ℕ → ℕ
unfolding be16
be32 xs i = be16 xs i * 65536 + be16 xs (i + 2)

unfoldable pub be64 : List ℕ → ℕ → ℕ
unfolding be32
be64 xs i = be32 xs i * 4294967296 + be32 xs (i + 4)

-- `struct.pack(">H")` and `">Q"`
unfoldable pub pack16 : ℕ → List ℕ
pack16 n = (n / 256 % 256) ∷ (n % 256) ∷ []

unfoldable pub pack64 : ℕ → List ℕ
pack64 n =
    (n / 72057594037927936 % 256)
    ∷ (n / 281474976710656 % 256)
    ∷ (n / 1099511627776 % 256)
    ∷ (n / 4294967296 % 256)
    ∷ (n / 16777216 % 256)
    ∷ (n / 65536 % 256)
    ∷ (n / 256 % 256)
    ∷ (n % 256)
    ∷ []

-- `bytes(value ^ mask[index % 4] for index, value in enumerate(payload))`, the index starting at `i`
unfoldable pub mask_from : List ℕ → ℕ → List ℕ → List ℕ
mask_from mask i [] = []
mask_from mask i (x ∷ xs) = bit_xor x (byte_at mask (i % 4)) ∷ mask_from mask (i + 1) xs

abbrev pub IsByte : ℕ → Type 0
IsByte x = x < 256

-- A test at every byte up to a bound, by evaluation.
holds_upto : (ℕ → Bool) → ℕ → Bool
holds_upto test zero = test 0
holds_upto test (suc k) = if test (suc k) then holds_upto test k else false

holds_upto-at : (test : ℕ → Bool) (k x : ℕ) → x ≤ k → holds_upto test k ≡ true → test x ≡ true
unfolding holds_upto
holds_upto-at test zero zero le ok = ok
holds_upto-at test zero (suc x) le ok = absurd (omega arith)
holds_upto-at test (suc k) x le ok = ground (arith, holds_upto-at test k x)

abbrev masks_back : ℕ → ℕ → Bool
masks_back key byte = nat_beq (bit_xor (bit_xor byte key) key) byte

masks_back_everywhere : holds_upto (λ key. holds_upto (masks_back key) 255) 255 ≡ true
unfolding holds_upto
masks_back_everywhere = refl

xor_twice : (byte key : ℕ) → IsByte byte → IsByte key → bit_xor (bit_xor byte key) key ≡ byte
xor_twice byte key small small_key =
    let row =
      holds_upto-at (λ k. holds_upto (masks_back k) 255) 255 key (omega arith)
        masks_back_everywhere in
    (nat_beq_iff _ byte).0 (holds_upto-at (masks_back key) 255 byte (omega arith) row)

-- Masking twice with one key gives the payload back.
pub mask_twice :
    (mask : List ℕ) (i : ℕ) (xs : List ℕ)
    → ((j : ℕ) → j < 4 → IsByte (byte_at mask j))
    → All IsByte xs
    → mask_from mask i (mask_from mask i xs) ≡ xs
unfolding mask_from
mask_twice mask i [] key h = refl
mask_twice mask i (x ∷ xs) key h =
    let e = xor_twice x (byte_at mask (i % 4)) h.0 (key (i % 4) (omega arith)) in
    let r = mask_twice mask (i + 1) xs key h.1 in cc (e, r)

pub length-mask_from :
    (mask : List ℕ) (i : ℕ) (xs : List ℕ) → length (mask_from mask i xs) ≡ length xs
unfolding mask_from
length-mask_from mask i [] = refl
length-mask_from mask i (x ∷ xs) = ap suc (length-mask_from mask (i + 1) xs)
