-- ===== src/SocketUtils/Packet.antt =====
-- `packet_header` of common/socket_utils.hpp as it lies in a buffer: two `uint64_t` without padding,
-- each with its lowest byte first, as on every machine that Windows runs on.
use win_udpsharded_echo.Prelude.{
  ℕ, zero, suc, ◌+◌, ◌-◌, ◌*◌, ◌/◌, ◌%◌, ◌≤◌, ◌<◌, ◌≡◌, refl, ap, List, [], ◌∷◌, ◌++◌, arith, take,
  length, u64_mod,
}
use win_udpsharded_echo.SocketUtils.Io.{overwrite}
use win_udpsharded_echo.SocketUtils.Contexts.{length-overwrite}

abbrev pub header_size : ℕ
header_size = 16

abbrev pub max_payload_size : ℕ
max_payload_size = 65491

pub record PacketHeader : Type 0 where
  pub sequence_number : ℕ
  pub timestamp_ns : ℕ

-- The `k` bytes of a number.
unfoldable pub le_bytes : ℕ → ℕ → List ℕ
le_bytes zero n = []
le_bytes (suc k) n = n % 256 ∷ le_bytes k (n / 256)

of_bytes : List ℕ → ℕ
of_bytes [] = 0
of_bytes (b ∷ bs) = b + 256 * of_bytes bs

abbrev pub drop : ℕ → List ℕ → List ℕ
drop zero xs = xs
drop (suc n) [] = []
drop (suc n) (x ∷ xs) = drop n xs

unfoldable pub header_bytes : PacketHeader → List ℕ
header_bytes h = le_bytes 8 h.sequence_number ++ le_bytes 8 h.timestamp_ns

-- The two assignments through the pointer to the buffer.
unfoldable pub put_header : PacketHeader → List ℕ → List ℕ
put_header h buffer = overwrite (header_bytes h) buffer

-- The two reads through the pointer.
pub get_header : List ℕ → PacketHeader
get_header buffer = record {
  sequence_number = of_bytes (take 8 buffer);
  timestamp_ns = of_bytes (take 8 (drop 8 buffer));
}

size : ℕ → ℕ
size zero = 1
size (suc k) = 256 * size k

of_bytes-le_bytes : (k n : ℕ) → n < size k → of_bytes (le_bytes k n) ≡ n
unfolding of_bytes le_bytes size
of_bytes-le_bytes zero n h = omega arith
of_bytes-le_bytes (suc k) n h = omega (arith, of_bytes-le_bytes k (n / 256) (omega arith))

length-le_bytes : (k n : ℕ) → length (le_bytes k n) ≡ k
unfolding le_bytes
length-le_bytes zero n = refl
length-le_bytes (suc k) n = ap suc (length-le_bytes k (n / 256))

of_bytes_u64 : (n : ℕ) → n < u64_mod → of_bytes (le_bytes 8 n) ≡ n
unfolding size
of_bytes_u64 n h = of_bytes-le_bytes 8 n h

abbrev pub IsU64 : PacketHeader → Type 0
IsU64 h = (h.sequence_number < u64_mod) × (h.timestamp_ns < u64_mod)

length-header_bytes : (h : PacketHeader) → length (header_bytes h) ≡ header_size
unfolding header_bytes le_bytes
length-header_bytes h = refl

-- A header in front of anything is read back.
get_header-append :
    (h : PacketHeader) (rest : List ℕ) → IsU64 h → get_header (header_bytes h ++ rest) ≡ h
unfolding get_header header_bytes le_bytes
get_header-append h rest (s, t) =
    rw (of_bytes_u64 h.sequence_number s, of_bytes_u64 h.timestamp_ns t) refl

overwrite-append :
    (p r buffer : List ℕ)
    → length p ≤ length buffer
    → overwrite (p ++ r) buffer ≡ p ++ overwrite r (drop (length p) buffer)
overwrite-append [] r buffer h = refl
overwrite-append (b ∷ p) r [] h = absurd (omega arith)
overwrite-append (b ∷ p) r (x ∷ buffer) h =
    ap (λ l. b ∷ l) (overwrite-append p r buffer (omega arith))

overwrite-drop :
    (p buffer : List ℕ)
    → length p ≤ length buffer
    → overwrite p buffer ≡ p ++ drop (length p) buffer
overwrite-drop [] buffer h = refl
overwrite-drop (b ∷ p) [] h = absurd (omega arith)
overwrite-drop (b ∷ p) (x ∷ buffer) h = ap (λ l. b ∷ l) (overwrite-drop p buffer (omega arith))

take-append : (p r : List ℕ) (n m : ℕ) → n ≡ length p + m → take n (p ++ r) ≡ p ++ take m r
take-append [] r n m h = ap (λ k. take k r) (omega arith)
take-append (b ∷ p) r zero m h = absurd (omega arith)
take-append (b ∷ p) r (suc n) m h = ap (λ l. b ∷ l) (take-append p r n m (omega arith))

put_header-append :
    (h : PacketHeader) (buffer : List ℕ)
    → header_size ≤ length buffer
    → put_header h buffer ≡ header_bytes h ++ drop header_size buffer
unfolding put_header header_bytes le_bytes
put_header-append h buffer k = overwrite-drop (header_bytes h) buffer k

pub length-put_header :
    (h : PacketHeader) (buffer : List ℕ) → length (put_header h buffer) ≡ length buffer
unfolding put_header
length-put_header h buffer = length-overwrite (header_bytes h) buffer

-- The first bytes of a buffer with a header, 16 or more, have the header.
pub get_header-take :
    (h : PacketHeader) (n : ℕ) (buffer : List ℕ)
    → IsU64 h
    → header_size ≤ n
    → header_size ≤ length buffer
    → get_header (take n (put_header h buffer)) ≡ h
get_header-take h n buffer u k b =
    let bytes = header_bytes h in
    rw
      (
        put_header-append h buffer b,
        take-append bytes (drop header_size buffer) n (n - header_size)
            (omega (arith, length-header_bytes h)),
      )
      (get_header-append h _ u)

-- A header that was put into a buffer of 16 bytes or more is read back from every buffer of 16 bytes
-- or more into which the first bytes of that one, the header at least, were copied.
pub get_header-put_header :
    (h : PacketHeader) (n : ℕ) (buffer target : List ℕ)
    → IsU64 h
    → header_size ≤ n
    → header_size ≤ length buffer
    → header_size ≤ length target
    → get_header (overwrite (take n (put_header h buffer)) target) ≡ h
get_header-put_header h n buffer target u k b t =
    let bytes = header_bytes h in
    let size_eq = length-header_bytes h in
    rw
      (
        put_header-append h buffer b,
        take-append bytes (drop header_size buffer) n (n - header_size) (omega (arith, size_eq)),
        overwrite-append bytes (take (n - header_size) (drop header_size buffer)) target
            (omega (arith, size_eq)),
      )
      (get_header-append h _ u)

take-append_le : (n : ℕ) (p r : List ℕ) → n ≤ length p → take n (p ++ r) ≡ take n p
take-append_le zero p r h = refl
take-append_le (suc n) [] r h = absurd (omega arith)
take-append_le (suc n) (b ∷ p) r h = ap (λ l. b ∷ l) (take-append_le n p r (omega arith))

drop-append_le : (n : ℕ) (p r : List ℕ) → n ≤ length p → drop n (p ++ r) ≡ drop n p ++ r
drop-append_le zero p r h = refl
drop-append_le (suc n) [] r h = absurd (omega arith)
drop-append_le (suc n) (b ∷ p) r h = drop-append_le n p r (omega arith)

length-drop : (n : ℕ) (p : List ℕ) → n ≤ length p → length (drop n p) + n ≡ length p
length-drop zero p h = omega arith
length-drop (suc n) [] h = absurd (omega arith)
length-drop (suc n) (b ∷ p) h = omega (arith, length-drop n p (omega arith))

-- What came is what is read.
pub get_header-overwrite :
    (p buffer : List ℕ)
    → header_size ≤ length p
    → length p ≤ length buffer
    → get_header (overwrite p buffer) ≡ get_header p
unfolding get_header
get_header-overwrite p buffer h k =
    let rest = drop (length p) buffer in
    rw
      (
        overwrite-drop p buffer k,
        take-append_le 8 p rest (omega arith),
        drop-append_le 8 p rest (omega arith),
        take-append_le 8 (drop 8 p) rest (omega (arith, length-drop 8 p (omega arith))),
      )
      refl
