-- ===== src/Transaction/Topic.antt =====
-- `parse_topic_address` of tempo/transaction.py: the address in an indexed topic of an event.
use tempo_py.Prelude.{
  ◌*◌, ◌==◌, ◌≡◌, refl, ap, ◌∙◌, true, if◌then◌else◌, [], ◌∷◌, ◌++◌, length, take, drop,
  length-append, take-append, drop-append, append-nil, Option, none, some, Result, ok, ◌>>=◌, arith,
  All-append,
}
use tempo_py.Python.Bytes.{Bytes, Str, IsBytes, codes, hex}
use tempo_py.Python.Hex.{from_hex, remove_prefix, from_hex-hex}
use tempo_py.Types.{Address}

-- `topic.removeprefix("0x")`
abbrev pub raw_topic : Option Str → Str → Str
raw_topic none topic = topic
raw_topic (some rest) topic = rest

unfoldable pub parse_topic_address : Str → Result Address
parse_topic_address topic =
    let raw = raw_topic (remove_prefix (codes "0x") topic) topic in
    let parsed = from_hex raw >>= λ topic_bytes. ok (drop 12 (take 32 topic_bytes)) in
    if length raw == 64 then parsed else ok []

length-hex : (b : Bytes) → length (hex b) ≡ 2 * length b
unfolding hex
length-hex [] = refl
length-hex (x ∷ xs) = omega (arith, length-hex xs)

-- A topic of 32 bytes, behind "0x", whose last 20 bytes are an address, is read as the address,
-- whatever the 12 bytes in front of it are.
pub parse_topic_address-hex :
    (pad addr : Bytes)
    → length pad ≡ 12
    → length addr ≡ 20
    → IsBytes pad
    → IsBytes addr
    → parse_topic_address (codes "0x" ++ hex (pad ++ addr)) ≡ ok addr
unfolding parse_topic_address remove_prefix
parse_topic_address-hex pad addr n m hp ha =
    let size : length (pad ++ addr) ≡ 32 = omega (arith, n, m, length-append pad addr) in
    let is_64 : (length (hex (pad ++ addr)) == 64) ≡ true =
      ground (arith, length-hex (pad ++ addr), size) in
    rw (is_64, from_hex-hex (pad ++ addr) (All-append _ pad addr hp ha))
      (ap (λ (b : Bytes). ok (drop 12 b))
          (simp append-nil at (take-append 32 (pad ++ addr) [] size))
        ∙ ap (λ (b : Bytes). ok b) (drop-append 12 pad addr n))
